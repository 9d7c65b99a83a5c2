-- ===== src/Tests/World.antt =====
-- Libraries to run the models with: texts in ASCII alone, idna as the identity, and Matches by labels.
use dnsredir.Base.{
  some, List, [], ◌∷◌, any, All, Str, str_eq, str_eq_ne, length-append, split, Lacks, length, ◌≡◌,
  ◌≢◌, refl, sym, ap, ◌∙◌, arith,
}
use dnsredir.Domain.Labels.{dotted, tails, split-dotted}
use dnsredir.Domain.Valid.{IsDomain, IsLabel}
use dnsredir.Externals.{NameLibs, NameLaws, AreLabels}

abbrev pub ascii_names : NameLibs
ascii_names = record {
  unicode_lower = λ s. s;
  to_ascii = λ s. some s;
  name_matches = λ p c. any (λ t. str_eq p (dotted t)) (tails (split b'.' c));
}

AreLabels-Lacks : (ls : List Str) → AreLabels ls → All (Lacks b'.') ls
AreLabels-Lacks [] h = tt
AreLabels-Lacks (l ∷ ls) h = (h.0.1, AreLabels-Lacks ls h.1)

dotted-ne-nil_of : (ls : List Str) → ls ≢ [] → All IsLabel ls → dotted ls ≢ []
unfolding dotted
dotted-ne-nil_of [] ne h e = ne refl
dotted-ne-nil_of (l ∷ []) ne h e = absurd (omega (arith, ap length e, h.0.0))
dotted-ne-nil_of (l ∷ m ∷ ls) ne h e =
    absurd (omega (arith, ap length e, length-append l (b'.' ∷ dotted (m ∷ ls)), h.0.0))

IsDomain-ne-nil : (p : Str) → IsDomain p → p ≢ []
IsDomain-ne-nil p (ls, ne, labels, e) q = dotted-ne-nil_of ls ne labels (sym e ∙ q)

pub ascii_names-NameLaws : NameLaws ascii_names
ascii_names-NameLaws = record {
  matches_below = λ p ls d h f. by_labels p ls d h;
  ascii_of_empty = refl;
}
  where
    by_labels :
        (p : Str) (ls : List Str)
        → IsDomain p
        → AreLabels ls
        → any (λ t. str_eq p (dotted t)) (tails (split b'.' (dotted ls)))
          ≡ any (λ t. str_eq p (dotted t)) (tails ls)
    by_labels p [] d h = unfold dotted split in rw (str_eq_ne p [] (IsDomain-ne-nil p d)) refl
    by_labels p (l ∷ ls) d h =
        rw (split-dotted (l ∷ ls) (λ e. ground arith) (AreLabels-Lacks (l ∷ ls) h)) refl
