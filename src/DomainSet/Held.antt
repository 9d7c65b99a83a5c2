-- ===== src/DomainSet/Held.antt =====
-- Sets that hold the names which some texts stand for, and no other name.
use dnsredir.Base.{
  List, [], ◌∷◌, true, Str, str_eq_sound, Option, some, none, any, All, ret, ◌≡◌, ◌≢◌, refl, sym,
  ap, ◌∙◌, arith, inl, inr, Bool-cases,
}
use dnsredir.Domain.Valid.{IsDomain}
use dnsredir.DomainSet.{DomainSet, domain_to_index}
use dnsredir.DomainSet.Laws.{has, has-eq, WellBucketed, names_it}
use dnsredir.DomainSet.Search.{AreDomains}

-- The texts' names are in the set, each in its bucket, and no other name is.
abbrev pub IsHeld : (Str → Option Str) → DomainSet → List Str → Type 0
IsHeld name_of d texts =
    WellBucketed d × ((n : Str) → n ≢ [] → has d n ≡ any (λ t. names_it (name_of t) n) texts)

-- What the texts stand for are domain names in stringToDomain's spelling.
abbrev pub AreClean : (Str → Option Str) → List Str → Type 0
AreClean name_of = All (λ t. (n : Str) → name_of t ≡ some n → IsDomain n)

named :
    (name_of : Str → Option Str) (texts : List Str) (n : Str)
    → AreClean name_of texts
    → any (λ t. names_it (name_of t) n) texts ≡ true
    → IsDomain n
named name_of [] n c h = absurd (ground arith)
named name_of (t ∷ texts) n (c, cs) h = elim (Bool-cases (names_it (name_of t) n)) [
  | inl y ↦ first (name_of t) refl y
  | inr e ↦ named name_of texts n cs (ground arith)
]
  where
    first : (o : Option Str) → name_of t ≡ o → names_it o n ≡ true → IsDomain n
    first none p y = absurd (ground arith)
    first (some m) p y = let q = str_eq_sound m n y in c n (p ∙ ap some q)

index-ne-nil : (n : Str) (k : _) → domain_to_index n ≡ ret k → n ≢ []
unfolding domain_to_index
index-ne-nil [] k e h = ground arith
index-ne-nil (c ∷ n) k e h = ground arith

pub IsHeld-AreDomains :
    (name_of : Str → Option Str) (d : DomainSet) (texts : List Str)
    → AreClean name_of texts
    → IsHeld name_of d texts
    → AreDomains d
IsHeld-AreDomains name_of d texts c (w, h) k n e =
    let i = w k n e in named name_of texts n c (sym (h n (index-ne-nil n k i)) ∙ has-eq d n k i ∙ e)
