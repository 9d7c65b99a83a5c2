-- ===== src/System/Safety.antt =====
-- Match gives an answer on the names of requests but those whose last label ends in an escaped dot: it panics
-- neither at a nil item nor at an empty rest of the name.
use dnsredir.Base.{
  ℕ, length-append, ◌<◌, Bool, true, false, not, ◌||◌, ◌⊎◌, inl, inr, Option, none, some, List, [],
  ◌∷◌, ◌++◌, All, length, Str, codes, Run, ret, panic, ◌>>=◌, ◌≡◌, ◌≢◌, refl, arith, if◌then◌else◌,
  ltb,
}
use dnsredir.Domain.Labels.{dotted, remove_trailing_dot-append}
use dnsredir.Domain.{remove_trailing_dot}
use dnsredir.Externals.{NameLibs, AreLabels}
use dnsredir.DomainSet
use dnsredir.DomainSet.{match, DomainSet}
use dnsredir.DomainSet.Ends.{match-ends}
use dnsredir.DomainSet.Match.{match-root_name, dotted-ne-nil}
use dnsredir.NameList
use dnsredir.NameList.{NameItem}
use dnsredir.Config.{SetupLibs, Upstream}
use dnsredir.Upstream.{matches}
use dnsredir.Serve.{match_upstreams, match_name}
use dnsredir.Base.Result.{ok}
use dnsredir.System.{Block, new_upstreams, Pairs, Reach}
use dnsredir.System.Sourced.{IsSourced}
use dnsredir.System.Loaded.{Serves, reach-Serves}

-- The root's name, or a text with one dot at its end behind another byte. Of the names that CoreDNS hands on,
-- which end in a dot, that leaves out those whose last label ends in an escaped dot.
abbrev pub EndsInOneDot : Str → Type 0
EndsInOneDot name =
    (name ≡ codes ".") ⊎ ((s : Str) × (c : ℕ) × (c ≢ b'.') × (name ≡ (s ++ c ∷ []) ++ codes "."))

-- What Match is asked.
unfoldable pub asked : Str → Str
asked name = if ltb 1 (length name) then remove_trailing_dot name else name

-- The computation gives a value.
abbrev pub Runs {ℓ} : {A : Type ℓ} → Run A → Type ℓ
Runs {A} r = (a : A) × (r ≡ ret a)

-- A name that Match is asked: the root's, or one that ends in another byte than a dot.
abbrev pub IsAsked : Str → Type 0
IsAsked name = (name ≡ codes ".") ⊎ ((s : Str) × (c : ℕ) × (c ≢ b'.') × (name ≡ s ++ c ∷ []))

set-Runs :
    (libs : NameLibs) (d : DomainSet) (name : Str)
    → IsAsked name
    → Runs (DomainSet.match libs d name)
set-Runs libs d name (inl e) = rw e (_, match-root_name libs d)
set-Runs libs d name (inr (s, c, n, e)) = rw e (match-ends libs d c n s)

list-Runs :
    (libs : NameLibs) (P : List Str → Type 0) (items : List (Option NameItem)) (name : Str)
    → IsAsked name
    → All (IsSourced libs P) items
    → Runs (NameList.match libs items name)
unfolding NameList.match
list-Runs libs P [] name a h = (_, refl)
list-Runs libs P (none ∷ items) name a h = absurd (h.0)
list-Runs libs P (some item ∷ items) name a h =
    let (b, p) = set-Runs libs item.names name a in
    let (c, q) = list-Runs libs P items name a h.1 in
    ((if b then true else c), rw (p, ◌>>=◌) (ground arith))

-- Match of an upstream that serves its directive gives an answer.
pub matches-Runs :
    (libs : NameLibs) (P : List Str → Type 0) (root_matches : Str → Bool) (block : Block)
    (u : Upstream) (name : Str)
    → ((s : Str) → root_matches s ≡ true)
    → Serves libs P block u
    → IsAsked name
    → Runs (matches libs root_matches u name)
unfolding matches
matches-Runs libs P root_matches block u name root s a =
    by_parts u.match_any (NameList.match libs u.items name) (DomainSet.match libs u.inline name)
      (DomainSet.match libs u.ignored name) (list-Runs libs P u.items name a s.items)
      (set-Runs libs u.inline name a) (set-Runs libs u.ignored name a)
  where
    by_parts :
        (all : Bool) (list inline ignore : Run Bool)
        → Runs list
        → Runs inline
        → Runs ignore
        → Runs (
            if all
            then (if not (root_matches name) then panic else (ignore >>= λ g. ret (not g)))
            else (list >>= λ l. elim l [ true ↦ ret true | false ↦ inline ] >>= λ found.
                elim (not found) [
                  | true ↦ ret false
                  | false ↦ ignore >>= λ g. ret (if g then false else true)
                ]))
    by_parts all list inline ignore (l, p) (i, q) (g, r) =
        (if all then not g else (if l || i then not g else false), ground (arith, root name))

upstreams-Runs :
    (libs : NameLibs) (P : List Str → Type 0) (root_matches : Str → Bool) (blocks : List Block)
    (ups : List Upstream) (name : Str)
    → ((s : Str) → root_matches s ≡ true)
    → Pairs (Serves libs P) blocks ups
    → IsAsked name
    → Runs (match_upstreams (matches libs root_matches) ups name)
unfolding match_upstreams
upstreams-Runs libs P root_matches blocks [] name root s a = (_, refl)
upstreams-Runs libs P root_matches [] (u ∷ ups) name root s a = absurd s
upstreams-Runs libs P root_matches (block ∷ blocks) (u ∷ ups) name root (s, ss) a =
    let (b, p) = matches-Runs libs P root_matches block u name root s a in
    let (c, q) = upstreams-Runs libs P root_matches blocks ups name root ss a in
    ((if b then some u else c), rw (p, ◌>>=◌) (ground arith))

positive : (s : Str) → s ≢ [] → 0 < length s
positive [] h = absurd (h refl)
positive (c ∷ s) h = omega arith

pub asked-dotted :
    (ls : List Str) → ls ≢ [] → AreLabels ls → asked (dotted ls ++ codes ".") ≡ dotted ls
unfolding asked
asked-dotted [] ne h = absurd (ne refl)
asked-dotted (l ∷ ls) ne h = ground (
  arith,
  remove_trailing_dot-append (dotted (l ∷ ls)),
  length-append (dotted (l ∷ ls)) (codes "."),
  positive (dotted (l ∷ ls)) (dotted-ne-nil l ls h),
)

asked-append : (s : Str) (c : ℕ) → asked ((s ++ c ∷ []) ++ codes ".") ≡ s ++ c ∷ []
unfolding asked
asked-append s c = ground (
  arith,
  remove_trailing_dot-append (s ++ c ∷ []),
  length-append (s ++ c ∷ []) (codes "."),
  length-append s (c ∷ []),
)

asked-IsAsked : (name : Str) → EndsInOneDot name → IsAsked (asked name)
asked-IsAsked name (inl e) = inl (rw e (unfold asked in ground arith))
asked-IsAsked name (inr (s, c, n, e)) = inr (s, c, n, rw e (asked-append s c))

-- Where CoreDNS's root matches every name: on the upstreams that a setup without an error and a start without a
-- panic have given, and whatever has been read into their lists since, the match of a name gives an answer, that is
-- no upstream's Match panics, if the name is the root's or ends in one dot behind another byte.
pub match_name-Runs :
    (libs : SetupLibs) (root_matches : Str → Bool) (blocks : List Block) (ups vs : List Upstream)
    (name : Str)
    → ((s : Str) → root_matches s ≡ true)
    → new_upstreams libs blocks ≡ ok ups
    → Reach libs.names (λ _. Unit {0}) ups vs
    → EndsInOneDot name
    → Runs (match_name (matches libs.names root_matches) vs name)
unfolding match_name
match_name-Runs libs root_matches blocks ups vs name root e r n =
    unfold asked in
    upstreams-Runs libs.names (λ _. Unit {0}) root_matches blocks vs (asked name) root
      (reach-Serves libs (λ _. Unit {0}) blocks ups vs e r) (asked-IsAsked name n)
