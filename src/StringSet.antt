-- ===== src/StringSet.antt =====
-- string_set.go: a set of strings. The order in which Go walks the map is not modelled; no
-- theorem depends on it.
use dnsredir.Base.{
  Bool, ◌||◌, List, ◌∷◌, ◌≡◌, if◌then◌else◌, Str, str_eq, str_eq_sound, any, arith, Bool-cases, suc,
  length, inl, inr,
}

abbrev pub StringSet : Type 0
StringSet = List Str

abbrev pub contains : StringSet → Str → Bool
contains s str = any (λ x. str_eq x str) s

unfoldable pub add : StringSet → Str → StringSet
add s str = if contains s str then s else str ∷ s

-- After an Add the set holds the string, and what it held before.
pub contains-add : (s : StringSet) (a b : Str) → contains (add s a) b ≡ (str_eq a b || contains s b)
unfolding add
contains-add s a b = elim (Bool-cases (contains s a)) [
  | inl old ↦ elim (Bool-cases (str_eq a b)) [
    | inl e ↦ let p = str_eq_sound a b e in ground (arith, p)
    | inr n ↦ ground arith
  ]
  | inr new ↦ ground arith
]

pub length-add :
    (s : StringSet) (a : Str)
    → length (add s a) ≡ (if contains s a then length s else suc (length s))
unfolding add
length-add s a = ground arith
