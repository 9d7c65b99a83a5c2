-- ===== src/NameList/Lookup.antt =====
-- NameList.Match over the items, and the nil items that NewNameItemsWithForms makes.
use dnsredir.Base.{
  Option-cases, inr, inl, ◌⊎◌, ℕ, suc, Bool, true, false, Option, none, some, List, [], ◌∷◌, any,
  All, Str, codes, index, to_lower, take, ret, ◌≡◌, ◌≢◌, refl, arith,
}
use dnsredir.Domain.Labels.{dotted}
use dnsredir.Externals.{NameLibs, NameLaws, AreLabels, AreFolded}
use dnsredir.DomainSet.Laws.{WellBucketed}
use dnsredir.DomainSet.Search.{AreDomains, covers, match-covers}
use dnsredir.NameList.{NameItem, form_item, new_items, match}

-- The set of an item that is there is as Add builds it, of domain names.
abbrev pub IsSearchable : Option NameItem → Type 0
IsSearchable none = ⊥
IsSearchable (some item) = WellBucketed item.names × AreDomains item.names

abbrev pub item_covers : List Str → Option NameItem → Bool
item_covers ls none = false
item_covers ls (some item) = covers item.names ls

-- Under what is relied on of CoreDNS, where the items are there, their names are domain names in their buckets, and the asked name is of
-- non-empty labels with no upper case letter and no escape, NameList.Match finds it exactly when
-- the set of some item holds it or a name above it.
pub match-any_covers :
    (libs : NameLibs) (items : List (Option NameItem)) (ls : List Str)
    → NameLaws libs
    → All IsSearchable items
    → ls ≢ []
    → AreLabels ls
    → AreFolded ls
    → match libs items (dotted ls) ≡ ret (any (item_covers ls) items)
unfolding match
match-any_covers libs [] ls laws h ne hl f = refl
match-any_covers libs (none ∷ items) ls laws h ne hl f = absurd (h.0)
match-any_covers libs (some item ∷ items) ls laws h ne hl f =
    rw
      (
        match-covers libs item.names laws h.0.0 h.0.1 ls ne hl f,
        match-any_covers libs items ls laws h.1 ne hl f,
      )
      (ground arith)

-- A form with a scheme that is HTTP in any case.
abbrev pub IsPlainHttp : (Str → Str) → Str → Type 0
IsPlainHttp lower from =
    (i : ℕ) × (index from (codes "://") ≡ some (suc i))
    × (to_lower lower (take (suc i) from) ≡ codes "http")

form_item_http :
    (lower : Str → Str) (from : Str) → IsPlainHttp lower from → form_item lower from ≡ some none
unfolding form_item
form_item_http lower from (i, e, h) = rw (e, form_item) (rw h)

abbrev pub is_nil : Option NameItem → Bool
is_nil none = true
is_nil (some item) = false

-- The forms hold a plain HTTP URL.
abbrev pub HasPlainHttp : (Str → Str) → List Str → Type 0
HasPlainHttp lower [] = ⊥
HasPlainHttp lower (from ∷ forms) = IsPlainHttp lower from ⊎ HasPlainHttp lower forms

pub new_items-is_nil :
    (lower : Str → Str) (forms : List Str) (items : List (Option NameItem))
    → new_items lower forms ≡ some items
    → HasPlainHttp lower forms
    → any is_nil items ≡ true
unfolding new_items
new_items-is_nil lower [] items e h = absurd h
new_items-is_nil lower (from ∷ forms) items e (inl h) =
    elim (Option-cases (new_items lower forms)) [
      | inl n ↦ absurd (ground (arith, form_item_http lower from h))
      | inr (rest, r) ↦ ground (arith, form_item_http lower from h)
    ]
new_items-is_nil lower (from ∷ forms) items e (inr h) = elim (Option-cases (form_item lower from)) [
  | inl n ↦ absurd (ground (arith, n))
  | inr (item, f) ↦ elim (Option-cases (new_items lower forms)) [
    | inl n ↦ absurd (ground (arith, n, f))
    | inr (rest, r) ↦ let ih = new_items-is_nil lower forms rest r h in ground (arith, f, r, ih)
  ]
]
