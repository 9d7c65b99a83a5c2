-- ===== src/NameList/Runs.antt =====
-- An update of an item that is there gives an item, or panics; it never runs out of fuel.
use dnsredir.Base.{
  Bool, true, not, ◌||◌, ◌⊎◌, inl, inr, Option, none, some, length, Str, ret, panic, ◌>>=◌, ◌≡◌,
  refl, arith, Bool-cases, ◌==◌,
}
use dnsredir.Externals.{NameLibs}
use dnsredir.NameList.{
  NameItem, ItemType, url_type, last, same_type, Opened, open_error, file, World,
  update_item_from_path, update_item_from_url, update_item, update_by_type,
}
use dnsredir.NameList.Reload.{
  update_item_from_path_lem, IsUrlItem, update_url_failed, update_url-Fetched,
}

path_runs :
    (libs : NameLibs) (item : NameItem) (o : Opened)
    → (update_item_from_path libs item o ≡ panic)
      ⊎ ((item' : NameItem) × (update_item_from_path libs item o ≡ ret item'))
path_runs libs item open_error = inr (item, unfold update_item_from_path in refl)
path_runs libs item (file none content) =
    inl (update_item_from_path_lem libs item (record { mod_time = 0; file_size = 0 }) content).1
path_runs libs item (file (some stat) content) =
    elim ((update_item_from_path_lem libs item stat content).2) [
      | inl same ↦ inr (item, same.1)
      | inr changed ↦ inr (_, changed.1.1)
    ]

url_runs :
    (libs : NameLibs) (item : NameItem) (o : Option Str)
    → (update_item_from_url libs item o ≡ panic)
      ⊎ ((r : NameItem × Bool) × (update_item_from_url libs item o ≡ ret r))
url_runs libs item o =
    elim (Bool-cases (not (same_type item.which_type url_type) || length item.url == 0)) [
      | inl e ↦ inl (bad e o)
      | inr e ↦ inr (good (type_lem item.which_type (ground arith), λ f. ground arith) o)
    ]
  where
    bad :
        (not (same_type item.which_type url_type) || length item.url == 0) ≡ true
        → (o : Option Str) → update_item_from_url libs item o ≡ panic
    bad e none = unfold update_item_from_url in rw e
    bad e (some content) = unfold update_item_from_url in rw e

    type_lem : (t : ItemType) → same_type t url_type ≡ true → t ≡ url_type
    type_lem ItemType.path_type h = ground arith
    type_lem ItemType.url_type h = refl
    type_lem ItemType.last h = ground arith

    good :
        IsUrlItem item
        → (o : Option Str) → (r : NameItem × Bool) × (update_item_from_url libs item o ≡ ret r)
    good u none = (_, update_url_failed libs item u)
    good u (some content) = (_, (update_url-Fetched libs item content u).1)

pub update_item_runs :
    (libs : NameLibs) (w : World) (which : ItemType) (item : NameItem)
    → (update_item libs w which item ≡ panic)
      ⊎ ((item' : NameItem) × (update_item libs w which item ≡ ret item'))
update_item_runs libs w which item =
    elim (Bool-cases (same_type which last || same_type which item.which_type)) [
      | inl e ↦ unfold update_item in rw e (by_type item.which_type)
      | inr e ↦ inr (item, unfold update_item in rw e)
    ]
  where
    by_type :
        (t : ItemType)
        → (update_by_type libs w which item t ≡ panic)
          ⊎ ((item' : NameItem) × (update_by_type libs w which item t ≡ ret item'))
    by_type ItemType.path_type =
        unfold update_by_type in path_runs libs item (w.open_path item.path)
    by_type ItemType.url_type =
        unfold update_by_type in
        elim (Bool-cases (same_type which last)) [
          | inl e ↦ inr (item, rw e)
          | inr e ↦ elim (url_runs libs item (w.get_url item.url)) [
            | inl p ↦ inl (rw e (rw (p, ◌>>=◌)))
            | inr (r, p) ↦ inr (r.0, rw e (rw (p, ◌>>=◌)))
          ]
        ]
    by_type ItemType.last = inl (unfold update_by_type in refl)
