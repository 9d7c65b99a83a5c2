-- ===== src/System/Updates.antt =====
-- updateList of namelist.go, item by item.
use dnsredir.Base.{
  Bool, ◌||◌, Option, none, some, List, [], ◌∷◌, Run, ret, panic, no_fuel, ◌>>=◌, ◌≡◌, ◌↔◌, refl,
  ap, arith, if◌then◌else◌,
}
use dnsredir.Externals.{NameLibs}
use dnsredir.NameList.{
  NameItem, ItemType, path_type, url_type, last, same_type, World, update_item_from_path,
  update_item_from_url, update_item, update_by_type, update_list,
}
use dnsredir.System.{Pairs}

module _ (libs : NameLibs) (w : World) where
  -- What becomes of an item, by the type that is updated (`last` is the start) and the type of the item: a
  -- path item is read from its own path at the start and when paths are updated, a URL item from its own
  -- URL when URLs are; every other item stays as it is. The dummy type has no update at the start.
  abbrev pub IsUpdate : ItemType → ItemType → NameItem → NameItem → Type 0
  IsUpdate path_type path_type item item' =
      update_item_from_path libs item (w.open_path item.path) ≡ ret item'
  IsUpdate last path_type item item' =
      update_item_from_path libs item (w.open_path item.path) ≡ ret item'
  IsUpdate url_type url_type item item' =
      (done : Bool) × (update_item_from_url libs item (w.get_url item.url) ≡ ret (item', done))
  IsUpdate url_type path_type item item' = item ≡ item'
  IsUpdate path_type url_type item item' = item ≡ item'
  IsUpdate last url_type item item' = item ≡ item'
  IsUpdate path_type last item item' = item ≡ item'
  IsUpdate url_type last item item' = item ≡ item'
  IsUpdate last last item item' = ⊥

  abbrev pub IsSlotUpdate : ItemType → Option NameItem → Option NameItem → Type 0
  IsSlotUpdate which (some item) (some item') = IsUpdate which item.which_type item item'
  IsSlotUpdate which _ _ = ⊥

  first_of :
      (r : Run (NameItem × Bool)) (item' : NameItem)
      → (r >>= λ updated. ret (updated.0)) ≡ ret item'
      → (done : Bool) × (r ≡ ret (item', done))
  first_of (ret (i, done)) item' e = (done, ground arith)
  first_of panic item' e = absurd (ground arith)
  first_of no_fuel item' e = absurd (ground arith)

  update_item_iff :
      (which : ItemType) (item item' : NameItem)
      → (update_item libs w which item ≡ ret item') ↔ IsUpdate which item.which_type item item'
  unfolding update_item update_by_type
  update_item_iff which item item' = by_types which item.which_type
    where
      by_types :
          (which own : ItemType)
          → ((if same_type which last || same_type which own
                then update_by_type libs w which item own
                else ret item)
              ≡ ret item')
            ↔ IsUpdate which own item item'
      by_types path_type path_type = (λ e. e, λ e. e)
      by_types last path_type = (λ e. e, λ e. e)
      by_types url_type url_type = (
        first_of (update_item_from_url libs item (w.get_url item.url)) item',
        λ done. rw (done.1, ◌>>=◌) refl,
      )
      by_types url_type path_type = (λ e. ground arith, λ e. ap ret e)
      by_types path_type url_type = (λ e. ground arith, λ e. ap ret e)
      by_types last url_type = (λ e. ground arith, λ e. ap ret e)
      by_types path_type last = (λ e. ground arith, λ e. ap ret e)
      by_types url_type last = (λ e. ground arith, λ e. ap ret e)
      by_types last last = (λ e. ground arith, λ e. absurd e)

  cons_ret :
      (r : Run NameItem) (rs : Run (List (Option NameItem))) (items' : List (Option NameItem))
      → (r >>= λ item'. rs >>= λ rest. ret (some item' ∷ rest)) ≡ ret items'
      → (item' : NameItem) × (rest : List (Option NameItem)) × (r ≡ ret item')
        × (rs ≡ ret rest)
        × (items' ≡ some item' ∷ rest)
  cons_ret (ret item') (ret rest) items' e = (item', rest, refl, refl, ground arith)
  cons_ret (ret item') panic items' e = absurd (ground arith)
  cons_ret (ret item') no_fuel items' e = absurd (ground arith)
  cons_ret panic rs items' e = absurd (ground arith)
  cons_ret no_fuel rs items' e = absurd (ground arith)

  list-updates :
      (which : ItemType) (items items' : List (Option NameItem))
      → update_list libs w which items ≡ ret items'
      → Pairs (IsSlotUpdate which) items items'
  unfolding update_list
  list-updates which [] items' e = let p : [] ≡ items' = ground arith in rw (← p) tt
  list-updates which (none ∷ items) items' e = absurd (ground arith)
  list-updates which (some item ∷ items) items' e =
      let (item', rest, p, q, s) =
        cons_ret (update_item libs w which item) (update_list libs w which items) items' e in
      rw s ((update_item_iff which item item').0 p, list-updates which items rest q)

  updates-list :
      (which : ItemType) (items items' : List (Option NameItem))
      → Pairs (IsSlotUpdate which) items items'
      → update_list libs w which items ≡ ret items'
  unfolding update_list
  updates-list which [] [] h = refl
  updates-list which [] (o ∷ items') h = absurd h
  updates-list which (o ∷ items) [] h = absurd h
  updates-list which (none ∷ items) (o ∷ items') (h, hs) = absurd h
  updates-list which (some item ∷ items) (none ∷ items') (h, hs) = absurd h
  updates-list which (some item ∷ items) (some item' ∷ items') (h, hs) =
      rw ((update_item_iff which item item').1 h, ◌>>=◌, updates-list which items items' hs, ◌>>=◌)
        refl

  -- updateList gives a list of items exactly if each item of it, at its place, is the update of the item there: read
  -- from that item's own path at the start and at an update of the paths, or from its own URL at an update of the
  -- URLs, or unchanged; none is missing, and a nil item or, at the start, one of the dummy type has no result.
  pub update_list_iff :
      (which : ItemType) (items items' : List (Option NameItem))
      → (update_list libs w which items ≡ ret items') ↔ Pairs (IsSlotUpdate which) items items'
  update_list_iff which items items' =
      (list-updates which items items', updates-list which items items')
