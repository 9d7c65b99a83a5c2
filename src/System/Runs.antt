-- ===== src/System/Runs.antt =====
-- The code's updates, as sequences of updates of one item.
use dnsredir.Base.{
  inr, inl, ℕ, ◌+◌, Bool, true, false, ◌||◌, Option, none, some, List, [], ◌∷◌, Str, Run, ret,
  panic, no_fuel, ◌>>=◌, ◌≡◌, refl, arith, Bool-cases, if◌then◌else◌,
}
use mathlib.Core.Path.{subst}
use dnsredir.Base.Steps.{Many, stay, step, Many-trans, Many-map, Many-of_eq}
use dnsredir.Externals.{NameLibs}
use dnsredir.NameList.{
  NameItem, ItemType, last, same_type, World, update_item_from_path, update_item_from_url,
  update_item, update_by_type, update_list, initial_update, initial_update_from_url,
  retry_intervals,
}
use dnsredir.System.{
  Admits, AdmitsUrl, ItemUpdate, from_path, from_url, SlotUpdate, AtOne, here, there,
}

-- What the files and the network hold has admitted lines.
abbrev pub AdmitsWorld : (List Str → Type 0) → World → Type 0
AdmitsWorld P w =
    ((path : Str) → Admits P (w.open_path path)) × ((url : Str) → AdmitsUrl P (w.get_url url))

module _ (libs : NameLibs) (P : List Str → Type 0) where
  by_url :
      (item : NameItem) (fetched : Option Str)
      → AdmitsUrl P fetched
      → (r : Run (NameItem × Bool)) → update_item_from_url libs item fetched ≡ r
      → (item' : NameItem) → (r >>= λ updated. ret (updated.0)) ≡ ret item'
      → Many (ItemUpdate libs P) item item'
  by_url item fetched a (ret (i, done)) p item' q =
      let t : i ≡ item' = ground arith in
      subst (Many (ItemUpdate libs P) item) t (step stay (from_url fetched done a p))
  by_url item fetched a panic p item' q = absurd (ground arith)
  by_url item fetched a no_fuel p item' q = absurd (ground arith)

  by_type-Many :
      (w : World) (which : ItemType) (item item' : NameItem) (t : ItemType)
      → AdmitsWorld P w
      → update_by_type libs w which item t ≡ ret item'
      → Many (ItemUpdate libs P) item item'
  by_type-Many w which item item' ItemType.path_type a e =
      let q : update_item_from_path libs item (w.open_path item.path) ≡ ret item' =
        unfold update_by_type in e in
      step stay (from_path (w.open_path item.path) (a.0 item.path) q)
  by_type-Many w which item item' ItemType.url_type a e = elim (Bool-cases (same_type which last)) [
    | inl y ↦ Many-of_eq (unfold update_by_type in ground (arith, y))
    | inr n ↦
        let q : (if same_type which last
              then ret item
              else (update_item_from_url libs item (w.get_url item.url) >>= λ updated.
                  ret (updated.0)))
            ≡ ret item' =
          unfold update_by_type in e in
        by_url item (w.get_url item.url) (a.1 item.url)
          (update_item_from_url libs item (w.get_url item.url)) refl item' (rw n at q)
  ]
  by_type-Many w which item item' ItemType.last a e = absurd (unfold update_by_type in ground arith)

  update_item-Many :
      (w : World) (which : ItemType) (item item' : NameItem)
      → AdmitsWorld P w
      → update_item libs w which item ≡ ret item'
      → Many (ItemUpdate libs P) item item'
  update_item-Many w which item item' a e =
      elim (Bool-cases (same_type which last || same_type which item.which_type)) [
        | inl y ↦
            let q : update_by_type libs w which item item.which_type ≡ ret item' =
              unfold update_item in ground (arith, y) in
            by_type-Many w which item item' item.which_type a q
        | inr n ↦ Many-of_eq (unfold update_item in ground (arith, n))
      ]

  -- A run of updateList that does not panic, of either type or the first, is a sequence of updates of one item each
  -- from what the files and the network hold.
  pub update_list-Many :
      (w : World) (which : ItemType) (items items' : List (Option NameItem))
      → AdmitsWorld P w
      → update_list libs w which items ≡ ret items'
      → Many (AtOne (SlotUpdate libs P)) items items'
  unfolding update_list
  update_list-Many w which [] items' a e = Many-of_eq (ground arith)
  update_list-Many w which (none ∷ items) items' a e = absurd (ground arith)
  update_list-Many w which (some item ∷ items) items' a e =
      by_parts (λ rest q. update_list-Many w which items rest a q) (update_item libs w which item)
        (update_list libs w which items) refl refl e
    where
      by_parts :
          ((rest : List (Option NameItem))
            → update_list libs w which items ≡ ret rest
            → Many (AtOne (SlotUpdate libs P)) items rest)
          → (r : Run NameItem) (rs : Run (List (Option NameItem)))
          → update_item libs w which item ≡ r
          → update_list libs w which items ≡ rs
          → (r >>= λ item'. rs >>= λ items'. ret (some item' ∷ items')) ≡ ret items'
          → Many (AtOne (SlotUpdate libs P)) (some item ∷ items) items'
      by_parts ih (ret i) (ret is) p q h =
          let t : some i ∷ is ≡ items' = ground arith in
          subst (Many (AtOne (SlotUpdate libs P)) (some item ∷ items)) t (
            Many-trans
              (Many-map (λ x. some x ∷ items) (λ x y r. here r)
                (update_item-Many w which item i a p))
              (Many-map (λ xs. some i ∷ xs) (λ x y r. there r) (ih is q)))
      by_parts ih (ret i) panic p q h = absurd (ground arith)
      by_parts ih (ret i) no_fuel p q h = absurd (ground arith)
      by_parts ih panic rs p q h = absurd (ground arith)
      by_parts ih no_fuel rs p q h = absurd (ground arith)

  attempts-Many :
      (fetch : ℕ → Option Str) (i : ℕ) (intervals : List ℕ) (item item' : NameItem)
      → ((k : ℕ) → AdmitsUrl P (fetch k))
      → initial_update libs fetch i intervals item ≡ ret item'
      → Many (ItemUpdate libs P) item item'
  unfolding initial_update
  attempts-Many fetch i [] item item' a e =
      by_url item (fetch i) (a i) (update_item_from_url libs item (fetch i)) refl item' e
  attempts-Many fetch i (interval ∷ intervals) item item' a e =
      by_attempt (λ x q. attempts-Many fetch (i + 1) intervals x item' a q)
        (update_item_from_url libs item (fetch i)) refl e
    where
      by_attempt :
          ((x : NameItem)
            → initial_update libs fetch (i + 1) intervals x ≡ ret item'
            → Many (ItemUpdate libs P) x item')
          → (r : Run (NameItem × Bool)) → update_item_from_url libs item (fetch i) ≡ r
          → (r >>= λ done. elim (done.1) [
            | true ↦ ret (done.0)
            | false ↦ initial_update libs fetch (i + 1) intervals (done.0)
          ])
            ≡ ret item'
          → Many (ItemUpdate libs P) item item'
      by_attempt ih (ret (x, true)) p q =
          let t : x ≡ item' = ground arith in
          subst (Many (ItemUpdate libs P) item) t (step stay (from_url (fetch i) true (a i) p))
      by_attempt ih (ret (x, false)) p q =
          Many-trans (step stay (from_url (fetch i) false (a i) p)) (ih x q)
      by_attempt ih panic p q = absurd (ground arith)
      by_attempt ih no_fuel p q = absurd (ground arith)

  -- What initialUpdateFromUrl makes of an item is a sequence of updates from the contents it got.
  pub initial_update-Many :
      (fetch : ℕ → Option Str) (item item' : NameItem)
      → ((k : ℕ) → AdmitsUrl P (fetch k))
      → initial_update_from_url libs item fetch ≡ ret item'
      → Many (ItemUpdate libs P) item item'
  initial_update-Many fetch item item' a e =
      attempts-Many fetch 0 retry_intervals item item' a (unfold initial_update_from_url in e)
