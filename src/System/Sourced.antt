-- ===== src/System/Sourced.antt =====
-- The names of an item are those of one text that was read, whatever the updates.
use dnsredir.Base.{
  Bool, ◌⊎◌, inl, inr, Option, none, some, List, [], ◌∷◌, Str, split, Run, ret, panic, no_fuel,
  ◌>>=◌, ◌≡◌, refl, arith, Bool-cases, ◌==◌, All,
}
use mathlib.Core.Path.{subst}
use dnsredir.Externals.{NameLibs}
use dnsredir.DomainSet.{empty}
use dnsredir.DomainSet.Held.{IsHeld}
use dnsredir.NameFile.{scan_lines}
use dnsredir.NameFile.Meaning.{line_name, parse_url_lem, WellBucketed-empty, has-empty}
use dnsredir.NameList.{
  NameItem, ItemType, last, Opened, open_error, file, World, update_item_from_path,
  update_item_from_url, update_item, update_by_type, string_hash, update_list,
}
use dnsredir.NameList.Reload.{update_item_from_path_lem}
use dnsredir.Config.Made.{IsFresh}
use dnsredir.System.{Admits, AdmitsUrl, from_path, from_url, SlotUpdate}

module _ (libs : NameLibs) (P : List Str → Type 0) where
  -- The item is there, and its names are those of admitted lines, or there are none yet.
  abbrev pub IsSourced : Option NameItem → Type 0
  IsSourced none = ⊥
  IsSourced (some item) =
      (lines : List Str) × ((lines ≡ []) ⊎ P lines) × IsHeld (line_name libs) item.names lines

  pub IsFresh-IsSourced : (item : NameItem) → item.names ≡ empty → IsSourced (some item)
  IsFresh-IsSourced item e = ([], inl refl, (rw e WellBucketed-empty, λ n ne. rw e (has-empty n)))

  pub from_path-IsSourced :
      (item item' : NameItem) (o : Opened)
      → Admits P o
      → update_item_from_path libs item o ≡ ret item'
      → IsSourced (some item)
      → IsSourced (some item')
  from_path-IsSourced item item' open_error a e s =
      let q : ret item ≡ ret item' = unfold update_item_from_path in e in
      let q' : item ≡ item' = cc in subst (λ i. IsSourced (some i)) q' s
  from_path-IsSourced item item' (file none content) a e s =
      let (x, p, y) =
        update_item_from_path_lem libs item (record { mod_time = 0; file_size = 0 }) content in
      absurd (ground arith)
  from_path-IsSourced item item' (file (some stat) content) a e s =
      elim ((update_item_from_path_lem libs item stat content).2) [
        | inl (x, p) ↦ let q : item ≡ item' = cc in subst (λ i. IsSourced (some i)) q s
        | inr (x, (d, p, w, h)) ↦
            let q : record item { names = d; mtime = stat.mod_time; size = stat.file_size }
                ≡ item' =
              cc in
            subst (λ i. IsSourced (some i)) q (scan_lines content, inr a, (w, h))
      ]

  pub from_url-IsSourced :
      (item item' : NameItem) (fetched : Option Str) (done : Bool)
      → AdmitsUrl P fetched
      → update_item_from_url libs item fetched ≡ ret (item', done)
      → IsSourced (some item)
      → IsSourced (some item')
  from_url-IsSourced item item' none done a e s =
      let q : item ≡ item' = unfold update_item_from_url in ground arith in
      subst (λ i. IsSourced (some i)) q s
  from_url-IsSourced item item' (some content) done a e s =
      let (d, p, w, h) = parse_url_lem libs content in
      elim (Bool-cases (string_hash content == item.content_hash)) [
        | inl same ↦
            let t : item ≡ item' = unfold update_item_from_url in ground (arith, same) in
            subst (λ i. IsSourced (some i)) t s
        | inr new ↦
            let t : record item { names = d; content_hash = string_hash content } ≡ item' =
              unfold update_item_from_url in ground (arith, new, p) in
            subst (λ i. IsSourced (some i)) t (split b'\n' content, inr a, (w, h))
      ]

  pub ItemUpdate-IsSourced :
      (o o' : Option NameItem) → SlotUpdate libs P o o' → IsSourced o → IsSourced o'
  ItemUpdate-IsSourced (some item) (some item') (from_path o a e) s =
      from_path-IsSourced item item' o a e s
  ItemUpdate-IsSourced (some item) (some item') (from_url f d a e) s =
      from_url-IsSourced item item' f d a e s
  ItemUpdate-IsSourced none o' c s = absurd s
  ItemUpdate-IsSourced (some item) none c s = absurd c

  path_update :
      (w : World) (item item' : NameItem)
      → ((path : Str) → Admits P (w.open_path path))
      → update_item libs w last item ≡ ret item'
      → IsSourced (some item)
      → IsSourced (some item')
  path_update w item item' adm e s = by_type item.which_type (unfold update_item in e)
    where
      by_type :
          (t : ItemType) → update_by_type libs w last item t ≡ ret item' → IsSourced (some item')
      by_type ItemType.path_type q =
          from_path-IsSourced item item' (w.open_path item.path) (adm item.path)
            (unfold update_by_type in q) s
      by_type ItemType.url_type q =
          let t : item ≡ item' = unfold update_by_type in ground arith in
          subst (λ i. IsSourced (some i)) t s
      by_type ItemType.last q = absurd (unfold update_by_type in ground arith)

  -- The first updateList leaves no nil.
  pub update_list-IsSourced :
      (w : World) (items items' : List (Option NameItem))
      → ((path : Str) → Admits P (w.open_path path))
      → update_list libs w last items ≡ ret items'
      → All IsFresh items
      → All IsSourced items'
  unfolding update_list
  update_list-IsSourced w [] items' adm e f =
      let t : [] ≡ items' = ground arith in subst (All IsSourced) t tt
  update_list-IsSourced w (none ∷ items) items' adm e f = absurd (ground arith)
  update_list-IsSourced w (some item ∷ items) items' adm e (f, fs) =
      by_parts (λ rest q. update_list-IsSourced w items rest adm q fs)
        (update_item libs w last item) (update_list libs w last items) refl refl e
    where
      by_parts :
          ((rest : List (Option NameItem))
            → update_list libs w last items ≡ ret rest
            → All IsSourced rest)
          → (r : Run NameItem) (rs : Run (List (Option NameItem)))
          → update_item libs w last item ≡ r
          → update_list libs w last items ≡ rs
          → (r >>= λ item'. rs >>= λ items'. ret (some item' ∷ items')) ≡ ret items'
          → All IsSourced items'
      by_parts ih (ret i) (ret is) p q h =
          let t : some i ∷ is ≡ items' = ground arith in
          subst (All IsSourced) t (path_update w item i adm p (IsFresh-IsSourced item f), ih is q)
      by_parts ih (ret i) panic p q h = absurd (ground arith)
      by_parts ih (ret i) no_fuel p q h = absurd (ground arith)
      by_parts ih panic rs p q h = absurd (ground arith)
      by_parts ih no_fuel rs p q h = absurd (ground arith)
