-- ===== src/NameList/Reload.antt =====
-- The updates of an item: what a list is after a reload, when it is left alone, and the retries.
use dnsredir.Base.{
  ℕ, ◌+◌, Bool, true, false, not, ◌&&◌, ◌||◌, ◌⊎◌, inl, inr, Option, none, some, List, [], ◌∷◌, any,
  length, Str, split, Run, ret, panic, ◌>>=◌, ◌≡◌, ◌≢◌, refl, sym, ap, ◌∙◌, arith, Bool-cases,
  Option-cases, ◌==◌,
}
use dnsredir.Externals.{NameLibs}
use dnsredir.DomainSet.{DomainSet}
use dnsredir.DomainSet.Laws.{WellBucketed, has, names_it}
use dnsredir.NameFile.{scan_lines}
use dnsredir.NameFile.Meaning.{line_name, parse_lem, parse_url_lem}
use dnsredir.NameList.{
  NameItem, url_type, same_type, open_error, file, FileStat, update_item_from_path,
  update_item_from_url, string_hash, initial_update, initial_update_from_url,
}

-- The names of the lines, and no other name.
abbrev pub Holds : NameLibs → DomainSet → List Str → Type 0
Holds libs d lines =
    (n : Str) → n ≢ [] → has d n ≡ any (λ line. names_it (line_name libs line) n) lines

-- The file has the time and the size that the item has seen.
abbrev pub unchanged : NameItem → FileStat → Bool
unchanged item stat = stat.mod_time == item.mtime && stat.file_size == item.size

-- An update from a path, on each branch. A path that does not open leaves the item as it is. A file
-- that opens, but whose Stat fails, makes it panic. With a status, the item stays as it is if the time
-- and the size are those of the last reload; else its names become those of the file's lines, in
-- their buckets, with the new time and size, and nothing else of it changes.
pub update_item_from_path_lem :
    (libs : NameLibs) (item : NameItem) (stat : FileStat) (content : Str)
    → (update_item_from_path libs item open_error ≡ ret item)
      × (update_item_from_path libs item (file none content) ≡ panic)
      × (((unchanged item stat ≡ true)
            × (update_item_from_path libs item (file (some stat) content) ≡ ret item))
          ⊎ ((unchanged item stat ≡ false)
              × ((d : DomainSet) × (update_item_from_path libs item (file (some stat) content)
                    ≡ ret (record item { names = d; mtime = stat.mod_time; size = stat.file_size }))
                  × WellBucketed d
                  × Holds libs d (scan_lines content))))
unfolding update_item_from_path
update_item_from_path_lem libs item stat content =
    let (d, p, w, h) = parse_lem libs content in
    (
      refl,
      rw (p, ◌>>=◌) refl,
      elim (Bool-cases (unchanged item stat)) [
        | inl e ↦ inl (e, rw e refl)
        | inr e ↦ inr (e, (d, rw e (rw (p, ◌>>=◌) refl), w, h))
      ],
    )

abbrev pub IsUrlItem : NameItem → Type 0
IsUrlItem item = (item.which_type ≡ url_type) × (item.url ≢ [])

url_guard :
    (item : NameItem)
    → IsUrlItem item
    → (not (same_type item.which_type url_type) || length item.url == 0) ≡ false
url_guard item (e, ne) = rw e (go item.url ne)
  where
    go : (s : Str) → s ≢ [] → (length s == 0) ≡ false
    go [] h = absurd (h refl)
    go (c ∷ s) h = ground arith

pub update_url_failed :
    (libs : NameLibs) (item : NameItem)
    → IsUrlItem item
    → update_item_from_url libs item none ≡ ret (item, false)
unfolding update_item_from_url
update_url_failed libs item u = rw (url_guard item u)

-- What a fetched content makes of an item.
abbrev pub Fetched : NameLibs → NameItem → Str → NameItem → Type 0
Fetched libs item content item' =
    (item'.content_hash ≡ string_hash content)
    × (item'.url ≡ item.url)
    × (item'.which_type ≡ item.which_type)
    × ((string_hash content ≡ item.content_hash) × (item' ≡ item)
        ⊎ (string_hash content ≢ item.content_hash)
          × WellBucketed item'.names
          × Holds libs item'.names (split b'\n' content))

pub update_url-Fetched :
    (libs : NameLibs) (item : NameItem) (content : Str)
    → IsUrlItem item
    → (item' : NameItem) × (update_item_from_url libs item (some content) ≡ ret (item', true))
      × Fetched libs item content item'
unfolding update_item_from_url
update_url-Fetched libs item content u =
    elim (Bool-cases (string_hash content == item.content_hash)) [
      | inl e ↦
          (item, rw (url_guard item u, e), (ground arith, refl, refl, inl (ground arith, refl)))
      | inr e ↦
          let (d, p, w, h) = parse_url_lem libs content in
          (
            record item { names = d; content_hash = string_hash content },
            rw (url_guard item u, e) (rw (p, ◌>>=◌)),
            (refl, refl, refl, inr (ground arith, w, h)),
          )
    ]

-- An update from a URL, on each branch: a failed fetch returns false and changes nothing; a content
-- returns true, and the item then has its hash and the same URL: unless the item had that hash
-- already, its names are those of the content's lines. The same content a second time changes nothing.
pub update_item_from_url_lem :
    (libs : NameLibs) (item : NameItem) (content : Str)
    → IsUrlItem item
    → (update_item_from_url libs item none ≡ ret (item, false))
      × ((item' : NameItem) × (update_item_from_url libs item (some content) ≡ ret (item', true))
          × Fetched libs item content item'
          × (update_item_from_url libs item' (some content) ≡ ret (item', true)))
update_item_from_url_lem libs item content u =
    let (item', p, f) = update_url-Fetched libs item content u in
    let u' : IsUrlItem item' = (f.2 ∙ u.0, λ e. u.1 (sym f.1 ∙ e)) in
    let (item'', q, g) = update_url-Fetched libs item' content u' in
    (
      update_url_failed libs item u,
      (item', p, f, q ∙ ap (λ i. ret (i, true)) (again item'' (g.3) f.0)),
    )
  where
    again :
        {item' : NameItem} (item'' : NameItem)
        → ((string_hash content ≡ item'.content_hash) × (item'' ≡ item')
            ⊎ (string_hash content ≢ item'.content_hash)
              × WellBucketed item''.names
              × Holds libs item''.names (split b'\n' content))
        → item'.content_hash ≡ string_hash content
        → item'' ≡ item'
    again item'' (inl (a, b)) e = b
    again item'' (inr (a, b, c)) e = absurd (a (sym e))

-- The first content that three attempts give.
abbrev pub first_of_three : (ℕ → Option Str) → Option Str
first_of_three fetch = elim (fetch 0) [
  | some content ↦ some content
  | none ↦ elim (fetch 1) [ some content ↦ some content | none ↦ fetch 2 ]
]

abbrev pub after_fetch : NameLibs → NameItem → Option Str → Run NameItem
after_fetch libs item none = ret item
after_fetch libs item (some content) = do
  done ← update_item_from_url libs item (some content)
  ret (done.0)

initial_update_step :
    (libs : NameLibs) (item : NameItem) (fetch : ℕ → Option Str) (i interval : ℕ)
    (intervals : List ℕ)
    → IsUrlItem item
    → initial_update libs fetch i (interval ∷ intervals) item ≡ (elim (fetch i) [
      | none ↦ initial_update libs fetch (i + 1) intervals item
      | some content ↦ after_fetch libs item (some content)
    ])
initial_update_step libs item fetch i interval intervals u = elim (Option-cases (fetch i)) [
  | inl e ↦ rw e (unfold initial_update in rw e (rw (update_url_failed libs item u, ◌>>=◌)))
  | inr (content, e) ↦
      let (item', p, f) = update_url-Fetched libs item content u in
      rw e (unfold initial_update in rw e (rw (p, ◌>>=◌)))
]

initial_update_last :
    (libs : NameLibs) (item : NameItem) (fetch : ℕ → Option Str) (i : ℕ)
    → IsUrlItem item
    → initial_update libs fetch i [] item ≡ after_fetch libs item (fetch i)
initial_update_last libs item fetch i u = elim (Option-cases (fetch i)) [
  | inl e ↦ rw e (unfold initial_update in rw e (rw (update_url_failed libs item u, ◌>>=◌)))
  | inr (content, e) ↦ rw e (unfold initial_update in rw e)
]

-- The first population of a URL item makes at most three attempts, in order, and stops at the first
-- that gets a content, which it takes; if none does, the item stays as it is.
pub initial_update_attempts :
    (libs : NameLibs) (item : NameItem) (fetch : ℕ → Option Str)
    → IsUrlItem item
    → initial_update_from_url libs item fetch ≡ after_fetch libs item (first_of_three fetch)
initial_update_attempts libs item fetch u =
    unfold initial_update_from_url in
    initial_update_step libs item fetch 0 500 (1500 ∷ []) u
    ∙ ground (
      arith,
      initial_update_step libs item fetch 1 1500 [] u,
      initial_update_last libs item fetch 2 u,
    )
