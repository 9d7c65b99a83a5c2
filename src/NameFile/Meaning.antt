-- ===== src/NameFile/Meaning.antt =====
-- What the names of a parsed list are.
use dnsredir.Base.{
  split, inr, inl, Option-cases, ◌∙◌, ℕ, ◌+◌, false, ◌||◌, Option, none, some, List, [], ◌∷◌,
  length, any, Str, ret, ◌≡◌, ◌≢◌, refl, ap, arith,
}
use dnsredir.Externals.{NameLibs}
use dnsredir.DomainSet.{DomainSet, empty, bucket, add_name}
use dnsredir.DomainSet.Laws.{
  has, bucket_of, WellBucketed, insert, names_it, add_lem, add_name-ne-nil, has-insert,
  WellBucketed-insert,
}
use dnsredir.NameFile.{line_text, read_line, read_lines, parse, scan_lines, parse_url}

-- The name that a line adds, if it adds one.
unfoldable pub line_name : NameLibs → Str → Option Str
line_name libs line = elim (line_text line) [ none ↦ none | some text ↦ add_name libs text ]

pub line_name-ne-nil : (libs : NameLibs) (line n : Str) → line_name libs line ≡ some n → n ≢ []
unfolding line_name
line_name-ne-nil libs line n h = elim (Option-cases (line_text line)) [
  | inl e ↦ absurd (ground (arith, e))
  | inr (t, e) ↦ add_name-ne-nil libs t n (ground (arith, e))
]

pub read_line_lem :
    (libs : NameLibs) (d : DomainSet) (line : Str)
    → read_line libs d line ≡ ret (insert (line_name libs line) d)
unfolding read_line line_name
read_line_lem libs d line = elim (Option-cases (line_text line)) [
  | inl e ↦ rw (e, read_line, line_name)
  | inr (t, e) ↦ rw (e, read_line, line_name) (rw add_lem)
]

-- The lines read so far have been counted, and the names that they stand for are in their buckets.
read_lines_lem :
    (libs : NameLibs) (d : DomainSet) (total : ℕ) (lines : List Str)
    → WellBucketed d
    → (e : DomainSet) × (read_lines libs d total lines ≡ ret (e, total + length lines))
      × WellBucketed e
      × ((n : Str)
          → n ≢ []
          → has e n ≡ (any (λ line. names_it (line_name libs line) n) lines || has d n))
unfolding read_lines
read_lines_lem libs d total [] w = (d, ground arith, w, λ n h. refl)
read_lines_lem libs d total (line ∷ lines) w =
    let ne = line_name-ne-nil libs line in
    let d' = insert (line_name libs line) d in
    let (e, r, w', h) =
      read_lines_lem libs d' (total + 1) lines (WellBucketed-insert (line_name libs line) d ne w) in
    (
      e,
      rw read_line_lem (r ∙ ap (λ t. ret (e, t)) (omega arith)),
      w',
      λ n hn. ground (arith, h n hn, has-insert (line_name libs line) n d ne hn),
    )

pub WellBucketed-empty : WellBucketed empty
unfolding bucket
WellBucketed-empty k n h = ground arith

pub has-empty : (n : Str) → has empty n ≡ false
unfolding has bucket_of bucket
has-empty n = ground arith

-- A file's list parses without a panic to the names of its lines, each in its bucket and no other
-- name, with the number of lines that the scanner yields.
pub parse_lem :
    (libs : NameLibs) (content : Str)
    → (e : DomainSet) × (parse libs content ≡ ret (e, length (scan_lines content)))
      × WellBucketed e
      × ((n : Str)
          → n ≢ []
          → has e n ≡ any (λ line. names_it (line_name libs line) n) (scan_lines content))
unfolding parse
parse_lem libs content =
    let (e, r, w, h) = read_lines_lem libs empty 0 (scan_lines content) WellBucketed-empty in
    (e, r ∙ ap (λ t. ret (e, t)) (omega arith), w, λ n hn. ground (arith, h n hn, has-empty n))

-- A URL's content parses without a panic to the names of its parts between newlines, each in its bucket
-- and no other name, with the number of the parts.
pub parse_url_lem :
    (libs : NameLibs) (content : Str)
    → (e : DomainSet) × (parse_url libs content ≡ ret (e, length (split b'\n' content)))
      × WellBucketed e
      × ((n : Str)
          → n ≢ []
          → has e n ≡ any (λ line. names_it (line_name libs line) n) (split b'\n' content))
unfolding parse_url
parse_url_lem libs content =
    let (e, r, w, h) = read_lines_lem libs empty 0 (split b'\n' content) WellBucketed-empty in
    (e, r ∙ ap (λ t. ret (e, t)) (omega arith), w, λ n hn. ground (arith, h n hn, has-empty n))
