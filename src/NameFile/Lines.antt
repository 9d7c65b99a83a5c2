-- ===== src/NameFile/Lines.antt =====
-- Lines and their formats: the two routines read the same names from a text that suits both, and
-- what the scanner loses behind a line that is too long.
use dnsredir.Domain.{string_to_domain}
use dnsredir.Base.{
  zero, inr, inl, ◌==◌, if◌then◌else◌, str_eq_ne, split-All_Lacks, length-map, Bool-cases, ℕ, suc,
  ◌-◌, ◌<◌, ◌≤◌, Bool, false, none, some, List, [], ◌∷◌, ◌++◌, map, length, any, All, Str, codes,
  str_eq, Lacks, split, ret, ◌≡◌, ◌≢◌, refl, ap, ◌∙◌, arith, index_byte-Lacks, index_byte-append,
  split-Lacks, split-append, take-length_append,
}
use dnsredir.Externals.{NameLibs, NameLaws}
use dnsredir.DomainSet.{add_name, DomainSet}
use dnsredir.DomainSet.Laws.{has, names_it}
use dnsredir.NameFile.{
  byte_is, max_token, drop_final_empty, until_too_long, drop_cr, scan_lines, strip_comment,
  segment_text, line_text, parse, parse_url,
}
use dnsredir.NameFile.Meaning.{line_name, parse_lem, parse_url_lem}

-- No slash and no comment.
abbrev pub IsPlain : Str → Type 0
IsPlain l = Lacks b'/' l × Lacks b'#' l

strip_comment-Lacks : (l : Str) → Lacks b'#' l → strip_comment l ≡ l
unfolding strip_comment
strip_comment-Lacks l h = rw (index_byte-Lacks b'#' l h, strip_comment)

strip_comment-append : (l c : Str) → Lacks b'#' l → strip_comment (l ++ b'#' ∷ c) ≡ l
unfolding strip_comment
strip_comment-append l c h =
    rw (index_byte-append b'#' l c h, strip_comment) (take-length_append l (b'#' ∷ c))

line_text-comment : (l c : Str) → Lacks b'#' l → line_text (l ++ b'#' ∷ c) ≡ line_text l
unfolding line_text
line_text-comment l c h = rw (strip_comment-append l c h, strip_comment-Lacks l h)

line_text-plain : (l : Str) → IsPlain l → line_text l ≡ some l
unfolding line_text
line_text-plain l h =
    rw (strip_comment-Lacks l h.1, split-Lacks b'/' l h.0) (unfold segment_text in refl)

Lacks-append : (b : ℕ) (s t : Str) → Lacks b s → Lacks b t → Lacks b (s ++ t)
Lacks-append b [] t h k = k
Lacks-append b (c ∷ s) t h k = (h.0, Lacks-append b s t h.1 k)

line_text-segments :
    (key name rest : Str)
    → IsPlain key
    → IsPlain name
    → IsPlain rest
    → line_text (key ++ b'/' ∷ (name ++ b'/' ∷ rest))
      ≡ (if str_eq key (codes "server=") then some name else none)
unfolding line_text
line_text-segments key name rest hk hn hr =
    rw
      (strip_comment-Lacks (key ++ b'/' ∷ (name ++ b'/' ∷ rest)) (
        Lacks-append b'#' key _ hk.1
          (omega arith, Lacks-append b'#' name _ hn.1 (omega arith, hr.1))))
      (rw
        (
          split-append b'/' key (name ++ b'/' ∷ rest) hk.0,
          split-append b'/' name rest hn.0,
          split-Lacks b'/' rest hr.0,
        )
        (unfold segment_text in refl))

-- The formats of a list's line, for texts with no slash and no number sign: the text before a '#' is
-- the name; of three segments the middle one is the name if the first segment is "server=",
-- whatever the third, and with another first segment the line has no name.
pub line_text_formats :
    (l c key name rest : Str)
    → IsPlain l
    → IsPlain key
    → IsPlain name
    → IsPlain rest
    → key ≢ codes "server="
    → (line_text (l ++ b'#' ∷ c) ≡ some l)
      × (line_text (codes "server=" ++ b'/' ∷ (name ++ b'/' ∷ rest)) ≡ some name)
      × (line_text (key ++ b'/' ∷ (name ++ b'/' ∷ rest)) ≡ none)
line_text_formats l c key name rest hl hk hn hr ne = (
  line_text-comment l c hl.1 ∙ line_text-plain l hl,
  line_text-segments (codes "server=") name rest (omega arith) hn hr,
  line_text-segments key name rest hk hn hr ∙ (rw (str_eq_ne key (codes "server=") ne)),
)

drop_cr-Lacks : (l : Str) → Lacks b'\r' l → drop_cr l ≡ l
unfolding drop_cr
drop_cr-Lacks l h = rw (byte_is-Lacks l (length l - 1) b'\r' h)
  where
    byte_is-Lacks : (l : Str) (i b : ℕ) → Lacks b l → byte_is l i b ≡ false
    byte_is-Lacks [] i b h = refl
    byte_is-Lacks (c ∷ l) zero b h = ground arith
    byte_is-Lacks (c ∷ l) (suc i) b h = byte_is-Lacks l i b h.1

map-drop_cr : (ls : List Str) → All (Lacks b'\r') ls → map drop_cr ls ≡ ls
map-drop_cr [] h = refl
map-drop_cr (l ∷ ls) h = ground (arith, drop_cr-Lacks l h.0, map-drop_cr ls h.1)

abbrev pub IsShort : Str → Type 0
IsShort l = length l < max_token

until_too_long-All : (ls : List Str) → All IsShort ls → until_too_long ls ≡ ls
unfolding until_too_long
until_too_long-All [] h = refl
until_too_long-All (l ∷ ls) h = ground (arith, until_too_long-All ls h.1)

drop_final_empty-All : (P : Str → Type 0) (ls : List Str) → All P ls → All P (drop_final_empty ls)
unfolding drop_final_empty
drop_final_empty-All P [] h = tt
drop_final_empty-All P (l ∷ []) h = elim (Bool-cases (length l == 0)) [
  | inl e ↦ rw e tt
  | inr e ↦ rw e h
]
drop_final_empty-All P (l ∷ m ∷ ls) h = (h.0, drop_final_empty-All P (m ∷ ls) h.1)

any-drop_final_empty :
    (f : Str → Bool) (ls : List Str) → f [] ≡ false → any f (drop_final_empty ls) ≡ any f ls
unfolding drop_final_empty
any-drop_final_empty f [] h = refl
any-drop_final_empty f ([] ∷ []) h = ground arith
any-drop_final_empty f ((c ∷ l) ∷ []) h = ground arith
any-drop_final_empty f (l ∷ m ∷ ls) h = ground (arith, any-drop_final_empty f (m ∷ ls) h)

empty_line : (libs : NameLibs) → NameLaws libs → (n : Str) → names_it (line_name libs []) n ≡ false
unfolding line_name line_text add_name string_to_domain
empty_line libs laws n = rw laws.ascii_of_empty

-- For a content with no carriage return and no line that is too long for the scanner, a file and
-- a URL give lists of the same names.
pub parse-parse_url :
    (libs : NameLibs) (content : Str)
    → NameLaws libs
    → Lacks b'\r' content
    → All IsShort (split b'\n' content)
    → (e e' : DomainSet) (t t' : ℕ) → parse libs content ≡ ret (e, t)
    → parse_url libs content ≡ ret (e', t')
    → (n : Str) → n ≢ []
    → has e n ≡ has e' n
parse-parse_url libs content laws cr short e e' t t' p p' n ne =
    let (d, q, w, h) = parse_lem libs content in
    let (d', q', w', h') = parse_url_lem libs content in
    let ls = split b'\n' content in
    let lines : scan_lines content ≡ drop_final_empty ls =
      unfold scan_lines in
      rw (until_too_long-All (drop_final_empty ls) (drop_final_empty-All IsShort ls short)) (
        map-drop_cr _
          (drop_final_empty-All (Lacks b'\r') ls (split-All_Lacks b'\n' b'\r' content cr))) in
    let agree : any (λ line. names_it (line_name libs line) n) (drop_final_empty ls)
        ≡ any (λ line. names_it (line_name libs line) n) ls =
      any-drop_final_empty _ ls (empty_line libs laws n) in
    let same : e ≡ d = ground (arith, p, q) in
    let same' : e' ≡ d' = ground (arith, p', q') in rw (same, same', h n ne, h' n ne, lines) agree

drop_final_empty-append :
    (pre rest : List Str) (l : Str)
    → 0 < length l
    → (more : List Str) × (drop_final_empty (pre ++ l ∷ rest) ≡ pre ++ l ∷ more)
unfolding drop_final_empty
drop_final_empty-append [] [] l h = ([], ground arith)
drop_final_empty-append [] (m ∷ rest) l h = (drop_final_empty (m ∷ rest), refl)
drop_final_empty-append (p ∷ []) rest l h =
    let (more, e) = drop_final_empty-append [] rest l h in (more, ap (λ t. p ∷ t) e)
drop_final_empty-append (p ∷ q ∷ pre) rest l h =
    let (more, e) = drop_final_empty-append (q ∷ pre) rest l h in (more, ap (λ t. p ∷ t) e)

until_too_long-append :
    (pre rest : List Str) (l : Str)
    → All IsShort pre
    → max_token ≤ length l
    → until_too_long (pre ++ l ∷ rest) ≡ pre
unfolding until_too_long
until_too_long-append [] rest l h long = ground arith
until_too_long-append (p ∷ pre) rest l h long =
    ground (arith, until_too_long-append pre rest l h.1 long)

-- Behind a line that is too long for the scanner no line of a file is read: the list has the
-- names of the lines before it alone, and no error is reported.
pub parse_too_long :
    (libs : NameLibs) (content : Str) (pre rest : List Str) (l : Str)
    → split b'\n' content ≡ pre ++ l ∷ rest
    → All IsShort pre
    → max_token ≤ length l
    → (e : DomainSet) × (parse libs content ≡ ret (e, length pre))
      × ((n : Str)
          → n ≢ []
          → has e n ≡ any (λ line. names_it (line_name libs line) n) (map drop_cr pre))
parse_too_long libs content pre rest l s short long =
    let (d, q, w, h) = parse_lem libs content in
    let (more, f) = drop_final_empty-append pre rest l (omega arith) in
    let lines : scan_lines content ≡ map drop_cr pre =
      unfold scan_lines in
      rw (s, f) (ap (map drop_cr) (until_too_long-append pre more l short long)) in
    (
      d,
      q ∙ ap (λ t. ret (d, t)) (ap length lines ∙ length-map pre drop_cr),
      λ n ne. h n ne ∙ ap (any (λ line. names_it (line_name libs line) n)) lines,
    )
