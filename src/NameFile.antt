-- ===== src/NameFile.antt =====
-- The name lists' text: the loops of NameList.parse and updateItemFromUrl in namelist.go, which read
-- the lines of a file through bufio.Scanner and those of a URL's content through strings.Split.
pub mod Lines
pub mod Meaning
use dnsredir.Base.{
  ℕ, zero, suc, ◌+◌, ◌-◌, ◌^◌, Bool, true, false, Option, none, some, List, [], ◌∷◌, map, length,
  take, if◌then◌else◌, ltb, ◌==◌, Str, codes, str_eq, index_byte, split, Run, ret, ◌>>=◌,
}
use dnsredir.Domain.{byte_is}
use dnsredir.Externals.{NameLibs}
use dnsredir.DomainSet
use dnsredir.DomainSet.{DomainSet}

-- bufio.MaxScanTokenSize: the scanner stops at a line that does not fit its buffer.
abbrev pub max_token : ℕ
max_token = 2 ^ 16

-- The text after the last newline is a line only if it is not empty.
unfoldable pub drop_final_empty : List Str → List Str
drop_final_empty [] = []
drop_final_empty (l ∷ []) = if length l == 0 then [] else l ∷ []
drop_final_empty (l ∷ m ∷ ls) = l ∷ drop_final_empty (m ∷ ls)

unfoldable pub until_too_long : List Str → List Str
until_too_long [] = []
until_too_long (l ∷ ls) = if ltb (length l) max_token then l ∷ until_too_long ls else []

-- bufio.ScanLines drops a carriage return at the end of a line.
unfoldable pub drop_cr : Str → Str
drop_cr l = let n = length l in if byte_is l (n - 1) b'\r' then take (n - 1) l else l

-- The lines that the scanner of parse yields. parse does not ask it for an error.
unfoldable pub scan_lines : Str → List Str
unfolding drop_final_empty until_too_long drop_cr split
scan_lines content = map drop_cr (until_too_long (drop_final_empty (split b'\n' content)))

-- if i := strings.IndexByte(line, '#'); i >= 0 { line = line[:i] }
unfoldable pub strip_comment : Str → Str
strip_comment line = elim (index_byte b'#' line) [ none ↦ line | some i ↦ take i line ]

-- What the segments of a line hand to Add: the whole line unless there are three segments, and
-- then the second one behind "server=".
unfoldable pub segment_text : Str → List Str → Option Str
segment_text line (f0 ∷ f1 ∷ f2 ∷ []) = if str_eq f0 (codes "server=") then some f1 else none
segment_text line _ = some line

unfoldable pub line_text : Str → Option Str
unfolding strip_comment segment_text split
line_text line = let line' = strip_comment line in segment_text line' (split b'/' line')

-- One round of either loop. Whether Add took the text only shows in the log.
unfoldable pub read_line : NameLibs → DomainSet → Str → Run DomainSet
unfolding line_text
read_line libs names line = elim (line_text line) [
  | none ↦ ret names
  | some text ↦ do added ← DomainSet.add libs names text; ret (added.0)
]

unfoldable pub read_lines : NameLibs → DomainSet → ℕ → List Str → Run (DomainSet × ℕ)
unfolding read_line
read_lines libs names total [] = ret (names, total)
read_lines libs names total (line ∷ lines) = do
  names' ← read_line libs names line
  read_lines libs names' (total + 1) lines

-- NameList.parse: the names and the number of lines.
unfoldable pub parse : NameLibs → Str → Run (DomainSet × ℕ)
unfolding scan_lines read_lines
parse libs content = read_lines libs DomainSet.empty 0 (scan_lines content)

-- The parsing part of updateItemFromUrl.
unfoldable pub parse_url : NameLibs → Str → Run (DomainSet × ℕ)
unfolding read_lines split
parse_url libs content = read_lines libs DomainSet.empty 0 (split b'\n' content)
