-- ===== src/Tests/Lists.antt =====
-- List files, items and their updates.
use dnsredir.Base.{
  suc, ℕ, true, false, ◌⊎◌, Option, none, some, [], ◌∷◌, ◌++◌, any, map, All, Str, codes, split,
  length, Lacks, ret, panic, ◌≡◌, ◌≢◌, refl, ap, ◌∙◌, zero, suc, split-append, split-Lacks, arith,
  ◌≤◌,
}
use dnsredir.Domain.{string_to_domain}
use dnsredir.StringSet
use dnsredir.DomainSet
use dnsredir.DomainSet.{DomainSet}
use dnsredir.DomainSet.Laws.{WellBucketed, has, names_it}
use dnsredir.NameFile.{max_token, drop_cr, scan_lines, parse, parse_url}
use dnsredir.NameFile.Meaning.{line_name}
use dnsredir.NameFile.Lines.{IsShort, parse_too_long}
use dnsredir.NameList.{
  NameItem, url_item, path_item, FileStat, open_error, file, update_item_from_path,
  update_item_from_url, initial_update_from_url,
}
use dnsredir.NameList.Reload.{
  unchanged, Holds, Fetched, update_item_from_path_lem, update_item_from_url_lem, after_fetch,
  first_of_three, initial_update_attempts,
}
use dnsredir.Tests.World.{ascii_names}

-- Two names, the second in the dnsmasq format.
abbrev pub two_lines : Str
two_lines = codes "a.cn" ++ b'\n' ∷ codes "server=/b.cn/"

pub scans_two : scan_lines two_lines ≡ codes "a.cn" ∷ codes "server=/b.cn/" ∷ []
unfolding scan_lines split
scans_two = refl

abbrev pub parsed_lines : DomainSet
parsed_lines = (24878, codes "a.cn" ∷ []) ∷ (25134, codes "b.cn" ∷ []) ∷ []

IsShort-lines : All IsShort (split b'\n' two_lines)
unfolding split
IsShort-lines = omega arith

pub parses_two : parse ascii_names two_lines ≡ ret (parsed_lines, 2)
unfolding parse DomainSet.add string_to_domain DomainSet.domain_to_index DomainSet.put StringSet.add
    DomainSet.bucket
parses_two = refl

parses_two_url : parse_url ascii_names two_lines ≡ ret (parsed_lines, 2)
unfolding parse_url DomainSet.add string_to_domain DomainSet.domain_to_index DomainSet.put
    StringSet.add DomainSet.bucket
parses_two_url = refl

abbrev repeat : ℕ → Str
repeat zero = []
repeat (suc n) = b'a' ∷ repeat n

length-repeat : (n : ℕ) → length (repeat n) ≡ n
length-repeat zero = refl
length-repeat (suc n) = ap suc (length-repeat n)

repeat-Lacks : (n : ℕ) → Lacks b'\n' (repeat n)
repeat-Lacks zero = tt
repeat-Lacks (suc n) = ((λ e. ground arith), repeat-Lacks n)

-- A line of 64 KiB between two names.
long_line : (l : Str) × (max_token ≤ length l) × Lacks b'\n' l
long_line = (repeat max_token, omega (arith, length-repeat max_token), repeat-Lacks max_token)

parse_too_long_example :
    (e : DomainSet) × (parse ascii_names
        (codes "a.cn" ++ b'\n' ∷ (long_line.0 ++ b'\n' ∷ codes "b.cn"))
      ≡ ret (e, length (codes "a.cn" ∷ [])))
    × ((n : Str)
        → n ≢ []
        → has e n
          ≡ any (λ line. names_it (line_name ascii_names line) n) (map drop_cr (codes "a.cn" ∷ [])))
parse_too_long_example =
    parse_too_long ascii_names (codes "a.cn" ++ b'\n' ∷ (long_line.0 ++ b'\n' ∷ codes "b.cn"))
      (codes "a.cn" ∷ []) (codes "b.cn" ∷ []) long_line.0
      (split-append b'\n' (codes "a.cn") (long_line.0 ++ b'\n' ∷ codes "b.cn") (omega arith)
        ∙ ap (λ ps. codes "a.cn" ∷ ps)
            (split-append b'\n' long_line.0 (codes "b.cn") long_line.2
              ∙ ap (λ ps. long_line.0 ∷ ps) (split-Lacks b'\n' (codes "b.cn") (omega arith))))
      (omega arith, tt) long_line.1

abbrev pub stat : FileStat
stat = record { mod_time = 7; file_size = 18 }

update_item_from_path_lem_example :
    (update_item_from_path ascii_names (path_item (codes "cn.txt")) open_error
      ≡ ret (path_item (codes "cn.txt")))
    × (update_item_from_path ascii_names (path_item (codes "cn.txt")) (file none two_lines) ≡ panic)
    × (((unchanged (path_item (codes "cn.txt")) stat ≡ true)
          × (update_item_from_path ascii_names
                (path_item (codes "cn.txt"))
                (file (some stat) two_lines)
              ≡ ret (path_item (codes "cn.txt"))))
        ⊎ ((unchanged (path_item (codes "cn.txt")) stat ≡ false)
            × ((d : DomainSet) × (update_item_from_path ascii_names
                    (path_item (codes "cn.txt"))
                    (file (some stat) two_lines)
                  ≡ ret (record (path_item (codes "cn.txt")) {
                    names = d;
                    mtime = stat.mod_time;
                    size = stat.file_size;
                  }))
                × WellBucketed d
                × Holds ascii_names d (scan_lines two_lines))))
update_item_from_path_lem_example =
    update_item_from_path_lem ascii_names (path_item (codes "cn.txt")) stat two_lines

abbrev list_url : NameItem
list_url = url_item (codes "https://a.cn/l")

update_item_from_url_lem_example :
    (update_item_from_url ascii_names list_url none ≡ ret (list_url, false))
    × ((item' : NameItem) × (update_item_from_url ascii_names list_url (some two_lines)
          ≡ ret (item', true))
        × Fetched ascii_names list_url two_lines item'
        × (update_item_from_url ascii_names item' (some two_lines) ≡ ret (item', true)))
update_item_from_url_lem_example =
    update_item_from_url_lem ascii_names list_url two_lines (refl, λ e. ground arith)

-- The second attempt is answered.
abbrev second_try : ℕ → Option Str
second_try zero = none
second_try (suc i) = some two_lines

initial_update_attempts_example :
    initial_update_from_url ascii_names list_url second_try
    ≡ after_fetch ascii_names list_url (first_of_three second_try)
initial_update_attempts_example =
    initial_update_attempts ascii_names list_url second_try (refl, λ e. ground arith)
