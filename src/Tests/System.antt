-- ===== src/Tests/System.antt =====
-- The plugin as a whole, with one directive whose list is reloaded once.
use dnsredir.Base.{
  ◌↔◌, inr, inr, true, Option, none, some, List, [], ◌∷◌, ◌++◌, Str, codes, ret, ◌>>=◌, ◌≡◌, refl,
  arith,
}
use mathlib.Core.Path.{subst}
use dnsredir.Base.Result.{ok}
use dnsredir.Domain.{is_domain_name, string_to_domain}
use dnsredir.Domain.Labels.{dotted}
use dnsredir.Domain.Valid.{IsDomain, is_domain_name_iff}
use dnsredir.DomainSet.{add_name}
use dnsredir.DomainSet.Held.{AreClean}
use dnsredir.NameFile.{scan_lines, line_text}
use dnsredir.NameFile.Meaning.{line_name}
use dnsredir.NameList.{
  url_item, ItemType, NameItem, World, path_item, last, open_error, file, update_item_from_path,
  update_list,
}
use dnsredir.Config.{Upstream, directive_of}
use dnsredir.Config.Sets.{inline_texts, except_texts}
use dnsredir.Upstream.{matches}
use dnsredir.Serve.{match_name}
use dnsredir.System.{
  Block, new_upstreams, Pairs, Admits, here, from_path, update, Reach, start, later, started,
}
use dnsredir.System.Loaded.{Serves, reach-Serves}
use dnsredir.System.Updates.{IsSlotUpdate, update_list_iff}
use dnsredir.System.Safety.{Runs, match_name-Runs}
use dnsredir.System.Redirect.{IsCleanBlock, AreReadFrom, first_taking, match_name-first}
use dnsredir.Tests.World.{ascii_names, ascii_names-NameLaws}
use dnsredir.Tests.Lists.{two_lines, parsed_lines, stat, scans_two, parses_two}
use dnsredir.Tests.Setup.{toy_setup, quad9_lines, quad9_upstream, quad9_loads}

abbrev cn_block : Block
cn_block = record { forms = codes "cn.txt" ∷ []; lines = quad9_lines }

sets_up : new_upstreams toy_setup (cn_block ∷ []) ≡ ok (quad9_upstream ∷ [])
unfolding new_upstreams
sets_up = rw quad9_loads refl

-- Every file holds the two names.
abbrev files : World
files = record { open_path = λ path. file (some stat) two_lines; get_url = λ url. none }

abbrev loaded_item : NameItem
loaded_item = record (path_item (codes "cn.txt")) { names = parsed_lines; mtime = 7; size = 18 }

loads : update_list ascii_names files last quad9_upstream.items ≡ ret (some loaded_item ∷ [])
unfolding update_list
loads = rw (parses_two, ◌>>=◌) refl

abbrev loaded : Upstream
loaded = record quad9_upstream { items = some loaded_item ∷ [] }

module _ (P : List Str → Type 0) (two : P (scan_lines two_lines)) where
  admits : (path : Str) → Admits P (files.open_path path)
  admits path = two

  gone : update_item_from_path ascii_names loaded_item open_error ≡ ret loaded_item
  gone = unfold update_item_from_path in refl

  -- The start, and a later look at a file that is gone.
  pub reaches : Reach ascii_names P (quad9_upstream ∷ []) (loaded ∷ [])
  reaches =
      later (start (started files admits loads, tt))
        (here (update (here (from_path open_error tt gone))))

reach-Serves_example : Pairs (Serves ascii_names (λ lines. Unit {0})) (cn_block ∷ []) (loaded ∷ [])
reach-Serves_example =
    reach-Serves toy_setup (λ lines. Unit {0}) (cn_block ∷ []) (quad9_upstream ∷ []) (loaded ∷ [])
      sets_up (reaches (λ lines. Unit {0}) tt)

-- A path and a URL, at an update of the paths.
abbrev two_items : List (Option NameItem)
two_items = some (path_item (codes "cn.txt")) ∷ some (url_item (codes "https://a.cn")) ∷ []

abbrev two_items_later : List (Option NameItem)
two_items_later = some loaded_item ∷ some (url_item (codes "https://a.cn")) ∷ []

update_list_iff_example :
    (update_list ascii_names files ItemType.path_type two_items ≡ ret two_items_later)
    ↔ Pairs (IsSlotUpdate ascii_names files ItemType.path_type) two_items two_items_later
update_list_iff_example =
    update_list_iff ascii_names files ItemType.path_type two_items two_items_later

match_name-Runs_example :
    Runs (match_name (matches ascii_names (λ s. true)) (loaded ∷ []) (codes "a\\..c-n."))
match_name-Runs_example =
    match_name-Runs toy_setup (λ s. true) (cn_block ∷ []) (quad9_upstream ∷ []) (loaded ∷ [])
      (codes "a\\..c-n.") (λ s. refl) sets_up (reaches (λ lines. Unit {0}) tt)
      (inr (codes "a\\..c-", b'n', (λ e. ground arith), refl))

-- A text that stands for a domain name.
clean_text :
    (o : Option Str) (m : Str)
    → o ≡ some m
    → is_domain_name m ≡ true
    → (n : Str) → o ≡ some n
    → IsDomain n
clean_text o m e d n f = let q : m ≡ n = cc in subst IsDomain q ((is_domain_name_iff m).0 d)

first_line : line_name ascii_names (codes "a.cn") ≡ some (codes "a.cn")
unfolding line_name string_to_domain line_text add_name
first_line = refl

second_line : line_name ascii_names (codes "server=/b.cn/") ≡ some (codes "b.cn")
unfolding line_name string_to_domain line_text add_name
second_line = refl

a_cn_name : is_domain_name (codes "a.cn") ≡ true
unfolding is_domain_name
a_cn_name = refl

b_cn_name : is_domain_name (codes "b.cn") ≡ true
unfolding is_domain_name
b_cn_name = refl

adds_a_cn : add_name ascii_names (codes "a.cn") ≡ some (codes "a.cn")
unfolding add_name string_to_domain
adds_a_cn = refl

adds_b_cn : add_name ascii_names (codes "b.cn") ≡ some (codes "b.cn")
unfolding add_name string_to_domain
adds_b_cn = refl

clean_two : AreClean (line_name ascii_names) (scan_lines two_lines)
clean_two = rw scans_two (
  clean_text (line_name ascii_names (codes "a.cn")) (codes "a.cn") first_line a_cn_name,
  (
    clean_text (line_name ascii_names (codes "server=/b.cn/")) (codes "b.cn") second_line b_cn_name,
    tt,
  ),
)

clean_block : IsCleanBlock ascii_names cn_block
unfolding inline_texts except_texts directive_of
clean_block = (
  (clean_text (add_name ascii_names (codes "b.cn")) (codes "b.cn") adds_b_cn b_cn_name, tt),
  (clean_text (add_name ascii_names (codes "a.cn")) (codes "a.cn") adds_a_cn a_cn_name, tt),
)

abbrev b_cn : List Str
b_cn = codes "b" ∷ codes "cn" ∷ []

match_name-first_example :
    (textss : List (List (List Str))) × Pairs (AreReadFrom ascii_names) textss (loaded ∷ [])
    × (match_name (matches ascii_names (λ s. true)) (loaded ∷ []) (dotted b_cn ++ codes ".")
        ≡ ret (first_taking ascii_names (cn_block ∷ []) textss (loaded ∷ []) b_cn))
match_name-first_example =
    match_name-first toy_setup (λ s. true) (cn_block ∷ []) (quad9_upstream ∷ []) (loaded ∷ []) b_cn
      ascii_names-NameLaws (λ s. refl) (clean_block, tt) sets_up
      (reaches (AreClean (line_name ascii_names)) clean_two) (λ e. ground arith) (omega arith)
      (omega arith)
