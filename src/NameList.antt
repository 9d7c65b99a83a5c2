-- ===== src/NameList.antt =====
-- The name items and the name list of namelist.go: NewNameItemsWithForms, NameList.Match, the
-- updates from a file and from a URL, and updateList. A lock spans each write and each Match, so an
-- update is one step; what the file system and the network answer is an argument.
pub mod Reload
pub mod Runs
pub mod Lookup
use Prim.Native.Nat.{bit_xor}
use dnsredir.Base.{
  ℕ, zero, suc, ◌+◌, ◌*◌, ◌%◌, ◌^◌, Bool, true, false, ◌&&◌, ◌||◌, not, Option, none, some, List,
  [], ◌∷◌, take, length, if◌then◌else◌, ◌==◌, Str, codes, str_eq, index, to_lower, Run, ret, panic,
  no_fuel, ◌>>=◌,
}
use dnsredir.Externals.{NameLibs}
use dnsredir.DomainSet
use dnsredir.DomainSet.{DomainSet}
use dnsredir.NameFile

-- NameItemTypePath and NameItemTypeUrl; `last` is the dummy that stands for both.
pub data ItemType : Type 0 where
  path_type url_type last : ItemType

abbrev pub same_type : ItemType → ItemType → Bool
same_type path_type path_type = true
same_type url_type url_type = true
same_type last last = true
same_type _ _ = false

pub record NameItem : Type 0 where
  pub names : DomainSet
  pub which_type : ItemType
  pub path : Str
  pub mtime : ℕ
  pub size : ℕ
  pub url : Str
  pub content_hash : ℕ

abbrev pub url_item : Str → NameItem
url_item from = record {
  names = DomainSet.empty;
  which_type = url_type;
  path = [];
  mtime = 0;
  size = 0;
  url = from;
  content_hash = 0;
}

abbrev pub path_item : Str → NameItem
path_item from = record {
  names = DomainSet.empty;
  which_type = path_type;
  path = from;
  mtime = 0;
  size = 0;
  url = [];
  content_hash = 0;
}

-- The item of one form: `none` is the error, `some none` the nil pointer that `continue` leaves in
-- the slice for a plain HTTP URL.
unfoldable pub form_item : (Str → Str) → Str → Option (Option NameItem)
unfolding to_lower
form_item unicode_lower from = elim (index from (codes "://")) [
  | none ↦ some (some (path_item from))
  | some j ↦ elim j [
    | zero ↦ some (some (path_item from))
    | suc i ↦
        let proto = to_lower unicode_lower (take (suc i) from) in
        if str_eq proto (codes "http")
        then some none
        else if not (str_eq proto (codes "https"))
        then none
        else some (some (url_item from))
  ]
]

-- NewNameItemsWithForms
unfoldable pub new_items : (Str → Str) → List Str → Option (List (Option NameItem))
unfolding form_item
new_items unicode_lower [] = some []
new_items unicode_lower (from ∷ forms) =
    let rest = new_items unicode_lower forms in
    elim (form_item unicode_lower from) [
      | none ↦ none
      | some item ↦ elim rest [ none ↦ none | some items ↦ some (item ∷ items) ]
    ]

-- NameList.Match; a nil item panics at its lock.
unfoldable pub match : NameLibs → List (Option NameItem) → Str → Run Bool
match libs [] child = ret false
match libs (none ∷ items) child = panic
match libs (some item ∷ items) child =
    let rest = match libs items child in
    do found ← DomainSet.match libs item.names child; if found then ret true else rest

-- stringHash of utils.go, which is FNV-1a in 64 bits.
unfoldable pub fnv1a : ℕ → Str → ℕ
fnv1a h [] = h
fnv1a h (c ∷ s) = fnv1a (bit_xor h c * 1099511628211 % 2 ^ 64) s

unfoldable pub string_hash : Str → ℕ
unfolding fnv1a
string_hash str = fnv1a 14695981039346656037 str

pub record FileStat : Type 0 where
  pub mod_time : ℕ
  pub file_size : ℕ

-- What os.Open and then Stat and the reads give for a path.
pub data Opened : Type 0 where
  open_error : Opened
  file : Option FileStat → Str → Opened

-- A failed Stat leaves a nil interface; the parsing goes on, and reading its time panics.
unfoldable pub update_item_from_path : NameLibs → NameItem → Opened → Run NameItem
update_item_from_path libs item open_error = ret item
update_item_from_path libs item (file none content) = do parsed ← NameFile.parse libs content; panic
update_item_from_path libs item (file (some stat) content) =
    if stat.mod_time == item.mtime && stat.file_size == item.size then ret item else do
      parsed ← NameFile.parse libs content
      ret (record item { names = parsed.0; mtime = stat.mod_time; size = stat.file_size })

-- updateItemFromUrl; the argument is what getUrlContent returns, `none` for an error.
unfoldable pub update_item_from_url : NameLibs → NameItem → Option Str → Run (NameItem × Bool)
unfolding string_hash
update_item_from_url libs item none =
    if not (same_type item.which_type url_type) || length item.url == 0
    then panic
    else ret (item, false)
update_item_from_url libs item (some content) =
    if not (same_type item.which_type url_type) || length item.url == 0
    then panic
    else if string_hash content == item.content_hash
    then ret (item, true)
    else do
      parsed ← NameFile.parse_url libs content
      ret (record item { names = parsed.0; content_hash = string_hash content }, true)

-- In milliseconds.
abbrev pub retry_intervals : List ℕ
retry_intervals = 500 ∷ 1500 ∷ []

-- The goroutine of initialUpdateFromUrl, by the intervals that are left; `fetch i` is what the
-- attempt i gets.
unfoldable pub initial_update : NameLibs → (ℕ → Option Str) → ℕ → List ℕ → NameItem → Run NameItem
unfolding update_item_from_url
initial_update libs fetch i [] item = do
  done ← update_item_from_url libs item (fetch i)
  ret (done.0)
initial_update libs fetch i (interval ∷ intervals) item = do
  done ← update_item_from_url libs item (fetch i)
  elim (done.1) [
    | true ↦ ret (done.0)
    | false ↦ initial_update libs fetch (i + 1) intervals (done.0)
  ]

unfoldable pub initial_update_from_url : NameLibs → NameItem → (ℕ → Option Str) → Run NameItem
unfolding initial_update
initial_update_from_url libs item fetch = initial_update libs fetch 0 retry_intervals item

-- The files and the URLs as one round of updates finds them.
pub record World : Type 0 where
  pub open_path : Str → Opened
  pub get_url : Str → Option Str

-- The switch in updateList. At the start (`last`) a URL item is left to initial_update_from_url, in
-- a goroutine of its own.
unfoldable pub update_by_type : NameLibs → World → ItemType → NameItem → ItemType → Run NameItem
unfolding update_item_from_path update_item_from_url
update_by_type libs w which item path_type = update_item_from_path libs item (w.open_path item.path)
update_by_type libs w which item url_type =
    if same_type which last
    then ret item
    else do updated ← update_item_from_url libs item (w.get_url item.url); ret (updated.0)
update_by_type libs w which item last = panic

unfoldable pub update_item : NameLibs → World → ItemType → NameItem → Run NameItem
unfolding update_by_type
update_item libs w which item =
    if same_type which last || same_type which item.which_type
    then update_by_type libs w which item item.which_type
    else ret item

unfoldable pub update_list :
    NameLibs → World → ItemType → List (Option NameItem) → Run (List (Option NameItem))
unfolding update_item
update_list libs w which [] = ret []
update_list libs w which (none ∷ items) = panic
update_list libs w which (some item ∷ items) = do
  item' ← update_item libs w which item
  items' ← update_list libs w which items
  ret (some item' ∷ items')
