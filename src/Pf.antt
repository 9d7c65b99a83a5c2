-- ===== src/Pf.antt =====
-- pf_darwin.go and pf/table.go: the flags of a table, the set of tables, the options of the `pf` directive,
-- pfSetup, pfShutdown and pfAddIP. The /dev/pf device is a parameter; a call that adds an address is the
-- pair of the table and the address, as an error of it is only logged.
pub mod Adds
pub mod Options
pub mod Tables
pub mod Calls
pub mod Device
use Prim.Native.Nat.{bitwise, min, max}
use dnsredir.Base.{
  ℕ, suc, ◌+◌, ◌*◌, Bool, true, false, not, ◌&&◌, Option, none, some, List, [], ◌∷◌, ◌++◌, take,
  drop, length, if◌then◌else◌, ◌==◌, leb, Str, codes, str_eq, has_prefix, index_byte,
}
use dnsredir.Base.Result.{Result, ok, err, ◌>>=◌, ◌>>◌, err_if}
use dnsredir.Addresses.{Record, type_a, type_aaaa, rcode_success, address_of}

-- f & g and f | g
abbrev pub bit_and : ℕ → ℕ → ℕ
bit_and a b = bitwise (λ b. 0) min a b

abbrev pub bit_or : ℕ → ℕ → ℕ
bit_or a b = bitwise (λ b. b) max a b

abbrev pub Flags : Type 0
Flags = ℕ

-- tableFlagCreateIfNotExist, tableFlagIPv4Only, tableFlagIPv6Only, and the complement of
-- tableFlagLast - 1 as a word of 64 bits.
abbrev pub table_flag_create_if_not_exist : Flags
table_flag_create_if_not_exist = 1

abbrev pub table_flag_ipv4_only : Flags
table_flag_ipv4_only = 2

abbrev pub table_flag_ipv6_only : Flags
table_flag_ipv6_only = 4

abbrev pub unknown_flags : Flags
unknown_flags = 18446744073709551608

unfoldable pub is_create_if_not_exist : Flags → Bool
is_create_if_not_exist f = not (bit_and f table_flag_create_if_not_exist == 0)

unfoldable pub is_v4_only : Flags → Bool
is_v4_only f = not (bit_and f table_flag_ipv4_only == 0)

unfoldable pub is_v6_only : Flags → Bool
is_v6_only f = not (bit_and f table_flag_ipv6_only == 0)

unfoldable pub is_valid : Flags → Bool
unfolding is_v4_only is_v6_only
is_valid f = if is_v4_only f && is_v6_only f then false else bit_and f unknown_flags == 0

unfoldable pub turn_on_create_if_not_exist : Flags → Flags
turn_on_create_if_not_exist f = bit_or f table_flag_create_if_not_exist

unfoldable pub turn_on_v4_only : Flags → Flags
turn_on_v4_only f = bit_or f table_flag_ipv4_only

unfoldable pub turn_on_v6_only : Flags → Flags
turn_on_v6_only f = bit_or f table_flag_ipv6_only

pub record Table : Type 0 where
  pub name : Str
  pub anchor : Str

abbrev pub table_eq : Table → Table → Bool
table_eq s t = str_eq s.name t.name && str_eq s.anchor t.anchor

abbrev pub TableSet : Type 0
TableSet = List (Table × Flags)

-- (*s)[t]
abbrev pub lookup : TableSet → Table → Option Flags
lookup [] t = none
lookup ((s, flags) ∷ set) t = if table_eq s t then some flags else lookup set t

-- What Add returns: no error with the new set, os.ErrExist, or an error for a bad name.
pub data Added : Type 0 where
  added : TableSet → Added
  exists : Added
  refused : Added

abbrev pub max_table_name_size : ℕ
max_table_name_size = 32

abbrev pub max_anchor_name_size : ℕ
max_anchor_name_size = 1024

abbrev pub add_new : TableSet → Table → Flags → Option Flags → Added
add_new set t flags none = added ((t, flags) ∷ set)
add_new set t flags (some old) = exists

unfoldable pub table_set_add : TableSet → Table → Flags → Added
table_set_add set t flags =
    if length t.name == 0
    then refused
    else if leb max_table_name_size (length t.name)
    then refused
    else if leb max_anchor_name_size (length t.anchor)
    then refused
    else add_new set t flags (lookup set t)

unfoldable pub split_name_anchor : Str → Table
split_name_anchor arg = elim (index_byte b':' arg) [
  | none ↦ record { name = arg; anchor = [] }
  | some i ↦ record { name = take i arg; anchor = drop (i + 1) arg }
]

-- The switch over the options.
unfoldable pub turn_on : Flags → Str → Result Flags
unfolding turn_on_create_if_not_exist turn_on_v4_only turn_on_v6_only
turn_on flags arg =
    if str_eq arg (codes "+create")
    then ok (turn_on_create_if_not_exist flags)
    else if str_eq arg (codes "+v4_only")
    then ok (turn_on_v4_only flags)
    else if str_eq arg (codes "+v6_only")
    then ok (turn_on_v6_only flags)
    else err

abbrev pub is_option : Str → Bool
is_option arg = has_prefix arg (codes "+")

-- The loop over the arguments: the flags, and (*args)[i:] where the loop ends. `last` is what the round
-- before began at; its first text is the variable `arg`.
unfoldable pub flag_loop : Flags → List Str → List Str → Result (Flags × List Str)
unfolding turn_on
flag_loop flags last [] = ok (flags, last)
flag_loop flags last (arg ∷ args) =
    if is_option arg
    then (turn_on flags arg >>= λ flags'. flag_loop flags' (arg ∷ args) args)
    else ok (flags, arg ∷ args)

abbrev pub is_option_first : List Str → Bool
is_option_first [] = false
is_option_first (arg ∷ args) = is_option arg

unfoldable pub parse_flags : List Str → Result (Flags × List Str)
unfolding flag_loop is_valid
parse_flags args = do
  (flags, rest) ← flag_loop 0 [] args
  err_if (is_option_first rest)
  err_if (not (is_valid flags))
  ok (flags, rest)

-- The tables, and the descriptor of /dev/pf; `none` for -1.
pub record PfHandle : Type 0 where
  pub set : TableSet
  pub dev : Option ℕ

unfoldable pub add_tables : Flags → TableSet → List Str → Result TableSet
unfolding table_set_add split_name_anchor
add_tables flags set [] = ok set
add_tables flags set (arg ∷ args) = elim (table_set_add set (split_name_anchor arg) flags) [
  | added set' ↦ add_tables flags set' args
  | exists ↦ add_tables flags set args
  | refused ↦ err
]

abbrev pub new_handle : PfHandle
new_handle = record { set = []; dev = none }

abbrev pub handle_of : Option PfHandle → PfHandle
handle_of none = new_handle
handle_of (some handle) = handle

unfoldable pub pf_parse : Option PfHandle → List Str → Result PfHandle
unfolding parse_flags add_tables
pf_parse handle [] = err
pf_parse handle (arg ∷ args) = do
  (flags, rest) ← parse_flags (arg ∷ args)
  set ← add_tables flags ((handle_of handle).set) rest
  ok (record (handle_of handle) { set = set })

-- pf.Open and pf.AddTable: the descriptor, and whether the table is new; `none` for an error.
pub record PfLibs : Type 0 where
  pub parse_ip : Str → Option Str
  pub dev_pf : Option ℕ
  pub add_table : ℕ → Table → Option Bool

abbrev pub PfStarted : Type 0
PfStarted = Result (Unit {0}) × List Table

abbrev pub created : Option Bool → Table → PfStarted → PfStarted
created none t rest = (err, t ∷ [])
created (some fresh) t (result, ts) = (result, t ∷ ts)

-- The loop of pfSetup, with the tables that AddTable is called for.
unfoldable pub create_tables : PfLibs → ℕ → TableSet → PfStarted
unfolding is_create_if_not_exist
create_tables libs dev [] = (ok tt, [])
create_tables libs dev ((t, flags) ∷ set) =
    let rest = create_tables libs dev set in
    if not (is_create_if_not_exist flags) then rest else created (libs.add_table dev t) t rest

-- The part of pfSetup behind Open; the descriptor is kept when a table fails, too.
abbrev pub pf_opened : PfLibs → PfHandle → Option ℕ → Option PfHandle × PfStarted
unfolding create_tables
pf_opened libs handle none = (some handle, (err, []))
pf_opened libs handle (some dev) =
    (some (record handle { dev = some dev }), create_tables libs dev handle.set)

unfoldable pub pf_setup : PfLibs → Option PfHandle → Option PfHandle × PfStarted
pf_setup libs none = (none, (ok tt, []))
pf_setup libs (some handle) = pf_opened libs handle libs.dev_pf

-- The descriptor that is closed; `none` for -1.
unfoldable pub pf_shutdown : Option PfHandle → Option ℕ
pf_shutdown none = none
pf_shutdown (some handle) = handle.dev

-- The body of the loop over the tables.
unfoldable pub add_to : ℕ → Table → Flags → Str → List (Table × Str)
unfolding is_v4_only is_v6_only
add_to rrt t flags ip =
    if is_v4_only flags && not (rrt == type_a)
    then []
    else if is_v6_only flags && not (rrt == type_aaaa)
    then []
    else (t, ip) ∷ []

unfoldable pub add_to_tables : ℕ → Option Str → TableSet → List (Table × Str)
unfolding add_to
add_to_tables rrt none set = []
add_to_tables rrt (some ip) [] = []
add_to_tables rrt (some ip) ((t, flags) ∷ set) =
    add_to rrt t flags ip ++ add_to_tables rrt (some ip) set

unfoldable pub add_answers : PfLibs → TableSet → List Record → List (Table × Str)
unfolding add_to_tables address_of
add_answers libs set [] = []
add_answers libs set (rr ∷ answer) =
    add_to_tables rr.kind (address_of libs.parse_ip rr) set ++ add_answers libs set answer

-- pfAddIP: the calls of AddAddr on a reply's code and answers.
unfoldable pub pf_add_ip : PfLibs → Option PfHandle → ℕ → List Record → List (Table × Str)
unfolding add_answers
pf_add_ip libs none rcode answer = []
pf_add_ip libs (some handle) rcode answer =
    if not (rcode == rcode_success) then [] else add_answers libs handle.set answer
