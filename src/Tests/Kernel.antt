-- ===== src/Tests/Kernel.antt =====
-- Routes as netlink returns them, and replies whose addresses go to sets and tables.
use dnsredir.Base.{
  ℕ, ◌==◌, true, none, some, List, [], ◌∷◌, ◌++◌, map, split, All, Str, codes, str_eq,
  if◌then◌else◌, inl, ◌≡◌, refl, arith,
}
use dnsredir.Base.Result.{ok}
use dnsredir.Route
use dnsredir.Route.{Info, clear, Interfaces, walk, get_default_route}
use dnsredir.Route.Walk.{Attr, oif, gateway, unused, IsAttr}
use dnsredir.Route.Default.{Entry, message_of, first_of, get_default_route_lem}
use dnsredir.Addresses.{Record}
use dnsredir.IpSet.{IpSetLibs, IpSetHandle, ipset_add_ip}
use dnsredir.IpSet.Adds
use dnsredir.Pf.{Flags, Table, PfLibs, PfHandle, handle_of, parse_flags, pf_parse}
use dnsredir.Pf.Options.{options_of, names_of, read_options, parse_flags_lem}
use dnsredir.Pf.Tables.{IsSound, pf_parse-IsSound}
use dnsredir.Pf.Adds as PfAdds
use dnsredir.Pf

abbrev eth0 : Interfaces
eth0 i = if i == 3 then some (3, codes "eth0") else none

abbrev home_attrs : List Attr
home_attrs =
    unused 1 (10 ∷ 0 ∷ 0 ∷ [])
    ∷ gateway (192 ∷ 168 ∷ 1 ∷ 1 ∷ [])
    ∷ oif (3 ∷ 0 ∷ 0 ∷ 0 ∷ []) 3 (codes "eth0")
    ∷ []

home_attrs-IsAttr : All (IsAttr eth0) home_attrs
home_attrs-IsAttr = (
  (omega arith, λ e. ground arith, λ e. ground arith, omega arith),
  (inl refl, ((refl, refl), tt)),
)

abbrev route_of : ℕ → Entry
route_of table = record {
  family = 2;
  dst_length = 0;
  src_length = 0;
  tos = 0;
  table = table;
  others = 0 ∷ 0 ∷ 0 ∷ 0 ∷ 0 ∷ 0 ∷ 0 ∷ [];
  attrs = home_attrs;
}

-- The first route is one of the local table.
get_default_route_lem_example :
    get_default_route eth0 (map message_of (route_of 255 ∷ route_of 254 ∷ []))
    ≡ ok (first_of (route_of 255 ∷ route_of 254 ∷ []))
get_default_route_lem_example =
    get_default_route_lem eth0 (route_of 255 ∷ route_of 254 ∷ [])
      ((refl, home_attrs-IsAttr), ((refl, home_attrs-IsAttr), tt))

-- A network in front of the default route is taken for it, as the length of the destination is not read.
first_network :
    first_of (record (route_of 254) { dst_length = 24 } ∷ [])
    ≡ some
        (record { gateway = some (192 ∷ 168 ∷ 1 ∷ 1 ∷ []); if_index = 3; if_name = codes "eth0" })
unfolding Route.is_valid
first_network = refl

abbrev answer_of : ℕ → Str → Record
answer_of kind address = record {
  kind = kind;
  text =
      codes "a."
      ++ b'\t' ∷ codes "60"
      ++ b'\t' ∷ codes "IN"
      ++ b'\t' ∷ codes "A"
      ++ b'\t' ∷ address;
}

abbrev answers : List Record
answers = answer_of 5 (codes "b.") ∷ answer_of 1 (codes "1.2.3.4") ∷ []

abbrev sets : IpSetLibs
sets = record {
  parse_ip = λ s. some s;
  family = λ n. if str_eq n (codes "four") then some 2 else some 10;
}

abbrev two_sets : IpSetHandle
two_sets = record { set = codes "six" ∷ codes "four" ∷ []; conn = 3 }

adds_to_four : ipset_add_ip sets (some two_sets) 0 answers ≡ (codes "four", codes "1.2.3.4") ∷ []
unfolding ipset_add_ip split
adds_to_four = refl

parse_flags_lem_example :
    parse_flags (codes "+create" ∷ codes "+v4_only" ∷ codes "direct" ∷ [])
    ≡ read_options
        (options_of (codes "+create" ∷ codes "+v4_only" ∷ codes "direct" ∷ []))
        (names_of (codes "+create" ∷ codes "+v4_only" ∷ codes "direct" ∷ []))
parse_flags_lem_example = parse_flags_lem (codes "+create") (codes "+v4_only" ∷ codes "direct" ∷ [])

abbrev pub direct : Table
direct = record { name = codes "direct"; anchor = codes "a" }

abbrev pub direct_handle : PfHandle
direct_handle = record { set = (direct, 3) ∷ []; dev = none }

abbrev direct_v6 : List Str
direct_v6 = codes "direct:a" ∷ codes "proxy" ∷ []

abbrev both_handle : PfHandle
both_handle = record {
  set = (record { name = codes "proxy"; anchor = [] }, 4) ∷ (direct, 3) ∷ [];
  dev = none;
}

-- A second line with the options for the other family leaves the first table's flags.
second_line : pf_parse (some direct_handle) (codes "+v6_only" ∷ direct_v6) ≡ ok both_handle
unfolding pf_parse
second_line = refl

direct_handle-IsSound : IsSound direct_handle.set
unfolding Pf.is_valid
direct_handle-IsSound = ((omega arith, omega arith, omega arith), refl, refl, tt)

pf_parse-IsSound_example : IsSound both_handle.set
pf_parse-IsSound_example =
    pf_parse-IsSound (some direct_handle) (codes "+v6_only") direct_v6 both_handle
      direct_handle-IsSound second_line

abbrev toy_pf : PfLibs
toy_pf = record { parse_ip = λ s. some s; dev_pf = some 3; add_table = λ dev t. some true }
