-- ===== src/IpSet.antt =====
-- ipset_linux.go behind its parser: ipsetSetup, ipsetShutdown and ipsetAddIP. The kernel is a parameter;
-- a call that adds an address is the pair of the set and the address, as an error of it is only logged.
pub mod Adds
use dnsredir.Base.{
  ℕ, Bool, true, false, not, Option, none, some, List, [], ◌∷◌, ◌++◌, if◌then◌else◌, ◌==◌, Str,
}
use dnsredir.Base.Result.{Result, ok, err}
use dnsredir.StringSet.{StringSet}
use dnsredir.Addresses.{Record, type_a, type_aaaa, rcode_success, address_of}

-- nfProtoIpv4, nfProtoIpv6
abbrev pub nf_proto_ipv4 : ℕ
nf_proto_ipv4 = 2

abbrev pub nf_proto_ipv6 : ℕ
nf_proto_ipv6 = 10

-- net.ParseIP, and the family in the header of a set, `none` for an error.
pub record IpSetLibs : Type 0 where
  pub parse_ip : Str → Option Str
  pub family : Str → Option ℕ

pub record IpSetHandle : Type 0 where
  pub set : StringSet
  pub conn : ℕ

-- The connection that Dial gives, `none` for an error.
unfoldable pub ipset_setup : Option StringSet → Option ℕ → Result (Option IpSetHandle)
ipset_setup none dialed = ok none
ipset_setup (some set) none = err
ipset_setup (some set) (some conn) = ok (some (record { set = set; conn = conn }))

-- The connection that is closed, of a handle that ipsetSetup gave. Behind a Dial that failed the handle has a
-- nil connection; Lifecycle.shut_down has that case.
unfoldable pub ipset_shutdown : Option IpSetHandle → Option ℕ
ipset_shutdown none = none
ipset_shutdown (some handle) = some handle.conn

unfoldable pub type_match : ℕ → ℕ → Bool
type_match family rr_type =
    if family == nf_proto_ipv4
    then rr_type == type_a
    else if family == nf_proto_ipv6
    then rr_type == type_aaaa
    else false

-- The body of the loop over the sets: the calls of Add for one set.
unfoldable pub add_to : Option ℕ → ℕ → Str → Str → List (Str × Str)
unfolding type_match
add_to none rr_type name ip = []
add_to (some family) rr_type name ip = if type_match family rr_type then (name, ip) ∷ [] else []

unfoldable pub add_to_sets : IpSetLibs → ℕ → Option Str → StringSet → List (Str × Str)
unfolding add_to
add_to_sets libs rr_type none names = []
add_to_sets libs rr_type (some ip) [] = []
add_to_sets libs rr_type (some ip) (name ∷ names) =
    add_to (libs.family name) rr_type name ip ++ add_to_sets libs rr_type (some ip) names

unfoldable pub add_answers : IpSetLibs → StringSet → List Record → List (Str × Str)
unfolding add_to_sets address_of
add_answers libs set [] = []
add_answers libs set (rr ∷ answer) =
    add_to_sets libs rr.kind (address_of libs.parse_ip rr) set ++ add_answers libs set answer

-- ipsetAddIP: the calls of Add on a reply's code and answers.
unfoldable pub ipset_add_ip : IpSetLibs → Option IpSetHandle → ℕ → List Record → List (Str × Str)
unfolding add_answers
ipset_add_ip libs none rcode answer = []
ipset_add_ip libs (some handle) rcode answer =
    if not (rcode == rcode_success) then [] else add_answers libs handle.set answer
