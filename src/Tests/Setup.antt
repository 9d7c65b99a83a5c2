-- ===== src/Tests/Setup.antt =====
-- Endpoints and the configuration block.
use dnsredir.Base.{
  ◌+◌, true, false, none, some, List, [], ◌∷◌, ◌++◌, Str, codes, str_eq, if◌then◌else◌, index_byte,
  inl, to_lower, take, drop, ◌≡◌, refl,
}
use dnsredir.Base.Int.{pos}
use dnsredir.Base.Result.{ok, crash}
use dnsredir.StringSet
use dnsredir.DomainSet
use dnsredir.Domain.{string_to_domain}
use dnsredir.HostPort.{NetLibs, parts, missing_port, is_host, host_port_of, split_transport_host}
use dnsredir.HostPort.Split.{host_port_of-split}
use dnsredir.NameList.{path_item}
use dnsredir.Config.{SetupLibs, Upstream, initial}
use dnsredir.Config.Block.{parse_blocks}
use dnsredir.Config.Finish.{new_upstream, parse_from, finish_hosts, check_inline}
use dnsredir.Config.PlainHttp.{plain_http_panics}
use dnsredir.Config.Ready.{IsReady, new_upstream-IsReady}
use dnsredir.Tests.World.{ascii_names}

-- Addresses with one colon at most, and 9.9.9.9 as the only IP address.
abbrev pub toy_net : NetLibs
toy_net = record {
  unicode_lower = λ s. s;
  split_host_port = λ s. elim (index_byte b':' s) [
    | none ↦ missing_port
    | some i ↦ parts (take i s) (drop (i + 1) s)
  ];
  join_host_port = λ host port. host ++ b':' ∷ port;
  parse_ip =
      λ s. if str_eq s (codes "9.9.9.9") then some (record { is_v4 = true; text = s }) else none;
  parse_request_uri = λ s. true;
}

quad9 : is_host toy_net (codes "9.9.9.9") ≡ true
unfolding is_host string_to_domain
quad9 = refl

quad9_parts :
    toy_net.split_host_port (split_transport_host (λ s. s) (codes "TCP://9.9.9.9:53")).1
    ≡ parts (codes "9.9.9.9") (codes "53")
unfolding split_transport_host
quad9_parts = refl

host_port_of-split_example :
    (s : Str) × (host_port_of toy_net (codes "TCP://9.9.9.9:53") ≡ ok s)
    × (split_transport_host toy_net.unicode_lower s
        ≡ split_transport_host toy_net.unicode_lower (codes "TCP://9.9.9.9:53"))
host_port_of-split_example =
    host_port_of-split toy_net (codes "TCP://9.9.9.9:53") (codes "9.9.9.9") (codes "53") refl
      quad9_parts quad9

-- Every duration is given in seconds, every number is one digit.
abbrev pub toy_setup : SetupLibs
toy_setup = record {
  names = ascii_names;
  net = toy_net;
  parse_duration = λ s. if str_eq s (codes "20s") then some (pos 20000000000) else none;
  atoi = λ s. if str_eq s (codes "5") then some (pos 5) else none;
  stat_error = λ s. false;
  new_tls_config = λ args. true;
}

abbrev pub quad9_lines : List (Str × List Str)
quad9_lines =
    (codes "to", codes "9.9.9.9" ∷ [])
    ∷ (codes "b.cn", [])
    ∷ (codes "except", codes "a.cn" ∷ [])
    ∷ (codes "expire", codes "20s" ∷ [])
    ∷ (codes "max_fails", codes "5" ∷ [])
    ∷ []

abbrev pub quad9_block : Upstream
quad9_block = record initial {
  hosts =
      record {
        proto = codes "dns";
        addr = codes "9.9.9.9:53";
        recursion_desired = false;
        expire = 0;
        tls = none;
        client_net = [];
        request_content_type = [];
      }
      ∷ [];
  inline = (25134, codes "b.cn" ∷ []) ∷ [];
  ignored = (24878, codes "a.cn" ∷ []) ∷ [];
  transport = record {
    recursion_desired = true;
    expire = 20000000000;
    tls = record { args = []; server_name = [] };
  };
  max_fails = 5;
}

abbrev pub quad9_upstream : Upstream
quad9_upstream = record quad9_block {
  items = some (path_item (codes "cn.txt")) ∷ [];
  url_reload = 0;
  hosts =
      record {
        proto = codes "dns";
        addr = codes "9.9.9.9:53";
        recursion_desired = true;
        expire = 20000000000;
        tls = none;
        client_net = codes "udp";
        request_content_type = [];
      }
      ∷ [];
}

quad9_parses : parse_blocks toy_setup initial quad9_lines ≡ ok quad9_block
unfolding parse_blocks string_to_domain DomainSet.add DomainSet.domain_to_index DomainSet.len
    DomainSet.put StringSet.add DomainSet.bucket
quad9_parses = refl

pub quad9_loads : new_upstream toy_setup (codes "cn.txt" ∷ []) quad9_lines ≡ ok quad9_upstream
unfolding new_upstream string_to_domain DomainSet.add DomainSet.domain_to_index DomainSet.len
    DomainSet.for_each_domain DomainSet.put StringSet.add DomainSet.bucket DomainSet.match
quad9_loads = refl

new_upstream-IsReady_example : IsReady ascii_names quad9_upstream
new_upstream-IsReady_example =
    new_upstream-IsReady toy_setup (codes "cn.txt" ∷ []) quad9_lines quad9_upstream quad9_loads

abbrev http_forms : List Str
http_forms = codes "http://a.cn/l" ∷ []

abbrev http_started : Upstream
http_started = record initial { items = none ∷ [] }

abbrev http_block : Upstream
http_block = record quad9_block { items = none ∷ [] }

http_from : parse_from toy_setup initial http_forms ≡ ok http_started
unfolding parse_from
http_from = refl

http_parses : parse_blocks toy_setup http_started quad9_lines ≡ ok http_block
unfolding parse_blocks string_to_domain DomainSet.add DomainSet.domain_to_index DomainSet.len
    DomainSet.put StringSet.add DomainSet.bucket
http_parses = refl

http_hosts : finish_hosts toy_setup http_block http_block.hosts ≡ ok quad9_upstream.hosts
unfolding finish_hosts string_to_domain
http_hosts = refl

http_inline : check_inline ascii_names http_block.inline http_block.ignored ≡ ok tt
unfolding check_inline DomainSet.for_each_domain DomainSet.match DomainSet.domain_to_index
    DomainSet.bucket
http_inline = refl

plain_http_panics_example : new_upstream toy_setup http_forms quad9_lines ≡ crash
plain_http_panics_example =
    plain_http_panics toy_setup http_forms quad9_lines http_started http_block quad9_upstream.hosts
      (inl (3, refl, unfold to_lower in refl)) http_from http_parses refl http_hosts http_inline
