-- ===== src/HostPort.antt =====
-- parse.go: the TO endpoints, and hostPortIsIpPort of utils.go. Package net and package net/url are
-- a parameter.
pub mod Split
use dnsredir.Base.{
  ◌-◌, ℕ, suc, zero, ◌+◌, Bool, true, false, not, ◌&&◌, ◌||◌, Option, none, some, List, [], ◌∷◌,
  ◌++◌, length, take, drop, if◌then◌else◌, ltb, Str, codes, str_eq, has_prefix, contains_str,
  index_byte, index, to_lower,
}
use dnsredir.Base.Result.{Result, ok, err, crash, stuck, ◌>>=◌, ◌>>◌, err_if}
use dnsredir.Domain.{string_to_domain, split_by_byte}

-- What net.SplitHostPort returns: the two parts, the error about a missing port, or another.
pub data HostPortSplit : Type 0 where
  parts : Str → Str → HostPortSplit
  missing_port bad_address : HostPortSplit

-- What the source uses of an address that net.ParseIP accepts: whether To4 gives one, and String.
pub record IpAddress : Type 0 where
  pub is_v4 : Bool
  pub text : Str

pub record NetLibs : Type 0 where
  pub unicode_lower : Str → Str
  pub split_host_port : Str → HostPortSplit
  pub join_host_port : Str → Str → Str
  pub parse_ip : Str → Option IpAddress
  pub parse_request_uri : Str → Bool

unfoldable pub is_ip : NetLibs → Str → Bool
is_ip net s = elim (net.parse_ip s) [ some ip ↦ true | none ↦ false ]

unfoldable pub strip_zone_and_tls_name : Str → Str
strip_zone_and_tls_name host = elim (index_byte b'%' host) [
  | some i ↦ take i host
  | none ↦ elim (index_byte b'@' host) [ some i ↦ take i host | none ↦ host ]
]

abbrev pub known_trans : List Str
known_trans =
    codes "dns"
    ∷ codes "udp"
    ∷ codes "tcp"
    ∷ codes "tls"
    ∷ codes "json-doh"
    ∷ codes "ietf-doh"
    ∷ codes "doh"
    ∷ []

-- The loop of SplitTransportHost, on the lower case text.
unfoldable pub split_known : List Str → Str → Str × Str
split_known [] s = (codes "dns", s)
split_known (trans ∷ known) s =
    let rest = split_known known s in
    if has_prefix s (trans ++ codes "://")
    then (trans, drop (length (trans ++ codes "://")) s)
    else rest

unfoldable pub split_transport_host : (Str → Str) → Str → Str × Str
unfolding to_lower split_known
split_transport_host unicode_lower s = split_known known_trans (to_lower unicode_lower s)

-- strings.HasSuffix(s, "doh")
abbrev pub has_suffix_doh : Str → Bool
has_suffix_doh s = if ltb (length s) 3 then false else str_eq (drop (length s - 3) s) (codes "doh")

-- "not a domain name or an IP address"
unfoldable pub is_host : NetLibs → Str → Bool
unfolding is_ip strip_zone_and_tls_name
is_host net s = elim (string_to_domain net.unicode_lower s) [
  | some name ↦ true
  | none ↦ is_ip net (strip_zone_and_tls_name s)
]

-- transport.Port and transport.TLSPort of CoreDNS.
abbrev pub dns_port : Str
dns_port = codes "53"

abbrev pub tls_port : Str
tls_port = codes "853"

-- The switch on the transport of an endpoint without a port.
unfoldable pub with_default_port : NetLibs → Str → Str → Str → Result Str
with_default_port net h trans host =
    if str_eq trans (codes "dns") || str_eq trans (codes "udp") || str_eq trans (codes "tcp")
    then ok (trans ++ codes "://" ++ net.join_host_port host dns_port)
    else if str_eq trans (codes "tls")
    then (let (addr, tls_name) = split_by_byte host b'@' in
        ok (trans ++ codes "://" ++ net.join_host_port addr tls_port ++ tls_name))
    else if str_eq trans (codes "json-doh")
        || str_eq trans (codes "ietf-doh")
        || str_eq trans (codes "doh")
    then ok h
    else crash

-- One round of the loop of HostPort, on the transport and the address of the endpoint.
unfoldable pub endpoint : NetLibs → Str → Str → Str → Result Str
unfolding with_default_port is_host
endpoint net h trans host =
    let no_port = λ (e : Unit {0}). do
      err_if
          (if has_suffix_doh trans then not (net.parse_request_uri h) else not (is_host net host))
      with_default_port net h trans host
    in elim (net.split_host_port host) [
      | missing_port ↦ no_port tt
      | bad_address ↦ no_port tt
      | parts addr port ↦ if is_host net addr then ok (trans ++ codes "://" ++ host) else err
    ]

unfoldable pub host_port_of : NetLibs → Str → Result Str
unfolding split_transport_host endpoint
host_port_of net h =
    let (trans, host) = split_transport_host net.unicode_lower h in endpoint net h trans host

unfoldable pub host_port : NetLibs → List Str → Result (List Str)
unfolding host_port_of
host_port net [] = ok []
host_port net (h ∷ servers) = do s ← host_port_of net h; list ← host_port net servers; ok (s ∷ list)

-- hostPortIsIpPort
unfoldable pub host_port_is_ip_port : NetLibs → Str → Bool
unfolding is_ip
host_port_is_ip_port net hostport = elim (net.split_host_port hostport) [
  | missing_port ↦ false
  | bad_address ↦ false
  | parts host port ↦ if is_ip net host then true else elim (index_byte b'%' host) [
    | none ↦ false
    | some i ↦ ltb 0 i && is_ip net (take i host)
  ]
]
