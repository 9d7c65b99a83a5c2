-- ===== src/Dialing.antt =====
-- How connections are opened: dialTimeout0, dialTimeoutWithTLS, dialTimeout and the new connection of Dial in
-- healthcheck.go, the dialer that InitDOH sets up, and transportTypeFromConn of type.go. The packages
-- net and miekg/dns are arguments.
pub mod Configured
pub mod Kinds
pub mod Bootstrap
use dnsredir.Base.{
  ℕ, ◌-◌, ◌*◌, Bool, true, false, not, Option, none, some, List, [], ◌∷◌, ◌++◌, length, drop,
  get_elem?, if◌then◌else◌, ltb, ◌==◌, Str, codes, str_eq, has_prefix, Run, ret, panic, no_fuel,
}
use dnsredir.Connections.{TransportType, type_udp, type_tcp, type_tls}
use dnsredir.Config.{TlsConfig, UpstreamHost, second}

-- A net.Resolver whose Dial asks one of the bootstrap servers.
pub record Resolver : Type 0 where
  pub no_ipv6 : Bool
  pub bootstrap : List Str

-- A call of Dial on a dns.Client.
pub record ClientDial : Type 0 where
  pub net : Str
  pub address : Str
  pub tls : Option TlsConfig
  pub timeout : ℕ
  pub resolver : Option Resolver

-- The network over which a bootstrap server is asked.
unfoldable pub bootstrap_network : Bool → Str → Str
bootstrap_network false network = network
bootstrap_network true network =
    let tcp_done = if has_prefix network (codes "tcp") then codes "tcp4" else network in
    if has_prefix tcp_done (codes "udp") then codes "udp4" else tcp_done

-- bootstrap[rand.Intn(len(bootstrap))]; `pick` is rand.Intn.
unfoldable pub pick_bootstrap : (ℕ → ℕ) → List Str → Run Str
pick_bootstrap pick bootstrap = elim (get_elem? bootstrap (pick (length bootstrap))) [
  | none ↦ panic
  | some addr ↦ ret addr
]

-- The Dial of the resolver: the network and the address that it hands to DialContext.
unfoldable pub resolver_dial : (ℕ → ℕ) → Resolver → Str → Run (Str × Str)
unfolding bootstrap_network pick_bootstrap
resolver_dial pick r network = elim (pick_bootstrap pick r.bootstrap) [
  | ret addr ↦ ret (bootstrap_network r.no_ipv6 network, addr)
  | panic ↦ panic
  | no_fuel ↦ no_fuel
]

unfoldable pub resolver_of : List Str → Bool → Option Resolver
resolver_of bootstrap no_ipv6 =
    if not (length bootstrap == 0)
    then some (record { no_ipv6 = no_ipv6; bootstrap = bootstrap })
    else none

unfoldable pub dial_timeout0 : Str → Str → Option TlsConfig → ℕ → List Str → Bool → ClientDial
unfolding resolver_of
dial_timeout0 network address tls timeout bootstrap no_ipv6 = record {
  net = network;
  address = address;
  tls = tls;
  timeout = timeout;
  resolver = resolver_of bootstrap no_ipv6;
}

abbrev pub has_suffix_tls : Str → Bool
has_suffix_tls s = if ltb (length s) 4 then false else str_eq (drop (length s - 4) s) (codes "-tls")

unfoldable pub dial_timeout_with_tls :
    Str → Str → Option TlsConfig → ℕ → List Str → Bool → ClientDial
unfolding dial_timeout0
dial_timeout_with_tls network address tls timeout bootstrap no_ipv6 =
    dial_timeout0 (if not (has_suffix_tls network) then network ++ codes "-tls" else network)
      address tls timeout bootstrap no_ipv6

unfoldable pub dial_timeout_plain : Str → Str → ℕ → List Str → Bool → ClientDial
unfolding dial_timeout0
dial_timeout_plain network address timeout bootstrap no_ipv6 =
    dial_timeout0 network address none timeout bootstrap no_ipv6

-- Dial behind a nil from connManager.
unfoldable pub dial_new : UpstreamHost → Str → ℕ → List Str → Bool → ClientDial
unfolding dial_timeout_with_tls dial_timeout_plain
dial_new host proto timeout bootstrap no_ipv6 =
    if str_eq proto (codes "tcp-tls")
    then dial_timeout_with_tls proto host.addr host.tls timeout bootstrap no_ipv6
    else dial_timeout_plain proto host.addr timeout bootstrap no_ipv6

-- What a dns.Conn stands on.
pub data Socket : Type 0 where
  udp_socket tcp_socket tls_socket : Socket

-- transportTypeFromConn, by whether the transport has a TLS configuration.
unfoldable pub transport_type_from_conn : Option TlsConfig → Socket → Run TransportType
transport_type_from_conn tls udp_socket = ret type_udp
transport_type_from_conn none tcp_socket = ret type_tcp
transport_type_from_conn none tls_socket = panic
transport_type_from_conn (some config) tcp_socket = panic
transport_type_from_conn (some config) tls_socket = ret type_tls

-- The dialer of InitDOH: its resolver asks over the network that it is given.
unfoldable pub doh_resolver : List Str → Option Resolver
unfolding resolver_of
doh_resolver bootstrap = resolver_of bootstrap false

-- The DialContext of the HTTP transport: the network for the dialer.
unfoldable pub doh_network : Bool → Str → Str
doh_network no_ipv6 network =
    if no_ipv6
    then (if has_prefix network (codes "tcp") then codes "tcp4" else network)
    else network
