-- ===== src/Tests/Dialing.antt =====
-- Dials of the hosts of one upstream.
use dnsredir.Base.{
  ℕ, ◌-◌, true, false, Option, none, some, List, [], ◌∷◌, ◌++◌, All, any, Str, codes, str_eq,
  if◌then◌else◌, ret, inl, ◌≡◌, ◌≢◌, refl, arith,
}
use dnsredir.Config.{UpstreamHost}
use dnsredir.Exchange.{dial_proto}
use dnsredir.Dialing.{
  ClientDial, Socket, udp_socket, tcp_socket, tls_socket, Resolver, resolver_of, resolver_dial,
  dial_new,
}
use dnsredir.Dialing.Kinds.{DialLaws, IsPlainProto, Agrees, new_upstream-Agrees}
use dnsredir.Dialing.Bootstrap.{IsPick, dial_new-bootstrap}
use dnsredir.Tests.Setup.{toy_setup, quad9_lines, quad9_upstream, quad9_loads}

-- A network where every server answers.
abbrev open_all : ClientDial → Option Socket
open_all c =
    if str_eq c.net (codes "udp")
    then some udp_socket
    else if str_eq c.net (codes "tcp")
    then some tcp_socket
    else if str_eq c.net (codes "tcp-tls")
    then some tls_socket
    else none

open_all-DialLaws : DialLaws open_all
open_all-DialLaws = record {
  over_udp = λ c s n e. let f : some udp_socket ≡ some s = rw n at e in cc;
  over_tcp = λ c s n e. let f : some tcp_socket ≡ some s = rw n at e in cc;
  over_tls = λ c s n e. let f : some tls_socket ≡ some s = rw n at e in cc;
}

new_upstream-Agrees_example :
    All
      (λ host.
        IsPlainProto host.proto
        → Agrees open_all host 1000000000 quad9_upstream.bootstrap quad9_upstream.no_ipv6
            (dial_proto host.proto (codes "udp")))
      quad9_upstream.hosts
new_upstream-Agrees_example =
    new_upstream-Agrees toy_setup (codes "cn.txt" ∷ []) quad9_lines quad9_upstream open_all
      1000000000 (codes "udp") quad9_loads open_all-DialLaws (inl refl)

abbrev last_of : ℕ → ℕ
last_of n = n - 1

last_of-IsPick : IsPick last_of
last_of-IsPick n h = omega (arith, h)

abbrev quad9_host : UpstreamHost
quad9_host = record {
  proto = codes "dns";
  addr = codes "dns.cn:53";
  recursion_desired = true;
  expire = 20000000000;
  tls = none;
  client_net = codes "udp";
  request_content_type = [];
}

abbrev servers : List Str
servers = codes "1.1.1.1:53" ∷ codes "9.9.9.9:53" ∷ []

dial_new-bootstrap_example :
    ((dial_new quad9_host (codes "udp") 1000000000 [] true
        ≡ dial_new quad9_host (codes "udp") 1000000000 [] false)
      × ((dial_new quad9_host (codes "udp") 1000000000 [] true).resolver ≡ none))
    × (dial_new quad9_host (codes "udp") 1000000000 servers true
        ≡ record (dial_new quad9_host (codes "udp") 1000000000 servers false) {
          resolver = resolver_of servers true;
        })
    × (servers ≢ []
        → (r : Resolver) × (addr : Str) × ((dial_new quad9_host
              (codes "udp")
              1000000000
              servers
              true).resolver
            ≡ some r)
          × (resolver_dial last_of r (codes "udp")
              ≡ ret (if true then codes "udp" ++ codes "4" else codes "udp", addr))
          × (any (str_eq addr) servers ≡ true))
dial_new-bootstrap_example =
    dial_new-bootstrap last_of quad9_host (codes "udp") (codes "udp") 1000000000 servers true
      last_of-IsPick (inl refl)
