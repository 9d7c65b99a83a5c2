-- ===== src/Dialing/Kinds.antt =====
-- The connections that Dial opens are of the kind that transportTypeFromConn expects on their transport.
use dnsredir.Base.{
  Bool, true, false, ◌⊎◌, inl, inr, Option, none, some, List, [], ◌∷◌, All, Str, codes, str_eq, ret,
  ◌≡◌, refl, sym, ap, ◌∙◌, arith, ℕ,
}
use mathlib.Core.Path.{subst}
use dnsredir.Base.Result.{ok, ◌>>=◌, ok_of_bind}
use dnsredir.Config.{SetupLibs, TlsConfig, UpstreamHost, Upstream, initial}
use dnsredir.Config.Block.{parse_blocks}
use dnsredir.Config.Finish.{parse_from, proto_to_network, finish, new_upstream}
use dnsredir.Connections.{string_to_transport_type}
use dnsredir.Exchange.{dial_proto}
use dnsredir.Dialing.{
  ClientDial, Socket, udp_socket, tcp_socket, tls_socket, dial_new, transport_type_from_conn,
}
use dnsredir.Dialing.Configured.{has_config, IsConfigured, finish-IsConfigured}

-- What is relied on of miekg/dns: the connection that a client opens, by its network.
pub record DialLaws (opens : ClientDial → Option Socket) : Type 0 where
  pub over_udp :
      (c : ClientDial) (s : Socket) → c.net ≡ codes "udp" → opens c ≡ some s → s ≡ udp_socket
  pub over_tcp :
      (c : ClientDial) (s : Socket) → c.net ≡ codes "tcp" → opens c ≡ some s → s ≡ tcp_socket
  pub over_tls :
      (c : ClientDial) (s : Socket) → c.net ≡ codes "tcp-tls" → opens c ≡ some s → s ≡ tls_socket

-- The protocols of a request, and of a host that is not DNS over HTTPS.
abbrev pub IsRequestProto : Str → Type 0
IsRequestProto proto = (proto ≡ codes "udp") ⊎ (proto ≡ codes "tcp")

abbrev pub IsPlainProto : Str → Type 0
IsPlainProto proto = (proto ≡ codes "dns") ⊎ ((proto ≡ codes "tls") ⊎ IsRequestProto proto)

-- The types agree for this protocol at this transport.
abbrev pub Agrees : (ClientDial → Option Socket) → UpstreamHost → ℕ → List Str → Bool → Str → Type 0
Agrees opens host timeout bootstrap no_ipv6 proto =
    (s : Socket)
    → opens (dial_new host proto timeout bootstrap no_ipv6) ≡ some s
    → transport_type_from_conn host.tls s ≡ ret (string_to_transport_type proto)

module _ (opens : ClientDial → Option Socket) (laws : DialLaws opens) (host : UpstreamHost)
    (timeout : ℕ) (bootstrap : List Str) (no_ipv6 : Bool) where
  udp_kind : Agrees opens host timeout bootstrap no_ipv6 (codes "udp")
  udp_kind s e =
      let n : (dial_new host (codes "udp") timeout bootstrap no_ipv6).net ≡ codes "udp" =
        unfold dial_new in refl in
      let k = laws.over_udp (dial_new host (codes "udp") timeout bootstrap no_ipv6) s n e in
      rw k (unfold transport_type_from_conn string_to_transport_type in refl)

  tcp_kind : has_config host.tls ≡ false → Agrees opens host timeout bootstrap no_ipv6 (codes "tcp")
  tcp_kind c s e =
      let n : (dial_new host (codes "tcp") timeout bootstrap no_ipv6).net ≡ codes "tcp" =
        unfold dial_new in refl in
      let k = laws.over_tcp (dial_new host (codes "tcp") timeout bootstrap no_ipv6) s n e in
      rw k (by_config host.tls c)
    where
      by_config :
          (tls : Option TlsConfig)
          → has_config tls ≡ false
          → transport_type_from_conn tls tcp_socket ≡ ret (string_to_transport_type (codes "tcp"))
      by_config none c = unfold transport_type_from_conn string_to_transport_type in refl
      by_config (some config) c = absurd (ground arith)

  tls_kind :
      has_config host.tls ≡ true → Agrees opens host timeout bootstrap no_ipv6 (codes "tcp-tls")
  tls_kind c s e =
      let n : (dial_new host (codes "tcp-tls") timeout bootstrap no_ipv6).net ≡ codes "tcp-tls" =
        unfold dial_new in refl in
      let k = laws.over_tls (dial_new host (codes "tcp-tls") timeout bootstrap no_ipv6) s n e in
      rw k (by_config host.tls c)
    where
      by_config :
          (tls : Option TlsConfig)
          → has_config tls ≡ true
          → transport_type_from_conn tls tls_socket
            ≡ ret (string_to_transport_type (codes "tcp-tls"))
      by_config none c = absurd (ground arith)
      by_config (some config) c = unfold transport_type_from_conn string_to_transport_type in refl

  via :
      (proto q : Str)
      → dial_proto host.proto proto ≡ q
      → Agrees opens host timeout bootstrap no_ipv6 q
      → Agrees opens host timeout bootstrap no_ipv6 (dial_proto host.proto proto)
  via proto q e h = subst (Agrees opens host timeout bootstrap no_ipv6) (sym e) h

  -- The protocol that Dial asks connManager for, and dials itself.
  every_kind :
      (proto : Str)
      → IsConfigured host
      → IsPlainProto host.proto
      → IsRequestProto proto
      → Agrees opens host timeout bootstrap no_ipv6 (dial_proto host.proto proto)
  every_kind proto c (inl d) (inl p) =
      via proto (codes "udp") (rw d (rw p (unfold dial_proto proto_to_network in refl))) udp_kind
  every_kind proto c (inl d) (inr p) =
      via proto (codes "tcp") (rw d (rw p (unfold dial_proto proto_to_network in refl)))
        (tcp_kind (c ∙ ap (λ q. str_eq q (codes "tls")) d))
  every_kind proto c (inr (inl t)) p =
      via proto (codes "tcp-tls") (rw t (unfold dial_proto proto_to_network in refl))
        (tls_kind (c ∙ ap (λ q. str_eq q (codes "tls")) t))
  every_kind proto c (inr (inr (inl t))) p =
      via proto (codes "udp") (rw t (unfold dial_proto proto_to_network in refl)) udp_kind
  every_kind proto c (inr (inr (inr t))) p =
      via proto (codes "tcp") (rw t (unfold dial_proto proto_to_network in refl))
        (tcp_kind (c ∙ ap (λ q. str_eq q (codes "tls")) t))

all_of : {A : Type 0} (P Q : A → Type 0) (xs : List A) → ((a : A) → P a → Q a) → All P xs → All Q xs
all_of P Q [] f h = tt
all_of P Q (x ∷ xs) f (p, ps) = (f x p, all_of P Q xs f ps)

-- Under what is relied on of miekg/dns: on every host of an upstream that setup accepts and that is not DNS over HTTPS,
-- what Dial opens, for a request over UDP or TCP, is of the type under which Dial asked connManager for it; so
-- transportTypeFromConn does not panic when the connection comes back.
pub new_upstream-Agrees :
    (libs : SetupLibs) (forms : List Str) (lines : List (Str × List Str)) (v : Upstream)
    (opens : ClientDial → Option Socket) (timeout : ℕ) (proto : Str)
    → new_upstream libs forms lines ≡ ok v
    → DialLaws opens
    → IsRequestProto proto
    → All
        (λ host.
          IsPlainProto host.proto
          → Agrees opens host timeout v.bootstrap v.no_ipv6 (dial_proto host.proto proto))
        v.hosts
new_upstream-Agrees libs forms lines v opens timeout proto e laws p =
    let (a, q, r) =
      ok_of_bind (parse_from libs initial forms) (λ u. parse_blocks libs u lines >>= finish libs) v
        (unfold new_upstream in e) in
    let (b, s, t) = ok_of_bind (parse_blocks libs a lines) (finish libs) v r in
    all_of IsConfigured
      (λ host.
        IsPlainProto host.proto
        → Agrees opens host timeout v.bootstrap v.no_ipv6 (dial_proto host.proto proto))
      v.hosts
      (λ host c plain. every_kind opens laws host timeout v.bootstrap v.no_ipv6 proto c plain p)
      (finish-IsConfigured libs b v t)
