-- ===== src/Dialing/Configured.antt =====
-- The hosts that setup gives a TLS configuration: those of DNS over TLS.
use dnsredir.Base.{
  ◌==◌, length, Bool, true, false, inl, inr, Option, none, some, List, [], ◌∷◌, All, Str, codes,
  str_eq, str_eq_sound, ◌≡◌, refl, sym, ap, ◌∙◌, arith, Bool-cases, if◌then◌else◌,
}
use mathlib.Core.Path.{subst}
use dnsredir.Base.Result.{ok, ◌>>=◌, err_if, ok-injective, ok_of_bind}
use dnsredir.Domain.{split_by_byte}
use dnsredir.HostPort.{has_suffix_doh, host_port_is_ip_port}
use dnsredir.Config.{SetupLibs, TlsConfig, UpstreamHost, Upstream}
use dnsredir.Config.Finish.{
  proto_to_network, own_server_name, host_tls, with_settings, init_doh, finish_host, finish_hosts,
  check_inline, settle_reloads, finish,
}
use dnsredir.Config.Ready.{settle_reloads-IsSettled}

abbrev pub has_config : Option TlsConfig → Bool
has_config none = false
has_config (some config) = true

-- A host has a TLS configuration exactly if its protocol is DNS over TLS.
abbrev pub IsConfigured : UpstreamHost → Type 0
IsConfigured host = has_config host.tls ≡ str_eq host.proto (codes "tls")

other_proto :
    (p q : Str)
    → str_eq p q ≡ true
    → str_eq q (codes "tls") ≡ false
    → str_eq p (codes "tls") ≡ false
other_proto p q e n = let t = str_eq_sound p q e in rw t n

-- A host that InitDOH gives the protocol https.
https_host :
    (host host' : UpstreamHost) (content_type : Str) (proto : Str)
    → str_eq host.proto proto ≡ true
    → str_eq proto (codes "tls") ≡ false
    → ok (record host { proto = codes "https"; request_content_type = content_type }) ≡ ok host'
    → IsConfigured host
    → IsConfigured host'
https_host host host' content_type proto y n e h =
    subst IsConfigured (ok-injective e) (h ∙ other_proto host.proto proto y n)

init_doh-IsConfigured :
    (host host' : UpstreamHost) → init_doh host ≡ ok host' → IsConfigured host → IsConfigured host'
init_doh-IsConfigured host host' e h = elim (Bool-cases (has_suffix_doh host.proto)) [
  | inr n ↦
      let q : ok host ≡ ok host' = unfold init_doh in ground (arith, n) in
      subst IsConfigured (ok-injective q) h
  | inl y ↦ elim (Bool-cases (str_eq host.proto (codes "json-doh"))) [
    | inl j ↦
        https_host host host' (codes "application/dns-json") (codes "json-doh") j refl
          (unfold init_doh in ground (arith, y, j)) h
    | inr nj ↦ elim (Bool-cases (str_eq host.proto (codes "ietf-doh"))) [
      | inl i ↦
          https_host host host' (codes "application/dns-message") (codes "ietf-doh") i refl
            (unfold init_doh in ground (arith, y, nj, i)) h
      | inr ni ↦ elim (Bool-cases (str_eq host.proto (codes "doh"))) [
        | inl d ↦
            https_host host host' (codes "?/?") (codes "doh") d refl
              (unfold init_doh in ground (arith, y, nj, ni, d)) h
        | inr nd ↦ absurd (unfold init_doh in ground (arith, y, nj, ni, nd))
      ]
    ]
  ]
]

host_tls-has_config :
    (libs : SetupLibs) (u : Upstream) (proto addr name : Str) (tls : Option TlsConfig)
    → host_tls libs u proto addr name ≡ ok tls
    → has_config tls ≡ str_eq proto (codes "tls")
host_tls-has_config libs u proto addr name tls e = elim (Bool-cases (str_eq proto (codes "tls"))) [
  | inl y ↦
      let global = if host_port_is_ip_port libs.net addr then u.transport.tls.server_name else [] in
      let q : (own_server_name libs name global >>= λ n.
      ok (some (record { args = u.transport.tls.args; server_name = n })))
          ≡ ok tls =
        unfold host_tls in ground (arith, y) in
      let (n, p, r) =
        ok_of_bind (own_server_name libs name global)
          (λ n. ok (some (record { args = u.transport.tls.args; server_name = n }))) tls q in
      rw y (ap has_config (sym (ok-injective r)))
  | inr n ↦
      let q : ok none ≡ ok tls = unfold host_tls in ground (arith, n) in
      rw n (ap has_config (sym (ok-injective q)))
]

finish_host-IsConfigured :
    (libs : SetupLibs) (u : Upstream) (host host' : UpstreamHost)
    → finish_host libs u host ≡ ok host'
    → IsConfigured host'
finish_host-IsConfigured libs u host host' e =
    let addr = (split_by_byte host.addr b'@').0 in
    let (tls, p, q) =
      ok_of_bind (host_tls libs u host.proto addr (split_by_byte host.addr b'@').1)
        (with_settings u host addr) host' (unfold finish_host in e) in
    let h = host_tls-has_config libs u host.proto addr (split_by_byte host.addr b'@').1 tls p in
    init_doh-IsConfigured (settled addr tls) host' (unfold with_settings in q) h
  where
    settled : Str → Option TlsConfig → UpstreamHost
    settled addr tls = record host {
      addr = addr;
      recursion_desired = u.transport.recursion_desired;
      expire = u.transport.expire;
      tls = tls;
      client_net =
          if str_eq (proto_to_network host.proto) (codes "dns")
          then codes "udp"
          else proto_to_network host.proto;
    }

finish_hosts-IsConfigured :
    (libs : SetupLibs) (u : Upstream) (hosts hosts' : List UpstreamHost)
    → finish_hosts libs u hosts ≡ ok hosts'
    → All IsConfigured hosts'
unfolding finish_hosts
finish_hosts-IsConfigured libs u [] hosts' e =
    let t : [] ≡ hosts' = ok-injective e in subst (All IsConfigured) t tt
finish_hosts-IsConfigured libs u (host ∷ hosts) hosts' e =
    let (h, p, q) =
      ok_of_bind (finish_host libs u host) (λ h. finish_hosts libs u hosts >>= λ hs. ok (h ∷ hs))
        hosts' e in
    let (hs, r, s) = ok_of_bind (finish_hosts libs u hosts) (λ hs. ok (h ∷ hs)) hosts' q in
    subst (All IsConfigured) (ok-injective s)
      (finish_host-IsConfigured libs u host h p, finish_hosts-IsConfigured libs u hosts hs r)

pub finish-IsConfigured :
    (libs : SetupLibs) (u v : Upstream) → finish libs u ≡ ok v → All IsConfigured v.hosts
finish-IsConfigured libs u v e =
    let (x, p, q) =
      ok_of_bind (err_if (length u.hosts == 0))
        (λ _. finish_hosts libs u u.hosts >>= λ hosts.
          check_inline libs.names u.inline u.ignored >>= λ _.
          settle_reloads (record u { hosts = hosts }))
        v (unfold finish in e) in
    let (hosts, r, s) =
      ok_of_bind (finish_hosts libs u u.hosts)
        (λ hosts. check_inline libs.names u.inline u.ignored >>= λ _.
          settle_reloads (record u { hosts = hosts }))
        v q in
    let (y, a, b) =
      ok_of_bind (check_inline libs.names u.inline u.ignored)
        (λ _. settle_reloads (record u { hosts = hosts })) v s in
    let settled = settle_reloads-IsSettled (record u { hosts = hosts }) v b in
    rw settled.same_hosts (finish_hosts-IsConfigured libs u u.hosts hosts r)
