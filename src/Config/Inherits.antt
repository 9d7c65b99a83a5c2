-- ===== src/Config/Inherits.antt =====
-- The hosts take over the settings of their block.
use dnsredir.Base.{suc, Option, List, [], ◌∷◌, Str, ◌≡◌, refl, ap, arith, All, length}
use dnsredir.Base.Result.{ok_of_bind, ok-injective, Result, ok, err, crash, stuck, ◌>>=◌}
use dnsredir.DomainSet.{len}
use mathlib.Core.Path.{subst}
use dnsredir.Domain.{split_by_byte}
use dnsredir.Config.{SetupLibs, TlsConfig, UpstreamHost, Upstream}
use dnsredir.Config.Finish.{init_doh, host_tls, finish_host, with_settings, finish_hosts}

-- The host's own transport has the settings of the block.
abbrev pub Inherits : Upstream → UpstreamHost → Type 0
Inherits u host =
    (host.expire ≡ u.transport.expire) × (host.recursion_desired ≡ u.transport.recursion_desired)

init_doh-Inherits :
    (u : Upstream) (host host' : UpstreamHost)
    → init_doh host ≡ ok host'
    → Inherits u host
    → Inherits u host'
unfolding init_doh
init_doh-Inherits u host host' e h = ground arith

with_settings-Inherits :
    (u : Upstream) (host : UpstreamHost) (addr : Str) (r : Result (Option TlsConfig))
    (host' : UpstreamHost)
    → (r >>= with_settings u host addr) ≡ ok host'
    → Inherits u host'
unfolding with_settings
with_settings-Inherits u host addr (ok tls) host' e = ground arith
with_settings-Inherits u host addr err host' e = absurd (ground arith)
with_settings-Inherits u host addr crash host' e = absurd (ground arith)
with_settings-Inherits u host addr stuck host' e = absurd (ground arith)

finish_host-Inherits :
    (libs : SetupLibs) (u : Upstream) (host host' : UpstreamHost)
    → finish_host libs u host ≡ ok host'
    → Inherits u host'
finish_host-Inherits libs u host host' e =
    let addr = (split_by_byte host.addr b'@').0 in
    with_settings-Inherits u host addr
      (host_tls libs u host.proto addr (split_by_byte host.addr b'@').1) host'
      (unfold finish_host in e)

pub finish_hosts-Inherits :
    (libs : SetupLibs) (u : Upstream) (hosts hosts' : List UpstreamHost)
    → finish_hosts libs u hosts ≡ ok hosts'
    → All (Inherits u) hosts' × (length hosts' ≡ length hosts)
finish_hosts-Inherits libs u [] hosts' e =
    let q : ok [] ≡ ok hosts' = unfold finish_hosts in e in
    subst (λ l. All (Inherits u) l × (length l ≡ 0)) (ok-injective q) (tt, refl)
finish_hosts-Inherits libs u (host ∷ hosts) hosts' e =
    let (h, p, q) =
      ok_of_bind (finish_host libs u host) (λ h. finish_hosts libs u hosts >>= λ hs. ok (h ∷ hs))
        hosts' (unfold finish_hosts in e) in
    let (hs, r, s) = ok_of_bind (finish_hosts libs u hosts) (λ hs. ok (h ∷ hs)) hosts' q in
    let (all_rest, len) = finish_hosts-Inherits libs u hosts hs r in
    subst (λ l. All (Inherits u) l × (length l ≡ length (host ∷ hosts))) (ok-injective s)
      ((finish_host-Inherits libs u host h p, all_rest), ap suc len)
