-- ===== src/Config/Spares.antt =====
-- The directives of parseBlock that leave alone what FROM, INLINE and except set.
use dnsredir.Base.{List, [], ◌∷◌, ◌++◌, Str, ◌≡◌, arith}
use dnsredir.Base.Result.{Result, ok, err, crash, stuck, ◌>>=◌}
use dnsredir.HostPort.{host_port}
use dnsredir.Config.{SetupLibs, Upstream}
use dnsredir.Config.Block.{
  to_hosts, bootstrap_list, parse_int32, path_reload, url_reload, set_spray, set_policy, max_fails,
  max_retry, health_check, parse_to, expire, set_tls, tls_servername, parse_bootstrap, ipset_parse,
  set_no_ipv6,
}

-- The operation keeps what FROM, INLINE and except have set.
abbrev pub Spares : Upstream → Result Upstream → Type 0
Spares u r =
    (u' : Upstream)
    → r ≡ ok u'
    → (u'.match_any ≡ u.match_any)
      × (u'.items ≡ u.items)
      × (u'.inline ≡ u.inline)
      × (u'.ignored ≡ u.ignored)

pub bind-Spares :
    {A : Type 0} (r : Result A) (f : A → Result Upstream) (u : Upstream)
    → ((a : A) → Spares u (f a))
    → Spares u (r >>= f)
bind-Spares (ok a) f u h u' e = h a u' e
bind-Spares err f u h u' e = absurd (ground arith)
bind-Spares crash f u h u' e = absurd (ground arith)
bind-Spares stuck f u h u' e = absurd (ground arith)

pub path_reload-Spares :
    (libs : SetupLibs) (u : Upstream) (args : List Str) → Spares u (path_reload libs u args)
unfolding path_reload
path_reload-Spares libs u [] u' e = ground arith
path_reload-Spares libs u (a ∷ []) u' e = ground arith
path_reload-Spares libs u (a ∷ c ∷ args) u' e = ground arith

pub url_reload-Spares :
    (libs : SetupLibs) (u : Upstream) (args : List Str) → Spares u (url_reload libs u args)
unfolding url_reload
url_reload-Spares libs u [] u' e = ground arith
url_reload-Spares libs u (a ∷ []) u' e = ground arith
url_reload-Spares libs u (a ∷ c ∷ []) u' e = ground arith
url_reload-Spares libs u (a ∷ c ∷ d ∷ args) u' e = ground arith

pub set_spray-Spares : (u : Upstream) (args : List Str) → Spares u (set_spray u args)
unfolding set_spray
set_spray-Spares u [] u' e = ground arith
set_spray-Spares u (a ∷ args) u' e = ground arith

pub set_policy-Spares : (u : Upstream) (args : List Str) → Spares u (set_policy u args)
unfolding set_policy
set_policy-Spares u [] u' e = ground arith
set_policy-Spares u (a ∷ []) u' e = ground arith
set_policy-Spares u (a ∷ c ∷ args) u' e = ground arith

pub max_fails-Spares :
    (libs : SetupLibs) (u : Upstream) (args : List Str) → Spares u (max_fails libs u args)
unfolding max_fails
max_fails-Spares libs u args u' e =
    bind-Spares (parse_int32 libs args) (λ n. ok (record u { max_fails = n })) u
      (λ n v q. ground arith) u' e

pub max_retry-Spares :
    (libs : SetupLibs) (u : Upstream) (args : List Str) → Spares u (max_retry libs u args)
unfolding max_retry
max_retry-Spares libs u args u' e =
    bind-Spares (parse_int32 libs args) (λ n. ok (record u { max_retry = n })) u
      (λ n v q. ground arith) u' e

pub health_check-Spares :
    (libs : SetupLibs) (u : Upstream) (args : List Str) → Spares u (health_check libs u args)
unfolding health_check
health_check-Spares libs u [] u' e = ground arith
health_check-Spares libs u (a ∷ []) u' e = ground arith
health_check-Spares libs u (a ∷ c ∷ []) u' e = ground arith
health_check-Spares libs u (a ∷ c ∷ d ∷ args) u' e = ground arith

pub parse_to-Spares :
    (libs : SetupLibs) (u : Upstream) (args : List Str) → Spares u (parse_to libs u args)
unfolding parse_to
parse_to-Spares libs u [] u' e = ground arith
parse_to-Spares libs u (a ∷ args) u' e =
    bind-Spares (host_port libs.net (a ∷ args))
      (λ hosts. ok (record u { hosts = u.hosts ++ to_hosts libs.net.unicode_lower hosts })) u
      (λ n v q. ground arith) u' e

pub expire-Spares :
    (libs : SetupLibs) (u : Upstream) (args : List Str) → Spares u (expire libs u args)
unfolding expire
expire-Spares libs u [] u' e = ground arith
expire-Spares libs u (a ∷ []) u' e = ground arith
expire-Spares libs u (a ∷ c ∷ args) u' e = ground arith

pub set_tls-Spares :
    (libs : SetupLibs) (u : Upstream) (args : List Str) → Spares u (set_tls libs u args)
unfolding set_tls
set_tls-Spares libs u args u' e = ground arith

pub tls_servername-Spares :
    (libs : SetupLibs) (u : Upstream) (args : List Str) → Spares u (tls_servername libs u args)
unfolding tls_servername
tls_servername-Spares libs u [] u' e = ground arith
tls_servername-Spares libs u (a ∷ []) u' e = ground arith
tls_servername-Spares libs u (a ∷ c ∷ args) u' e = ground arith

pub parse_bootstrap-Spares :
    (libs : SetupLibs) (u : Upstream) (args : List Str) → Spares u (parse_bootstrap libs u args)
unfolding parse_bootstrap
parse_bootstrap-Spares libs u [] u' e = ground arith
parse_bootstrap-Spares libs u (a ∷ args) u' e =
    bind-Spares (bootstrap_list libs (a ∷ args))
      (λ list. ok (record u { bootstrap = u.bootstrap ++ list })) u (λ n v q. ground arith) u' e

pub ipset_parse-Spares : (u : Upstream) (args : List Str) → Spares u (ipset_parse u args)
unfolding ipset_parse
ipset_parse-Spares u [] u' e = ground arith
ipset_parse-Spares u (a ∷ args) u' e = ground arith

pub set_no_ipv6-Spares : (u : Upstream) (args : List Str) → Spares u (set_no_ipv6 u args)
unfolding set_no_ipv6
set_no_ipv6-Spares u [] u' e = ground arith
set_no_ipv6-Spares u (a ∷ args) u' e = ground arith
