-- ===== src/Config/Bounds.antt =====
-- The durations and counts of an upstream stay in the documented ranges through every directive.
use dnsredir.Base.{ℕ, ◌≤◌, ◌⊎◌, List, [], ◌∷◌, Str, ◌≡◌, refl, arith}
use dnsredir.Base.Result.{ok-injective, Result, ok, err, crash, stuck, ◌>>=◌}
use mathlib.Core.Path.{subst}
use mathlib.Core.List.{◌++◌}
use dnsredir.HostPort.{host_port}
use dnsredir.Config.Block.{to_hosts, bootstrap_list}
use dnsredir.Config.{
  DomainSet, SetupLibs, Upstream, min_path_reload_interval, min_url_reload_interval,
  min_url_read_timeout, min_hc_interval, min_expire_interval, Directive, directive_of,
}
use dnsredir.Config.Block.{
  bootstrap_list, parse_int32, path_reload, url_reload, except, add_names, set_spray, set_policy,
  max_fails, max_retry, health_check, parse_to, expire, set_tls, tls_servername, parse_bootstrap,
  ipset_parse, set_no_ipv6, add_inline, parse_directive, parse_block, parse_blocks,
}

-- Off, or at least the minimum.
abbrev pub OffOrFrom : ℕ → ℕ → Type 0
OffOrFrom least dur = (dur ≡ 0) ⊎ (least ≤ dur)

pub record IsBounded (u : Upstream) : Type 0 where
  pub path_reload_bound : OffOrFrom min_path_reload_interval u.path_reload
  pub url_reload_bound : OffOrFrom min_url_reload_interval u.url_reload
  pub read_timeout_bound : min_url_read_timeout ≤ u.url_read_timeout
  pub check_interval_bound : OffOrFrom min_hc_interval u.check_interval
  pub expire_bound : OffOrFrom min_expire_interval u.transport.expire
  pub max_fails_bound : u.max_fails ≤ 0x7fffffff
  pub max_retry_bound : u.max_retry ≤ 0x7fffffff

-- The part of a result that an operation may have changed stays in range.
abbrev pub Keeps : Upstream → Result Upstream → Type 0
Keeps u r = (u' : Upstream) → r ≡ ok u' → IsBounded u → IsBounded u'

path_reload-IsBounded :
    (libs : SetupLibs) (u : Upstream) (args : List Str) → Keeps u (path_reload libs u args)
unfolding path_reload
path_reload-IsBounded libs u [] u' e b = ground arith
path_reload-IsBounded libs u (a ∷ []) u' e b = ground arith
path_reload-IsBounded libs u (a ∷ c ∷ args) u' e b = ground arith

url_reload-IsBounded :
    (libs : SetupLibs) (u : Upstream) (args : List Str) → Keeps u (url_reload libs u args)
unfolding url_reload
url_reload-IsBounded libs u [] u' e b = ground arith
url_reload-IsBounded libs u (a ∷ []) u' e b = ground arith
url_reload-IsBounded libs u (a ∷ c ∷ []) u' e b = ground arith
url_reload-IsBounded libs u (a ∷ c ∷ d ∷ args) u' e b = ground arith

except-IsBounded :
    (libs : SetupLibs) (u : Upstream) (args : List Str) → Keeps u (except libs u args)
unfolding except
except-IsBounded libs u [] u' e b = ground arith
except-IsBounded libs u (a ∷ args) u' e b = by_names (add_names libs.names u.ignored (a ∷ args)) e
  where
    by_names :
        (r : Result DomainSet) → (r >>= λ d. ok (record u { ignored = d })) ≡ ok u' → IsBounded u'
    by_names r q = ground arith

set_spray-IsBounded : (u : Upstream) (args : List Str) → Keeps u (set_spray u args)
unfolding set_spray
set_spray-IsBounded u [] u' e b = ground arith
set_spray-IsBounded u (a ∷ args) u' e b = ground arith

set_policy-IsBounded : (u : Upstream) (args : List Str) → Keeps u (set_policy u args)
unfolding set_policy
set_policy-IsBounded u [] u' e b = ground arith
set_policy-IsBounded u (a ∷ []) u' e b = ground arith
set_policy-IsBounded u (a ∷ c ∷ args) u' e b = ground arith

parse_int32-bound :
    (libs : SetupLibs) (args : List Str) (n : ℕ) → parse_int32 libs args ≡ ok n → n ≤ 0x7fffffff
unfolding parse_int32
parse_int32-bound libs [] n e = ground arith
parse_int32-bound libs (a ∷ []) n e = ground arith
parse_int32-bound libs (a ∷ c ∷ args) n e = ground arith

max_fails-IsBounded :
    (libs : SetupLibs) (u : Upstream) (args : List Str) → Keeps u (max_fails libs u args)
unfolding max_fails
max_fails-IsBounded libs u args u' e b = by_int (parse_int32 libs args) refl e
  where
    by_int :
        (r : Result ℕ)
        → parse_int32 libs args ≡ r
        → (r >>= λ n. ok (record u { max_fails = n })) ≡ ok u'
        → IsBounded u'
    by_int (ok n) p q = ground (arith, parse_int32-bound libs args n p)
    by_int _ p q = ground arith

max_retry-IsBounded :
    (libs : SetupLibs) (u : Upstream) (args : List Str) → Keeps u (max_retry libs u args)
unfolding max_retry
max_retry-IsBounded libs u args u' e b = by_int (parse_int32 libs args) refl e
  where
    by_int :
        (r : Result ℕ)
        → parse_int32 libs args ≡ r
        → (r >>= λ n. ok (record u { max_retry = n })) ≡ ok u'
        → IsBounded u'
    by_int (ok n) p q = ground (arith, parse_int32-bound libs args n p)
    by_int _ p q = ground arith

health_check-IsBounded :
    (libs : SetupLibs) (u : Upstream) (args : List Str) → Keeps u (health_check libs u args)
unfolding health_check
health_check-IsBounded libs u [] u' e b = ground arith
health_check-IsBounded libs u (a ∷ []) u' e b = ground arith
health_check-IsBounded libs u (a ∷ c ∷ []) u' e b = ground arith
health_check-IsBounded libs u (a ∷ c ∷ d ∷ args) u' e b = ground arith

-- An operation that hands a value on to a field without a range.
bind-IsBounded :
    {A : Type 0} (r : Result A) (f : A → Upstream) (u u' : Upstream)
    → ((a : A) → IsBounded (f a))
    → (r >>= λ a. ok (f a)) ≡ ok u'
    → IsBounded u'
bind-IsBounded (ok a) f u u' h e = subst IsBounded (ok-injective e) (h a)
bind-IsBounded err f u u' h e = absurd (ground arith)
bind-IsBounded crash f u u' h e = absurd (ground arith)
bind-IsBounded stuck f u u' h e = absurd (ground arith)

parse_to-IsBounded :
    (libs : SetupLibs) (u : Upstream) (args : List Str) → Keeps u (parse_to libs u args)
unfolding parse_to
parse_to-IsBounded libs u [] u' e b = ground arith
parse_to-IsBounded libs u (a ∷ args) u' e b =
    bind-IsBounded (host_port libs.net (a ∷ args))
      (λ hosts. record u { hosts = u.hosts ++ to_hosts libs.net.unicode_lower hosts }) u u'
      (λ hosts. omega arith) e

expire-IsBounded :
    (libs : SetupLibs) (u : Upstream) (args : List Str) → Keeps u (expire libs u args)
unfolding expire
expire-IsBounded libs u [] u' e b = ground arith
expire-IsBounded libs u (a ∷ []) u' e b = ground arith
expire-IsBounded libs u (a ∷ c ∷ args) u' e b = ground arith

set_tls-IsBounded :
    (libs : SetupLibs) (u : Upstream) (args : List Str) → Keeps u (set_tls libs u args)
unfolding set_tls
set_tls-IsBounded libs u args u' e b = ground arith

tls_servername-IsBounded :
    (libs : SetupLibs) (u : Upstream) (args : List Str) → Keeps u (tls_servername libs u args)
unfolding tls_servername
tls_servername-IsBounded libs u [] u' e b = ground arith
tls_servername-IsBounded libs u (a ∷ []) u' e b = ground arith
tls_servername-IsBounded libs u (a ∷ c ∷ args) u' e b = ground arith

parse_bootstrap-IsBounded :
    (libs : SetupLibs) (u : Upstream) (args : List Str) → Keeps u (parse_bootstrap libs u args)
unfolding parse_bootstrap
parse_bootstrap-IsBounded libs u [] u' e b = ground arith
parse_bootstrap-IsBounded libs u (a ∷ args) u' e b =
    bind-IsBounded (bootstrap_list libs (a ∷ args))
      (λ list. record u { bootstrap = u.bootstrap ++ list }) u u' (λ list. omega arith) e

ipset_parse-IsBounded : (u : Upstream) (args : List Str) → Keeps u (ipset_parse u args)
unfolding ipset_parse
ipset_parse-IsBounded u [] u' e b = ground arith
ipset_parse-IsBounded u (a ∷ args) u' e b = subst IsBounded (ok-injective e) (omega arith)

add_inline-IsBounded :
    (libs : SetupLibs) (u : Upstream) (dir : Str) (args : List Str)
    → Keeps u (add_inline libs u dir args)
unfolding add_inline
add_inline-IsBounded libs u dir (a ∷ args) u' e b = ground arith
add_inline-IsBounded libs u dir [] u' e b = ground arith

set_no_ipv6-IsBounded : (u : Upstream) (args : List Str) → Keeps u (set_no_ipv6 u args)
unfolding set_no_ipv6
set_no_ipv6-IsBounded u [] u' e b = ground arith
set_no_ipv6-IsBounded u (a ∷ args) u' e b = ground arith

parse_directive-IsBounded :
    (libs : SetupLibs) (u : Upstream) (dir : Str) (args : List Str) (which : Directive)
    → Keeps u (parse_directive libs u dir args which)
parse_directive-IsBounded libs u dir args Directive.path_reload_dir =
    unfold parse_directive in path_reload-IsBounded libs u args
parse_directive-IsBounded libs u dir args Directive.url_reload_dir =
    unfold parse_directive in url_reload-IsBounded libs u args
parse_directive-IsBounded libs u dir args Directive.except_dir =
    unfold parse_directive in except-IsBounded libs u args
parse_directive-IsBounded libs u dir args Directive.spray_dir =
    unfold parse_directive in set_spray-IsBounded u args
parse_directive-IsBounded libs u dir args Directive.policy_dir =
    unfold parse_directive in set_policy-IsBounded u args
parse_directive-IsBounded libs u dir args Directive.max_fails_dir =
    unfold parse_directive in max_fails-IsBounded libs u args
parse_directive-IsBounded libs u dir args Directive.max_retry_dir =
    unfold parse_directive in max_retry-IsBounded libs u args
parse_directive-IsBounded libs u dir args Directive.health_check_dir =
    unfold parse_directive in health_check-IsBounded libs u args
parse_directive-IsBounded libs u dir args Directive.to_dir =
    unfold parse_directive in parse_to-IsBounded libs u args
parse_directive-IsBounded libs u dir args Directive.expire_dir =
    unfold parse_directive in expire-IsBounded libs u args
parse_directive-IsBounded libs u dir args Directive.tls_dir =
    unfold parse_directive in set_tls-IsBounded libs u args
parse_directive-IsBounded libs u dir args Directive.tls_servername_dir =
    unfold parse_directive in tls_servername-IsBounded libs u args
parse_directive-IsBounded libs u dir args Directive.bootstrap_dir =
    unfold parse_directive in parse_bootstrap-IsBounded libs u args
parse_directive-IsBounded libs u dir args Directive.ipset_dir =
    unfold parse_directive in ipset_parse-IsBounded u args
parse_directive-IsBounded libs u dir args Directive.pf_dir =
    unfold parse_directive in λ u' e b. subst IsBounded (ok-injective e) b
parse_directive-IsBounded libs u dir args Directive.no_ipv6_dir =
    unfold parse_directive in set_no_ipv6-IsBounded u args
parse_directive-IsBounded libs u dir args Directive.inline_dir =
    unfold parse_directive in add_inline-IsBounded libs u dir args

-- A block that is accepted leaves every duration off or at least at its documented minimum, the read
-- timeout at its minimum or above, and the two counts in the int32 range, if they were so before.
pub parse_blocks-IsBounded :
    (libs : SetupLibs) (u : Upstream) (lines : List (Str × List Str)) (u' : Upstream)
    → parse_blocks libs u lines ≡ ok u'
    → IsBounded u
    → IsBounded u'
parse_blocks-IsBounded libs u [] u' e b =
    let q : ok u ≡ ok u' = unfold parse_blocks in e in subst IsBounded (ok-injective q) b
parse_blocks-IsBounded libs u ((dir, args) ∷ lines) u' e b =
    by_line (λ v. parse_blocks-IsBounded libs v lines) (parse_block libs u dir args) refl u'
      (step e) b
  where
    step :
        {u' : Upstream}
        → parse_blocks libs u ((dir, args) ∷ lines) ≡ ok u'
        → (parse_block libs u dir args >>= λ v. parse_blocks libs v lines) ≡ ok u'
    step e = unfold parse_blocks in e

    line : (v : Upstream) → parse_block libs u dir args ≡ ok v → IsBounded u → IsBounded v
    line v p b =
        parse_directive-IsBounded libs u dir args (directive_of dir) v (unfold parse_block in p) b

    by_line :
        ((v : Upstream) → Keeps v (parse_blocks libs v lines))
        → (r : Result Upstream) → parse_block libs u dir args ≡ r
        → (u' : Upstream) → (r >>= λ v. parse_blocks libs v lines) ≡ ok u'
        → IsBounded u
        → IsBounded u'
    by_line ih (ok v) p u' q b = ih v u' q (line v p b)
    by_line ih _ p u' q b = absurd (ground arith)
