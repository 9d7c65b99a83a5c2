-- ===== src/Config/Block.antt =====
-- parseBlock of upstream.go: one function for each case of its switch, and the parsers of arguments.
mod Args
unfoldable pub use Args.*
use dnsredir.Base.{
  ℕ, ◌-◌, Bool, true, false, not, ◌&&◌, Option, none, some, List, [], ◌∷◌, ◌++◌, length, take, drop,
  if◌then◌else◌, ltb, ◌==◌, Str, codes, str_eq, has_prefix,
}
use dnsredir.Base.Int.{pos, negsuc}
use dnsredir.Base.Result.{Result, ok, err, crash, ◌>>=◌, ◌>>◌, err_if, of_run, of_option}
use dnsredir.Domain.{string_to_domain, byte_is}
use dnsredir.Externals.{NameLibs}
use dnsredir.StringSet
use dnsredir.StringSet.{StringSet}
use dnsredir.DomainSet
use dnsredir.DomainSet.{DomainSet}
use dnsredir.Policy.{Policy, random, round_robin, sequential, spray}
use dnsredir.HostPort.{parts, missing_port, bad_address, host_port, split_transport_host}
use dnsredir.Config.{
  SetupLibs, UpstreamHost, Upstream, min_path_reload_interval, min_url_reload_interval,
  min_url_read_timeout, min_hc_interval, min_expire_interval, Directive, directive_of, pick,
  path_reload_dir, url_reload_dir, except_dir, spray_dir, policy_dir, max_fails_dir, max_retry_dir,
  health_check_dir, to_dir, expire_dir, tls_dir, tls_servername_dir, bootstrap_dir, ipset_dir,
  pf_dir, no_ipv6_dir, inline_dir,
}

unfoldable pub path_reload : SetupLibs → Upstream → List Str → Result Upstream
unfolding parse_duration
path_reload libs u args = do
  dur ← parse_duration libs args
  err_if (too_short dur min_path_reload_interval)
  ok (record u { path_reload = dur })

unfoldable pub url_reload : SetupLibs → Upstream → List Str → Result Upstream
unfolding parse_duration0
url_reload libs u (interval ∷ []) = do
  dur ← parse_duration0 libs interval
  err_if (too_short dur min_url_reload_interval)
  ok (record u { url_reload = dur })
url_reload libs u (interval ∷ timeout ∷ []) = do
  dur ← parse_duration0 libs interval
  err_if (too_short dur min_url_reload_interval)
  read_timeout ← parse_duration0 libs timeout
  err_if (ltb read_timeout min_url_read_timeout)
  ok (record u { url_read_timeout = read_timeout; url_reload = dur })
url_reload libs u _ = err

-- Names that Add refuses are only logged.
unfoldable pub add_names : NameLibs → DomainSet → List Str → Result DomainSet
add_names libs d [] = ok d
add_names libs d (name ∷ args) = do
  added ← of_run (DomainSet.add libs d name)
  add_names libs (added.0) args

unfoldable pub except : SetupLibs → Upstream → List Str → Result Upstream
unfolding add_names
except libs u [] = err
except libs u (name ∷ args) = do
  ignored ← add_names libs.names u.ignored (name ∷ args)
  ok (record u { ignored = ignored })

unfoldable pub set_spray : Upstream → List Str → Result Upstream
set_spray u [] = ok (record u { has_spray = true })
set_spray u (arg ∷ args) = err

abbrev pub supported_policies : List (Str × Option Policy)
supported_policies =
    (codes "random", some random)
    ∷ (codes "round_robin", some round_robin)
    ∷ (codes "sequential", some sequential)
    ∷ (codes "spray", some spray)
    ∷ []

unfoldable pub set_policy : Upstream → List Str → Result Upstream
unfolding pick
set_policy u (name ∷ []) = do
  policy ← of_option (pick none supported_policies name)
  ok (record u { policy = some policy })
set_policy u _ = err

unfoldable pub max_fails : SetupLibs → Upstream → List Str → Result Upstream
unfolding parse_int32
max_fails libs u args = do n ← parse_int32 libs args; ok (record u { max_fails = n })

unfoldable pub max_retry : SetupLibs → Upstream → List Str → Result Upstream
unfolding parse_int32
max_retry libs u args = do n ← parse_int32 libs args; ok (record u { max_retry = n })

-- An interval, and whether health checks ask for recursion.
unfoldable pub set_health_check : Upstream → ℕ → Bool → Upstream
set_health_check u dur recursion_desired = record u {
  check_interval = dur;
  transport = record u.transport { recursion_desired = recursion_desired };
}

unfoldable pub health_check : SetupLibs → Upstream → List Str → Result Upstream
unfolding parse_duration0 set_health_check
health_check libs u (interval ∷ []) = do
  dur ← parse_duration0 libs interval
  err_if (too_short dur min_hc_interval)
  ok (set_health_check u dur true)
health_check libs u (interval ∷ option ∷ []) = do
  dur ← parse_duration0 libs interval
  err_if (too_short dur min_hc_interval)
  err_if (not (str_eq option (codes "no_rec")))
  ok (set_health_check u dur false)
health_check libs u _ = err

-- The host that parseTo makes; the rest is set when the block is read.
abbrev pub new_host : Str → Str → UpstreamHost
new_host trans addr = record {
  proto = trans;
  addr = addr;
  recursion_desired = false;
  expire = 0;
  tls = none;
  client_net = [];
  request_content_type = [];
}

unfoldable pub to_hosts : (Str → Str) → List Str → List UpstreamHost
unfolding split_transport_host
to_hosts unicode_lower [] = []
to_hosts unicode_lower (host ∷ hosts) =
    let (trans, addr) = split_transport_host unicode_lower host in
    new_host trans addr ∷ to_hosts unicode_lower hosts

-- parseTo: the hosts of several lines are merged.
unfoldable pub parse_to : SetupLibs → Upstream → List Str → Result Upstream
unfolding host_port to_hosts
parse_to libs u [] = err
parse_to libs u (arg ∷ args) = do
  hosts ← host_port libs.net (arg ∷ args)
  ok (record u { hosts = u.hosts ++ to_hosts libs.net.unicode_lower hosts })

unfoldable pub expire : SetupLibs → Upstream → List Str → Result Upstream
unfolding parse_duration
expire libs u args = do
  dur ← parse_duration libs args
  err_if (too_short dur min_expire_interval)
  ok (record u { transport = record u.transport { expire = dur } })

-- The server name that was set before is kept.
unfoldable pub set_tls : SetupLibs → Upstream → List Str → Result Upstream
set_tls libs u args = do
  err_if (ltb 3 (length args))
  err_if (not (libs.new_tls_config args))
  ok (record u { transport = record u.transport { tls = record u.transport.tls { args = args } } })

unfoldable pub tls_servername : SetupLibs → Upstream → List Str → Result Upstream
tls_servername libs u (arg ∷ []) = do
  name ← of_option (string_to_domain libs.names.unicode_lower arg)
  ok (record u {
    transport = record u.transport { tls = record u.transport.tls { server_name = name } };
  })
tls_servername libs u _ = err

unfoldable pub parse_bootstrap : SetupLibs → Upstream → List Str → Result Upstream
unfolding bootstrap_list
parse_bootstrap libs u [] = err
parse_bootstrap libs u (arg ∷ args) = do
  list ← bootstrap_list libs (arg ∷ args)
  ok (record u { bootstrap = u.bootstrap ++ list })

unfoldable pub add_strings : StringSet → List Str → StringSet
add_strings set [] = set
add_strings set (name ∷ names) = add_strings (StringSet.add set name) names

-- ipsetParse of ipset_linux.go.
unfoldable pub ipset_parse : Upstream → List Str → Result Upstream
unfolding add_strings
ipset_parse u [] = err
ipset_parse u (name ∷ names) =
    let set : StringSet = elim u.ipset [ none ↦ [] | some set ↦ set ] in
    ok (record u { ipset = some (add_strings set (name ∷ names)) })

-- pfParse of pf_generic.go takes the arguments and warns.
unfoldable pub pf_parse : Upstream → List Str → Result Upstream
pf_parse u args = ok u

unfoldable pub set_no_ipv6 : Upstream → List Str → Result Upstream
set_no_ipv6 u [] = ok (record u { no_ipv6 = true })
set_no_ipv6 u (arg ∷ args) = err

-- The default case: an INLINE name, which must come before any except.
unfoldable pub add_inline : SetupLibs → Upstream → Str → List Str → Result Upstream
add_inline libs u dir (arg ∷ args) = err
add_inline libs u dir [] = do
  added ← of_run (DomainSet.add libs.names u.inline dir)
  err_if (not (added.1))
  err_if (not (DomainSet.len u.ignored == 0))
  ok (record u { inline = added.0 })

-- parseBlock, by the case that the directive's name selects.
unfoldable pub parse_directive : SetupLibs → Upstream → Str → List Str → Directive → Result Upstream
unfolding path_reload url_reload except set_spray set_policy max_fails max_retry health_check
    parse_to expire set_tls tls_servername parse_bootstrap ipset_parse pf_parse set_no_ipv6
    add_inline
parse_directive libs u dir args path_reload_dir = path_reload libs u args
parse_directive libs u dir args url_reload_dir = url_reload libs u args
parse_directive libs u dir args except_dir = except libs u args
parse_directive libs u dir args spray_dir = set_spray u args
parse_directive libs u dir args policy_dir = set_policy u args
parse_directive libs u dir args max_fails_dir = max_fails libs u args
parse_directive libs u dir args max_retry_dir = max_retry libs u args
parse_directive libs u dir args health_check_dir = health_check libs u args
parse_directive libs u dir args to_dir = parse_to libs u args
parse_directive libs u dir args expire_dir = expire libs u args
parse_directive libs u dir args tls_dir = set_tls libs u args
parse_directive libs u dir args tls_servername_dir = tls_servername libs u args
parse_directive libs u dir args bootstrap_dir = parse_bootstrap libs u args
parse_directive libs u dir args ipset_dir = ipset_parse u args
parse_directive libs u dir args pf_dir = pf_parse u args
parse_directive libs u dir args no_ipv6_dir = set_no_ipv6 u args
parse_directive libs u dir args inline_dir = add_inline libs u dir args

unfoldable pub parse_block : SetupLibs → Upstream → Str → List Str → Result Upstream
unfolding parse_directive directive_of
parse_block libs u dir args = parse_directive libs u dir args (directive_of dir)

-- The lines of a block: the loop over c.NextBlock.
unfoldable pub parse_blocks : SetupLibs → Upstream → List (Str × List Str) → Result Upstream
unfolding parse_block
parse_blocks libs u [] = ok u
parse_blocks libs u ((dir, args) ∷ lines) = do
  u' ← parse_block libs u dir args
  parse_blocks libs u' lines
