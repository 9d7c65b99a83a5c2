-- ===== src/Config/Finish.antt =====
-- parseFrom and newReloadableUpstream of upstream.go, with InitDOH of healthcheck.go as far as it sets
-- the host's protocol and content type.
use dnsredir.Base.{
  Bool, true, false, not, ◌&&◌, Option, none, some, List, [], ◌∷◌, length, if◌then◌else◌, ltb, ◌==◌,
  Str, codes, str_eq, index, any, ret, panic, no_fuel,
}
use dnsredir.Base.Result.{Result, ok, err, crash, stuck, ◌>>=◌, ◌>>◌, err_if, of_option}
use dnsredir.Domain.{string_to_domain, split_by_byte}
use dnsredir.Externals.{NameLibs}
use dnsredir.DomainSet
use dnsredir.DomainSet.{DomainSet}
use dnsredir.NameList.{NameItem, path_type, url_type, last, new_items}
use dnsredir.HostPort.{has_suffix_doh, host_port_is_ip_port}
use dnsredir.Config.{SetupLibs, TlsConfig, UpstreamHost, Upstream, initial}
use dnsredir.Config.Block.{parse_blocks}

-- strings.Index(from, "://") > 0
abbrev pub has_scheme : Str → Bool
has_scheme from = elim (index from (codes "://")) [ none ↦ false | some i ↦ ltb 0 i ]

unfoldable pub parse_from : SetupLibs → Upstream → List Str → Result Upstream
unfolding new_items
parse_from libs u forms =
    if length forms == 0
    then err
    else if length forms == 1 && any (λ from. str_eq from (codes ".")) forms
    then ok (record u { match_any = true })
    else do
      err_if (any (λ from. not (has_scheme from) && libs.stat_error from) forms)
      items ← of_option (new_items libs.names.unicode_lower forms)
      ok (record u { items = items })

unfoldable pub proto_to_network : Str → Str
proto_to_network proto = if str_eq proto (codes "tls") then codes "tcp-tls" else proto

-- The server name behind the '@' takes precedence.
unfoldable pub own_server_name : SetupLibs → Str → Str → Result Str
own_server_name libs [] global = ok global
own_server_name libs (at ∷ name) global = of_option (string_to_domain libs.names.unicode_lower name)

unfoldable pub host_tls : SetupLibs → Upstream → Str → Str → Str → Result (Option TlsConfig)
unfolding own_server_name host_port_is_ip_port
host_tls libs u proto addr tls_server_name =
    if str_eq proto (codes "tls")
    then (do
      name ←
          own_server_name libs tls_server_name
            (if host_port_is_ip_port libs.net addr then u.transport.tls.server_name else [])
      ok (some (record { args = u.transport.tls.args; server_name = name })))
    else ok none

-- InitDOH: a DNS over HTTPS host gets its content type, and its protocol becomes https.
unfoldable pub init_doh : UpstreamHost → Result UpstreamHost
init_doh host =
    if not (has_suffix_doh host.proto)
    then ok host
    else if str_eq host.proto (codes "json-doh")
    then ok
        (record host { proto = codes "https"; request_content_type = codes "application/dns-json" })
    else if str_eq host.proto (codes "ietf-doh")
    then ok (record host {
      proto = codes "https";
      request_content_type = codes "application/dns-message";
    })
    else if str_eq host.proto (codes "doh")
    then ok (record host { proto = codes "https"; request_content_type = codes "?/?" })
    else crash

-- The settings that a host takes over from the block.
unfoldable pub with_settings :
    Upstream → UpstreamHost → Str → Option TlsConfig → Result UpstreamHost
unfolding proto_to_network init_doh
with_settings u host addr tls =
    let network = proto_to_network host.proto in
    init_doh (record host {
      addr = addr;
      recursion_desired = u.transport.recursion_desired;
      expire = u.transport.expire;
      tls = tls;
      client_net = if str_eq network (codes "dns") then codes "udp" else network;
    })

-- The body of the loop over the hosts.
unfoldable pub finish_host : SetupLibs → Upstream → UpstreamHost → Result UpstreamHost
unfolding split_by_byte host_tls with_settings
finish_host libs u host =
    let (addr, tls_server_name) = split_by_byte host.addr b'@' in
    host_tls libs u host.proto addr tls_server_name >>= with_settings u host addr

unfoldable pub finish_hosts : SetupLibs → Upstream → List UpstreamHost → Result (List UpstreamHost)
unfolding finish_host
finish_hosts libs u [] = ok []
finish_hosts libs u (host ∷ hosts) = do
  host' ← finish_host libs u host
  hosts' ← finish_hosts libs u hosts
  ok (host' ∷ hosts')

-- What stops the walk over the INLINE names: one that except holds, or a panic of Match.
pub data Conflict : Type 0 where
  conflict panicked out_of_fuel : Conflict

unfoldable pub conflict_of : NameLibs → DomainSet → Str → Option Conflict
conflict_of names ignored name = elim (DomainSet.match names ignored name) [
  | ret found ↦ if found then some conflict else none
  | panic ↦ some panicked
  | no_fuel ↦ some out_of_fuel
]

unfoldable pub walk_result : Option Conflict → Result (Unit {0})
walk_result none = ok tt
walk_result (some conflict) = err
walk_result (some panicked) = crash
walk_result (some out_of_fuel) = stuck

unfoldable pub check_inline : NameLibs → DomainSet → DomainSet → Result (Unit {0})
unfolding conflict_of walk_result
check_inline names inline ignored =
    walk_result (DomainSet.for_each_domain (conflict_of names ignored) inline)

-- The loop over the items that looks for paths and URLs; it panics at a nil item, and at the dummy
-- type.
unfoldable pub item_types : List (Option NameItem) → Result (Bool × Bool)
item_types [] = ok (false, false)
item_types (none ∷ items) = crash
item_types (some item ∷ items) =
    let rest = item_types items in
    elim (item.which_type) [
      | path_type ↦ (do found ← rest; ok (true, found.1))
      | url_type ↦ (do found ← rest; ok (found.0, true))
      | last ↦ crash
    ]

-- The reloads are switched off where there is nothing to reload; the flag is matchAny.
unfoldable pub settle : Upstream → Bool → Result Upstream
unfolding item_types
settle u true = do
  err_if (not (DomainSet.len u.inline == 0))
  ok (record u { path_reload = 0; url_reload = 0 })
settle u false = do
  found ← item_types u.items
  ok (record u {
    path_reload = if found.0 then u.path_reload else 0;
    url_reload = if found.1 then u.url_reload else 0;
  })

unfoldable pub settle_reloads : Upstream → Result Upstream
unfolding settle
settle_reloads u = settle u u.match_any

-- newReloadableUpstream behind the block: the hosts, the INLINE names and the reloads.
unfoldable pub finish : SetupLibs → Upstream → Result Upstream
unfolding finish_hosts check_inline settle_reloads
finish libs u = do
  err_if (length u.hosts == 0)
  hosts ← finish_hosts libs u u.hosts
  check_inline libs.names u.inline u.ignored
  settle_reloads (record u { hosts = hosts })

-- newReloadableUpstream on the arguments of FROM and the lines of the block.
unfoldable pub new_upstream : SetupLibs → List Str → List (Str × List Str) → Result Upstream
unfolding parse_from parse_blocks finish
new_upstream libs forms lines = do
  u ← parse_from libs initial forms
  u' ← parse_blocks libs u lines
  finish libs u'
