-- ===== src/Config.antt =====
-- The configuration of an upstream in upstream.go: the record that setup fills, and the directives
-- of parseBlock. The Caddy controller is the list of its blocks' lines: a directive's name with its
-- arguments. Durations are in nanoseconds. ipset is the Linux build's, pf the build's without pf.
pub mod Block
pub mod Finish
pub mod Bounds
pub mod Spares
pub mod Gains
pub mod Sets
pub mod Made
pub mod PlainHttp
pub mod Inherits
pub mod Ready
use dnsredir.Base.{
  ℕ, suc, zero, ◌*◌, ◌^◌, Bool, true, false, Option, none, some, List, [], ◌∷◌, ◌++◌, length,
  if◌then◌else◌, Str, codes, str_eq,
}
use dnsredir.Base.Int.{ℤ}
use dnsredir.Externals.{NameLibs}
use dnsredir.StringSet.{StringSet}
use dnsredir.DomainSet
use dnsredir.DomainSet.{DomainSet}
use dnsredir.NameList.{NameItem}
use dnsredir.Policy.{Policy}
use dnsredir.HostPort.{NetLibs}

-- parse_duration: time.ParseDuration, `none` for an error. atoi: strconv.Atoi. stat_error: os.Stat of
-- a form's path, under the server's root, fails otherwise than by absence. new_tls_config: whether
-- the TLS package takes the arguments.
pub record SetupLibs : Type 0 where
  pub names : NameLibs
  pub net : NetLibs
  pub parse_duration : Str → Option ℤ
  pub atoi : Str → Option ℤ
  pub stat_error : Str → Bool
  pub new_tls_config : List Str → Bool

-- The fields of tls.Config that setup sets: by NewTLSConfigFromArgs, from its arguments, and the name.
pub record TlsConfig : Type 0 where
  pub args : List Str
  pub server_name : Str

-- The settings of a Transport.
pub record TransportConfig : Type 0 where
  pub recursion_desired : Bool
  pub expire : ℕ
  pub tls : TlsConfig

-- A host with the settings of its own Transport and of its health check client.
pub record UpstreamHost : Type 0 where
  pub proto : Str
  pub addr : Str
  pub recursion_desired : Bool
  pub expire : ℕ
  pub tls : Option TlsConfig
  pub client_net : Str
  pub request_content_type : Str

-- reloadableUpstream with its embedded NameList and HealthCheck.
pub record Upstream : Type 0 where
  pub match_any : Bool
  pub items : List (Option NameItem)
  pub path_reload : ℕ
  pub url_reload : ℕ
  pub url_read_timeout : ℕ
  pub inline : DomainSet
  pub ignored : DomainSet
  pub hosts : List UpstreamHost
  pub policy : Option Policy
  pub has_spray : Bool
  pub max_fails : ℕ
  pub check_interval : ℕ
  pub transport : TransportConfig
  pub bootstrap : List Str
  pub ipset : Option StringSet
  pub no_ipv6 : Bool
  pub max_retry : ℕ

abbrev pub second : ℕ
second = 1000000000

abbrev pub min_path_reload_interval : ℕ
min_path_reload_interval = 1 * second

abbrev pub min_url_reload_interval : ℕ
min_url_reload_interval = 15 * second

abbrev pub min_url_read_timeout : ℕ
min_url_read_timeout = 3 * second

abbrev pub min_hc_interval : ℕ
min_hc_interval = 1 * second

abbrev pub min_expire_interval : ℕ
min_expire_interval = 1 * second

abbrev pub default_conn_expire : ℕ
default_conn_expire = 15 * second

-- The record that newReloadableUpstream starts from.
abbrev pub initial : Upstream
initial = record {
  match_any = false;
  items = [];
  path_reload = 2 * second;
  url_reload = 1800 * second;
  url_read_timeout = 15 * second;
  inline = DomainSet.empty;
  ignored = DomainSet.empty;
  hosts = [];
  policy = none;
  has_spray = false;
  max_fails = 3;
  check_interval = 2 * second;
  transport = record {
    recursion_desired = true;
    expire = default_conn_expire;
    tls = record { args = []; server_name = [] };
  };
  bootstrap = [];
  ipset = none;
  no_ipv6 = false;
  max_retry = 10;
}

-- The cases of the switch in parseBlock.
pub data Directive : Type 0 where
  path_reload_dir url_reload_dir except_dir spray_dir policy_dir max_fails_dir max_retry_dir :
      Directive
  health_check_dir to_dir expire_dir tls_dir tls_servername_dir bootstrap_dir ipset_dir : Directive
  pf_dir no_ipv6_dir inline_dir : Directive

abbrev pub directives : List (Str × Directive)
directives =
    (codes "path_reload", path_reload_dir)
    ∷ (codes "url_reload", url_reload_dir)
    ∷ (codes "except", except_dir)
    ∷ (codes "spray", spray_dir)
    ∷ (codes "policy", policy_dir)
    ∷ (codes "max_fails", max_fails_dir)
    ∷ (codes "max_retry", max_retry_dir)
    ∷ (codes "health_check", health_check_dir)
    ∷ (codes "to", to_dir)
    ∷ (codes "expire", expire_dir)
    ∷ (codes "tls", tls_dir)
    ∷ (codes "tls_servername", tls_servername_dir)
    ∷ (codes "bootstrap", bootstrap_dir)
    ∷ (codes "ipset", ipset_dir)
    ∷ (codes "pf", pf_dir)
    ∷ (codes "no_ipv6", no_ipv6_dir)
    ∷ []

-- The first entry whose key is the text; `default` is the switch's last case.
unfoldable pub pick {ℓ} : {A : Type ℓ} → A → List (Str × A) → Str → A
pick default [] s = default
pick default ((key, a) ∷ table) s =
    let rest = pick default table s in if str_eq s key then a else rest

unfoldable pub directive_of : Str → Directive
unfolding pick
directive_of dir = pick inline_dir directives dir
