-- ===== src/Probe.antt =====
-- The exchange of a health check in healthcheck.go: IsDOH, send, dohSend and udpWireFormatSend. A result is
-- whether there is an error, and the round trip time; the dns client and the clock are arguments.
pub mod Sends
use dnsredir.Base.{
  ℕ, Bool, true, false, not, ◌&&◌, ◌||◌, Option, none, some, List, [], ◌∷◌, if◌then◌else◌, ◌==◌,
  Str, codes, str_eq, Run, ret, ◌>>=◌,
}
use dnsredir.Config.{UpstreamHost}
use dnsredir.Doh.{Request, Reply, DohLibs, class_inet, type_ns, doh_exchange}

-- UpstreamHost.IsDOH
unfoldable pub is_doh : UpstreamHost → Bool
is_doh host = str_eq host.proto (codes "https")

-- What dns.Client.Exchange gives: a message, of which the Response bit and whether its opcode is a query
-- are read, the round trip time, and whether there is an error.
pub record ClientAnswer : Type 0 where
  pub msg : Option (Bool × Bool)
  pub rtt : ℕ
  pub has_error : Bool

-- The question of a probe under a drawn id; it has no writer.
abbrev pub probe_request : ℕ → Request
probe_request id = record {
  id = id;
  response = false;
  questions = record { name = codes "."; qtype = type_ns; qclass = class_inet } ∷ [];
  checking_disabled = false;
  edns_do = none;
  writer_size = none;
}

-- An error beside a message with a sane header is forgiven.
abbrev pub is_sane {ℓ} : {A : Type ℓ} → (A → Bool) → Option A → Bool
is_sane sane none = false
is_sane sane (some msg) = sane msg

unfoldable pub forgive {ℓ} : {A : Type ℓ} → (A → Bool) → Option A → Bool → Bool
forgive sane msg has_error = if has_error && is_sane sane msg then false else has_error

abbrev pub is_error : Option Reply → Bool
is_error none = true
is_error (some reply) = false

-- dohSend; dohExchange gives an error exactly when it gives no message. The test of the header of the
-- message is an argument.
unfoldable pub doh_send : DohLibs → UpstreamHost → Bool → (Reply → Bool) → ℕ → ℕ → Run (Bool × ℕ)
unfolding doh_exchange forgive
doh_send libs host coin sane id elapsed =
    doh_exchange libs host coin (probe_request id) >>= λ answer.
    ret (forgive sane (answer.0) (is_error (answer.0)), elapsed)

unfoldable pub udp_wire_format_send : ClientAnswer → ℕ → Bool × ℕ
unfolding forgive
udp_wire_format_send answer elapsed = (
  forgive (λ header. header.0 || header.1) answer.msg answer.has_error,
  (if answer.has_error && answer.rtt == 0 then elapsed else answer.rtt),
)

unfoldable pub send :
    DohLibs → UpstreamHost → Bool → (Reply → Bool) → ℕ → ClientAnswer → ℕ → Run (Bool × ℕ)
unfolding doh_send udp_wire_format_send is_doh
send libs host coin sane id answer elapsed =
    if is_doh host
    then doh_send libs host coin sane id elapsed
    else ret (udp_wire_format_send answer elapsed)
