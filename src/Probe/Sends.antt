-- ===== src/Probe/Sends.antt =====
-- The health check of a host that setup has prepared for DNS over HTTPS.
use dnsredir.Base.{ℕ, Bool, true, Option, none, some, ret, ◌>>=◌, ◌≡◌, refl, inr, arith}
use dnsredir.Base.Result.{ok}
use dnsredir.Config.{UpstreamHost}
use dnsredir.Config.Finish.{init_doh}
use dnsredir.HostPort.{has_suffix_doh}
use dnsredir.Doh.{Request, Reply, DohLibs, doh_exchange}
use dnsredir.Doh.Dispatch.{doh_exchange-Leaves}
use dnsredir.Probe.{is_doh, ClientAnswer, probe_request, forgive, is_error, doh_send, send}

init_doh-is_doh :
    (host host' : UpstreamHost)
    → has_suffix_doh host.proto ≡ true
    → init_doh host ≡ ok host'
    → is_doh host' ≡ true
unfolding init_doh is_doh
init_doh-is_doh host host' d e = ground arith

forgive-is_error :
    (sane : Reply → Bool) (o : Option Reply) → forgive sane o (is_error o) ≡ is_error o
unfolding forgive
forgive-is_error sane none = refl
forgive-is_error sane (some reply) = refl

-- The probe of a host that InitDOH has prepared ends without a panic, whatever the HTTP client answers, and
-- it passes exactly when the exchange over HTTPS gives a reply: no error is forgiven there, as no
-- message comes with one.
pub send-doh_exchange :
    (libs : DohLibs) (host host' : UpstreamHost) (coin : Bool) (sane : Reply → Bool) (id : ℕ)
    (answer : ClientAnswer) (elapsed : ℕ)
    → has_suffix_doh host.proto ≡ true
    → init_doh host ≡ ok host'
    → (reply : Option Reply) × (r : Request) × (doh_exchange libs host' coin (probe_request id)
        ≡ ret (reply, r))
      × (send libs host' coin sane id answer elapsed ≡ ret (is_error reply, elapsed))
unfolding send doh_send
send-doh_exchange libs host host' coin sane id answer elapsed d e =
    let ((reply, r), p, l) =
      doh_exchange-Leaves libs host host' coin (probe_request id) d e (inr (_, refl, refl, refl)) in
    (reply, r, p, rw (init_doh-is_doh host host' d e, p, ◌>>=◌, forgive-is_error sane reply) refl)
