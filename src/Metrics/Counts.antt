-- ===== src/Metrics/Counts.antt =====
-- What is counted of a request, and under which labels.
use dnsredir.Base.{
  ℕ, zero, suc, ◌+◌, Bool, true, false, not, Option, none, some, List, [], ◌∷◌, length,
  if◌then◌else◌, ◌==◌, Str, codes, Run, ret, panic, no_fuel, ◌>>=◌, ◌≡◌, refl, ap, ◌∙◌, arith,
}
use mathlib.Core.Path.{subst}
use dnsredir.Serve.{
  Exchanged, replied, cached_conn_closed, failed, Served, reply, format_error, no_healthy,
  upstream_error, World, exchange_loop, Attempts, out_of_time, over_limit, serve_loop, start, serve,
}
use dnsredir.Handler.{Backend}
use dnsredir.Metrics.{
  Metric, name_lookup_duration, request_duration, request_count, rcode_count, Sample, MetricLibs,
  observe_match, rcode_label, observe_reply, observe_served, observe_request,
}

-- What the Prometheus client documents: as many values as labels, or else it panics.
pub record MetricLaws (libs : MetricLibs) : Type 0 where
  pub labelled :
      (m : Metric) (values : List Str)
      → length values ≡ length m.labels
      → libs.with_label_values m values ≡ ret (m, values)

exchange_loop_gives :
    (fuel : ℕ) (w : World) (n k : ℕ) (r : Exchanged)
    → exchange_loop fuel w n k ≡ ret r
    → (j : ℕ) × (w.exchange n j ≡ r)
unfolding exchange_loop
exchange_loop_gives zero w n k r e = absurd (ground arith)
exchange_loop_gives (suc fuel) w n k r e =
    by_answer (exchange_loop_gives fuel w n (k + 1) r) (w.exchange n k) refl e
  where
    by_answer :
        (exchange_loop fuel w n (k + 1) ≡ ret r → (j : ℕ) × (w.exchange n j ≡ r))
        → (x : Exchanged) → w.exchange n k ≡ x
        → (elim x [
          | cached_conn_closed ↦ exchange_loop fuel w n (k + 1)
          | replied m ↦ ret (replied m)
          | failed m ↦ ret (failed m)
        ])
          ≡ ret r
        → (j : ℕ) × (w.exchange n j ≡ r)
    by_answer ih cached_conn_closed p q = ih q
    by_answer ih (replied m) p q = (k, p ∙ cc)
    by_answer ih (failed m) p q = (k, p ∙ cc)

-- The reply came from the host that the last attempt selected.
abbrev pub IsReplyOf : World → ℕ → Attempts → ℕ → Type 0
IsReplyOf w r s host =
    (w.select s.try_count ≡ some host) × ((k : ℕ) × (w.exchange s.try_count k ≡ replied r))

serve_loop_replied :
    (fuel inner : ℕ) (w : World) (max_retry max_fails : ℕ) (s t : Attempts) (r : ℕ)
    → serve_loop fuel inner w max_retry max_fails s ≡ ret (reply r, t)
    → (host : ℕ) × IsReplyOf w r t host
serve_loop_replied zero inner w max_retry max_fails s t r e =
    absurd (unfold serve_loop in ground arith)
serve_loop_replied (suc fuel) inner w max_retry max_fails s t r e =
    by_parts (λ s'. serve_loop_replied fuel inner w max_retry max_fails s' t r) (w.in_time n)
      (w.select n) refl (over_limit max_retry n) (exchange_loop inner w n 0) refl
      (unfold serve_loop in e)
  where
    n : ℕ
    n = s.try_count + 1

    s' : Attempts
    s' = record s { try_count = n }

    replied_with :
        (host : ℕ)
        → w.select n ≡ some host
        → (m k : ℕ) → w.exchange n k ≡ replied m
        → (y : Bool)
        → ◌≡◌ {A = Run (Served × Attempts)}
            (ret (if y then reply m else format_error, record s' { upstream_err = none }))
            (ret (reply r, t))
        → (host : ℕ) × IsReplyOf w r t host
    replied_with host f m k x false q = absurd (ground arith)
    replied_with host f m k x true q =
        let a : record s' { upstream_err = none } ≡ t = ground arith in
        let b : m ≡ r = ground arith in
        subst (λ v. (host : ℕ) × IsReplyOf w r v host) a (host, (f, (k, x ∙ ap replied b)))

    by_result :
        ((s'' : Attempts)
          → serve_loop fuel inner w max_retry max_fails s'' ≡ ret (reply r, t)
          → (host : ℕ) × IsReplyOf w r t host)
        → (host : ℕ) → w.select n ≡ some host
        → (x : Run Exchanged) → exchange_loop inner w n 0 ≡ x
        → ◌>>=◌ {B = Served × Attempts} x (λ result. elim result [
          | failed e ↦ serve_loop fuel inner w max_retry max_fails (record s' {
            upstream_err = some e;
            checked = if not (max_fails == 0) then host ∷ s.checked else s.checked;
          })
          | replied r ↦
              ret (if w.matches r then reply r else format_error, record s' { upstream_err = none })
          | cached_conn_closed ↦ no_fuel
        ])
          ≡ ret (reply r, t)
        → (host : ℕ) × IsReplyOf w r t host
    by_result ih host f (ret (failed m)) p q = ih _ q
    by_result ih host f (ret (replied m)) p q =
        let (k, x) = exchange_loop_gives inner w n 0 (replied m) p in
        replied_with host f m k x (w.matches m) q
    by_result ih host f (ret cached_conn_closed) p q = absurd (ground arith)
    by_result ih host f panic p q = absurd (ground arith)
    by_result ih host f no_fuel p q = absurd (ground arith)

    by_parts :
        ((s'' : Attempts)
          → serve_loop fuel inner w max_retry max_fails s'' ≡ ret (reply r, t)
          → (host : ℕ) × IsReplyOf w r t host)
        → (in_time : Bool) (o : Option ℕ) → w.select n ≡ o
        → (late : Bool) → (x : Run Exchanged) → exchange_loop inner w n 0 ≡ x
        → (elim in_time [
          | false ↦ out_of_time s
          | true ↦ elim o [
            | none ↦ ret (no_healthy, s')
            | some host ↦ elim late [
              | true ↦ ret (no_healthy, s')
              | false ↦ ◌>>=◌ {B = Served × Attempts} x (λ result. elim result [
                | failed e ↦ serve_loop fuel inner w max_retry max_fails (record s' {
                  upstream_err = some e;
                  checked = if not (max_fails == 0) then host ∷ s.checked else s.checked;
                })
                | replied r ↦ ret (
                  if w.matches r then reply r else format_error,
                  record s' { upstream_err = none },
                )
                | cached_conn_closed ↦ no_fuel
              ])
            ]
          ]
        ])
          ≡ ret (reply r, t)
        → (host : ℕ) × IsReplyOf w r t host
    by_parts ih false o f late x p q = absurd (unfold out_of_time in ground arith)
    by_parts ih true none f late x p q = absurd (ground arith)
    by_parts ih true (some host) f true x p q = absurd (ground arith)
    by_parts ih true (some host) f false x p q = by_result ih host f x p q

-- The samples of a request that was answered so: one lookup, and for a reply its duration, one request
-- and its code, each of the host that the reply came from.
abbrev pub AreCounted : MetricLibs → World → Served → Attempts → Run (List Sample) → Type 0
AreCounted libs w (reply r) s samples =
    (host : ℕ) × IsReplyOf w r s host
    × (samples
        ≡ ret (
            (name_lookup_duration, libs.server ∷ codes "1" ∷ [])
            ∷ (request_duration, libs.server ∷ libs.host_name host ∷ [])
            ∷ (request_count, libs.server ∷ libs.host_name host ∷ [])
            ∷ (
              rcode_count,
              libs.server ∷ libs.host_name host ∷ rcode_label libs (libs.rcode r) ∷ [],
            )
            ∷ []))
AreCounted libs w _ s samples =
    samples ≡ ret ((name_lookup_duration, libs.server ∷ codes "1" ∷ []) ∷ [])

observe_served-AreCounted :
    (libs : MetricLibs) (fuel inner : ℕ) (b : Backend) (answer : Served) (s : Attempts)
    → MetricLaws libs
    → serve fuel inner b.world b.max_retry b.max_fails ≡ ret (answer, s)
    → AreCounted libs b.world answer s (
        ret (name_lookup_duration, libs.server ∷ codes "1" ∷ []) >>= λ lookup.
        observe_served libs b.world answer s >>= λ samples. ret (lookup ∷ samples))
unfolding observe_served observe_reply
observe_served-AreCounted libs fuel inner b (reply r) s laws e =
    let (host, (f, x)) =
      serve_loop_replied fuel inner b.world b.max_retry b.max_fails start s r (unfold serve in e) in
    (
      host,
      (f, x),
      rw (f, observe_served)
          (rw
            (
              laws.labelled request_duration (libs.server ∷ libs.host_name host ∷ []) refl,
              laws.labelled request_count (libs.server ∷ libs.host_name host ∷ []) refl,
              laws.labelled rcode_count
                  (libs.server ∷ libs.host_name host ∷ rcode_label libs (libs.rcode r) ∷ []) refl,
            )
            refl),
    )
observe_served-AreCounted libs fuel inner b format_error s laws e = refl
observe_served-AreCounted libs fuel inner b no_healthy s laws e = refl
observe_served-AreCounted libs fuel inner b (upstream_error n) s laws e = refl

-- Under what the Prometheus client documents, no observation of ServeDNS panics. A request that no upstream takes
-- counts as one lookup without a match. One that an upstream takes counts as one with a match; and if
-- it is answered with a reply, as one request with the duration and the code of the reply under the name of the host
-- that the last attempt selected, from which the reply came.
pub observe_request-AreCounted :
    (libs : MetricLibs) (fuel inner : ℕ) (b : Backend) (answer : Served) (s : Attempts)
    → MetricLaws libs
    → serve fuel inner b.world b.max_retry b.max_fails ≡ ret (answer, s)
    → (observe_request fuel inner libs none
        ≡ ret ((name_lookup_duration, libs.server ∷ codes "0" ∷ []) ∷ []))
      × AreCounted libs b.world answer s (observe_request fuel inner libs (some b))
unfolding observe_request observe_match
observe_request-AreCounted libs fuel inner b answer s laws e = (
  rw (laws.labelled name_lookup_duration (libs.server ∷ codes "0" ∷ []) refl) refl,
  rw (laws.labelled name_lookup_duration (libs.server ∷ codes "1" ∷ []) refl, e)
      (observe_served-AreCounted libs fuel inner b answer s laws e),
)
