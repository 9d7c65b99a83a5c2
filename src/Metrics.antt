-- ===== src/Metrics.antt =====
-- The metrics of metrics.go, and what ServeDNS, Dnsredir.match, Check and Down observe with them. The Prometheus
-- client is an argument; a sample is the metric with the values of its labels.
pub mod Counts
use dnsredir.Base.{
  ℕ, Bool, true, false, Option, none, some, List, [], ◌∷◌, Str, codes, Run, ret, panic, no_fuel,
  ◌>>=◌,
}
use dnsredir.Serve.{Served, reply, format_error, no_healthy, upstream_error, World, Attempts, serve}
use dnsredir.Handler.{Backend}

-- A metric's name and the names of its labels.
pub record Metric : Type 0 where
  pub name : Str
  pub labels : List Str

abbrev pub name_lookup_duration : Metric
name_lookup_duration = record {
  name = codes "name_lookup_duration_ms";
  labels = codes "server" ∷ codes "matched" ∷ [];
}

abbrev pub request_duration : Metric
request_duration = record {
  name = codes "request_duration_ms";
  labels = codes "server" ∷ codes "to" ∷ [];
}

abbrev pub request_count : Metric
request_count = record {
  name = codes "request_count_total";
  labels = codes "server" ∷ codes "to" ∷ [];
}

abbrev pub rcode_count : Metric
rcode_count = record {
  name = codes "response_rcode_count_total";
  labels = codes "server" ∷ codes "to" ∷ codes "rcode" ∷ [];
}

abbrev pub health_check_failure_count : Metric
health_check_failure_count = record {
  name = codes "hc_failure_count_total";
  labels = codes "to" ∷ [];
}

abbrev pub health_check_all_down_count : Metric
health_check_all_down_count = record {
  name = codes "hc_all_down_count_total";
  labels = codes "to" ∷ [];
}

abbrev pub Sample : Type 0
Sample = Metric × List Str

-- with_label_values: what WithLabelValues gives. rcode_to_string: the map of miekg/dns. itoa: strconv.Itoa.
-- server: metrics.WithServer. host_name: Name of a host. rcode: a reply's code.
pub record MetricLibs : Type 0 where
  pub with_label_values : Metric → List Str → Run Sample
  pub rcode_to_string : ℕ → Option Str
  pub itoa : ℕ → Str
  pub server : Str
  pub host_name : ℕ → Str
  pub rcode : ℕ → ℕ

-- What Dnsredir.match observes.
unfoldable pub observe_match : MetricLibs → Bool → Run Sample
observe_match libs true = libs.with_label_values name_lookup_duration (libs.server ∷ codes "1" ∷ [])
observe_match libs false =
    libs.with_label_values name_lookup_duration (libs.server ∷ codes "0" ∷ [])

unfoldable pub rcode_label : MetricLibs → ℕ → Str
rcode_label libs code = elim (libs.rcode_to_string code) [ some rc ↦ rc | none ↦ libs.itoa code ]

-- What ServeDNS observes behind the writing of a reply.
unfoldable pub observe_reply : MetricLibs → ℕ → ℕ → Run (List Sample)
unfolding rcode_label
observe_reply libs host r = do
  duration ← libs.with_label_values request_duration (libs.server ∷ libs.host_name host ∷ [])
  count ← libs.with_label_values request_count (libs.server ∷ libs.host_name host ∷ [])
  codes ←
      libs.with_label_values rcode_count
        (libs.server ∷ libs.host_name host ∷ rcode_label libs (libs.rcode r) ∷ [])
  ret (duration ∷ count ∷ codes ∷ [])

-- The host is the one that the last attempt selected.
unfoldable pub observe_served : MetricLibs → World → Served → Attempts → Run (List Sample)
unfolding observe_reply
observe_served libs w (reply r) s = elim (w.select (s.try_count)) [
  | none ↦ panic
  | some host ↦ observe_reply libs host r
]
observe_served libs w format_error s = ret []
observe_served libs w no_healthy s = ret []
observe_served libs w (upstream_error e) s = ret []

-- The samples of one request, by the upstream that match gives.
unfoldable pub observe_request : ℕ → ℕ → MetricLibs → Option Backend → Run (List Sample)
unfolding observe_match observe_served serve
observe_request fuel inner libs none = observe_match libs false >>= λ lookup. ret (lookup ∷ [])
observe_request fuel inner libs (some b) = observe_match libs true >>= λ lookup.
    serve fuel inner b.world b.max_retry b.max_fails >>= λ served.
    observe_served libs b.world (served.0) (served.1) >>= λ samples. ret (lookup ∷ samples)

-- What Check observes of a probe that failed, and Down of a host that is down.
unfoldable pub observe_check_failure : MetricLibs → ℕ → Run Sample
observe_check_failure libs host =
    libs.with_label_values health_check_failure_count (libs.host_name host ∷ [])

unfoldable pub observe_down : MetricLibs → ℕ → Run Sample
observe_down libs host =
    libs.with_label_values health_check_all_down_count (libs.host_name host ∷ [])
