-- ===== src/Tests/Metrics.antt =====
-- The samples of a request that the second host answers.
use dnsredir.Base.{none, some, [], ◌∷◌, codes, ret, ◌≡◌, refl}
use dnsredir.Serve.{reply, Attempts}
use dnsredir.Handler.{Backend}
use dnsredir.Metrics.{MetricLibs, name_lookup_duration, observe_request}
use dnsredir.Metrics.Counts.{MetricLaws, AreCounted, observe_request-AreCounted}
use dnsredir.Tests.Hosts.{second_answers, answers_second}

abbrev counters : MetricLibs
counters = record {
  with_label_values = λ m values. ret (m, values);
  rcode_to_string = λ code. none;
  itoa = λ n. codes "0";
  server = codes "dns://:53";
  host_name = λ host. host ∷ [];
  rcode = λ r. 0;
}

counters-MetricLaws : MetricLaws counters
counters-MetricLaws = record { labelled = λ m values e. refl }

abbrev second_backend : Backend
second_backend = record {
  ipset = none;
  pf = none;
  max_retry = 10;
  max_fails = 3;
  world = second_answers;
}

abbrev ended : Attempts
ended = record { upstream_err = none; try_count = 2; checked = 1 ∷ [] }

observe_request-AreCounted_example :
    (observe_request 12 2 counters none
      ≡ ret ((name_lookup_duration, codes "dns://:53" ∷ codes "0" ∷ []) ∷ []))
    × AreCounted counters second_answers
        (reply 42)
        ended
        (observe_request 12 2 counters (some second_backend))
observe_request-AreCounted_example =
    observe_request-AreCounted counters 12 2 second_backend (reply 42) ended counters-MetricLaws
      answers_second
