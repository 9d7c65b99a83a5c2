-- ===== src/Tests/Fails.antt =====
-- A host that two failures take down.
use dnsredir.Base.{true, ◌≡◌, ◌≤◌, refl, arith, false}
use dnsredir.Fails.{
  Limits, Counter, fresh, is_down, note_failure, check, exchange_failed, tick, probe_failed,
}
use dnsredir.Fails.Down.{History, start, next, down-failures}

abbrev two_fails : Limits
two_fails = record { max_fails = 2; check_interval = 1 }

-- After a failed exchange, and while a probe is under way.
abbrev probed : Counter
probed = record (note_failure two_fails fresh) { probing = 1 }

abbrev failed_twice : Counter
failed_twice = check false 0 probed

story : History two_fails failed_twice 2 3
unfolding note_failure check
story =
    next probed failed_twice 1 2
      (next (note_failure two_fails fresh) probed 1 1
        (next fresh (note_failure two_fails fresh) 0 0 start (exchange_failed fresh))
        (tick (note_failure two_fails fresh) refl))
      (probe_failed probed 0 refl)

goes_down : is_down two_fails failed_twice ≡ true
unfolding is_down note_failure check
goes_down = refl

down-failures_example : two_fails.max_fails ≤ 2
down-failures_example = down-failures two_fails failed_twice 2 3 story (omega arith) goes_down
