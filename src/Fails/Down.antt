-- ===== src/Fails/Down.antt =====
-- When a host may be down: what its fail counter says of the failures since the last passed probe.
use dnsredir.Base.{ℕ, ◌+◌, ◌%◌, ◌≤◌, ◌<◌, true, ◌||◌, ◌==◌, ◌≡◌, refl, arith, Bool-cases, inl, inr}
use dnsredir.Fails.{
  int32_mod, Limits, Counter, fresh, is_down, note_failure, wake, check, Step, exchange_failed,
  woken, tick, probe_passed, probe_failed,
}

-- The failed exchanges and probes since the last probe that passed.
abbrev pub failures_after : {limits : Limits} {c d : Counter} → Step limits c d → ℕ → ℕ
failures_after (exchange_failed c) n = n + 1
failures_after (woken c before after fails e) n = n
failures_after (tick c e) n = n
failures_after (probe_passed c rest e) n = 0
failures_after (probe_failed c rest e) n = n + 1

-- The runs from a fresh host, with the failures since the last passed probe and the steps so far.
pub data History (limits : Limits) : Counter → ℕ → ℕ → Type 0 where
  start : History limits fresh 0 0
  next :
      (c d : Counter) (failures steps : ℕ)
      → History limits c failures steps
      → (s : Step limits c d) → History limits d (failures_after s failures) (steps + 1)

-- The counter, and `woke` goroutines that have counted it down, come to no more than the failures.
pub record IsCounted (c : Counter) (failures steps : ℕ) : Type 0 where
  pub woke : ℕ
  pub counted : ℕ
  pub fits : c.fails < int32_mod
  pub sum : (c.fails + woke) % int32_mod ≡ counted % int32_mod
  pub few : counted ≤ failures
  pub short : woke + counted ≤ steps

IsCounted-Step :
    (limits : Limits) {c d : Counter} (failures steps : ℕ) (s : Step limits c d)
    → IsCounted c failures steps
    → IsCounted d (failures_after s failures) (steps + 1)
IsCounted-Step limits failures steps (exchange_failed c) i =
    elim (Bool-cases (limits.check_interval == 0 || limits.max_fails == 0)) [
      | inl e ↦
          unfold note_failure in
          rw e (record {
            woke = i.woke;
            counted = i.counted;
            fits = i.fits;
            sum = i.sum;
            few = omega (arith, i.few);
            short = omega (arith, i.short);
          })
      | inr e ↦
          unfold note_failure in
          rw e (record {
            woke = i.woke;
            counted = i.counted + 1;
            fits = omega arith;
            sum = omega (arith, i.sum);
            few = omega (arith, i.few);
            short = omega (arith, i.short);
          })
    ]
IsCounted-Step limits failures steps (woken c before after fails e) i =
    unfold wake in
    record {
      woke = i.woke + 1;
      counted = i.counted;
      fits = omega arith;
      sum = omega (arith, i.sum, i.fits);
      few = i.few;
      short = omega (arith, i.short);
    }
IsCounted-Step limits failures steps (tick c e) i = record {
  woke = i.woke;
  counted = i.counted;
  fits = i.fits;
  sum = i.sum;
  few = i.few;
  short = omega (arith, i.short);
}
IsCounted-Step limits failures steps (probe_passed c rest e) i =
    unfold check in
    record {
      woke = 0;
      counted = 0;
      fits = omega arith;
      sum = refl;
      few = omega arith;
      short = omega arith;
    }
IsCounted-Step limits failures steps (probe_failed c rest e) i =
    unfold check in
    record {
      woke = i.woke;
      counted = i.counted + 1;
      fits = omega arith;
      sum = omega (arith, i.sum);
      few = omega (arith, i.few);
      short = omega (arith, i.short);
    }

pub History-IsCounted :
    (limits : Limits) {c : Counter} {failures steps : ℕ}
    → History limits c failures steps
    → IsCounted c failures steps
History-IsCounted limits start = record {
  woke = 0;
  counted = 0;
  fits = omega arith;
  sum = refl;
  few = omega arith;
  short = omega arith;
}
History-IsCounted limits (next b d f n r s) =
    IsCounted-Step limits f n s (History-IsCounted limits r)

-- However exchanges, waking goroutines, ticks and probes follow each other, in fewer than 2^31 steps from
-- a fresh host: a host that is down has had at least max_fails failed exchanges and probes since the last
-- probe that passed.
pub down-failures :
    (limits : Limits) (c : Counter) (failures steps : ℕ)
    → History limits c failures steps
    → steps < 2147483648
    → is_down limits c ≡ true
    → limits.max_fails ≤ failures
down-failures limits c failures steps r short d =
    let i = History-IsCounted limits r in
    by_bits i (unfold is_down in ground arith) (unfold is_down in ground arith)
  where
    by_bits :
        IsCounted c failures steps
        → c.fails < 2147483648
        → limits.max_fails ≤ c.fails
        → limits.max_fails ≤ failures
    by_bits i low reached = omega (arith, i.sum, i.few, i.short)
