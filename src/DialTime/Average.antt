-- ===== src/DialTime/Average.antt =====
-- The dial timeout stays in its frame, and the average follows the dial times.
use dnsredir.Base.{ℕ, zero, suc, ◌+◌, ◌-◌, ◌*◌, ◌/◌, ◌≤◌, ◌<◌, ◌≡◌, arith}
use dnsredir.Base.Int.{ℤ, pos, negsuc}
use dnsredir.DialTime.{
  limit_dial_timeout, dial_timeout, diff, ◌+ℤ◌, minus, quot, update_dial_timeout, min_dial_timeout,
  max_dial_timeout,
}

-- Whatever the average of the dial times is, below zero too, the timeout lies between its limits, where
-- the lower one is not above the upper one.
pub limit_dial_timeout-IsBounded :
    (avg : ℤ) (min_value max_value : ℕ)
    → min_value ≤ max_value
    → (min_value ≤ limit_dial_timeout avg min_value max_value)
      × (limit_dial_timeout avg min_value max_value ≤ max_value)
unfolding limit_dial_timeout
limit_dial_timeout-IsBounded (pos rt) lo hi h = ground arith
limit_dial_timeout-IsBounded (negsuc n) lo hi h = ground arith

-- How far an average is from a dial time.
unfoldable pub distance : ℤ → ℕ → ℕ
distance (pos a) d = (a - d) + (d - a)
distance (negsuc a) d = d + a + 1

-- Every dial takes the same time.
unfoldable pub observe : ℕ → ℕ → ℤ → ℤ
unfolding update_dial_timeout
observe zero d avg = avg
observe (suc n) d avg = observe n d (update_dial_timeout avg d)

distance-update :
    (avg : ℤ) (d : ℕ) → distance (update_dial_timeout avg d) d ≡ distance avg d - distance avg d / 4
unfolding distance update_dial_timeout ◌+ℤ◌ minus quot diff
distance-update (pos a) d = ground arith
distance-update (negsuc a) d = ground arith

distance-observe :
    (n : ℕ) (d : ℕ) (avg : ℤ) → distance avg d ≤ n + 3 → distance (observe n d avg) d ≤ 3
unfolding observe
distance-observe zero d avg h = omega arith
distance-observe (suc n) d avg h =
    distance-observe n d (update_dial_timeout avg d) (omega (arith, distance-update avg d))

settled :
    (a : ℤ) (d : ℕ)
    → distance a d ≤ 3
    → min_dial_timeout + 3 ≤ d
    → d + 3 < max_dial_timeout / 2
    → (dial_timeout a ≤ 2 * d + 6) × (2 * d ≤ dial_timeout a + 6)
unfolding dial_timeout distance limit_dial_timeout
settled (pos a) d k lo hi = ground arith
settled (negsuc a) d k lo hi = absurd (omega arith)

-- When every dial takes the time d, a little above the lower limit and a little below half of the upper
-- one, then from any average, after as many dials as it was nanoseconds off, the timeout is twice d,
-- within six nanoseconds.
pub dial_timeout_settles :
    (avg : ℤ) (d : ℕ) (n : ℕ)
    → distance avg d ≤ n + 3
    → min_dial_timeout + 3 ≤ d
    → d + 3 < max_dial_timeout / 2
    → (dial_timeout (observe n d avg) ≤ 2 * d + 6) × (2 * d ≤ dial_timeout (observe n d avg) + 6)
dial_timeout_settles avg d n h lo hi =
    settled (observe n d avg) d (distance-observe n d avg h) lo hi
