-- ===== src/DialTime.antt =====
-- The timeout of a dial in healthcheck.go: limitDialTimeout, dialTimeout and updateDialTimeout, on the
-- average of the dial times in nanoseconds. The average is an int64; concurrent updates may leave it
-- below zero. Durations are far below 2^63, so that no sum wraps around.
pub mod Average
use dnsredir.Base.{ℕ, zero, suc, ◌+◌, ◌-◌, ◌*◌, ◌/◌, Bool, if◌then◌else◌, ltb, leb}
use dnsredir.Base.Int.{ℤ, pos, negsuc}

abbrev pub min_dial_timeout : ℕ
min_dial_timeout = 1000000000

abbrev pub max_dial_timeout : ℕ
max_dial_timeout = 5000000000

abbrev pub cumulative_avg_weight : ℕ
cumulative_avg_weight = 4

unfoldable pub limit_dial_timeout : ℤ → ℕ → ℕ → ℕ
limit_dial_timeout (negsuc n) min_value max_value = min_value
limit_dial_timeout (pos rt) min_value max_value =
    if ltb rt min_value then min_value else if ltb rt (max_value / 2) then rt * 2 else max_value

unfoldable pub dial_timeout : ℤ → ℕ
unfolding limit_dial_timeout
dial_timeout avg = limit_dial_timeout avg min_dial_timeout max_dial_timeout

-- a - b on naturals, a sum, and a quotient that is cut off towards zero.
unfoldable pub diff : ℕ → ℕ → ℤ
diff a b = if leb b a then pos (a - b) else negsuc (b - a - 1)

infixl 60 ◌+ℤ◌
unfoldable pub ◌+ℤ◌ : ℤ → ℤ → ℤ
unfolding diff
pos a +ℤ pos b = pos (a + b)
pos a +ℤ negsuc b = diff a (b + 1)
negsuc a +ℤ pos b = diff b (a + 1)
negsuc a +ℤ negsuc b = negsuc (a + b + 1)

unfoldable pub minus : ℕ → ℤ → ℤ
unfolding diff
minus a (pos b) = diff a b
minus a (negsuc b) = pos (a + b + 1)

unfoldable pub quot : ℤ → ℕ → ℤ
unfolding diff
quot (pos a) w = pos (a / w)
quot (negsuc a) w = diff 0 ((a + 1) / w)

-- updateDialTimeout: the average, by the one that was there and the new dial time.
unfoldable pub update_dial_timeout : ℤ → ℕ → ℤ
unfolding ◌+ℤ◌ minus quot
update_dial_timeout avg new_dial_time = avg +ℤ quot (minus new_dial_time avg) cumulative_avg_weight
