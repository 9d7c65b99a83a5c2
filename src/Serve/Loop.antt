-- ===== src/Serve/Loop.antt =====
-- What ServeDNS's loop ends in: fuel that is enough, the answer, and what the answer rests on.
use dnsredir.Base.{
  ◌≤◌, ℕ, suc, zero, ◌+◌, ◌<◌, inl, inr, Bool, true, false, Option, none, some, if◌then◌else◌, ltb,
  ltb→lt, ltb→le, ◌≡◌, ◌≢◌, refl, sym, ◌∙◌, ◌^◌, arith, ret,
}
use dnsredir.Serve.{
  Exchanged, replied, cached_conn_closed, failed, reply, format_error, no_healthy, World,
  exchange_loop, Attempts, over_limit, serve_loop, start, serve,
}
use dnsredir.Serve.Rounds.{
  Ends, exchange_loop-Gives, Seen, Explains, IsUnderway, Answers, out_of_time-Answers,
  over_limit_lem, IsUnderway-failed, round_late, round_no_host, round_limit, round_replied,
  round_failed,
}

serve_loop-Answers :
    (fuel inner : ℕ) (w : World) (max_retry max_fails : ℕ) (s : Attempts)
    → Ends inner w
    → max_retry + 1 < 2 ^ 31
    → w.in_time 1 ≡ true
    → IsUnderway w max_retry s
    → max_retry + 1 < fuel + s.try_count
    → Answers w max_retry (serve_loop fuel inner w max_retry max_fails s)
serve_loop-Answers zero inner w max_retry max_fails s ends small t i enough =
    absurd (omega (arith, i.limit))
serve_loop-Answers (suc fuel) inner w max_retry max_fails s ends small t i enough =
    by_time
      (λ s'' i' e.
        serve_loop-Answers fuel inner w max_retry max_fails s'' ends small t i' (omega arith))
      (w.in_time (s.try_count + 1)) refl
  where
    n : ℕ
    n = s.try_count + 1

    Rest : Type 0
    Rest =
        (s'' : Attempts)
        → IsUnderway w max_retry s''
        → s''.try_count ≡ s.try_count + 1
        → Answers w max_retry (serve_loop fuel inner w max_retry max_fails s'')

    Goal : Type 0
    Goal = Answers w max_retry (serve_loop (suc fuel) inner w max_retry max_fails s)

    s' : Attempts
    s' = record s { try_count = n }

    in_range : over_limit max_retry n ≡ ltb max_retry n
    in_range = over_limit_lem max_retry n (omega (arith, i.limit))

    within : over_limit max_retry n ≡ false → n ≤ max_retry
    within g = ltb→le max_retry n (sym in_range ∙ g)

    by_exchange :
        Rest
        → (host : ℕ) (r : Exchanged) (k : ℕ) → w.in_time n ≡ true
        → w.select n ≡ some host
        → over_limit max_retry n ≡ false
        → exchange_loop inner w n 0 ≡ ret r
        → w.exchange n k ≡ r
        → r ≢ cached_conn_closed
        → Goal
    by_exchange rest host cached_conn_closed k e f g p x ne = absurd (ne refl)
    by_exchange rest host (failed m) k e f g p x ne =
        rw (round_failed fuel inner w max_retry max_fails s host m e f g p)
          (rest _ (IsUnderway-failed w max_retry max_fails host m k s i (within g) x) refl)
    by_exchange rest host (replied m) k e f g p x ne =
        rw (round_replied fuel inner w max_retry max_fails s host m e f g p)
          (by_match (w.matches m) refl)
      where
        seen : Seen w max_retry (replied m)
        seen = (n, k, within g, x)

        by_match :
            (b : Bool)
            → w.matches m ≡ b
            → Answers w max_retry
                (ret (if b then reply m else format_error, record s' { upstream_err = none }))
        by_match true y = (
          reply m,
          _,
          refl,
          unfold Explains in (seen, y),
          omega (arith, i.limit),
          omega (arith, i.limit, i.few),
        )
        by_match false y = (
          format_error,
          _,
          refl,
          unfold Explains in (m, seen, y),
          omega (arith, i.limit),
          omega (arith, i.limit, i.few),
        )

    by_limit :
        Rest
        → (host : ℕ) (b : Bool) → w.in_time n ≡ true
        → w.select n ≡ some host
        → over_limit max_retry n ≡ b
        → Goal
    by_limit rest host true e f g = rw (round_limit fuel inner w max_retry max_fails s host e f g) (
      no_healthy,
      s',
      refl,
      unfold Explains in inr (omega (arith, i.limit, ltb→lt max_retry n (sym in_range ∙ g))),
      omega (arith, i.limit),
      omega (arith, i.limit, i.few),
    )
    by_limit rest host false e f g =
        let (k, below, ne) = ends n in
        let (r, j, p, x, nc) = exchange_loop-Gives inner w n 0 k (omega arith) (omega arith) ne in
        by_exchange rest host r j e f g p x nc

    by_host : Rest → (o : Option ℕ) → w.in_time n ≡ true → w.select n ≡ o → Goal
    by_host rest none e f = rw (round_no_host fuel inner w max_retry max_fails s e f) (
      no_healthy,
      s',
      refl,
      unfold Explains in inl f,
      omega (arith, i.limit),
      omega (arith, i.limit, i.few),
    )
    by_host rest (some host) e f = by_limit rest host (over_limit max_retry n) e f refl

    by_time : Rest → (b : Bool) → w.in_time n ≡ b → Goal
    by_time rest true e = by_host rest (w.select n) e refl
    by_time rest false e =
        rw (round_late fuel inner w max_retry max_fails s e)
          (out_of_time-Answers w max_retry s t i e)

-- When max_retry is below the largest int32, 2147483647, the first look at the clock is in time and every
-- attempt's exchanges end, ServeDNS answers with
-- fuel above max_retry + 1, after at most max_retry + 1 rounds and at most max_retry calls of
-- healthCheck: a reply that an exchange gave and that matches the request; a format error for
-- one that does not match; the error of an exchange once the time is over; or a server
-- failure where Select gave no host or max_retry attempts are used up.
pub serve-Answers :
    (fuel inner : ℕ) (w : World) (max_retry max_fails : ℕ)
    → Ends inner w
    → max_retry + 1 < 2 ^ 31
    → w.in_time 1 ≡ true
    → max_retry + 1 < fuel
    → Answers w max_retry (serve fuel inner w max_retry max_fails)
serve-Answers fuel inner w max_retry max_fails ends small t enough =
    unfold serve in
    serve_loop-Answers fuel inner w max_retry max_fails start ends small t
      (record {
        limit = omega arith;
        few = omega arith;
        seen = λ e p. absurd (ground arith);
        first = λ p. refl;
      })
      (omega arith)
