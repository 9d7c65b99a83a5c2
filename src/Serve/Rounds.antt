-- ===== src/Serve/Rounds.antt =====
-- One round of ServeDNS's loop: what it may end in, what it rests on, and what it keeps.
use dnsredir.Base.{
  ap, ◌∙◌, ℕ, suc, zero, ◌+◌, ◌%◌, ◌^◌, ◌≤◌, ◌<◌, ◌⊎◌, Bool, true, false, not, Option, none, some,
  ◌∷◌, length, if◌then◌else◌, ltb, ◌==◌, ◌≡◌, ◌≢◌, refl, arith, Run, ret, ◌>>=◌,
}
use dnsredir.Serve.{
  Exchanged, replied, cached_conn_closed, failed, Served, reply, format_error, no_healthy,
  upstream_error, World, exchange_loop, Attempts, out_of_time, over_limit, serve_loop,
}

-- The exchanges of an attempt end: one of the first `inner` of them is no closed cached connection.
abbrev pub Ends : ℕ → World → Type 0
Ends inner w = (n : ℕ) → (k : ℕ) × (k < inner) × (w.exchange n k ≢ cached_conn_closed)

-- What an attempt's exchanges give when they end: the answer of one of them.
abbrev pub Gives : World → ℕ → Run Exchanged → Type 0
Gives w n o =
    (r : Exchanged) × (k : ℕ) × (o ≡ ret r) × (w.exchange n k ≡ r) × (r ≢ cached_conn_closed)

pub exchange_loop-Gives :
    (inner : ℕ) (w : World) (n k j : ℕ)
    → k ≤ j
    → j < k + inner
    → w.exchange n j ≢ cached_conn_closed
    → Gives w n (exchange_loop inner w n k)
unfolding exchange_loop
exchange_loop-Gives zero w n k j a b h = absurd (omega arith)
exchange_loop-Gives (suc inner) w n k j a b h =
    by_answer (λ below. exchange_loop-Gives inner w n (k + 1) j below (omega arith) h)
      (w.exchange n k) refl
  where
    by_answer :
        (k + 1 ≤ j → Gives w n (exchange_loop inner w n (k + 1)))
        → (r : Exchanged) → w.exchange n k ≡ r
        → Gives w n (exchange_loop (suc inner) w n k)
    by_answer later (replied r) e = (replied r, k, rw (exchange_loop, e) refl, e, λ q. ground arith)
    by_answer later (failed r) e = (failed r, k, rw (exchange_loop, e) refl, e, λ q. ground arith)
    by_answer later cached_conn_closed e =
        let other : k ≢ j = λ q. h (rw q at e) in
        let (r, i, p, q, ne) = later (omega arith) in (r, i, rw (exchange_loop, e) p, q, ne)

-- The exchange that gave `r`, in an attempt that the limit allows.
abbrev pub Seen : World → ℕ → Exchanged → Type 0
Seen w max_retry r = (n k : ℕ) × (n ≤ max_retry) × (w.exchange n k ≡ r)

-- What an answer rests on. A reply, or a format error, on a reply that an exchange gave and that
-- matches the request, or does not; an error on one that an exchange gave; a server failure on a
-- missing host or on the limit.
unfoldable pub Explains : World → ℕ → Served → ℕ → Type 0
Explains w max_retry (reply r) count = Seen w max_retry (replied r) × (w.matches r ≡ true)
Explains w max_retry format_error count =
    (r : ℕ) × Seen w max_retry (replied r) × (w.matches r ≡ false)
Explains w max_retry no_healthy count = (w.select count ≡ none) ⊎ (count ≡ max_retry + 1)
Explains w max_retry (upstream_error e) count =
    Seen w max_retry (failed e) × (w.in_time (count + 1) ≡ false)

some-injective : {a b : ℕ} → some a ≡ some b → a ≡ b
some-injective e = ground arith

-- The loop's own invariant.
pub record IsUnderway (w : World) (max_retry : ℕ) (s : Attempts) : Type 0 where
  pub limit : s.try_count ≤ max_retry
  pub few : length s.checked ≤ s.try_count
  pub seen : (e : ℕ) → s.upstream_err ≡ some e → Seen w max_retry (failed e)
  pub first : s.upstream_err ≡ none → s.try_count ≡ 0

-- How the loop may end.
abbrev pub Answers : World → ℕ → Run (Served × Attempts) → Type 0
Answers w max_retry o =
    (a : Served) × (s : Attempts) × (o ≡ ret (a, s))
    × Explains w max_retry a s.try_count
    × (s.try_count ≤ max_retry + 1)
    × (length s.checked ≤ max_retry)

pub out_of_time-Answers :
    (w : World) (max_retry : ℕ) (s : Attempts)
    → w.in_time 1 ≡ true
    → IsUnderway w max_retry s
    → w.in_time (s.try_count + 1) ≡ false
    → Answers w max_retry (out_of_time s)
out_of_time-Answers w max_retry s t i late = by_error (s.upstream_err) refl
  where
    by_error : (o : Option ℕ) → s.upstream_err ≡ o → Answers w max_retry (out_of_time s)
    by_error none e =
        let z = i.first e in
        let at_first : w.in_time 1 ≡ false = rw z at late in absurd (ground (arith, at_first, t))
    by_error (some e) p = (
      upstream_error e,
      s,
      unfold out_of_time in rw p refl,
      unfold Explains in (i.seen e p, late),
      omega (arith, i.limit),
      omega (arith, i.limit, i.few),
    )

-- A failed exchange keeps the loop under way.
pub IsUnderway-failed :
    (w : World) (max_retry max_fails host e k : ℕ) (s : Attempts)
    → IsUnderway w max_retry s
    → s.try_count + 1 ≤ max_retry
    → w.exchange (s.try_count + 1) k ≡ failed e
    → IsUnderway w max_retry (record s {
      try_count = s.try_count + 1;
      upstream_err = some e;
      checked = if not (max_fails == 0) then host ∷ s.checked else s.checked;
    })
IsUnderway-failed w max_retry max_fails host e k s i below x = record {
  limit = below;
  few = by_flag (not (max_fails == 0));
  seen = λ e' p. (s.try_count + 1, k, below, x ∙ ap failed (some-injective p));
  first = λ p. absurd (ground arith);
}
  where
    by_flag : (b : Bool) → length (if b then host ∷ s.checked else s.checked) ≤ s.try_count + 1
    by_flag true = omega (arith, i.few)
    by_flag false = omega (arith, i.few)

-- Before the int32 wraps, the limit is compared with the number of the attempt.
pub over_limit_lem : (max_retry n : ℕ) → n < 2 ^ 31 → over_limit max_retry n ≡ ltb max_retry n
unfolding over_limit
over_limit_lem max_retry n h = let m : n % 2 ^ 32 ≡ n = omega arith in rw m (ground arith)

-- What one round of the loop does, in each of its cases.
module _ (fuel inner : ℕ) (w : World) (max_retry max_fails : ℕ) (s : Attempts) where
  abbrev pub round : Run (Served × Attempts)
  round = serve_loop (suc fuel) inner w max_retry max_fails s

  abbrev pub attempt : ℕ
  attempt = s.try_count + 1

  pub round_late : w.in_time attempt ≡ false → round ≡ out_of_time s
  unfolding serve_loop
  round_late e = rw (serve_loop, e) refl

  pub round_no_host :
      w.in_time attempt ≡ true
      → w.select attempt ≡ none
      → round ≡ ret (no_healthy, record s { try_count = attempt })
  unfolding serve_loop
  round_no_host e f = rw (serve_loop, e, f) refl

  pub round_limit :
      (host : ℕ)
      → w.in_time attempt ≡ true
      → w.select attempt ≡ some host
      → over_limit max_retry attempt ≡ true
      → round ≡ ret (no_healthy, record s { try_count = attempt })
  unfolding serve_loop
  round_limit host e f g = rw (serve_loop, e, f, g) refl

  pub round_replied :
      (host m : ℕ)
      → w.in_time attempt ≡ true
      → w.select attempt ≡ some host
      → over_limit max_retry attempt ≡ false
      → exchange_loop inner w attempt 0 ≡ ret (replied m)
      → round
        ≡ ret (
          if w.matches m then reply m else format_error,
          record s { try_count = attempt; upstream_err = none },
        )
  unfolding serve_loop
  round_replied host m e f g p = rw (serve_loop, e, f, g, p, ◌>>=◌) refl

  pub round_failed :
      (host m : ℕ)
      → w.in_time attempt ≡ true
      → w.select attempt ≡ some host
      → over_limit max_retry attempt ≡ false
      → exchange_loop inner w attempt 0 ≡ ret (failed m)
      → round
        ≡ serve_loop fuel inner w max_retry max_fails (record s {
          try_count = attempt;
          upstream_err = some m;
          checked = if not (max_fails == 0) then host ∷ s.checked else s.checked;
        })
  unfolding serve_loop
  round_failed host m e f g p = rw (serve_loop, e, f, g, p, ◌>>=◌) refl
