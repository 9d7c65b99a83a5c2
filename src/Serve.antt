-- ===== src/Serve.antt =====
-- dnsredir.go: Dnsredir.match and the loop of ServeDNS. The clock, the choice of a host, the exchanges
-- and the reply's check are what the environment answers, by the attempt; a reply is a number. To
-- serve a reply stands for adding its addresses to the sets and writing it.
pub mod Loop
pub mod Rounds
use dnsredir.Base.{
  ℕ, suc, zero, ◌+◌, ◌-◌, ◌%◌, ◌^◌, Bool, true, false, not, ◌&&◌, ◌||◌, Option, none, some, List,
  [], ◌∷◌, length, if◌then◌else◌, ltb, ◌==◌, Str, Run, ret, panic, no_fuel, ◌>>=◌,
}
use dnsredir.Domain.{remove_trailing_dot}

-- What host.Exchange gives: a reply, the error of a cached connection that the peer closed, or another.
pub data Exchanged : Type 0 where
  replied : ℕ → Exchanged
  cached_conn_closed : Exchanged
  failed : ℕ → Exchanged

-- What the client sees: the reply as it came, a format error in its place, or a server failure with
-- the error that is returned.
pub data Served : Type 0 where
  reply : ℕ → Served
  format_error : Served
  no_healthy : Served
  upstream_error : ℕ → Served

-- The answers of the environment. in_time n: the n-th look at the clock is before the deadline. select n:
-- the host of the n-th attempt. exchange n k: the k-th exchange of the n-th attempt. matches r: the
-- request's Match takes the reply.
pub record World : Type 0 where
  pub in_time : ℕ → Bool
  pub select : ℕ → Option ℕ
  pub exchange : ℕ → ℕ → Exchanged
  pub matches : ℕ → Bool

-- The inner loop: another connection while the cached one was closed. On fuel.
unfoldable pub exchange_loop : ℕ → World → ℕ → ℕ → Run Exchanged
exchange_loop zero w n k = no_fuel
exchange_loop (suc fuel) w n k = elim (w.exchange n k) [
  | cached_conn_closed ↦ exchange_loop fuel w n (k + 1)
  | replied r ↦ ret (replied r)
  | failed e ↦ ret (failed e)
]

-- The state of ServeDNS's loop: the last error, the attempts so far, and the hosts whose failed
-- exchange calls healthCheck.
pub record Attempts : Type 0 where
  pub upstream_err : Option ℕ
  pub try_count : ℕ
  pub checked : List ℕ

-- if upstreamErr == nil { panic }; return upstreamErr
unfoldable pub out_of_time : Attempts → Run (Served × Attempts)
out_of_time s = elim (s.upstream_err) [ none ↦ panic | some e ↦ ret (upstream_error e, s) ]

-- tryCount > upstream.maxRetry behind the n-th tryCount++. tryCount is an int32, which wraps: it is the
-- n of two's complement, where the upper half is negative. maxRetry is not negative.
unfoldable pub over_limit : ℕ → ℕ → Bool
over_limit max_retry n =
    let try_count = n % 2 ^ 32 in ltb try_count (2 ^ 31) && ltb max_retry try_count

-- The rounds of the loop, on fuel. try_count numbers the attempts; the int32 is read by over_limit.
unfoldable pub serve_loop : ℕ → ℕ → World → ℕ → ℕ → Attempts → Run (Served × Attempts)
unfolding exchange_loop out_of_time over_limit
serve_loop zero inner w max_retry max_fails s = no_fuel
serve_loop (suc fuel) inner w max_retry max_fails s =
    let n = s.try_count + 1 in
    let s' = record s { try_count = n } in
    elim (w.in_time n) [
      | false ↦ out_of_time s
      | true ↦ elim (w.select n) [
        | none ↦ ret (no_healthy, s')
        | some host ↦ elim (over_limit max_retry n) [
          | true ↦ ret (no_healthy, s')
          | false ↦ exchange_loop inner w n 0 >>= λ result. elim result [
            | failed e ↦ serve_loop fuel inner w max_retry max_fails (record s' {
              upstream_err = some e;
              checked = if not (max_fails == 0) then host ∷ s.checked else s.checked;
            })
            | replied r ↦
                ret
                  (if w.matches r then reply r else format_error, record s' { upstream_err = none })
            | cached_conn_closed ↦ no_fuel
          ]
        ]
      ]
    ]

abbrev pub start : Attempts
start = record { upstream_err = none; try_count = 0; checked = [] }

unfoldable pub serve : ℕ → ℕ → World → ℕ → ℕ → Run (Served × Attempts)
unfolding serve_loop
serve fuel inner w max_retry max_fails = serve_loop fuel inner w max_retry max_fails start

-- Dnsredir.match: the first upstream whose Match takes the name.
unfoldable pub match_upstreams {ℓ} :
    {U : Type ℓ} → (U → Str → Run Bool) → List U → Str → Run (Option U)
match_upstreams matches [] name = ret none
match_upstreams matches (up ∷ ups) name =
    let rest = match_upstreams matches ups name in
    do found ← matches up name; if found then ret (some up) else rest

unfoldable pub match_name {ℓ} : {U : Type ℓ} → (U → Str → Run Bool) → List U → Str → Run (Option U)
unfolding match_upstreams
match_name matches ups name =
    match_upstreams matches ups (if ltb 1 (length name) then remove_trailing_dot name else name)
