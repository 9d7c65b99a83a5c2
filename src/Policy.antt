-- ===== src/Policy.antt =====
-- policy.go: the four ways to select a host from a pool. `down` is what UpstreamHost.Down answers;
-- the answers for a host do not change during one Select. The host type is a parameter.
pub mod RoundRobin
pub mod Healthy
use dnsredir.Base.{
  ℕ, zero, suc, ◌+◌, ◌-◌, ◌%◌, ◌^◌, Bool, true, false, not, Option, none, some, List, [], ◌∷◌,
  length, get_elem?, if◌then◌else◌, ◌==◌, Run, ret, panic, no_fuel, ◌>>=◌,
}

-- The policies of SupportedPolicies.
pub data Policy : Type 0 where
  random round_robin sequential spray : Policy

abbrev pub u32_mod : ℕ
u32_mod = 2 ^ 32

-- pool[i]
unfoldable pub pool_at {ℓ} : {A : Type ℓ} → List A → ℕ → Run A
pool_at pool i = elim (get_elem? pool i) [ some host ↦ ret host | none ↦ panic ]

module _ {ℓ} {A : Type ℓ} (down : A → Bool) where
  -- The loop of Random.Select. The host that is the n-th up one draws `rand n`, from n = 2 on.
  unfoldable pub random_loop : (ℕ → ℕ) → Option A → ℕ → List A → Option A
  random_loop rand rand_host count [] = rand_host
  random_loop rand rand_host count (host ∷ pool) =
      let n = count + 1 in
      let skip = random_loop rand rand_host count pool in
      let take_it = random_loop rand (some host) n pool in
      let keep = random_loop rand rand_host n pool in
      if down host
      then skip
      else if n == 1
      then take_it
      else if rand n % n == n - 1
      then take_it
      else keep

  unfoldable pub random_select : (ℕ → ℕ) → List A → Option A
  unfolding random_loop
  random_select rand pool = random_loop rand none 0 pool

  -- The loop of RoundRobin.Select by the rounds that are left, poolLen - i.
  unfoldable pub round_robin_loop : List A → ℕ → ℕ → ℕ → A → Run A
  unfolding pool_at
  round_robin_loop pool selection zero i host = ret host
  round_robin_loop pool selection (suc rounds) i host =
      if down host
      then (do
        next ← pool_at pool ((selection + i) % u32_mod % (length pool % u32_mod))
        round_robin_loop pool selection rounds (i + 1) next)
      else ret host

  -- The counter after the call, and the host. A pool of no hosts divides by zero.
  unfoldable pub round_robin_select : ℕ → List A → Run (ℕ × Option A)
  unfolding round_robin_loop pool_at
  round_robin_select robin pool =
      let pool_len = length pool % u32_mod in
      let robin' = (robin + 1) % u32_mod in
      if pool_len == 0 then panic else do
        let selection = robin' % pool_len
        first ← pool_at pool selection
        host ← round_robin_loop pool selection (pool_len - 1) 1 first
        ret (robin', if down host then none else some host)

  unfoldable pub sequential_select : List A → Option A
  sequential_select [] = none
  sequential_select (host ∷ pool) =
      let rest = sequential_select pool in if down host then rest else some host

-- Spray.Select does not look at the hosts' state.
unfoldable pub spray_select {ℓ} : {A : Type ℓ} → ℕ → List A → Run (Option A)
unfolding pool_at
spray_select draw pool =
    if length pool == 0 then panic else do host ← pool_at pool (draw % length pool); ret (some host)
