-- ===== src/HealthCheck.antt =====
-- The selection of a host in healthcheck.go: HealthCheck.Select over the policies of policy.go.
pub mod Select
use dnsredir.Base.{
  ℕ, zero, suc, ◌+◌, ◌-◌, ◌%◌, ◌^◌, Bool, true, false, not, ◌&&◌, Option, none, some, List, [], ◌∷◌,
  length, get_elem?, if◌then◌else◌, ◌==◌, Run, ret, panic, no_fuel, ◌>>=◌,
}
use dnsredir.Policy.{
  Policy, random, round_robin, sequential, spray, random_select, round_robin_select,
  sequential_select, spray_select, pool_at,
}

-- What the calls of rand.Int give during one Select: to Random at its n-th healthy host, to Spray
-- as a policy and to Spray as the last resort.
pub record Draws : Type 0 where
  pub at_host : ℕ → ℕ
  pub policy_draw : ℕ
  pub spray_draw : ℕ

-- The fields of HealthCheck that Select reads, and the counter of the one RoundRobin value that all
-- upstreams share.
pub record Selector : Type 0 where
  pub policy : Option Policy
  pub has_spray : Bool

-- A nil policy stands for random.
unfoldable pub default_policy : Option Policy → Policy
default_policy none = random
default_policy (some p) = p

module _ {ℓ} {A : Type ℓ} (down : A → Bool) where
  -- policy.Select(pool)
  unfoldable pub policy_select : Draws → ℕ → Policy → List A → Run (ℕ × Option A)
  policy_select draws robin random pool = ret (robin, random_select down draws.at_host pool)
  policy_select draws robin round_robin pool = round_robin_select down robin pool
  policy_select draws robin sequential pool = ret (robin, sequential_select down pool)
  policy_select draws robin spray pool = do h ← spray_select draws.policy_draw pool; ret (robin, h)

  -- if hc.spray == nil { return nil }; return hc.spray.Select(pool)
  unfoldable pub last_resort : Draws → Selector → ℕ → List A → Run (ℕ × Option A)
  last_resort draws hc robin pool =
      if hc.has_spray
      then (do h ← spray_select draws.spray_draw pool; ret (robin, h))
      else ret (robin, none)

  -- The loop over the pool that looks for a host that is not down.
  unfoldable pub all_down : List A → Bool
  all_down [] = true
  all_down (host ∷ pool) = let rest = all_down pool in if not (down host) then false else rest

  -- if h != nil { return h }, and else the last resort.
  unfoldable pub or_last_resort : Draws → Selector → List A → ℕ × Option A → Run (ℕ × Option A)
  unfolding last_resort
  or_last_resort draws hc pool (robin, some h) = ret (robin, some h)
  or_last_resort draws hc pool (robin, none) = last_resort draws hc robin pool

  -- HealthCheck.Select: the counter and the host.
  unfoldable pub select : Draws → Selector → ℕ → List A → Run (ℕ × Option A)
  unfolding policy_select or_last_resort last_resort all_down default_policy pool_at
  select draws hc robin pool =
      if length pool == 1
      then (do
        only ← pool_at pool 0
        if down only && not hc.has_spray then ret (robin, none) else ret (robin, some only))
      else if all_down pool
      then last_resort draws hc robin pool
      else do
        chosen ← policy_select draws robin (default_policy hc.policy) pool
        or_last_resort draws hc pool chosen
