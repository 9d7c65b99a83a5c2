-- ===== src/HealthCheck/Select.antt =====
-- What HealthCheck.Select promises: a healthy host if there is one, and the last resort only if not.
use dnsredir.Base.{
  ℕ, zero, suc, ◌+◌, ◌%◌, ◌<◌, Bool, true, false, ◌⊎◌, inl, inr, Option, none, some, List, [], ◌∷◌,
  length, get_elem?, ◌==◌, ◌≢◌, ◌≡◌, refl, arith, Bool-cases, Run, ret, ◌>>=◌,
}
use native.Mathlib.Nat.{mod-lt}
use dnsredir.Policy.{
  Policy, spray, random_select, sequential_select, spray_select, pool_at, u32_mod,
}
use dnsredir.Policy.RoundRobin.{Fits, rotate, round_robin_select_lem}
use dnsredir.Policy.Healthy.{
  In, In-nil, In-uncons, IsHealthyChoice, sequential-IsHealthyChoice, random-IsHealthyChoice,
  rotate-IsHealthyChoice,
}
use dnsredir.HealthCheck.{
  Draws, Selector, policy_select, last_resort, all_down, or_last_resort, default_policy, select,
}

get_elem?_total {ℓ} :
    {A : Type ℓ} (xs : List A) (i : ℕ) → i < length xs → (a : A) × (get_elem? xs i ≡ some a)
get_elem?_total [] i h = absurd (omega arith)
get_elem?_total (x ∷ xs) zero h = (x, refl)
get_elem?_total (x ∷ xs) (suc i) h = get_elem?_total xs i (omega arith)

module _ {ℓ} {A : Type ℓ} where
  -- Spray on a pool with a host returns a host of the pool.
  pub spray_select_lem :
      (draw : ℕ) (pool : List A)
      → 0 < length pool
      → (h : A) × (spray_select draw pool ≡ ret (some h)) × In h pool
  spray_select_lem draw pool p =
      let (h, e) = get_elem?_total pool (draw % length pool) (mod-lt draw p) in
      let n : (length pool == 0) ≡ false = ground arith in
      (h, unfold spray_select in rw n (rw (e, pool_at, ◌>>=◌)), (draw % length pool, e))

module _ {ℓ} {A : Type ℓ} (down : A → Bool) where
  abbrev pub AllDown : List A → Type ℓ
  AllDown pool = (h : A) → In h pool → down h ≡ true

  pub all_down-AllDown : (pool : List A) → all_down down pool ≡ true → AllDown pool
  unfolding all_down
  all_down-AllDown [] e = λ h i. In-nil h i
  all_down-AllDown (host ∷ pool) e = λ h i. elim (In-uncons h host pool i) [
    | inl q ↦ rw q (ground arith)
    | inr j ↦ all_down-AllDown pool (ground arith) h j
  ]

  some_up : (pool : List A) → all_down down pool ≡ false → (h : A) × In h pool × (down h ≡ false)
  unfolding all_down
  some_up [] e = absurd (ground arith)
  some_up (host ∷ pool) e = elim (Bool-cases (down host)) [
    | inl d ↦ let (h, (i, p), u) = some_up pool (ground arith) in (h, (suc i, p), u)
    | inr u ↦ (host, (zero, refl), u)
  ]

  -- No host, without a last resort and with all hosts down; or a host of the pool, which is up
  -- unless all are down and there is a last resort.
  abbrev pub IsSelected : Selector → List A → Option A → Type ℓ
  IsSelected hc pool none = (hc.has_spray ≡ false) × AllDown pool
  IsSelected hc pool (some h) =
      In h pool × ((down h ≡ false) ⊎ ((hc.has_spray ≡ true) × AllDown pool))

  abbrev pub Selects : Selector → List A → Run (ℕ × Option A) → Type ℓ
  Selects hc pool r = (robin : ℕ) × (o : Option A) × (r ≡ ret (robin, o)) × IsSelected hc pool o

  last_resort-Selects :
      (draws : Draws) (hc : Selector) (robin : ℕ) (pool : List A)
      → 0 < length pool
      → AllDown pool
      → Selects hc pool (last_resort down draws hc robin pool)
  last_resort-Selects draws hc robin pool p d = elim (Bool-cases hc.has_spray) [
    | inl e ↦
        let (h, q, i) = spray_select_lem draws.spray_draw pool p in
        (robin, some h, unfold last_resort in rw e (rw (q, ◌>>=◌)), (i, inr (e, d)))
    | inr e ↦ (robin, none, unfold last_resort in rw e, (e, d))
  ]

  policy_select-IsHealthyChoice :
      (draws : Draws) (robin : ℕ) (p : Policy) (pool : List A)
      → Fits pool
      → p ≢ spray
      → (robin' : ℕ) × (o : Option A) × (policy_select down draws robin p pool ≡ ret (robin', o))
        × IsHealthyChoice down pool o
  unfolding policy_select
  policy_select-IsHealthyChoice draws robin Policy.random pool f n = (
    robin,
    random_select down draws.at_host pool,
    refl,
    random-IsHealthyChoice down draws.at_host pool,
  )
  policy_select-IsHealthyChoice draws robin Policy.round_robin pool f n = (
    (robin + 1) % u32_mod,
    sequential_select down (rotate ((robin + 1) % u32_mod % length pool) pool),
    round_robin_select_lem down robin pool f,
    rotate-IsHealthyChoice down _ pool _
        (sequential-IsHealthyChoice down (rotate ((robin + 1) % u32_mod % length pool) pool)),
  )
  policy_select-IsHealthyChoice draws robin Policy.sequential pool f n =
      (robin, sequential_select down pool, refl, sequential-IsHealthyChoice down pool)
  policy_select-IsHealthyChoice draws robin Policy.spray pool f n = absurd (n refl)

  or_last_resort-Selects :
      (draws : Draws) (hc : Selector) (robin : ℕ) (pool : List A) (o : Option A)
      → 0 < length pool
      → IsHealthyChoice down pool o
      → Selects hc pool (or_last_resort down draws hc pool (robin, o))
  or_last_resort-Selects draws hc robin pool none p c =
      unfold or_last_resort in last_resort-Selects draws hc robin pool p c
  or_last_resort-Selects draws hc robin pool (some h) p c =
      (robin, some h, unfold or_last_resort in refl, (c.0, inl c.1))

  single_host :
      (draws : Draws) (hc : Selector) (robin : ℕ) (host : A)
      → Selects hc (host ∷ []) (select down draws hc robin (host ∷ []))
  single_host draws hc robin host = elim (Bool-cases (down host)) [
    | inl d ↦ elim (Bool-cases hc.has_spray) [
      | inl e ↦ (robin, some host, unfold select in ground arith, ((zero, refl), inr (e, only d)))
      | inr e ↦ (robin, none, unfold select in ground arith, (e, only d))
    ]
    | inr u ↦ (robin, some host, unfold select in ground arith, ((zero, refl), inl u))
  ]
    where
      only : down host ≡ true → AllDown (host ∷ [])
      only d = λ h i. elim (In-uncons h host [] i) [ inl q ↦ rw q d | inr j ↦ In-nil h j ]

  -- On a pool of 1 to 2^31 hosts, under every policy but spray, Select does not panic: it returns no host only
  -- if all are down and spray is off, and else a host of the pool, which is up unless all are down
  -- and spray is on.
  pub select-Selects :
      (draws : Draws) (hc : Selector) (robin : ℕ) (pool : List A)
      → Fits pool
      → default_policy hc.policy ≢ spray
      → Selects hc pool (select down draws hc robin pool)
  select-Selects draws hc robin [] f n = absurd (omega arith)
  select-Selects draws hc robin (host ∷ []) f n = single_host draws hc robin host
  select-Selects draws hc robin (host ∷ other ∷ pool) f n =
      elim (Bool-cases (all_down down whole)) [
        | inl d ↦
            rw (when_down d)
              (last_resort-Selects draws hc robin whole f.0 (all_down-AllDown whole d))
        | inr u ↦
            let (robin', o, e, c) =
              policy_select-IsHealthyChoice draws robin (default_policy hc.policy) whole f n in
            rw (when_up u robin' o e) (or_last_resort-Selects draws hc robin' whole o f.0 c)
      ]
    where
      whole : List A
      whole = host ∷ other ∷ pool

      many : (length whole == 1) ≡ false
      many = ground arith

      when_down :
          all_down down whole ≡ true
          → select down draws hc robin whole ≡ last_resort down draws hc robin whole
      when_down d = unfold select in rw (many, d)

      when_up :
          all_down down whole ≡ false
          → (robin' : ℕ) (o : Option A)
          → policy_select down draws robin (default_policy hc.policy) whole ≡ ret (robin', o)
          → select down draws hc robin whole ≡ or_last_resort down draws hc whole (robin', o)
      when_up u robin' o e = unfold select in rw (many, u) (rw (e, ◌>>=◌))
