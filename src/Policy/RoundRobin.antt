-- ===== src/Policy/RoundRobin.antt =====
-- RoundRobin.Select against the first healthy host of the pool turned to start at the selection.
use dnsredir.Base.{
  ltb→le, ltb→lt, ltb, ℕ, zero, suc, ◌+◌, ◌-◌, ◌%◌, ◌^◌, ◌<◌, ◌≤◌, Bool, true, false, inl, inr,
  Option, none, some, List, [], ◌∷◌, ◌++◌, length, get_elem?, take, drop, if◌then◌else◌, ◌==◌, ret,
  ◌>>=◌, ◌≡◌, refl, sym, ap, ◌∙◌, arith, Bool-cases, length-append,
}
use native.Mathlib.Nat.{mod-lt}
use dnsredir.Policy.{u32_mod, pool_at, round_robin_loop, round_robin_select, sequential_select}

module _ {ℓ} {A : Type ℓ} where
  -- The list turned so that it starts at place k.
  abbrev pub rotate : ℕ → List A → List A
  rotate k xs = drop k xs ++ take k xs

  get_elem?-append_left :
      (xs ys : List A) (i : ℕ) → i < length xs → get_elem? (xs ++ ys) i ≡ get_elem? xs i
  get_elem?-append_left [] ys i h = absurd (omega arith)
  get_elem?-append_left (x ∷ xs) ys zero h = refl
  get_elem?-append_left (x ∷ xs) ys (suc i) h = get_elem?-append_left xs ys i (omega arith)

  get_elem?-append_right :
      (xs ys : List A) (i : ℕ) → get_elem? (xs ++ ys) (length xs + i) ≡ get_elem? ys i
  get_elem?-append_right [] ys i = let e : 0 + i ≡ i = omega arith in rw e
  get_elem?-append_right (x ∷ xs) ys i =
      let e : suc (length xs) + i ≡ suc (length xs + i) = omega arith in
      rw e (get_elem?-append_right xs ys i)

  get_elem?-drop : (k : ℕ) (xs : List A) (i : ℕ) → get_elem? (drop k xs) i ≡ get_elem? xs (k + i)
  get_elem?-drop zero xs i = let e : 0 + i ≡ i = omega arith in rw e
  get_elem?-drop (suc k) [] i = refl
  get_elem?-drop (suc k) (x ∷ xs) i =
      let e : suc k + i ≡ suc (k + i) = omega arith in rw e (get_elem?-drop k xs i)

  get_elem?-take : (k : ℕ) (xs : List A) (i : ℕ) → i < k → get_elem? (take k xs) i ≡ get_elem? xs i
  get_elem?-take zero xs i h = absurd (omega arith)
  get_elem?-take (suc k) [] i h = refl
  get_elem?-take (suc k) (x ∷ xs) zero h = refl
  get_elem?-take (suc k) (x ∷ xs) (suc i) h = get_elem?-take k xs i (omega arith)

  length-drop : (k : ℕ) (xs : List A) → k ≤ length xs → length (drop k xs) + k ≡ length xs
  length-drop zero xs h = omega arith
  length-drop (suc k) [] h = absurd (omega arith)
  length-drop (suc k) (x ∷ xs) h = omega (arith, length-drop k xs)

  length-take : (k : ℕ) (xs : List A) → k ≤ length xs → length (take k xs) ≡ k
  length-take zero xs h = refl
  length-take (suc k) [] h = absurd (omega arith)
  length-take (suc k) (x ∷ xs) h = ap suc (length-take k xs (omega arith))

  length-rotate : (k : ℕ) (xs : List A) → k ≤ length xs → length (rotate k xs) ≡ length xs
  length-rotate k xs h =
      omega (arith, length-append (drop k xs) (take k xs), length-drop k xs h, length-take k xs h)

  -- The place i of the turned list is the place (k + i) % n of the list.
  get_elem?-rotate :
      (k i : ℕ) (xs : List A)
      → k < length xs
      → i < length xs
      → get_elem? (rotate k xs) i ≡ get_elem? xs ((k + i) % length xs)
  get_elem?-rotate k i xs hk hi = elim (Bool-cases (ltb (k + i) (length xs))) [
    | inl e ↦
        let m : (k + i) % length xs ≡ k + i = grind arith in
        rw m (
          get_elem?-append_left (drop k xs) (take k xs) i
            (omega (arith, length-drop k xs, ltb→lt _ _ e))
          ∙ get_elem?-drop k xs i)
    | inr e ↦
        let j = k + i - length xs in
        let lo : length xs ≤ k + i = ltb→le _ _ e in
        let m : (k + i) % length xs ≡ j = grind arith in
        let s : i ≡ length (drop k xs) + j = omega (arith, length-drop k xs) in
        rw m (
          ap (get_elem? (rotate k xs)) s
          ∙ get_elem?-append_right (drop k xs) (take k xs) j
          ∙ get_elem?-take k xs j (omega arith))
  ]

mod_self_lem : (k n : ℕ) → k < n → (k + 0) % n ≡ k
mod_self_lem k n h = grind arith

-- A pool that an index and a sum of two indices into it do not leave the uint32 range.
abbrev pub Fits {ℓ} : {A : Type ℓ} → List A → Type 0
Fits pool = (0 < length pool) × (length pool ≤ 2 ^ 31)

module _ {ℓ} {A : Type ℓ} (down : A → Bool) where
  abbrev healthy_or_none : A → Option A
  healthy_or_none host = if down host then none else some host

  loop_up :
      (pool : List A) (selection rounds i : ℕ) (host : A)
      → down host ≡ false
      → round_robin_loop down pool selection rounds i host ≡ ret host
  unfolding round_robin_loop
  loop_up pool selection zero i host d = refl
  loop_up pool selection (suc rounds) i host d = rw d

  loop_down :
      (pool : List A) (selection rounds i : ℕ) (host next : A)
      → down host ≡ true
      → get_elem? pool ((selection + i) % u32_mod % (length pool % u32_mod)) ≡ some next
      → round_robin_loop down pool selection (suc rounds) i host
        ≡ round_robin_loop down pool selection rounds (i + 1) next
  unfolding round_robin_loop
  loop_down pool selection rounds i host next d e = rw d (rw (e, pool_at, ◌>>=◌))

  pub sequential_up :
      (host : A) (t : List A) → down host ≡ false → sequential_select down (host ∷ t) ≡ some host
  unfolding sequential_select
  sequential_up host t d = rw d

  pub sequential_down :
      (host : A) (t : List A)
      → down host ≡ true
      → sequential_select down (host ∷ t) ≡ sequential_select down t
  unfolding sequential_select
  sequential_down host t d = rw d

  -- The index in uint32 arithmetic is the one in the numbers.
  index_lem :
      (pool : List A) (selection i : ℕ)
      → Fits pool
      → selection < length pool
      → i < length pool
      → (selection + i) % u32_mod % (length pool % u32_mod) ≡ (selection + i) % length pool
  index_lem pool selection i f s h =
      let m : length pool % u32_mod ≡ length pool = omega arith in
      let k : (selection + i) % u32_mod ≡ selection + i = omega arith in rw (m, k)

  round_robin_loop_lem :
      (pool : List A) (selection i : ℕ) (host : A) (t : List A)
      → Fits pool
      → selection < length pool
      → i + length t ≡ length pool
      → ((j : ℕ)
          → j < length t
          → get_elem? pool ((selection + (i + j)) % length pool) ≡ get_elem? t j)
      → (h : A) × (round_robin_loop down pool selection (length t) i host ≡ ret h)
        × (healthy_or_none h ≡ sequential_select down (host ∷ t))
  round_robin_loop_lem pool selection i host [] f s e at =
      (host, unfold round_robin_loop in refl, unfold sequential_select in refl)
  round_robin_loop_lem pool selection i host (next ∷ t) f s e at = elim (Bool-cases (down host)) [
    | inl d ↦
        let (h, p, q) =
          round_robin_loop_lem pool selection (i + 1) next t f s (omega arith) (λ j lt.
            let m : i + 1 + j ≡ i + suc j = omega arith in rw m (at (suc j) (omega arith))) in
        let z : i + 0 ≡ i = omega arith in
        let a : get_elem? pool ((selection + i) % u32_mod % (length pool % u32_mod)) ≡ some next =
          rw (index_lem pool selection i f s (omega arith)) (rw z at (at 0 (omega arith))) in
        (
          h,
          loop_down pool selection (length t) i host next d a ∙ p,
          q ∙ sym (sequential_down host (next ∷ t) d),
        )
    | inr d ↦ (
      host,
      loop_up pool selection (length (next ∷ t)) i host d,
      rw d (sym (sequential_up host (next ∷ t) d)),
    )
  ]

  -- On a pool of 1 to 2^31 hosts, RoundRobin.Select moves the counter by one in uint32 arithmetic, and returns the first healthy
  -- host of the pool turned to start at the counter modulo its length; none if all are down.
  pub round_robin_select_lem :
      (robin : ℕ) (pool : List A)
      → Fits pool
      → round_robin_select down robin pool
        ≡ ret (
          (robin + 1) % u32_mod,
          sequential_select down (rotate ((robin + 1) % u32_mod % length pool) pool),
        )
  round_robin_select_lem robin pool f = from_rotation (rotate k pool) refl
    where
      k : ℕ
      k = (robin + 1) % u32_mod % length pool

      k_lt : k < length pool
      k_lt = mod-lt ((robin + 1) % u32_mod) (f.0)

      fits : length pool % u32_mod ≡ length pool
      fits = omega arith

      finish :
          (host : A) (t : List A)
          → get_elem? pool k ≡ some host
          → (length pool == 0) ≡ false
          → length pool - 1 ≡ length t
          → (h : A) → round_robin_loop down pool k (length t) 1 host ≡ ret h
          → healthy_or_none h ≡ sequential_select down (host ∷ t)
          → round_robin_select down robin pool
            ≡ ret ((robin + 1) % u32_mod, sequential_select down (host ∷ t))
      finish host t first some_pool rounds h p q =
          unfold round_robin_select in
          rw (fits, some_pool) (rw (first, pool_at, ◌>>=◌) (rw (rounds, p, ◌>>=◌) (rw q)))

      from_rotation :
          (r : List A)
          → rotate k pool ≡ r
          → round_robin_select down robin pool
            ≡ ret ((robin + 1) % u32_mod, sequential_select down r)
      from_rotation [] e =
          absurd (omega (arith, ap length e, length-rotate k pool (omega (arith, k_lt)), k_lt))
      from_rotation (host ∷ t) e =
          let len : suc (length t) ≡ length pool =
            sym (ap length e) ∙ length-rotate k pool (omega (arith, k_lt)) in
          let at : (j : ℕ)
              → j < length pool
              → get_elem? (host ∷ t) j ≡ get_elem? pool ((k + j) % length pool) =
            λ j lt. rw (← e) (get_elem?-rotate k j pool k_lt lt) in
          let (h, p, q) = round_robin_loop_lem pool k 1 host t f k_lt (omega arith) (λ j lt.
            let m : 1 + j ≡ suc j = omega arith in rw m (sym (at (suc j) (omega arith)))) in
          let k0 : (k + 0) % length pool ≡ k = mod_self_lem k (length pool) k_lt in
          let first : get_elem? pool k ≡ some host = sym (rw k0 at (at 0 (omega arith))) in
          let rounds : length pool - 1 ≡ length t = omega arith in
          let some_pool : (length pool == 0) ≡ false = ground arith in
          finish host t first some_pool rounds h p q
