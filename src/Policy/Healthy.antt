-- ===== src/Policy/Healthy.antt =====
-- What the policies return is a healthy host of the pool, if there is one.
use dnsredir.Base.{
  ℕ, zero, suc, ◌+◌, ◌-◌, ◌%◌, Bool, true, false, ◌⊎◌, inl, inr, Option, none, some, List, [], ◌∷◌,
  ◌++◌, get_elem?, take, drop, ◌==◌, ◌≡◌, ◌≢◌, refl, sym, ◌∙◌, arith, Bool-cases,
}
use mathlib.Core.Option.{some-injective}
use mathlib.Core.Path.{subst}
use dnsredir.Policy.RoundRobin.{rotate, sequential_up, sequential_down}
use dnsredir.Policy.{random_loop, random_select, sequential_select}

module _ {ℓ} {A : Type ℓ} where
  -- The item stands in the list, at some place.
  abbrev pub In : A → List A → Type ℓ
  In a xs = (i : ℕ) × (get_elem? xs i ≡ some a)

  pub In-nil {κ} : {B : Type κ} (a : A) → In a [] → B
  In-nil a (i, e) = absurd (ground arith)

  pub In-uncons : (a x : A) (xs : List A) → In a (x ∷ xs) → (a ≡ x) ⊎ In a xs
  In-uncons a x xs (zero, e) = inl (ground arith)
  In-uncons a x xs (suc i, e) = inr (i, e)

  In-suc : (a x : A) (xs : List A) → In a xs → In a (x ∷ xs)
  In-suc a x xs (i, e) = (suc i, e)

  In-append : (a : A) (xs ys : List A) → In a (xs ++ ys) → In a xs ⊎ In a ys
  In-append a [] ys h = inr h
  In-append a (x ∷ xs) ys (zero, e) = inl (zero, e)
  In-append a (x ∷ xs) ys (suc i, e) = elim (In-append a xs ys (i, e)) [
    | inl l ↦ inl (In-suc a x xs l)
    | inr r ↦ inr r
  ]

  In-take : (a : A) (k : ℕ) (xs : List A) → In a (take k xs) → In a xs
  In-take a zero xs h = In-nil a h
  In-take a (suc k) [] h = h
  In-take a (suc k) (x ∷ xs) (zero, e) = (zero, e)
  In-take a (suc k) (x ∷ xs) (suc i, e) = In-suc a x xs (In-take a k xs (i, e))

  In-drop : (a : A) (k : ℕ) (xs : List A) → In a (drop k xs) → In a xs
  In-drop a zero xs h = h
  In-drop a (suc k) [] h = h
  In-drop a (suc k) (x ∷ xs) h = In-suc a x xs (In-drop a k xs h)

  pub In-rotate : (a : A) (k : ℕ) (xs : List A) → In a (rotate k xs) → In a xs
  In-rotate a k xs h = elim (In-append a (drop k xs) (take k xs) h) [
    | inl d ↦ In-drop a k xs d
    | inr t ↦ In-take a k xs t
  ]

  In-append_left : (a : A) (xs ys : List A) → In a xs → In a (xs ++ ys)
  In-append_left a [] ys h = In-nil a h
  In-append_left a (x ∷ xs) ys (zero, e) = (zero, e)
  In-append_left a (x ∷ xs) ys (suc i, e) = In-suc a x (xs ++ ys) (In-append_left a xs ys (i, e))

  In-append_right : (a : A) (xs ys : List A) → In a ys → In a (xs ++ ys)
  In-append_right a [] ys h = h
  In-append_right a (x ∷ xs) ys h = In-suc a x (xs ++ ys) (In-append_right a xs ys h)

  In-take_or_drop : (a : A) (k : ℕ) (xs : List A) → In a xs → In a (take k xs) ⊎ In a (drop k xs)
  In-take_or_drop a zero xs h = inr h
  In-take_or_drop a (suc k) [] h = inr h
  In-take_or_drop a (suc k) (x ∷ xs) (zero, e) = inl (zero, e)
  In-take_or_drop a (suc k) (x ∷ xs) (suc i, e) = elim (In-take_or_drop a k xs (i, e)) [
    | inl t ↦ inl (In-suc a x (take k xs) t)
    | inr d ↦ inr d
  ]

  pub rotate-In : (a : A) (k : ℕ) (xs : List A) → In a xs → In a (rotate k xs)
  rotate-In a k xs h = elim (In-take_or_drop a k xs h) [
    | inl t ↦ In-append_right a (drop k xs) (take k xs) t
    | inr d ↦ In-append_left a (drop k xs) (take k xs) d
  ]

module _ {ℓ} {A : Type ℓ} (down : A → Bool) where
  -- A choice from a pool is sound: no host only if all are down, else a host of the pool that is up.
  abbrev pub IsHealthyChoice : List A → Option A → Type ℓ
  IsHealthyChoice pool none = (h : A) → In h pool → down h ≡ true
  IsHealthyChoice pool (some h) = In h pool × (down h ≡ false)

  pub sequential-IsHealthyChoice :
      (pool : List A) → IsHealthyChoice pool (sequential_select down pool)
  sequential-IsHealthyChoice [] = unfold sequential_select in λ h i. In-nil h i
  sequential-IsHealthyChoice (host ∷ pool) = elim (Bool-cases (down host)) [
    | inl d ↦
        rw (sequential_down down host pool d)
          (widen d (sequential_select down pool) (sequential-IsHealthyChoice pool))
    | inr u ↦ rw (sequential_up down host pool u) ((zero, refl), u)
  ]
    where
      widen :
          down host ≡ true
          → (o : Option A) → IsHealthyChoice pool o
          → IsHealthyChoice (host ∷ pool) o
      widen d none c = λ h i. elim (In-uncons h host pool i) [ inl e ↦ rw e d | inr j ↦ c h j ]
      widen d (some h) c = (In-suc h host pool c.0, c.1)

  -- Random returns the host kept so far, or one of the rest that is up.
  random_loop-sound :
      (P : A → Type ℓ) (rand : ℕ → ℕ) (rest : List A) (kept : Option A) (count : ℕ)
      → ((h : A) → kept ≡ some h → P h)
      → ((h : A) → In h rest → down h ≡ false → P h)
      → (h : A) → random_loop down rand kept count rest ≡ some h
      → P h
  unfolding random_loop
  random_loop-sound P rand [] kept count k up h e = k h e
  random_loop-sound P rand (host ∷ rest) kept count k up h e =
      let later = λ (a : A) (i : In a rest) (u : down a ≡ false). up a (In-suc a host rest i) u in
      elim (Bool-cases (down host)) [
        | inl d ↦ random_loop-sound P rand rest kept count k later h (rw d at e)
        | inr u ↦
            let mine = λ (a : A) (q : some host ≡ some a).
              subst P (some-injective host a q) (up host (zero, refl) u) in
            elim (Bool-cases (count + 1 == 1)) [
              | inl one ↦
                  random_loop-sound P rand rest (some host) (count + 1) mine later h
                    (rw (u, one) at e)
              | inr more ↦ elim (Bool-cases (rand (count + 1) % (count + 1) == count + 1 - 1)) [
                | inl hit ↦
                    random_loop-sound P rand rest (some host) (count + 1) mine later h
                      (rw (u, more, hit) at e)
                | inr miss ↦
                    random_loop-sound P rand rest kept (count + 1) k later h
                      (rw (u, more, miss) at e)
              ]
            ]
      ]

  random_loop-some :
      (rand : ℕ → ℕ) (rest : List A) (h : A) (count : ℕ)
      → random_loop down rand (some h) count rest ≢ none
  unfolding random_loop
  random_loop-some rand [] h count e = ground arith
  random_loop-some rand (host ∷ rest) h count e = ground (
    arith,
    random_loop-some rand rest h count,
    random_loop-some rand rest host (count + 1),
    random_loop-some rand rest h (count + 1),
  )

  random_loop-none :
      (rand : ℕ → ℕ) (rest : List A)
      → random_loop down rand none 0 rest ≡ none
      → (h : A) → In h rest
      → down h ≡ true
  random_loop-none rand [] e h i = In-nil h i
  random_loop-none rand (host ∷ rest) e h i = elim (Bool-cases (down host)) [
    | inl d ↦ elim (In-uncons h host rest i) [
      | inl q ↦ rw q d
      | inr j ↦ random_loop-none rand rest (sym (skip d) ∙ e) h j
    ]
    | inr u ↦ absurd (random_loop-some rand rest host (0 + 1) (sym (first u) ∙ e))
  ]
    where
      skip :
          down host ≡ true
          → random_loop down rand none 0 (host ∷ rest) ≡ random_loop down rand none 0 rest
      skip d = unfold random_loop in rw d

      first :
          down host ≡ false
          → random_loop down rand none 0 (host ∷ rest)
            ≡ random_loop down rand (some host) (0 + 1) rest
      first u = unfold random_loop in rw u

  pub random-IsHealthyChoice :
      (rand : ℕ → ℕ) (pool : List A) → IsHealthyChoice pool (random_select down rand pool)
  random-IsHealthyChoice rand pool =
      unfold random_select in by_result (random_loop down rand none 0 pool) refl
    where
      by_result : (o : Option A) → random_loop down rand none 0 pool ≡ o → IsHealthyChoice pool o
      by_result none e = random_loop-none rand pool e
      by_result (some a) e =
          random_loop-sound (λ h. In h pool × (down h ≡ false)) rand pool none 0
            (λ h q. absurd (ground arith)) (λ h i u. (i, u)) a e

  pub rotate-IsHealthyChoice :
      (k : ℕ) (pool : List A) (o : Option A)
      → IsHealthyChoice (rotate k pool) o
      → IsHealthyChoice pool o
  rotate-IsHealthyChoice k pool none c = λ h i. c h (rotate-In h k pool i)
  rotate-IsHealthyChoice k pool (some h) c = (In-rotate h k pool c.0, c.1)
