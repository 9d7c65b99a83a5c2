-- ===== src/Connections/Sorted.antt =====
-- A stack that is sorted by the time of use, and where sort.Search cuts it.
use mathlib.Core.Path.{subst}
use dnsredir.Base.{
  ℕ, zero, suc, ◌+◌, ◌≤◌, ◌<◌, Bool, true, false, Option, none, some, List, [], ◌∷◌, ◌++◌, length,
  drop, All, if◌then◌else◌, ◌≡◌, refl, arith, Bool-cases, inl, inr,
}
use dnsredir.Connections.{PersistConn, behind, split_last, is_good, is_good_at}

-- What package sort documents of Search: on a predicate that is false up to an index and true from there
-- on, it finds the index.
abbrev pub Searches : (ℕ → (ℕ → Bool) → ℕ) → Type 0
Searches find =
    (n k : ℕ) (f : ℕ → Bool)
    → k ≤ n
    → ((i : ℕ) → i < k → f i ≡ false)
    → ((i : ℕ) → k ≤ i → i < n → f i ≡ true)
    → find n f ≡ k

-- The times of use ascend between two bounds.
abbrev pub IsSorted : ℕ → ℕ → List PersistConn → Type 0
IsSorted lo hi [] = lo ≤ hi
IsSorted lo hi (pc ∷ conns) = (lo ≤ pc.used) × IsSorted pc.used hi conns

abbrev pub AreGood : ℕ → ℕ → List PersistConn → Type 0
AreGood expire now = All (λ pc. is_good expire now pc ≡ true)

IsSorted-bounds : (lo hi : ℕ) (conns : List PersistConn) → IsSorted lo hi conns → lo ≤ hi
IsSorted-bounds lo hi [] s = s
IsSorted-bounds lo hi (pc ∷ conns) (a, s) = omega (arith, IsSorted-bounds pc.used hi conns s)

pub IsSorted-wider :
    (lo lo' hi hi' : ℕ) (conns : List PersistConn)
    → lo' ≤ lo
    → hi ≤ hi'
    → IsSorted lo hi conns
    → IsSorted lo' hi' conns
IsSorted-wider lo lo' hi hi' [] a b s = omega arith
IsSorted-wider lo lo' hi hi' (pc ∷ conns) a b (c, s) =
    (omega arith, IsSorted-wider pc.used pc.used hi hi' conns (omega arith) b s)

pub IsSorted-append :
    (lo hi : ℕ) (conns : List PersistConn) (pc : PersistConn)
    → hi ≤ pc.used
    → IsSorted lo hi conns
    → IsSorted lo pc.used (conns ++ pc ∷ [])
IsSorted-append lo hi [] pc h s = (omega arith, omega arith)
IsSorted-append lo hi (c ∷ conns) pc h (a, s) = (a, IsSorted-append c.used hi conns pc h s)

pub IsSorted-drop :
    (lo hi n : ℕ) (conns : List PersistConn) → IsSorted lo hi conns → IsSorted lo hi (drop n conns)
IsSorted-drop lo hi zero conns s = s
IsSorted-drop lo hi (suc n) [] s = s
IsSorted-drop lo hi (suc n) (pc ∷ conns) (a, s) =
    IsSorted-drop lo hi n conns (IsSorted-wider pc.used lo hi hi conns a (omega arith) s)

pub IsSorted-split_last :
    (lo hi : ℕ) (conns rest : List PersistConn) (pc : PersistConn)
    → split_last conns ≡ some (rest, pc)
    → IsSorted lo hi conns
    → IsSorted lo hi rest
unfolding split_last
IsSorted-split_last lo hi [] rest pc e s = absurd (ground arith)
IsSorted-split_last lo hi (c ∷ conns) rest pc e (a, s) =
    by_rest (λ r l p. IsSorted-split_last c.used hi conns r l p s) (split_last conns) refl e
  where
    by_rest :
        ((r : List PersistConn) (l : PersistConn)
          → split_last conns ≡ some (r, l)
          → IsSorted c.used hi r)
        → (o : Option (List PersistConn × PersistConn)) → split_last conns ≡ o
        → behind c o ≡ some (rest, pc)
        → IsSorted lo hi rest
    by_rest ih none p q =
        let w : [] ≡ rest = ground arith in
        subst (IsSorted lo hi) w (omega (arith, IsSorted-bounds c.used hi conns s))
    by_rest ih (some (r, l)) p q =
        let w : c ∷ r ≡ rest = ground arith in subst (IsSorted lo hi) w (a, ih r l p)

-- How many connections at the bottom are expired.
abbrev pub stale : ℕ → ℕ → List PersistConn → ℕ
stale expire now [] = 0
stale expire now (pc ∷ conns) = if is_good expire now pc then 0 else suc (stale expire now conns)

pub AreGood-sorted :
    (expire now lo hi : ℕ) (conns : List PersistConn)
    → now < lo + expire
    → IsSorted lo hi conns
    → AreGood expire now conns
AreGood-sorted expire now lo hi [] h s = tt
AreGood-sorted expire now lo hi (pc ∷ conns) h (a, s) =
    (ground arith, AreGood-sorted expire now pc.used hi conns (omega arith) s)

pub AreGood-drop :
    (expire now lo hi : ℕ) (conns : List PersistConn)
    → IsSorted lo hi conns
    → AreGood expire now (drop (stale expire now conns) conns)
AreGood-drop expire now lo hi [] s = tt
AreGood-drop expire now lo hi (pc ∷ conns) (a, s) = elim (Bool-cases (is_good expire now pc)) [
  | inl g ↦ rw g (g, AreGood-sorted expire now pc.used hi conns (ground arith) s)
  | inr n ↦ rw n (AreGood-drop expire now pc.used hi conns s)
]

stale_le : (expire now : ℕ) (conns : List PersistConn) → stale expire now conns ≤ length conns
stale_le expire now [] = omega arith
stale_le expire now (pc ∷ conns) = ground (arith, stale_le expire now conns)

stale_before :
    (expire now : ℕ) (conns : List PersistConn) (i : ℕ)
    → i < stale expire now conns
    → is_good_at expire now conns i ≡ false
stale_before expire now [] i h = absurd (omega arith)
stale_before expire now (pc ∷ conns) zero h = elim (Bool-cases (is_good expire now pc)) [
  | inl g ↦ absurd (ground arith)
  | inr n ↦ n
]
stale_before expire now (pc ∷ conns) (suc i) h = elim (Bool-cases (is_good expire now pc)) [
  | inl g ↦ absurd (ground arith)
  | inr n ↦ stale_before expire now conns i (ground arith)
]

good_at :
    (expire now : ℕ) (conns : List PersistConn) (i : ℕ)
    → AreGood expire now conns
    → i < length conns
    → is_good_at expire now conns i ≡ true
good_at expire now [] i g h = absurd (omega arith)
good_at expire now (pc ∷ conns) zero (g, gs) h = g
good_at expire now (pc ∷ conns) (suc i) (g, gs) h = good_at expire now conns i gs (omega arith)

stale_behind :
    (expire now lo hi : ℕ) (conns : List PersistConn) (i : ℕ)
    → IsSorted lo hi conns
    → stale expire now conns ≤ i
    → i < length conns
    → is_good_at expire now conns i ≡ true
stale_behind expire now lo hi [] i s h b = absurd (omega arith)
stale_behind expire now lo hi (pc ∷ conns) zero (a, s) h b =
    elim (Bool-cases (is_good expire now pc)) [ inl g ↦ g | inr n ↦ absurd (ground arith) ]
stale_behind expire now lo hi (pc ∷ conns) (suc i) (a, s) h b =
    elim (Bool-cases (is_good expire now pc)) [
      | inl g ↦
          good_at expire now conns i (AreGood-sorted expire now pc.used hi conns (ground arith) s)
            (omega arith)
      | inr n ↦ stale_behind expire now pc.used hi conns i s (ground arith) (omega arith)
    ]

pub found :
    (find : ℕ → (ℕ → Bool) → ℕ) (expire now lo hi : ℕ) (conns : List PersistConn)
    → Searches find
    → IsSorted lo hi conns
    → find (length conns) (is_good_at expire now conns) ≡ stale expire now conns
found find expire now lo hi conns law s =
    law (length conns) (stale expire now conns) (is_good_at expire now conns)
      (stale_le expire now conns) (stale_before expire now conns)
      (λ i. stale_behind expire now lo hi conns i s)
