-- ===== src/Connections/Tidy.antt =====
-- Every operation keeps the stacks sorted, and a cleanup leaves no expired connection.
use mathlib.Core.Path.{subst}
use dnsredir.Base.{
  ℕ, suc, ◌-◌, ◌≤◌, ◌<◌, Bool, true, false, Option, none, some, List, [], ◌∷◌, ◌++◌, take, drop,
  ltb, ◌≡◌, refl, sym, arith, Bool-cases, inl, inr,
}
use dnsredir.Connections.{
  PersistConn, Cache, TransportType, type_udp, type_tcp, type_tls, stack, set_stack, split_last,
  dial_last, yield, is_good, cleanup_stack, cleanup_type, cleanup,
}
use dnsredir.Connections.Sorted.{
  Searches, IsSorted, AreGood, IsSorted-wider, IsSorted-append, IsSorted-drop, IsSorted-split_last,
  stale, AreGood-sorted, AreGood-drop, found,
}

-- Every stack.
abbrev pub IsTidy : ℕ → Cache → Type 0
IsTidy hi t = (w : TransportType) → IsSorted 0 hi (stack w t)

abbrev pub IsFresh : ℕ → ℕ → Cache → Type 0
IsFresh expire now t = (w : TransportType) → AreGood expire now (stack w t)

-- What holds of the new stack and of the others holds of every stack.
at_type {ℓ} :
    (P : TransportType → List PersistConn → Type ℓ) (w : TransportType)
    (conns gone : List PersistConn) (t : Cache)
    → P w conns
    → ((v : TransportType) → P v (stack v t))
    → (v : TransportType) → P v (stack v (set_stack w conns gone t))
unfolding stack set_stack
at_type P type_udp conns gone t p q type_udp = p
at_type P type_udp conns gone t p q type_tcp = q type_tcp
at_type P type_udp conns gone t p q type_tls = q type_tls
at_type P type_tcp conns gone t p q type_udp = q type_udp
at_type P type_tcp conns gone t p q type_tcp = p
at_type P type_tcp conns gone t p q type_tls = q type_tls
at_type P type_tls conns gone t p q type_udp = q type_udp
at_type P type_tls conns gone t p q type_tcp = q type_tcp
at_type P type_tls conns gone t p q type_tls = p

pub IsTidy-later : (hi hi' : ℕ) (t : Cache) → hi ≤ hi' → IsTidy hi t → IsTidy hi' t
IsTidy-later hi hi' t h k w = IsSorted-wider 0 0 hi hi' (stack w t) (omega arith) h (k w)

pub dial_last-IsTidy :
    (expire now hi : ℕ) (w : TransportType) (t : Cache)
    (o : Option (List PersistConn × PersistConn))
    → split_last (stack w t) ≡ o
    → IsTidy hi t
    → IsTidy hi ((dial_last expire now w t o).0)
unfolding dial_last
dial_last-IsTidy expire now hi w t none e k = k
dial_last-IsTidy expire now hi w t (some (rest, pc)) e k =
    elim (Bool-cases (ltb (now - pc.used) expire)) [
      | inl y ↦ rw y (
          at_type (λ v. IsSorted 0 hi) w rest [] t
            (IsSorted-split_last 0 hi (stack w t) rest pc e (k w)) k)
      | inr n ↦ rw n (at_type (λ v. IsSorted 0 hi) w [] (stack w t) t (omega arith) k)
    ]

pub yield-IsTidy :
    (hi : ℕ) (pc : PersistConn) (t : Cache)
    → hi ≤ pc.used
    → IsTidy hi t
    → IsTidy pc.used (yield pc t)
unfolding yield
yield-IsTidy hi pc t h k =
    at_type (λ v. IsSorted 0 pc.used) pc.which_type (stack pc.which_type t ++ pc ∷ []) [] t
      (IsSorted-append 0 hi (stack pc.which_type t) pc h (k pc.which_type))
      (IsTidy-later hi pc.used t h k)

-- The order in which cleanup walks the types, and what holds behind n of them.
abbrev pub level : TransportType → ℕ
level type_udp = 0
level type_tcp = 1
level type_tls = 2

abbrev pub Done : ℕ → ℕ → ℕ → ℕ → TransportType → List PersistConn → Type 0
Done expire now hi n v conns = IsSorted 0 hi conns × (level v < n → AreGood expire now conns)

promote :
    (expire now hi : ℕ) (t : Cache) (w : TransportType)
    → ((v : TransportType) → Done expire now hi (level w) v (stack v t))
    → AreGood expire now (stack w t)
    → (v : TransportType) → Done expire now hi (suc (level w)) v (stack v t)
promote expire now hi t w k g type_udp = ((k type_udp).0, λ h. good_udp w k g h)
  where
    good_udp :
        (w : TransportType)
        → ((v : TransportType) → Done expire now hi (level w) v (stack v t))
        → AreGood expire now (stack w t)
        → 0 < suc (level w)
        → AreGood expire now (stack type_udp t)
    good_udp type_udp k g h = g
    good_udp type_tcp k g h = (k type_udp).1 (omega arith)
    good_udp type_tls k g h = (k type_udp).1 (omega arith)
promote expire now hi t w k g type_tcp = ((k type_tcp).0, λ h. good_tcp w k g h)
  where
    good_tcp :
        (w : TransportType)
        → ((v : TransportType) → Done expire now hi (level w) v (stack v t))
        → AreGood expire now (stack w t)
        → 1 < suc (level w)
        → AreGood expire now (stack type_tcp t)
    good_tcp type_udp k g h = absurd (omega arith)
    good_tcp type_tcp k g h = g
    good_tcp type_tls k g h = (k type_tcp).1 (omega arith)
promote expire now hi t w k g type_tls = ((k type_tls).0, λ h. good_tls w k g h)
  where
    good_tls :
        (w : TransportType)
        → ((v : TransportType) → Done expire now hi (level w) v (stack v t))
        → AreGood expire now (stack w t)
        → 2 < suc (level w)
        → AreGood expire now (stack type_tls t)
    good_tls type_udp k g h = absurd (omega arith)
    good_tls type_tcp k g h = absurd (omega arith)
    good_tls type_tls k g h = g

stack-set_stack :
    (w : TransportType) (conns gone : List PersistConn) (t : Cache)
    → stack w (set_stack w conns gone t) ≡ conns
unfolding stack set_stack
stack-set_stack type_udp conns gone t = refl
stack-set_stack type_tcp conns gone t = refl
stack-set_stack type_tls conns gone t = refl

put_good :
    (expire now hi : ℕ) (t : Cache) (w : TransportType) (conns gone : List PersistConn)
    → ((v : TransportType) → Done expire now hi (level w) v (stack v t))
    → IsSorted 0 hi conns
    → AreGood expire now conns
    → (v : TransportType)
    → Done expire now hi (suc (level w)) v (stack v (set_stack w conns gone t))
put_good expire now hi t w conns gone k s g =
    promote expire now hi (set_stack w conns gone t) w
      (at_type (Done expire now hi (level w)) w conns gone t (s, λ h. absurd (omega arith)) k)
      (subst (AreGood expire now) (sym (stack-set_stack w conns gone t)) g)

-- One round of cleanup.
cleanup_stack-Done :
    (find : ℕ → (ℕ → Bool) → ℕ) (expire now hi : ℕ) (every : Bool) (w : TransportType)
    (conns : List PersistConn) (t : Cache)
    → Searches find
    → stack w t ≡ conns
    → ((v : TransportType) → Done expire now hi (level w) v (stack v t))
    → (v : TransportType)
    → Done expire now hi (suc (level w)) v (stack v (cleanup_stack find expire now every w conns t))
unfolding cleanup_stack
cleanup_stack-Done find expire now hi every w [] t law e k =
    promote expire now hi t w k (subst (AreGood expire now) (sym e) tt)
cleanup_stack-Done find expire now hi true w (pc ∷ conns) t law e k =
    put_good expire now hi t w [] (pc ∷ conns) k (omega arith) tt
cleanup_stack-Done find expire now hi false w (pc ∷ conns) t law e k =
    let s : IsSorted 0 hi (pc ∷ conns) = subst (IsSorted 0 hi) e ((k w).0) in
    elim (Bool-cases (is_good expire now pc)) [
      | inl g ↦ rw g (
          promote expire now hi t w k (
            subst (AreGood expire now) (sym e)
              (g, AreGood-sorted expire now pc.used hi conns (ground arith) s.1)))
      | inr n ↦
          rw (n, found find expire now 0 hi (pc ∷ conns) law s)
            (put_good expire now hi t w (drop (stale expire now (pc ∷ conns)) (pc ∷ conns))
              (take (stale expire now (pc ∷ conns)) (pc ∷ conns)) k
              (IsSorted-drop 0 hi (stale expire now (pc ∷ conns)) (pc ∷ conns) s)
              (AreGood-drop expire now 0 hi (pc ∷ conns) s))
    ]

pub cleanup-Done :
    (find : ℕ → (ℕ → Bool) → ℕ) (expire now hi : ℕ) (every : Bool) (t : Cache)
    → Searches find
    → IsTidy hi t
    → (v : TransportType) → Done expire now hi 3 v (stack v (cleanup find expire now every t))
unfolding cleanup cleanup_type
cleanup-Done find expire now hi every t law k =
    let round = cleanup_type find expire now every in
    cleanup_stack-Done find expire now hi every type_tls _ (round type_tcp (round type_udp t)) law
      refl
      (cleanup_stack-Done find expire now hi every type_tcp _ (round type_udp t) law refl (
        cleanup_stack-Done find expire now hi every type_udp _ t law refl
          (λ v. (k v, λ h. absurd (omega arith)))))
