-- ===== src/Traffic/Filed.antt =====
-- Each stack of the cache holds connections of its own type.
use dnsredir.Base.{
  inr, inl, Bool-cases, ℕ, zero, suc, ◌-◌, Bool, true, false, Option, none, some, List, [], ◌∷◌,
  ◌++◌, length, take, drop, All, ltb, if◌then◌else◌, ◌≡◌, refl, arith,
}
use mathlib.Core.Path.{subst}
use dnsredir.Connections.{
  TransportType, type_udp, type_tcp, type_tls, PersistConn, Cache, stack, set_stack, behind,
  split_last, dial_last, dial, yield, is_good, is_good_at, cleanup_stack, cleanup_type, cleanup,
}

abbrev pub IsOf : TransportType → PersistConn → Type 0
IsOf which pc = pc.which_type ≡ which

pub record IsFiled (t : Cache) : Type 0 where
  pub filed : (which : TransportType) → All (IsOf which) (stack which t)

IsFiled-set_stack :
    (which : TransportType) (conns gone : List PersistConn) (t : Cache)
    → All (IsOf which) conns
    → IsFiled t
    → IsFiled (set_stack which conns gone t)
unfolding stack set_stack
IsFiled-set_stack which conns gone t h f = record { filed = λ other. go which other conns h }
  where
    go :
        (which other : TransportType) (conns : List PersistConn)
        → All (IsOf which) conns
        → All (IsOf other) (stack other (set_stack which conns gone t))
    go type_udp type_udp conns h = h
    go type_udp type_tcp conns h = f.filed type_tcp
    go type_udp type_tls conns h = f.filed type_tls
    go type_tcp type_udp conns h = f.filed type_udp
    go type_tcp type_tcp conns h = h
    go type_tcp type_tls conns h = f.filed type_tls
    go type_tls type_udp conns h = f.filed type_udp
    go type_tls type_tcp conns h = f.filed type_tcp
    go type_tls type_tls conns h = h

All-split_last :
    (P : PersistConn → Type 0) (conns rest : List PersistConn) (pc : PersistConn)
    → split_last conns ≡ some (rest, pc)
    → All P conns
    → All P rest × P pc
unfolding split_last
All-split_last P [] rest pc e h = absurd (ground arith)
All-split_last P (c ∷ conns) rest pc e (p, ps) =
    by_rest (λ r l q. All-split_last P conns r l q ps) (split_last conns) refl e
  where
    by_rest :
        ((r : List PersistConn) (l : PersistConn) → split_last conns ≡ some (r, l) → All P r × P l)
        → (o : Option (List PersistConn × PersistConn)) → split_last conns ≡ o
        → behind c o ≡ some (rest, pc)
        → All P rest × P pc
    by_rest ih none q f =
        let a : [] ≡ rest = cc in let b : c ≡ pc = cc in (subst (All P) a tt, subst P b p)
    by_rest ih (some (r, l)) q f =
        let (x, y) = ih r l q in
        let a : c ∷ r ≡ rest = cc in let b : l ≡ pc = cc in (subst (All P) a (p, x), subst P b y)

pub All-drop :
    (P : PersistConn → Type 0) (n : ℕ) (conns : List PersistConn)
    → All P conns
    → All P (drop n conns)
All-drop P zero conns h = h
All-drop P (suc n) [] h = tt
All-drop P (suc n) (c ∷ conns) (p, ps) = All-drop P n conns ps

All-append :
    (P : PersistConn → Type 0) (xs ys : List PersistConn) → All P xs → All P ys → All P (xs ++ ys)
All-append P [] ys h g = g
All-append P (x ∷ xs) ys (p, ps) g = (p, All-append P xs ys ps g)

-- The connection that a dial gives is of the type that was asked for.
abbrev pub IsGiven : TransportType → Option PersistConn → Type 0
IsGiven which none = Unit
IsGiven which (some pc) = IsOf which pc

pub dial-IsFiled :
    (expire now : ℕ) (which : TransportType) (t : Cache)
    → IsFiled t
    → IsFiled (dial expire now which t).0 × IsGiven which (dial expire now which t).1
dial-IsFiled expire now which t f = unfold dial in go (split_last (stack which t)) refl
  where
    go :
        (o : Option (List PersistConn × PersistConn))
        → split_last (stack which t) ≡ o
        → IsFiled (dial_last expire now which t o).0
          × IsGiven which (dial_last expire now which t o).1
    go none e = unfold dial_last in (f, tt)
    go (some (rest, pc)) e =
        let (a, b) = All-split_last (IsOf which) (stack which t) rest pc e (f.filed which) in
        unfold dial_last in
        elim (Bool-cases (ltb (now - pc.used) expire)) [
          | inl y ↦ rw y (IsFiled-set_stack which rest [] t a f, b)
          | inr n ↦ rw n (IsFiled-set_stack which [] (stack which t) t tt f, tt)
        ]

pub yield-IsFiled : (pc : PersistConn) (t : Cache) → IsFiled t → IsFiled (yield pc t)
yield-IsFiled pc t f =
    unfold yield in
    IsFiled-set_stack pc.which_type (stack pc.which_type t ++ pc ∷ []) [] t
      (All-append (IsOf pc.which_type) (stack pc.which_type t) (pc ∷ []) (f.filed pc.which_type)
        (refl, tt))
      f

pub cleanup-IsFiled :
    (find : ℕ → (ℕ → Bool) → ℕ) (expire now : ℕ) (every : Bool) (t : Cache)
    → IsFiled t
    → IsFiled (cleanup find expire now every t)
unfolding cleanup_stack
cleanup-IsFiled find expire now every t f =
    unfold cleanup in one type_tls _ (one type_tcp _ (one type_udp t f))
  where
    by_stack :
        (which : TransportType) (conns : List PersistConn) (t : Cache)
        → All (IsOf which) conns
        → IsFiled t
        → IsFiled (cleanup_stack find expire now every which conns t)
    by_stack which [] t h f = f
    by_stack which (pc ∷ conns) t h f = by_tests every (is_good expire now pc)
      where
        k : ℕ
        k = find (length (pc ∷ conns)) (is_good_at expire now (pc ∷ conns))

        by_tests :
            (e good : Bool)
            → IsFiled (
                if e
                then set_stack which [] (pc ∷ conns) t
                else if good
                then t
                else set_stack which (drop k (pc ∷ conns)) (take k (pc ∷ conns)) t)
        by_tests true good = IsFiled-set_stack which [] (pc ∷ conns) t tt f
        by_tests false true = f
        by_tests false false =
            IsFiled-set_stack which (drop k (pc ∷ conns)) (take k (pc ∷ conns)) t
              (All-drop (IsOf which) k (pc ∷ conns) h) f

    one :
        (which : TransportType) (t : Cache)
        → IsFiled t
        → IsFiled (cleanup_type find expire now every which t)
    one which t f = unfold cleanup_type in by_stack which (stack which t) t (f.filed which) f
