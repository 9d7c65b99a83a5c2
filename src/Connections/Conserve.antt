-- ===== src/Connections/Conserve.antt =====
-- No connection is lost or closed twice: the cache's accounts along any events.
use dnsredir.Base.{
  Bool-cases, ◌-◌, ◌≢◌, Bool-cases, inl, inr, ℕ, zero, suc, ◌+◌, Bool, true, false, Option, none,
  some, List, [], ◌∷◌, ◌++◌, length, take, drop, if◌then◌else◌, ltb, ◌==◌, ◌≡◌, refl, ap, ◌∙◌,
  arith,
}
use dnsredir.Connections.{
  TransportType, type_udp, type_tcp, type_tls, PersistConn, Cache, stack, set_stack, behind,
  split_last, dial_last, dial, hand_out, yield, is_good, is_good_at, cleanup_stack, cleanup_type,
  cleanup, Event, dialed, yielded, ticked, stopped, manage,
}

-- How often the connection is in the list.
abbrev pub count : ℕ → List PersistConn → ℕ
count id [] = 0
count id (pc ∷ conns) = (if pc.id == id then 1 else 0) + count id conns

pub count-append :
    (id : ℕ) (xs ys : List PersistConn) → count id (xs ++ ys) ≡ count id xs + count id ys
count-append id [] ys = omega arith
count-append id (x ∷ xs) ys = omega (arith, count-append id xs ys)

count-take-drop :
    (id k : ℕ) (xs : List PersistConn) → count id (take k xs) + count id (drop k xs) ≡ count id xs
count-take-drop id zero xs = omega arith
count-take-drop id (suc k) [] = refl
count-take-drop id (suc k) (x ∷ xs) = omega (arith, count-take-drop id k xs)

-- The connections in the cache, and those that were closed.
abbrev pub held : ℕ → Cache → ℕ
held id t = count id t.udp + count id t.tcp + count id t.tls + count id t.closed

-- What a change of one stack does to the account.
held-set_stack :
    (id : ℕ) (which : TransportType) (conns gone : List PersistConn) (t : Cache)
    → held id (set_stack which conns gone t) + count id (stack which t)
      ≡ held id t + count id conns + count id gone
unfolding set_stack stack
held-set_stack id type_udp conns gone t = omega (arith, count-append id t.closed gone)
held-set_stack id type_tcp conns gone t = omega (arith, count-append id t.closed gone)
held-set_stack id type_tls conns gone t = omega (arith, count-append id t.closed gone)

behind-ne-none :
    (pc : PersistConn) (o : Option (List PersistConn × PersistConn)) → behind pc o ≢ none
behind-ne-none pc none e = ground arith
behind-ne-none pc (some parts) e = ground arith

pub split_last-none : (conns : List PersistConn) → split_last conns ≡ none → conns ≡ []
unfolding split_last
split_last-none [] e = refl
split_last-none (pc ∷ conns) e = absurd (behind-ne-none pc (split_last conns) e)

count-split_last :
    (id : ℕ) (conns rest : List PersistConn) (pc : PersistConn)
    → split_last conns ≡ some (rest, pc)
    → count id conns ≡ count id rest + count id (pc ∷ [])
unfolding split_last
count-split_last id [] rest pc e = absurd (ground arith)
count-split_last id (c ∷ conns) rest pc e =
    by_rest (λ r l. count-split_last id conns r l) (split_last conns) refl e
  where
    by_rest :
        ((r : List PersistConn) (l : PersistConn)
          → split_last conns ≡ some (r, l)
          → count id conns ≡ count id r + count id (l ∷ []))
        → (o : Option (List PersistConn × PersistConn)) → split_last conns ≡ o
        → behind c o ≡ some (rest, pc)
        → count id (c ∷ conns) ≡ count id rest + count id (pc ∷ [])
    by_rest ih none p q = ground (arith, split_last-none conns p)
    by_rest ih (some (r, l)) p q = ground (arith, ih r l p)

-- The connection that a dial hands out.
abbrev pub given : Option PersistConn → List PersistConn
given none = []
given (some pc) = pc ∷ []

held-dial_last :
    (id expire now : ℕ) (which : TransportType) (t : Cache)
    (o : Option (List PersistConn × PersistConn))
    → split_last (stack which t) ≡ o
    → held id ((dial_last expire now which t o).0)
        + count id (given ((dial_last expire now which t o).1))
      ≡ held id t
unfolding dial_last
held-dial_last id expire now which t none e = omega arith
held-dial_last id expire now which t (some (rest, pc)) e =
    elim (Bool-cases (ltb (now - pc.used) expire)) [
      | inl y ↦ rw y (
          omega (
            arith,
            held-set_stack id which rest [] t,
            count-split_last id (stack which t) rest pc e,
          ))
      | inr n ↦ rw n (omega (arith, held-set_stack id which [] (stack which t) t))
    ]

pub held-dial :
    (id expire now : ℕ) (which : TransportType) (t : Cache)
    → held id ((dial expire now which t).0) + count id (given ((dial expire now which t).1))
      ≡ held id t
unfolding dial
held-dial id expire now which t =
    held-dial_last id expire now which t (split_last (stack which t)) refl

pub held-yield :
    (id : ℕ) (pc : PersistConn) (t : Cache) → held id (yield pc t) ≡ held id t + count id (pc ∷ [])
unfolding yield
held-yield id pc t = omega (
  arith,
  held-set_stack id pc.which_type (stack pc.which_type t ++ pc ∷ []) [] t,
  count-append id (stack pc.which_type t) (pc ∷ []),
)

held-cleanup_stack :
    (find : ℕ → (ℕ → Bool) → ℕ) (id expire now : ℕ) (every : Bool) (which : TransportType)
    (conns : List PersistConn) (t : Cache)
    → stack which t ≡ conns
    → held id (cleanup_stack find expire now every which conns t) ≡ held id t
unfolding cleanup_stack
held-cleanup_stack find id expire now every which [] t e = refl
held-cleanup_stack find id expire now every which (pc ∷ conns) t e =
    by_test every (is_good expire now pc)
  where
    k : ℕ
    k = find (length (pc ∷ conns)) (is_good_at expire now (pc ∷ conns))

    by_test :
        (every good : Bool)
        → held id (
            if every
            then set_stack which [] (pc ∷ conns) t
            else if good
            then t
            else set_stack which (drop k (pc ∷ conns)) (take k (pc ∷ conns)) t)
          ≡ held id t
    by_test true good = omega (arith, held-set_stack id which [] (pc ∷ conns) t, ap (count id) e)
    by_test false true = refl
    by_test false false = omega (
      arith,
      held-set_stack id which (drop k (pc ∷ conns)) (take k (pc ∷ conns)) t,
      ap (count id) e,
      count-take-drop id k (pc ∷ conns),
    )

pub held-cleanup :
    (find : ℕ → (ℕ → Bool) → ℕ) (id expire now : ℕ) (every : Bool) (t : Cache)
    → held id (cleanup find expire now every t) ≡ held id t
held-cleanup find id expire now every t =
    unfold cleanup in
    (one type_tls (
        cleanup_type find expire now every type_tcp (cleanup_type find expire now every type_udp t))
      ∙ one type_tcp (cleanup_type find expire now every type_udp t)
      ∙ one type_udp t)
  where
    one :
        (which : TransportType) (t : Cache)
        → held id (cleanup_type find expire now every which t) ≡ held id t
    one which t =
        unfold cleanup_type in
        held-cleanup_stack find id expire now every which (stack which t) t refl

held-hand_out :
    (id : ℕ) (o : Option PersistConn) (r : Cache × List PersistConn)
    → held id (hand_out o r).0 + count id (hand_out o r).1
      ≡ held id r.0 + count id r.1 + count id (given o)
held-hand_out id none (t, conns) = omega arith
held-hand_out id (some pc) (t, conns) = omega arith

-- How often the events bring the connection to the cache before the first stop.
abbrev pub brought : ℕ → List Event → ℕ
brought id [] = 0
brought id (dialed at which ∷ events) = brought id events
brought id (yielded pc ∷ events) = (if pc.id == id then 1 else 0) + brought id events
brought id (ticked at ∷ events) = brought id events
brought id (stopped at ∷ events) = 0

-- Along any dials, yields and ticks, up to a stop, and whatever sort.Search answers: the times that a
-- connection is in the cache, closed and handed out at the end come, all together, to the times that
-- it was in the cache or closed at the start or was yielded since.
pub manage-held :
    (find : ℕ → (ℕ → Bool) → ℕ) (id expire : ℕ) (events : List Event) (t : Cache)
    → held id ((manage find expire events t).0) + count id ((manage find expire events t).1)
      ≡ held id t + brought id events
unfolding manage dial
manage-held find id expire [] t = refl
manage-held find id expire (dialed at which ∷ events) t = omega (
  arith,
  held-dial_last id expire at which t (split_last (stack which t)) refl,
  held-hand_out id (dial expire at which t).1
      (manage find expire events (dial expire at which t).0),
  manage-held find id expire events (dial expire at which t).0,
)
manage-held find id expire (yielded pc ∷ events) t =
    omega (arith, manage-held find id expire events (yield pc t), held-yield id pc t)
manage-held find id expire (ticked at ∷ events) t = omega (
  arith,
  manage-held find id expire events (cleanup find expire at false t),
  held-cleanup find id expire at false t,
)
manage-held find id expire (stopped at ∷ events) t =
    omega (arith, held-cleanup find id expire at true t)
