-- ===== src/Connections/Fresh.antt =====
-- After a tick the cache holds no expired connection, if the connections came back in the order of their times.
use mathlib.Core.Path.{subst}
use dnsredir.Base.{
  ℕ, ◌≤◌, ◌<◌, Bool, true, false, Option, none, some, List, [], ◌∷◌, ◌++◌, ◌≡◌, refl, sym, arith,
}
use dnsredir.Connections.{
  PersistConn, Cache, TransportType, type_udp, type_tcp, type_tls, stack, split_last, dial, yield,
  cleanup_stack, cleanup_type, cleanup, Event, dialed, yielded, ticked, stopped, hand_out, manage,
}
use dnsredir.Connections.Sorted.{Searches, AreGood}
use dnsredir.Connections.Tidy.{IsTidy, IsFresh, dial_last-IsTidy, yield-IsTidy, level, cleanup-Done}

-- The times that Yield wrote ascend in the order in which connManager receives the connections, from
-- `last` on.
abbrev pub AreInOrder : ℕ → List Event → Type 0
AreInOrder last [] = Unit
AreInOrder last (yielded pc ∷ events) = (last ≤ pc.used) × AreInOrder pc.used events
AreInOrder last (dialed at w ∷ events) = AreInOrder last events
AreInOrder last (ticked at ∷ events) = AreInOrder last events
AreInOrder last (stopped at ∷ events) = AreInOrder last events

level_lt : (w : TransportType) → level w < 3
level_lt type_udp = omega arith
level_lt type_tcp = omega arith
level_lt type_tls = omega arith

-- A stop does not look at the clock.
stop_stack-now :
    (find : ℕ → (ℕ → Bool) → ℕ) (expire now at : ℕ) (w : TransportType) (conns : List PersistConn)
    (t : Cache)
    → cleanup_stack find expire now true w conns t ≡ cleanup_stack find expire at true w conns t
unfolding cleanup_stack
stop_stack-now find expire now at w [] t = refl
stop_stack-now find expire now at w (pc ∷ conns) t = refl

stop_type-now :
    (find : ℕ → (ℕ → Bool) → ℕ) (expire now at : ℕ) (w : TransportType) (t : Cache)
    → cleanup_type find expire now true w t ≡ cleanup_type find expire at true w t
unfolding cleanup_type
stop_type-now find expire now at w t = stop_stack-now find expire now at w (stack w t) t

stop-now :
    (find : ℕ → (ℕ → Bool) → ℕ) (expire now at : ℕ) (t : Cache)
    → cleanup find expire now true t ≡ cleanup find expire at true t
unfolding cleanup
stop-now find expire now at t =
    rw
      (
        stop_type-now find expire now at type_udp t,
        stop_type-now find expire now at type_tcp,
        stop_type-now find expire now at type_tls,
      )
      refl

hand_out-cache : (o : Option PersistConn) (a : Cache × List PersistConn) → (hand_out o a).0 ≡ a.0
hand_out-cache none (t, conns) = refl
hand_out-cache (some pc) (t, conns) = refl

-- Along any events in which connManager receives the connections in the order of the times that Yield
-- wrote, on a cache that is sorted by the time of use up to the first of them, and with a Search as package
-- sort documents it, a tick at the end leaves no connection in the cache that is expired at its time.
pub manage-IsFresh :
    (find : ℕ → (ℕ → Bool) → ℕ) (expire at last : ℕ) (events : List Event) (t : Cache)
    → Searches find
    → IsTidy last t
    → AreInOrder last events
    → IsFresh expire at ((manage find expire (events ++ ticked at ∷ []) t).0)
unfolding manage dial
manage-IsFresh find expire at last [] t law k o w =
    (cleanup-Done find expire at last false t law k w).1 (level_lt w)
manage-IsFresh find expire at last (dialed now which ∷ events) t law k o w =
    subst (λ c. AreGood expire at (stack w c))
      (sym (
        hand_out-cache ((dial expire now which t).1)
          (manage find expire (events ++ ticked at ∷ []) ((dial expire now which t).0))))
      (manage-IsFresh find expire at last events ((dial expire now which t).0) law
        (dial_last-IsTidy expire now last which t (split_last (stack which t)) refl k) o w)
manage-IsFresh find expire at last (yielded pc ∷ events) t law k (a, o) w =
    manage-IsFresh find expire at pc.used events (yield pc t) law (yield-IsTidy last pc t a k) o w
manage-IsFresh find expire at last (ticked now ∷ events) t law k o w =
    manage-IsFresh find expire at last events (cleanup find expire now false t) law
      (λ v. (cleanup-Done find expire now last false t law k v).0) o w
manage-IsFresh find expire at last (stopped now ∷ events) t law k o w =
    rw (stop-now find expire now at t)
      ((cleanup-Done find expire at last true t law k w).1 (level_lt w))
