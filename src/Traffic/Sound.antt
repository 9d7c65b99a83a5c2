-- ===== src/Traffic/Sound.antt =====
-- What holds at every time of the connections, of connManager and of the callers, and that each step keeps it.
use dnsredir.Base.{
  ℕ, ◌+◌, Bool, true, false, Option, none, some, List, [], ◌∷◌, All, if◌then◌else◌, ltb, ◌==◌, ◌≡◌,
  refl, ap, ◌∙◌, arith,
}
use mathlib.Core.Path.{subst}
use dnsredir.Connections.{TransportType, PersistConn, dial}
use dnsredir.Connections.Conserve.{count, held, given, held-dial, held-yield, held-cleanup}
use dnsredir.Traffic.{
  Caller, idle, asking, waiting, connecting, holding, yielding, Manager, selecting, answering,
  returned, Traffic, Moves, told, Step, call, accept, answer, answer_nil, connected, dial_failed,
  discard, give_back, keep, drop_it, tick, stop, end,
}
use dnsredir.Traffic.Callers.{total, total-Moves, total-le, All-Moves}
use dnsredir.Traffic.Filed.{IsFiled, IsOf, IsGiven, dial-IsFiled, yield-IsFiled, cleanup-IsFiled}

-- How often the caller has the connection.
abbrev pub holds : ℕ → Caller → ℕ
holds id (holding which pc) = count id (pc ∷ [])
holds id (yielding pc) = count id (pc ∷ [])
holds id _ = 0

abbrev pub in_answer : ℕ → Manager → ℕ
in_answer id (answering o) = count id (given o)
in_answer id _ = 0

-- The places where the connection is: the cache or closed by it, under way to a caller, at a caller, or gone.
abbrev pub places : ℕ → Traffic → ℕ
places id s =
    held id s.cache + in_answer id s.manager + total (holds id) s.callers + count id s.gone

abbrev pub waits : Caller → ℕ
waits (waiting which) = 1
waits _ = 0

abbrev pub owes : Manager → ℕ
owes (answering o) = 1
owes _ = 0

-- What is under way is what was asked for.
abbrev pub IsDue : Manager → TransportType → Type 0
IsDue (answering o) which = IsGiven which o
IsDue _ which = Unit

-- A caller has what it asked for, and what is under way to it is what it asked for.
abbrev pub GetsIts : Manager → Caller → Type 0
GetsIts m (waiting which) = IsDue m which
GetsIts m (holding which pc) = IsOf which pc
GetsIts m _ = Unit

-- Every connection made so far is at one place, and no other is anywhere; connManager owes an answer
-- exactly while one caller waits; callers have and get what they asked for; and the stacks are in order.
pub record IsSound (s : Traffic) : Type 0 where
  pub owned : (id : ℕ) → places id s ≡ (if ltb id s.next then 1 else 0)
  pub served : total waits s.callers ≡ owes s.manager
  pub rightful : All (GetsIts s.manager) s.callers
  pub filed : IsFiled s.cache

-- Where nobody waits, it does not matter what is under way.
GetsIts-any :
    (m m' : Manager) (cs : List Caller)
    → total waits cs ≡ 0
    → All (GetsIts m) cs
    → All (GetsIts m') cs
GetsIts-any m m' [] e h = tt
GetsIts-any m m' (c ∷ cs) e (p, ps) =
    (one c (omega (arith, e)) p, GetsIts-any m m' cs (omega (arith, e)) ps)
  where
    one : (c : Caller) → waits c ≡ 0 → GetsIts m c → GetsIts m' c
    one idle z p = tt
    one (asking which) z p = tt
    one (waiting which) z p = absurd (omega (arith, z))
    one (connecting which) z p = tt
    one (holding which pc) z p = p
    one (yielding pc) z p = tt

-- A move between points at which nobody waits, with what else of the state it changes.
moved :
    {c d : Caller} (s : Traffic) (cs : List Caller) (next : ℕ) (gone : List PersistConn)
    → Moves c d s.callers cs
    → waits c ≡ 0
    → waits d ≡ 0
    → (GetsIts s.manager c → GetsIts s.manager d)
    → ((id : ℕ)
        → holds id d + count id gone + (if ltb id s.next then 1 else 0)
          ≡ holds id c + count id s.gone + (if ltb id next then 1 else 0))
    → IsSound s
    → IsSound (record s { callers = cs; next = next; gone = gone })
moved s cs next gone m a b f e h = record {
  owned = λ id. omega (arith, h.owned id, e id, total-Moves (holds id) m);
  served = omega (arith, h.served, a, b, total-Moves waits m);
  rightful = All-Moves (GetsIts s.manager) m f h.rightful;
  filed = h.filed;
}

next_id :
    (id next : ℕ)
    → (if ltb id (next + 1) then 1 else 0)
      ≡ (if ltb id next then 1 else 0) + (if next == id then 1 else 0)
next_id id next = ground arith

told-waits : (which : TransportType) (o : Option PersistConn) → waits (told which o) ≡ 0
told-waits which none = refl
told-waits which (some pc) = refl

told-holds :
    (id : ℕ) (which : TransportType) (o : Option PersistConn)
    → holds id (told which o) ≡ count id (given o)
told-holds id which none = refl
told-holds id which (some pc) = refl

told-GetsIts :
    (m : Manager) (which : TransportType) (o : Option PersistConn)
    → IsGiven which o
    → GetsIts m (told which o)
told-GetsIts m which none g = tt
told-GetsIts m which (some pc) g = g

answered :
    (s : Traffic) (cs : List Caller) (which : TransportType) (o : Option PersistConn)
    → s.manager ≡ answering o
    → Moves (waiting which) (told which o) s.callers cs
    → IsSound s
    → IsSound (record s { manager = selecting; callers = cs })
answered s cs which o e m h = record {
  owned = λ id.
      omega
        (arith, h.owned id, ap (in_answer id) e, told-holds id which o, total-Moves (holds id) m);
  served = none_waits;
  rightful =
      GetsIts-any (answering o) selecting cs none_waits
        (All-Moves (GetsIts (answering o)) m (told-GetsIts (answering o) which o) due);
  filed = h.filed;
}
  where
    due : All (GetsIts (answering o)) s.callers
    due = subst (λ a. All (GetsIts a) s.callers) e h.rightful

    none_waits : total waits cs ≡ 0
    none_waits = omega (arith, h.served, ap owes e, told-waits which o, total-Moves waits m)

pub Step-IsSound :
    (find : ℕ → (ℕ → Bool) → ℕ) (expire : ℕ) {s t : Traffic}
    → Step find expire s t
    → IsSound s
    → IsSound t
Step-IsSound find expire {s} (call which {cs} m) h =
    moved s cs s.next s.gone m refl refl (λ _. tt) (λ id. refl) h
Step-IsSound find expire {s} (accept which now {cs} e m) h =
    let z : total waits s.callers ≡ 0 = h.served ∙ ap owes e in
    let (f, g) = dial-IsFiled expire now which s.cache h.filed in
    record {
      owned = λ id. omega (
        arith,
        h.owned id,
        ap (in_answer id) e,
        held-dial id expire now which s.cache,
        total-Moves (holds id) m,
      );
      served = omega (arith, z, total-Moves waits m);
      rightful =
          All-Moves (GetsIts (answering (dial expire now which s.cache).1)) m (λ _. g)
            (GetsIts-any s.manager (answering (dial expire now which s.cache).1) s.callers z
              h.rightful);
      filed = f;
    }
Step-IsSound find expire {s} (answer which o {cs} e m) h = answered s cs which o e m h
Step-IsSound find expire {s} (answer_nil which {cs} e m) h =
    absurd (omega (arith, h.served, ap owes e, total-le waits m))
Step-IsSound find expire {s} (connected which {cs} m) h =
    moved s cs (s.next + 1) s.gone m refl refl (λ _. refl) (λ id. omega (arith, next_id id s.next))
      h
Step-IsSound find expire {s} (dial_failed which {cs} m) h =
    moved s cs s.next s.gone m refl refl (λ _. tt) (λ id. refl) h
Step-IsSound find expire {s} (discard which pc {cs} m) h =
    moved s cs s.next (pc ∷ s.gone) m refl refl (λ _. tt) (λ id. omega arith) h
Step-IsSound find expire {s} (give_back which pc now {cs} m) h =
    moved s cs s.next s.gone m refl refl (λ _. tt) (λ id. refl) h
Step-IsSound find expire {s} (keep pc {cs} e m) h = record {
  owned = λ id. omega (arith, h.owned id, held-yield id pc s.cache, total-Moves (holds id) m);
  served = omega (arith, h.served, total-Moves waits m);
  rightful = All-Moves (GetsIts s.manager) m (λ _. tt) h.rightful;
  filed = yield-IsFiled pc s.cache h.filed;
}
Step-IsSound find expire {s} (drop_it pc {cs} m) h =
    moved s cs s.next (pc ∷ s.gone) m refl refl (λ _. tt) (λ id. omega arith) h
Step-IsSound find expire {s} (tick now e) h = record {
  owned = λ id. omega (arith, h.owned id, held-cleanup find id expire now false s.cache);
  served = h.served;
  rightful = h.rightful;
  filed = cleanup-IsFiled find expire now false s.cache h.filed;
}
Step-IsSound find expire {s} (stop e) h = record {
  owned = h.owned;
  served = h.served;
  rightful = h.rightful;
  filed = h.filed;
}
Step-IsSound find expire {s} (end now e st) h =
    let z : total waits s.callers ≡ 0 = h.served ∙ ap owes e in
    record {
      owned = λ id.
          omega
            (arith, h.owned id, ap (in_answer id) e, held-cleanup find id expire now true s.cache);
      served = z;
      rightful = GetsIts-any s.manager returned s.callers z h.rightful;
      filed = cleanup-IsFiled find expire now true s.cache h.filed;
    }
