-- ===== src/Traffic/Served.antt =====
-- Whether a caller of Dial gets an answer: always while connManager runs, and never after its return.
use dnsredir.Base.{ℕ, ◌≤◌, Bool, Option, some, get_elem?, ◌≡◌, ◌≢◌, refl, ap, ◌∙◌, arith}
use dnsredir.Base.Steps.{Many, stay, step, Many-trans, Many-keeps}
use dnsredir.Connections.{TransportType, PersistConn, dial}
use dnsredir.Traffic.{
  Caller, idle, asking, waiting, connecting, holding, yielding, Manager, selecting, answering,
  returned, Traffic, told, Step, call, accept, answer, answer_nil, connected, dial_failed, discard,
  give_back, keep, drop_it, tick, stop, end, Reach,
}
use dnsredir.Traffic.Callers.{move_at, get_elem?-Moves, total-witness}
use dnsredir.Traffic.Filed.{IsGiven, dial-IsFiled, IsFiled}
use dnsredir.Traffic.Sound.{waits, owes, IsSound}
use dnsredir.Traffic.Owners.{reach-IsSound}

module _ (find : ℕ → (ℕ → Bool) → ℕ) (expire : ℕ) where
  -- Steps after which the caller at the place has an answer, of the type that it asked for or nil.
  abbrev pub GetsAnswer : Traffic → ℕ → TransportType → Type 0
  GetsAnswer s i which =
      (t : Traffic) × (o : Option PersistConn) × Many (Step find expire) s t
      × (get_elem? t.callers i ≡ some (told which o))
      × IsGiven which o

  at_select :
      (s : Traffic) (i : ℕ) (which : TransportType)
      → IsFiled s.cache
      → s.manager ≡ selecting
      → get_elem? s.callers i ≡ some (asking which)
      → GetsAnswer s i which
  at_select s i which h e p =
      let (cs, m, q) = move_at s.callers i (asking which) (waiting which) p in
      let (t, o) = dial expire 0 which s.cache in
      let (ds, n, r) = move_at cs i (waiting which) (told which o) q in
      (
        _,
        o,
        step (step stay (accept which 0 e m)) (answer which o refl n),
        r,
        (dial-IsFiled expire 0 which s.cache h).1,
      )

  waiting_of : (c : Caller) → 1 ≤ waits c → (which : TransportType) × (c ≡ waiting which)
  waiting_of idle h = absurd (omega (arith, h))
  waiting_of (asking which) h = absurd (omega (arith, h))
  waiting_of (waiting which) h = (which, refl)
  waiting_of (connecting which) h = absurd (omega (arith, h))
  waiting_of (holding which pc) h = absurd (omega (arith, h))
  waiting_of (yielding pc) h = absurd (omega (arith, h))

  at_answer :
      (s : Traffic) (i : ℕ) (which : TransportType) (o : Option PersistConn)
      → IsSound s
      → s.manager ≡ answering o
      → get_elem? s.callers i ≡ some (asking which)
      → GetsAnswer s i which
  at_answer s i which o h e p =
      let (j, c, f, w) = total-witness waits s.callers (omega (arith, h.served, ap owes e)) in
      let (other, g) = waiting_of c w in
      let (cs, m, q) = move_at s.callers j (waiting other) (told other o) (f ∙ ap some g) in
      let s' : Traffic = record s { manager = selecting; callers = cs } in
      let p' = get_elem?-Moves i (asking which) m (λ k. ground arith) p in
      let (t, a, ms, r, x) = at_select s' i which h.filed refl p' in
      (t, a, Many-trans (step stay (answer other o e m)) ms, r, x)

  -- While connManager has not returned, and in whatever order the steps came so far, there are steps
  -- after which a caller that is at the send on dial has its answer: a cached connection of the type
  -- that it asked for, or nil. So there is no deadlock.
  pub dial_is_answered :
      (s : Traffic) (i : ℕ) (which : TransportType)
      → Reach find expire s
      → s.manager ≢ returned
      → get_elem? s.callers i ≡ some (asking which)
      → GetsAnswer s i which
  dial_is_answered s i which r ne p = by_manager s.manager refl
    where
      by_manager : (m : Manager) → s.manager ≡ m → GetsAnswer s i which
      by_manager selecting e = at_select s i which (reach-IsSound find expire r).filed e p
      by_manager (answering o) e = at_answer s i which o (reach-IsSound find expire r) e p
      by_manager returned e = absurd (ne e)

  abbrev IsStuck : ℕ → TransportType → Traffic → Type 0
  IsStuck i which s = (s.manager ≡ returned) × (get_elem? s.callers i ≡ some (asking which))

  step-IsStuck :
      (i : ℕ) (which : TransportType) (s t : Traffic)
      → Step find expire s t
      → IsStuck i which s
      → IsStuck i which t
  step-IsStuck i which s t (call w m) (e, p) =
      (e, get_elem?-Moves i (asking which) m (λ k. ground arith) p)
  step-IsStuck i which s t (accept w now d m) (e, p) = absurd (ground arith)
  step-IsStuck i which s t (answer w o d m) (e, p) = absurd (ground arith)
  step-IsStuck i which s t (answer_nil w d m) (e, p) =
      (e, get_elem?-Moves i (asking which) m (λ k. ground arith) p)
  step-IsStuck i which s t (connected w m) (e, p) =
      (e, get_elem?-Moves i (asking which) m (λ k. ground arith) p)
  step-IsStuck i which s t (dial_failed w m) (e, p) =
      (e, get_elem?-Moves i (asking which) m (λ k. ground arith) p)
  step-IsStuck i which s t (discard w pc m) (e, p) =
      (e, get_elem?-Moves i (asking which) m (λ k. ground arith) p)
  step-IsStuck i which s t (give_back w pc now m) (e, p) =
      (e, get_elem?-Moves i (asking which) m (λ k. ground arith) p)
  step-IsStuck i which s t (keep pc d m) (e, p) = absurd (ground arith)
  step-IsStuck i which s t (drop_it pc m) (e, p) =
      (e, get_elem?-Moves i (asking which) m (λ k. ground arith) p)
  step-IsStuck i which s t (tick now d) (e, p) = (e, p)
  step-IsStuck i which s t (stop d) (e, p) = (e, p)
  step-IsStuck i which s t (end now d st) (e, p) = absurd (ground arith)

  -- Once connManager has returned, a caller that is at the send on dial stays there for ever.
  pub returned_blocks :
      (i : ℕ) (which : TransportType) {s t : Traffic}
      → s.manager ≡ returned
      → get_elem? s.callers i ≡ some (asking which)
      → Many (Step find expire) s t
      → get_elem? t.callers i ≡ some (asking which)
  returned_blocks i which e p ms = (Many-keeps (step-IsStuck i which) ms (e, p)).1
