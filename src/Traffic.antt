-- ===== src/Traffic.antt =====
-- The channels of a Transport in healthcheck.go: connManager with the callers of Dial and Yield, interleaved
-- in any order. No channel has a buffer, so a send and the receive that meets it are one step; a caller
-- that has sent on dial waits on ret. A caller goes from Dial to Yield, or to the closing of its connection.
pub mod Callers
pub mod Filed
pub mod Sound
pub mod Owners
pub mod Served
use dnsredir.Base.{ℕ, ◌+◌, Bool, true, false, Option, none, some, List, [], ◌∷◌, All, ◌≡◌}
use dnsredir.Connections.{
  TransportType, PersistConn, Cache, empty_cache, dial, stamped, yield, cleanup,
}

-- asking: at the send on dial. waiting: at the receive from ret. connecting: with a nil, at the dialing of a
-- new connection. holding: with a connection of the type it asked for, or not. yielding: at the send in Yield.
pub data Caller : Type 0 where
  idle : Caller
  asking waiting connecting : TransportType → Caller
  holding : TransportType → PersistConn → Caller
  yielding : PersistConn → Caller

-- connManager: at its select, at a send on ret, or behind its return.
pub data Manager : Type 0 where
  selecting : Manager
  answering : Option PersistConn → Manager
  returned : Manager

-- The Transport with its goroutines. next: the identity of the next connection. gone: the connections that
-- callers closed or, at the timeout of Yield, dropped.
pub record Traffic : Type 0 where
  pub cache : Cache
  pub manager : Manager
  pub callers : List Caller
  pub stopped : Bool
  pub next : ℕ
  pub gone : List PersistConn

-- One of the callers goes from a point to another.
pub data Moves (c d : Caller) : List Caller → List Caller → Type 0 where
  here : {cs : List Caller} → Moves c d (c ∷ cs) (d ∷ cs)
  there : {b : Caller} {cs ds : List Caller} → Moves c d cs ds → Moves c d (b ∷ cs) (b ∷ ds)

-- What the receive from ret makes of a caller.
abbrev pub told : TransportType → Option PersistConn → Caller
told which none = connecting which
told which (some pc) = holding which pc

pub data Step (find : ℕ → (ℕ → Bool) → ℕ) (expire : ℕ) (s : Traffic) : Traffic → Type 0 where
  call :
      (which : TransportType) {cs : List Caller}
      → Moves idle (asking which) s.callers cs
      → Step find expire s (record s { callers = cs })
  -- case proto := <-t.dial
  accept :
      (which : TransportType) (now : ℕ) {cs : List Caller}
      → s.manager ≡ selecting
      → Moves (asking which) (waiting which) s.callers cs
      → Step find expire s (record s {
        cache = (dial expire now which s.cache).0;
        manager = answering (dial expire now which s.cache).1;
        callers = cs;
      })
  -- t.ret <- pc, or t.ret <- nil
  answer :
      (which : TransportType) (o : Option PersistConn) {cs : List Caller}
      → s.manager ≡ answering o
      → Moves (waiting which) (told which o) s.callers cs
      → Step find expire s (record s { manager = selecting; callers = cs })
  -- A receive from ret behind its closing.
  answer_nil :
      (which : TransportType) {cs : List Caller}
      → s.manager ≡ returned
      → Moves (waiting which) (connecting which) s.callers cs
      → Step find expire s (record s { callers = cs })
  connected :
      (which : TransportType) {cs : List Caller}
      → Moves
          (connecting which)
          (holding which (record { id = s.next; which_type = which; used = 0 }))
          s.callers
          cs
      → Step find expire s (record s { callers = cs; next = s.next + 1 })
  dial_failed :
      (which : TransportType) {cs : List Caller}
      → Moves (connecting which) idle s.callers cs
      → Step find expire s (record s { callers = cs })
  -- An exchange that failed closes its connection.
  discard :
      (which : TransportType) (pc : PersistConn) {cs : List Caller}
      → Moves (holding which pc) idle s.callers cs
      → Step find expire s (record s { callers = cs; gone = pc ∷ s.gone })
  -- pc.used = time.Now()
  give_back :
      (which : TransportType) (pc : PersistConn) (now : ℕ) {cs : List Caller}
      → Moves (holding which pc) (yielding (stamped now pc)) s.callers cs
      → Step find expire s (record s { callers = cs })
  -- case pc := <-t.yield
  keep :
      (pc : PersistConn) {cs : List Caller}
      → s.manager ≡ selecting
      → Moves (yielding pc) idle s.callers cs
      → Step find expire s (record s { callers = cs; cache = yield pc s.cache })
  -- case <-time.After(yieldTimeout)
  drop_it :
      (pc : PersistConn) {cs : List Caller}
      → Moves (yielding pc) idle s.callers cs
      → Step find expire s (record s { callers = cs; gone = pc ∷ s.gone })
  -- case <-ticker.C
  tick :
      (now : ℕ)
      → s.manager ≡ selecting
      → Step find expire s (record s { cache = cleanup find expire now false s.cache })
  -- close(t.stop)
  stop : s.stopped ≡ false → Step find expire s (record s { stopped = true })
  -- case <-t.stop
  end :
      (now : ℕ)
      → s.manager ≡ selecting
      → s.stopped ≡ true
      → Step find expire s
          (record s { cache = cleanup find expire now true s.cache; manager = returned })

-- A Transport as it is made, before the callers come.
abbrev pub quiet : List Caller → Traffic
quiet cs = record {
  cache = empty_cache;
  manager = selecting;
  callers = cs;
  stopped = false;
  next = 0;
  gone = [];
}

-- What can come about, with any number of callers.
pub data Reach (find : ℕ → (ℕ → Bool) → ℕ) (expire : ℕ) : Traffic → Type 0 where
  start : (cs : List Caller) → All (λ c. c ≡ idle) cs → Reach find expire (quiet cs)
  later : {s t : Traffic} → Reach find expire s → Step find expire s t → Reach find expire t
