-- ===== src/Connections.antt =====
-- The cache of connections in healthcheck.go: the cases of connManager with cleanup and Yield, and
-- stringToTransportType of type.go. connManager alone touches the cache, so each case of its select
-- is one step. sort.Search is a parameter; a slice's end is the list's end.
pub mod Conserve
pub mod Fresh
pub mod Sorted
pub mod Tidy
use dnsredir.Base.{
  ℕ, ◌+◌, ◌-◌, Bool, true, false, Option, none, some, List, [], ◌∷◌, ◌++◌, length, take, drop,
  get_elem?, if◌then◌else◌, ltb, Str, codes, str_eq,
}

pub data TransportType : Type 0 where
  type_udp type_tcp type_tls : TransportType

-- An unknown protocol falls back to UDP.
unfoldable pub string_to_transport_type : Str → TransportType
string_to_transport_type s =
    if str_eq s (codes "udp")
    then type_udp
    else if str_eq s (codes "tcp")
    then type_tcp
    else if str_eq s (codes "tcp-tls")
    then type_tls
    else type_udp

-- A connection: an identity for its socket, the type that transportTypeFromConn finds, and when it
-- was used last.
pub record PersistConn : Type 0 where
  pub id : ℕ
  pub which_type : TransportType
  pub used : ℕ

-- conns of Transport, by type, and what was given to closeConns.
pub record Cache : Type 0 where
  pub udp : List PersistConn
  pub tcp : List PersistConn
  pub tls : List PersistConn
  pub closed : List PersistConn

abbrev pub empty_cache : Cache
empty_cache = record { udp = []; tcp = []; tls = []; closed = [] }

unfoldable pub stack : TransportType → Cache → List PersistConn
stack type_udp t = t.udp
stack type_tcp t = t.tcp
stack type_tls t = t.tls

-- t.conns[transType] = conns, with `gone` handed to closeConns.
unfoldable pub set_stack : TransportType → List PersistConn → List PersistConn → Cache → Cache
set_stack type_udp conns gone t = record t { udp = conns; closed = t.closed ++ gone }
set_stack type_tcp conns gone t = record t { tcp = conns; closed = t.closed ++ gone }
set_stack type_tls conns gone t = record t { tls = conns; closed = t.closed ++ gone }

-- stack[:len(stack)-1] and stack[len(stack)-1], if there is one.
abbrev pub behind :
    PersistConn → Option (List PersistConn × PersistConn) → Option (List PersistConn × PersistConn)
behind pc none = some ([], pc)
behind pc (some (conns, last)) = some (pc ∷ conns, last)

unfoldable pub split_last : List PersistConn → Option (List PersistConn × PersistConn)
split_last [] = none
split_last (pc ∷ conns) = behind pc (split_last conns)

-- case proto := <-t.dial, by the last connection of the stack: the connection for the caller, or none
-- for a nil. With an expired one the whole stack is closed.
unfoldable pub dial_last :
    ℕ
    → ℕ
    → TransportType
    → Cache
    → Option (List PersistConn × PersistConn)
    → Cache × Option PersistConn
unfolding stack set_stack
dial_last expire now which t none = (t, none)
dial_last expire now which t (some (rest, pc)) =
    if ltb (now - pc.used) expire
    then (set_stack which rest [] t, some pc)
    else (set_stack which [] (stack which t) t, none)

unfoldable pub dial : ℕ → ℕ → TransportType → Cache → Cache × Option PersistConn
unfolding dial_last split_last stack
dial expire now which t = dial_last expire now which t (split_last (stack which t))

-- pc.used = time.Now(), which Yield does in the goroutine of its caller before the send.
abbrev pub stamped : ℕ → PersistConn → PersistConn
stamped now pc = record pc { used = now }

-- case pc := <-t.yield; the time of use is the one that Yield has written.
unfoldable pub yield : PersistConn → Cache → Cache
unfolding stack set_stack
yield pc t = set_stack pc.which_type (stack pc.which_type t ++ pc ∷ []) [] t

-- used.After(staleTime), where staleTime is now less the expiry.
abbrev pub is_good : ℕ → ℕ → PersistConn → Bool
is_good expire now pc = ltb now (pc.used + expire)

abbrev pub is_good_at : ℕ → ℕ → List PersistConn → ℕ → Bool
is_good_at expire now conns i = elim (get_elem? conns i) [
  | none ↦ false
  | some pc ↦ is_good expire now pc
]

-- One round of the loop of cleanup, on the stack that it reads.
unfoldable pub cleanup_stack :
    (ℕ → (ℕ → Bool) → ℕ) → ℕ → ℕ → Bool → TransportType → List PersistConn → Cache → Cache
unfolding set_stack
cleanup_stack find expire now every which [] t = t
cleanup_stack find expire now every which (pc ∷ conns) t =
    let first_good = find (length (pc ∷ conns)) (is_good_at expire now (pc ∷ conns)) in
    if every
    then set_stack which [] (pc ∷ conns) t
    else if is_good expire now pc
    then t
    else set_stack which (drop first_good (pc ∷ conns)) (take first_good (pc ∷ conns)) t

unfoldable pub cleanup_type : (ℕ → (ℕ → Bool) → ℕ) → ℕ → ℕ → Bool → TransportType → Cache → Cache
unfolding cleanup_stack stack
cleanup_type find expire now every which t =
    cleanup_stack find expire now every which (stack which t) t

unfoldable pub cleanup : (ℕ → (ℕ → Bool) → ℕ) → ℕ → ℕ → Bool → Cache → Cache
unfolding cleanup_type
cleanup find expire now every t =
    cleanup_type find expire now every type_tls
      (cleanup_type find expire now every type_tcp (cleanup_type find expire now every type_udp t))

-- What the select of connManager takes, in the order in which it does: `at` is the clock that it reads. A
-- connection that is yielded has the time that Yield wrote before the send, so those times need not ascend.
pub data Event : Type 0 where
  dialed : (at : ℕ) → TransportType → Event
  yielded : PersistConn → Event
  ticked : (at : ℕ) → Event
  stopped : (at : ℕ) → Event

-- The answer of a dial before what the later events hand out.
abbrev pub hand_out : Option PersistConn → Cache × List PersistConn → Cache × List PersistConn
hand_out none (t, conns) = (t, conns)
hand_out (some pc) (t, conns) = (t, pc ∷ conns)

-- The cache and the connections that callers took, along the events; behind a stop there is none.
unfoldable pub manage : (ℕ → (ℕ → Bool) → ℕ) → ℕ → List Event → Cache → Cache × List PersistConn
unfolding dial yield cleanup
manage find expire [] t = (t, [])
manage find expire (dialed at which ∷ events) t =
    let answer = dial expire at which t in
    hand_out (answer.1) (manage find expire events (answer.0))
manage find expire (yielded pc ∷ events) t = manage find expire events (yield pc t)
manage find expire (ticked at ∷ events) t =
    manage find expire events (cleanup find expire at false t)
manage find expire (stopped at ∷ events) t = (cleanup find expire at true t, [])
