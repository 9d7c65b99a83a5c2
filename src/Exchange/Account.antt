-- ===== src/Exchange/Account.antt =====
-- No connection is lost in an Exchange: each is back in the cache, closed, or given up by Yield.
use dnsredir.Base.{
  ℕ, ◌+◌, Bool, true, false, Option, none, some, inl, inr, ◌⊎◌, List, [], ◌∷◌, ◌==◌, Str, ◌≡◌,
  arith, Bool-cases,
}
use dnsredir.Connections.{stamped, PersistConn, Cache, TransportType, string_to_transport_type}
use dnsredir.Connections
use dnsredir.Connections.Conserve.{count, count-append, held, given, held-dial, held-yield}
use dnsredir.Exchange.{
  IoError, Read, got, read_error, Network, Dialed, from_cache, opened, dial_failed, connected,
  open_new, dial_host, dial_proto, Ended, close, give_back, read_reply, udp_size, on_written,
  converse, on_dialed, Call, exchange,
}

-- The connection in a caller's hands after Dial.
abbrev pub in_hand : Dialed → List PersistConn
in_hand (from_cache pc) = pc ∷ []
in_hand (opened pc) = pc ∷ []
in_hand (dial_failed e) = []

-- The connection that Dial has opened.
abbrev pub new_conn : Dialed → List PersistConn
new_conn (from_cache pc) = []
new_conn (opened pc) = pc ∷ []
new_conn (dial_failed e) = []

-- The account of a finished Exchange.
abbrev pub kept : ℕ → Ended → ℕ
kept id e = held id e.cache + count id e.dropped

held-close :
    (id : ℕ) (pc : PersistConn) (t : Cache) → held id (close pc t) ≡ held id t + count id (pc ∷ [])
held-close id pc t = omega (arith, count-append id t.closed (pc ∷ []))

kept-give_back :
    (net : Network) (pc : PersistConn) (id reply : ℕ) (t : Cache)
    → kept id (give_back net pc reply t) ≡ held id t + count id (pc ∷ [])
unfolding give_back
kept-give_back net pc id reply t = elim (Bool-cases net.taken) [
  | inl y ↦ rw y (omega (arith, held-yield id (stamped net.now pc) t))
  | inr n ↦ rw n (omega arith)
]

kept-read_reply :
    (net : Network) (req_id : ℕ) (cached : Bool) (pc : PersistConn) (id : ℕ) (t : Cache) (r : Read)
    → kept id (read_reply net req_id cached pc t r) ≡ held id t + count id (pc ∷ [])
unfolding read_reply
kept-read_reply net req_id cached pc id t (read_error e) = omega (arith, held-close id pc t)
kept-read_reply net req_id cached pc id t (got i reply) = elim (Bool-cases (req_id == i)) [
  | inl y ↦ rw y (kept-give_back net pc id reply t)
  | inr n ↦ rw n (omega (arith, held-close id pc t))
]

kept-on_written :
    (net : Network) (req_id size : ℕ) (cached : Bool) (pc : PersistConn) (id : ℕ) (t : Cache)
    (o : Option IoError)
    → kept id (on_written net req_id size cached pc t o) ≡ held id t + count id (pc ∷ [])
unfolding on_written
kept-on_written net req_id size cached pc id t (some e) = omega (arith, held-close id pc t)
kept-on_written net req_id size cached pc id t none =
    kept-read_reply net req_id cached pc id t (net.read pc (udp_size size))

kept-on_dialed :
    (net : Network) (req_id size id : ℕ) (t : Cache) (d : Dialed)
    → kept id (on_dialed net req_id size t d) ≡ held id t + count id (in_hand d)
unfolding on_dialed converse
kept-on_dialed net req_id size id t (from_cache pc) =
    kept-on_written net req_id size true pc id t (net.write pc)
kept-on_dialed net req_id size id t (opened pc) =
    kept-on_written net req_id size false pc id t (net.write pc)
kept-on_dialed net req_id size id t (dial_failed e) = omega arith

count-connected :
    (id : ℕ) (o : ℕ ⊎ PersistConn)
    → count id (in_hand (connected o)) ≡ 0 + count id (new_conn (connected o))
count-connected id (inl e) = omega arith
count-connected id (inr pc) = omega arith

count-open_new :
    (net : Network) (id : ℕ) (proto : Str) (o : Option PersistConn)
    → count id (in_hand (open_new net proto o))
      ≡ count id (given o) + count id (new_conn (open_new net proto o))
count-open_new net id proto (some pc) = omega arith
count-open_new net id proto none = count-connected id (net.connect proto)

held-dial_host :
    (net : Network) (id expire : ℕ) (proto : Str) (t : Cache)
    → held id ((dial_host net expire proto t).0)
        + count id (in_hand ((dial_host net expire proto t).1))
      ≡ held id t + count id (new_conn ((dial_host net expire proto t).1))
unfolding dial_host
held-dial_host net id expire proto t = omega (
  arith,
  held-dial id expire net.now (string_to_transport_type proto) t,
  count-open_new net id proto
      ((Connections.dial expire net.now (string_to_transport_type proto) t).1),
)

-- Whatever the network answers, the times that a connection is in the cache, closed and given up by Yield
-- behind an Exchange come, all together, to the times that it was in the cache or closed before,
-- with the one that this Exchange opened.
pub exchange-kept :
    (call : Call) (net : Network) (id : ℕ) (t : Cache)
    → kept id (exchange call net t)
      ≡ held id t
        + count id
            (new_conn ((dial_host net call.expire (dial_proto call.host_proto call.proto) t).1))
unfolding exchange
exchange-kept call net id t =
    let proto = dial_proto call.host_proto call.proto in
    omega (
      arith,
      held-dial_host net id call.expire proto t,
      kept-on_dialed net call.req_id call.size id ((dial_host net call.expire proto t).0)
          ((dial_host net call.expire proto t).1),
    )
