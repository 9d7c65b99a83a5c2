-- ===== src/Exchange.antt =====
-- UpstreamHost.Dial and UpstreamHost.Exchange of healthcheck.go for a host that is not DNS over HTTPS,
-- with Transport.Yield, on the cache of the host's connections. What the network answers is an
-- argument, and no other goroutine uses the cache meanwhile.
pub mod Account
pub mod Retry
use dnsredir.Base.{
  ℕ, zero, suc, ◌+◌, ◌%◌, ◌^◌, ◌⊎◌, inl, inr, ltb, Bool, true, false, not, ◌&&◌, Option, none, some,
  List, [], ◌∷◌, ◌++◌, if◌then◌else◌, ◌==◌, Str, codes, str_eq,
}
use dnsredir.Config.Finish.{proto_to_network}
use dnsredir.Connections
use dnsredir.Connections.{PersistConn, Cache, string_to_transport_type}
use dnsredir.Serve.{Exchanged, replied, cached_conn_closed, failed}

-- io.EOF, or another error.
pub data IoError : Type 0 where
  eof : IoError
  other : ℕ → IoError

-- ReadMsg: a message with its id, or an error.
pub data Read : Type 0 where
  got : ℕ → ℕ → Read
  read_error : IoError → Read

-- What one Exchange meets: the clock, the connection that a new dial opens or its error, WriteMsg on
-- the connection, ReadMsg by the size of a datagram, and whether connManager takes what Yield sends before its timeout.
pub record Network : Type 0 where
  pub now : ℕ
  pub connect : Str → ℕ ⊎ PersistConn
  pub write : PersistConn → Option IoError
  pub read : PersistConn → ℕ → Read
  pub taken : Bool

-- What Dial returns: a cached connection, a new one, or an error.
pub data Dialed : Type 0 where
  from_cache : PersistConn → Dialed
  opened : PersistConn → Dialed
  dial_failed : ℕ → Dialed

-- The host's own protocol, and the request's for a host of "dns".
unfoldable pub dial_proto : Str → Str → Str
unfolding proto_to_network
dial_proto host_proto proto =
    if not (str_eq host_proto (codes "dns")) then proto_to_network host_proto else proto

abbrev pub connected : ℕ ⊎ PersistConn → Dialed
connected (inl e) = dial_failed e
connected (inr pc) = opened pc

abbrev pub open_new : Network → Str → Option PersistConn → Dialed
open_new net proto (some pc) = from_cache pc
open_new net proto none = connected (net.connect proto)

-- UpstreamHost.Dial, on the settings of the host and the protocol of the request.
unfoldable pub dial_host : Network → ℕ → Str → Cache → Cache × Dialed
dial_host net expire proto t =
    let answer = Connections.dial expire net.now (string_to_transport_type proto) t in
    (answer.0, open_new net proto (answer.1))

-- The cache when Exchange is over, a connection that Yield gave up on, and what Exchange returns.
pub record Ended : Type 0 where
  pub cache : Cache
  pub dropped : List PersistConn
  pub answer : Exchanged

-- The errors of Exchange itself among those that `failed` carries.
abbrev pub eof_error : ℕ
eof_error = 0

abbrev pub out_of_order : ℕ
out_of_order = 1

-- Close(pc.c)
abbrev pub close : PersistConn → Cache → Cache
close pc t = record t { closed = t.closed ++ pc ∷ [] }

abbrev pub io_failure : IoError → Bool → Exchanged
io_failure eof cached = if cached then cached_conn_closed else failed eof_error
io_failure (other e) cached = failed e

-- uint16(state.Size()), and dns.MinMsgSize at least.
unfoldable pub udp_size : ℕ → ℕ
udp_size size = let n = size % 2 ^ 16 in if ltb n 512 then 512 else n

-- Yield: it writes the time; then connManager takes the connection, or the timeout passes.
unfoldable pub give_back : Network → PersistConn → ℕ → Cache → Ended
give_back net pc reply t =
    if net.taken
    then record {
      cache = Connections.yield (Connections.stamped net.now pc) t;
      dropped = [];
      answer = replied reply;
    }
    else record { cache = t; dropped = Connections.stamped net.now pc ∷ []; answer = replied reply }

unfoldable pub read_reply : Network → ℕ → Bool → PersistConn → Cache → Read → Ended
unfolding give_back
read_reply net req_id cached pc t (read_error e) = record {
  cache = close pc t;
  dropped = [];
  answer = io_failure e cached;
}
read_reply net req_id cached pc t (got id reply) =
    if not (req_id == id)
    then record { cache = close pc t; dropped = []; answer = failed out_of_order }
    else give_back net pc reply t

unfoldable pub on_written : Network → ℕ → ℕ → Bool → PersistConn → Cache → Option IoError → Ended
unfolding read_reply udp_size
on_written net req_id size cached pc t (some e) = record {
  cache = close pc t;
  dropped = [];
  answer = io_failure e cached;
}
on_written net req_id size cached pc t none =
    read_reply net req_id cached pc t (net.read pc (udp_size size))

-- Exchange on a connection: WriteMsg, ReadMsg, the test of the id, and Yield.
unfoldable pub converse : Network → ℕ → ℕ → Bool → PersistConn → Cache → Ended
unfolding on_written
converse net req_id size cached pc t = on_written net req_id size cached pc t (net.write pc)

unfoldable pub on_dialed : Network → ℕ → ℕ → Cache → Dialed → Ended
unfolding converse
on_dialed net req_id size t (from_cache pc) = converse net req_id size true pc t
on_dialed net req_id size t (opened pc) = converse net req_id size false pc t
on_dialed net req_id size t (dial_failed e) = record { cache = t; dropped = []; answer = failed e }

-- What of a host and a request Exchange reads.
pub record Call : Type 0 where
  pub expire : ℕ
  pub host_proto : Str
  pub proto : Str
  pub req_id : ℕ
  pub size : ℕ

unfoldable pub exchange : Call → Network → Cache → Ended
unfolding dial_host on_dialed dial_proto
exchange call net t =
    let dialed = dial_host net call.expire (dial_proto call.host_proto call.proto) t in
    on_dialed net call.req_id call.size (dialed.0) (dialed.1)

-- The inner loop of ServeDNS on that cache: the cache that the k-th exchange begins with, and its answer.
unfoldable pub cache_at : Call → (ℕ → Network) → Cache → ℕ → Cache
unfolding exchange
cache_at call nets t zero = t
cache_at call nets t (suc k) = (exchange call (nets k) (cache_at call nets t k)).cache

unfoldable pub answer_at : Call → (ℕ → Network) → Cache → ℕ → Exchanged
unfolding exchange cache_at
answer_at call nets t k = (exchange call (nets k) (cache_at call nets t k)).answer
