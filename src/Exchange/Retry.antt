-- ===== src/Exchange/Retry.antt =====
-- The inner loop of ServeDNS ends: each closed cached connection leaves the cache smaller.
use dnsredir.Base.{
  ℕ, zero, suc, ◌+◌, ◌-◌, ◌^◌, ◌≤◌, ◌<◌, Bool, true, false, Option, none, some, inl, inr, ◌⊎◌, List,
  [], ◌∷◌, length, ltb, ◌==◌, Str, ◌≡◌, ◌≢◌, refl, sym, ◌∙◌, arith, Bool-cases,
}
use dnsredir.Connections.{
  PersistConn, Cache, TransportType, type_udp, type_tcp, type_tls, string_to_transport_type, stack,
  set_stack, split_last, behind, dial_last,
}
use dnsredir.Connections
use dnsredir.Connections.Conserve.{split_last-none}
use dnsredir.Serve.{Exchanged, cached_conn_closed, replied, failed, World, serve}
use dnsredir.Serve.Loop.{serve-Answers}
use dnsredir.Serve.Rounds.{Ends, Answers}
use dnsredir.Exchange.{
  IoError, Read, got, read_error, other, eof, Network, Dialed, from_cache, opened, dial_failed,
  connected, open_new, dial_host, dial_proto, Ended, io_failure, give_back, read_reply, udp_size,
  on_written, converse, on_dialed, Call, exchange, cache_at, answer_at,
}

-- How many connections are in the cache.
abbrev pub cached_count : Cache → ℕ
cached_count t = length t.udp + length t.tcp + length t.tls

cached_count-set_stack :
    (which : TransportType) (conns gone : List PersistConn) (t : Cache)
    → cached_count (set_stack which conns gone t) + length (stack which t)
      ≡ cached_count t + length conns
unfolding set_stack stack
cached_count-set_stack type_udp conns gone t = omega arith
cached_count-set_stack type_tcp conns gone t = omega arith
cached_count-set_stack type_tls conns gone t = omega arith

length-split_last :
    (conns rest : List PersistConn) (pc : PersistConn)
    → split_last conns ≡ some (rest, pc)
    → length conns ≡ length rest + 1
unfolding split_last
length-split_last [] rest pc e = absurd (ground arith)
length-split_last (c ∷ conns) rest pc e =
    by_rest (λ r l. length-split_last conns r l) (split_last conns) refl e
  where
    by_rest :
        ((r : List PersistConn) (l : PersistConn)
          → split_last conns ≡ some (r, l)
          → length conns ≡ length r + 1)
        → (o : Option (List PersistConn × PersistConn)) → split_last conns ≡ o
        → behind c o ≡ some (rest, pc)
        → length (c ∷ conns) ≡ length rest + 1
    by_rest ih none p q = ground (arith, split_last-none conns p)
    by_rest ih (some (r, l)) p q = ground (arith, ih r l p)

-- A connection from the cache is one less in it.
cached_count-dial_last :
    (expire now : ℕ) (which : TransportType) (t : Cache)
    (o : Option (List PersistConn × PersistConn)) (pc : PersistConn)
    → split_last (stack which t) ≡ o
    → (dial_last expire now which t o).1 ≡ some pc
    → cached_count ((dial_last expire now which t o).0) + 1 ≡ cached_count t
unfolding dial_last
cached_count-dial_last expire now which t none pc e h = absurd (ground arith)
cached_count-dial_last expire now which t (some (rest, last)) pc e h =
    elim (Bool-cases (ltb (now - last.used) expire)) [
      | inl y ↦ rw y (
          omega (
            arith,
            cached_count-set_stack which rest [] t,
            length-split_last (stack which t) rest last e,
          ))
      | inr n ↦ absurd (ground arith)
    ]

-- What the end of an Exchange on a connection says of a closed cached connection.
abbrev pub Blames : Bool → Cache → Ended → Type 0
Blames cached t e =
    e.answer ≡ cached_conn_closed → (cached ≡ true) × (cached_count e.cache ≡ cached_count t)

io_failure-closed :
    (e : IoError) (cached : Bool) → io_failure e cached ≡ cached_conn_closed → cached ≡ true
io_failure-closed eof true h = refl
io_failure-closed eof false h = absurd (ground arith)
io_failure-closed (other e) cached h = absurd (ground arith)

give_back-Blames :
    (net : Network) (cached : Bool) (pc : PersistConn) (reply : ℕ) (t : Cache)
    → Blames cached t (give_back net pc reply t)
unfolding give_back
give_back-Blames net cached pc reply t h = elim (Bool-cases net.taken) [
  | inl y ↦ absurd (ground arith)
  | inr n ↦ absurd (ground arith)
]

read_reply-Blames :
    (net : Network) (req_id : ℕ) (cached : Bool) (pc : PersistConn) (t : Cache) (r : Read)
    → Blames cached t (read_reply net req_id cached pc t r)
unfolding read_reply
read_reply-Blames net req_id cached pc t (read_error e) h = (io_failure-closed e cached h, refl)
read_reply-Blames net req_id cached pc t (got i reply) h = elim (Bool-cases (req_id == i)) [
  | inl y ↦ rw y (give_back-Blames net cached pc reply t (rw y at h))
  | inr n ↦ absurd (ground arith)
]

on_written-Blames :
    (net : Network) (req_id size : ℕ) (cached : Bool) (pc : PersistConn) (t : Cache)
    (o : Option IoError)
    → Blames cached t (on_written net req_id size cached pc t o)
unfolding on_written
on_written-Blames net req_id size cached pc t (some e) h = (io_failure-closed e cached h, refl)
on_written-Blames net req_id size cached pc t none h =
    read_reply-Blames net req_id cached pc t (net.read pc (udp_size size)) h

-- A closed cached connection came from the cache.
on_dialed-closed :
    (net : Network) (req_id size : ℕ) (t : Cache) (d : Dialed)
    → (on_dialed net req_id size t d).answer ≡ cached_conn_closed
    → (pc : PersistConn) × (d ≡ from_cache pc)
      × (cached_count ((on_dialed net req_id size t d).cache) ≡ cached_count t)
unfolding on_dialed converse
on_dialed-closed net req_id size t (from_cache pc) h =
    (pc, refl, (on_written-Blames net req_id size true pc t (net.write pc) h).1)
on_dialed-closed net req_id size t (opened pc) h =
    absurd (ground (arith, (on_written-Blames net req_id size false pc t (net.write pc) h).0))
on_dialed-closed net req_id size t (dial_failed e) h = absurd (ground arith)

open_new-from_cache :
    (net : Network) (proto : Str) (o : Option PersistConn) (pc : PersistConn)
    → open_new net proto o ≡ from_cache pc
    → o ≡ some pc
open_new-from_cache net proto (some c) pc e = ground arith
open_new-from_cache net proto none pc e = absurd (not_connected (net.connect proto) e)
  where
    not_connected : (o : ℕ ⊎ PersistConn) → connected o ≢ from_cache pc
    not_connected (inl e) h = ground arith
    not_connected (inr c) h = ground arith

exchange-closed :
    (call : Call) (net : Network) (t : Cache)
    → (exchange call net t).answer ≡ cached_conn_closed
    → cached_count ((exchange call net t).cache) + 1 ≡ cached_count t
unfolding exchange dial_host Connections.dial
exchange-closed call net t h =
    let which = string_to_transport_type (dial_proto call.host_proto call.proto) in
    let last = dial_last call.expire net.now which t (split_last (stack which t)) in
    let (pc, e, same) =
      on_dialed-closed net call.req_id call.size (last.0)
        (open_new net (dial_proto call.host_proto call.proto) (last.1)) h in
    omega (
      arith,
      same,
      cached_count-dial_last call.expire net.now which t (split_last (stack which t)) pc refl
          (open_new-from_cache net (dial_proto call.host_proto call.proto) (last.1) pc e),
    )

module _ (call : Call) (nets : ℕ → Network) (t : Cache) where
  Exchanged-cases : (a : Exchanged) → (a ≡ cached_conn_closed) ⊎ (a ≢ cached_conn_closed)
  Exchanged-cases (replied r) = inr (λ e. ground arith)
  Exchanged-cases cached_conn_closed = inl refl
  Exchanged-cases (failed e) = inr (λ q. ground arith)

  ends_from :
      (n k : ℕ)
      → cached_count (cache_at call nets t k) ≤ n
      → (j : ℕ) × (j ≤ k + n) × (answer_at call nets t j ≢ cached_conn_closed)
  unfolding answer_at cache_at
  ends_from zero k h = elim (Exchanged-cases (answer_at call nets t k)) [
    | inl e ↦ absurd (omega (arith, exchange-closed call (nets k) (cache_at call nets t k) e))
    | inr n ↦ (k, omega arith, n)
  ]
  ends_from (suc n) k h = elim (Exchanged-cases (answer_at call nets t k)) [
    | inl e ↦
        let (j, b, a) =
          ends_from n (suc k)
            (omega (arith, exchange-closed call (nets k) (cache_at call nets t k) e)) in
        (j, omega arith, a)
    | inr a ↦ (k, omega arith, a)
  ]

  -- After as many closed cached connections as there are in the cache, none is left.
  pub answer_at-ends :
      (k : ℕ) × (k ≤ cached_count t) × (answer_at call nets t k ≢ cached_conn_closed)
  unfolding cache_at
  answer_at-ends = let (j, b, a) = ends_from (cached_count t) 0 (omega arith) in (j, omega arith, a)

-- ServeDNS over Exchange on caches of connections: if the n-th attempt's exchanges are those of Exchange
-- on a cache of fewer than `inner` connections, which no one else uses meanwhile, max_retry is below the
-- largest int32 and the first look at the clock is in time, then ServeDNS answers with fuel above max_retry + 1, and the answer rests on
-- what the environment gave.
pub serve_on_caches :
    (fuel inner : ℕ) (w : World) (max_retry max_fails : ℕ) (calls : ℕ → Call)
    (nets : ℕ → ℕ → Network) (caches : ℕ → Cache)
    → ((n k : ℕ) → w.exchange n k ≡ answer_at (calls n) (nets n) (caches n) k)
    → ((n : ℕ) → cached_count (caches n) < inner)
    → max_retry + 1 < 2 ^ 31
    → w.in_time 1 ≡ true
    → max_retry + 1 < fuel
    → Answers w max_retry (serve fuel inner w max_retry max_fails)
serve_on_caches fuel inner w max_retry max_fails calls nets caches same small in_range t enough =
    serve-Answers fuel inner w max_retry max_fails ends in_range t enough
  where
    ends : Ends inner w
    ends n =
        let (k, b, a) = answer_at-ends (calls n) (nets n) (caches n) in
        let s = small n in (k, omega arith, λ e. a (sym (same n k) ∙ e))
