-- ===== src/Tests/Exchange.antt =====
-- A cached connection that the peer closed, and a new one in its place.
use dnsredir.Base.{
  ◌≤◌, ℕ, ◌+◌, ◌==◌, true, none, some, [], ◌∷◌, codes, if◌then◌else◌, inr, ◌≡◌, refl, arith,
}
use dnsredir.Base.Int.{pos}
use dnsredir.Connections.{PersistConn, Cache, type_udp, empty_cache}
use dnsredir.Connections.Conserve.{count, held}
use dnsredir.Exchange.{
  got, read_error, eof, Network, Call, dial_host, dial_proto, exchange, answer_at,
}
use dnsredir.Exchange.Account.{kept, new_conn, exchange-kept}
use dnsredir.Exchange.Retry.{serve_on_caches}
use dnsredir.Serve.{World, serve}
use dnsredir.Serve.Rounds.{Answers}
use dnsredir.DialTime.{dial_timeout, min_dial_timeout}
use dnsredir.DialTime.Average.{observe, distance, dial_timeout_settles}

abbrev conn : ℕ → PersistConn
conn n = record { id = n; which_type = type_udp; used = 5 }

abbrev one_cached : Cache
one_cached = record empty_cache { udp = conn 7 ∷ [] }

abbrev seven_closed : Network
seven_closed = record {
  now = 12;
  connect = λ proto. inr (conn 9);
  write = λ pc. none;
  read = λ pc size. if pc.id == 7 then read_error eof else got 5 42;
  taken = true;
}

abbrev udp_call : Call
udp_call = record {
  expire = 10;
  host_proto = codes "dns";
  proto = codes "udp";
  req_id = 5;
  size = 0;
}

abbrev cached_world : World
cached_world = record {
  in_time = λ n. true;
  select = λ n. some n;
  exchange = λ n k. answer_at udp_call (λ i. seven_closed) one_cached k;
  matches = λ r. r == 42;
}

serve_on_caches_example : Answers cached_world 10 (serve 12 2 cached_world 10 3)
serve_on_caches_example =
    serve_on_caches 12 2 cached_world 10 3 (λ n. udp_call) (λ n i. seven_closed) (λ n. one_cached)
      (λ n k. refl) (λ n. omega arith) (omega arith) refl (omega arith)

exchange-kept_example :
    kept 7 (exchange udp_call seven_closed one_cached)
    ≡ held 7 one_cached
      + count 7 (
          new_conn
            ((dial_host seven_closed 10 (dial_proto (codes "dns") (codes "udp")) one_cached).1))
exchange-kept_example = exchange-kept udp_call seven_closed 7 one_cached

-- The first dials take 1.2 seconds each.
dial_timeout_settles_example :
    (dial_timeout (observe 200000000 1200000000 (pos min_dial_timeout)) ≤ 2400000006)
    × (2400000000 ≤ dial_timeout (observe 200000000 1200000000 (pos min_dial_timeout)) + 6)
dial_timeout_settles_example =
    dial_timeout_settles (pos min_dial_timeout) 1200000000 200000000
      (unfold distance in omega arith) (omega arith) (omega arith)
