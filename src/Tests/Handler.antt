-- ===== src/Tests/Handler.antt =====
-- A request that the second upstream takes; its ipset gets the address before the client does.
use dnsredir.Base.{
  ℕ, ◌==◌, Bool, true, none, some, List, [], ◌∷◌, ◌++◌, Str, codes, split, Run, ret, ◌≡◌, refl,
  arith,
}
use dnsredir.Addresses.{Record}
use dnsredir.Serve.{Served, replied, match_name}
use dnsredir.Serve.Rounds.{Explains}
use dnsredir.Handler.{set_add, write, success, Backend, Replies, respond, serve_dns}
use dnsredir.Handler.Prepared.{IsPrepared, serve_dns-IsPrepared}

abbrev one_answer : List Record
one_answer =
    record {
      kind = 1;
      text =
          codes "a."
          ++ b'\t' ∷ codes "60"
          ++ b'\t' ∷ codes "IN"
          ++ b'\t' ∷ codes "A"
          ++ b'\t' ∷ codes "1.2.3.4";
    }
    ∷ []

abbrev toy_replies : Replies
toy_replies = record {
  ipset_libs = record { parse_ip = λ s. some s; family = λ n. some 2 };
  pf_libs = record { parse_ip = λ s. some s; dev_pf = none; add_table = λ dev t. none };
  rcode = λ r. 0;
  answer = λ r. one_answer;
}

abbrev backend_of : ℕ → Backend
backend_of retries = record {
  ipset = some (record { set = codes "cn" ∷ []; conn = 1 });
  pf = none;
  max_retry = retries;
  max_fails = 3;
  world = record {
    in_time = λ n. true;
    select = λ n. some n;
    exchange = λ n k. replied 42;
    matches = λ r. r == 42;
  };
}

abbrev second_only : Backend → Str → Run Bool
second_only b name = ret (b.max_retry == 2)

adds_first :
    serve_dns second_only 9 1 toy_replies (backend_of 1 ∷ backend_of 2 ∷ []) (codes "a.")
    ≡ ret (success, set_add (codes "cn", codes "1.2.3.4") ∷ write 42 ∷ [])
unfolding serve_dns split
adds_first = refl

serve_dns-IsPrepared_example :
    (a : Served) × (count : ℕ) × (serve_dns second_only 9 1 toy_replies
        (backend_of 1 ∷ backend_of 2 ∷ [])
        (codes "a.")
      ≡ ret (respond toy_replies (backend_of 2) a))
    × Explains (backend_of 2).world 2 a count
    × IsPrepared toy_replies (backend_of 2) a ((respond toy_replies (backend_of 2) a).1)
unfolding match_name
serve_dns-IsPrepared_example =
    serve_dns-IsPrepared second_only 9 1 toy_replies (backend_of 1 ∷ backend_of 2 ∷ []) (codes "a.")
      (backend_of 2) refl tt (λ n. (0, omega arith, λ e. ground arith)) (omega arith) refl
      (omega arith)
