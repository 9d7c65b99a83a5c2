-- ===== src/Tests/Hosts.antt =====
-- The choice of a host and the loop of ServeDNS.
use dnsredir.Base.{
  ℕ, zero, suc, ◌+◌, ◌%◌, ◌<◌, ◌==◌, Bool, true, none, some, List, [], ◌∷◌, length, ret, ◌≡◌, ◌≢◌,
  refl, arith,
}
use dnsredir.Policy.{u32_mod, round_robin, round_robin_select, sequential_select}
use dnsredir.Policy.RoundRobin.{rotate, round_robin_select_lem}
use dnsredir.HealthCheck.{default_policy, Draws, Selector, select}
use dnsredir.HealthCheck.Select.{Selects, select-Selects}
use dnsredir.Serve.{World, replied, cached_conn_closed, failed, reply, Exchanged, serve}
use dnsredir.Serve.Loop.{serve-Answers}
use dnsredir.Serve.Rounds.{Answers}

-- Three hosts, the second one down.
abbrev hosts : List ℕ
hosts = 0 ∷ 1 ∷ 2 ∷ []

abbrev second_down : ℕ → Bool
second_down h = h == 1

skips_down : round_robin_select second_down 0 hosts ≡ ret (1, some 2)
unfolding round_robin_select
skips_down = refl

round_robin_select_lem_example :
    round_robin_select second_down 4294967295 hosts
    ≡ ret (
      (4294967295 + 1) % u32_mod,
      sequential_select second_down (rotate ((4294967295 + 1) % u32_mod % length hosts) hosts),
    )
round_robin_select_lem_example = round_robin_select_lem second_down 4294967295 hosts (omega arith)

abbrev draws : Draws
draws = record { at_host = λ n. n + 5; policy_draw = 4; spray_draw = 7 }

abbrev selector : Selector
selector = record { policy = some round_robin; has_spray = true }

select-Selects_example :
    Selects second_down selector hosts (select second_down draws selector 0 hosts)
select-Selects_example =
    select-Selects second_down draws selector 0 hosts (omega arith)
      (unfold default_policy in λ e. ground arith)

-- The first attempt fails, behind a cached connection that was closed; the second one is answered.
abbrev pub answers : ℕ → ℕ → Exchanged
answers (suc zero) zero = cached_conn_closed
answers (suc zero) (suc k) = failed 9
answers n k = replied 42

abbrev pub second_answers : World
second_answers = record {
  in_time = λ n. true;
  select = λ n. some n;
  exchange = answers;
  matches = λ r. r == 42;
}

second_answers_ends :
    (n : ℕ) → (k : ℕ) × (k < 2) × (second_answers.exchange n k ≢ cached_conn_closed)
second_answers_ends zero = (1, omega arith, λ e. ground arith)
second_answers_ends (suc zero) = (1, omega arith, λ e. ground arith)
second_answers_ends (suc (suc n)) = (1, omega arith, λ e. ground arith)

pub answers_second :
    serve 12 2 second_answers 10 3
    ≡ ret (reply 42, record { upstream_err = none; try_count = 2; checked = 1 ∷ [] })
unfolding serve
answers_second = refl

serve-Answers_example : Answers second_answers 10 (serve 12 2 second_answers 10 3)
serve-Answers_example =
    serve-Answers 12 2 second_answers 10 3 second_answers_ends (omega arith) refl (omega arith)
