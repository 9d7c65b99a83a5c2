-- ===== src/Fails.antt =====
-- The fail counter of a host: healthCheck of dnsredir.go, Check, Down and healthCheck of healthcheck.go,
-- and checkDownFunc of checkdown.go. The counter is an int32, kept as its 32 bits. Each goroutine is
-- a pending event of the state, and an event is one step, as the atomic operations make it.
pub mod Down
use dnsredir.Base.{
  ℕ, zero, suc, ◌+◌, ◌-◌, ◌%◌, ◌^◌, Bool, true, false, not, ◌&&◌, ◌||◌, List, [], ◌∷◌, ◌++◌,
  if◌then◌else◌, ltb, leb, ◌==◌, ◌≡◌,
}

abbrev pub int32_mod : ℕ
int32_mod = 2 ^ 32

-- The two settings of an upstream that the counter depends on.
pub record Limits : Type 0 where
  pub max_fails : ℕ
  pub check_interval : ℕ

-- fails: the bits of the counter. sleeping: what each goroutine of healthCheck has read from
-- it. probing: how many calls of Check are under way.
pub record Counter : Type 0 where
  pub fails : ℕ
  pub sleeping : List ℕ
  pub probing : ℕ

abbrev pub fresh : Counter
fresh = record { fails = 0; sleeping = []; probing = 0 }

-- fails >= u.maxFails && u.maxFails > 0, on a signed counter.
unfoldable pub is_down : Limits → Counter → Bool
is_down limits c = (ltb c.fails (2 ^ 31) && leb limits.max_fails c.fails) && ltb 0 limits.max_fails

-- healthCheck(r, uh): the counter goes up, and a goroutine with its value goes to sleep.
unfoldable pub note_failure : Limits → Counter → Counter
note_failure limits c =
    if limits.check_interval == 0 || limits.max_fails == 0 then c else record c {
      fails = (c.fails + 1) % int32_mod;
      sleeping = (c.fails + 1) % int32_mod ∷ c.sleeping;
    }

-- fails%failureCheck == 0, where the remainder of a negative number is that of its absolute value.
unfoldable pub is_third : ℕ → Bool
is_third fails = if ltb fails (2 ^ 31) then fails % 3 == 0 else (int32_mod - fails) % 3 == 0

-- A goroutine that read `fails` wakes up; `rest` are the others.
unfoldable pub wake : ℕ → List ℕ → Counter → Counter
unfolding is_third
wake fails rest c = record c {
  fails = (c.fails + (int32_mod - 1)) % int32_mod;
  sleeping = rest;
  probing = if is_third fails then c.probing + 1 else c.probing;
}

-- Check, when the probe ends, on either answer; `rest` is how many others are under way.
unfoldable pub check : Bool → ℕ → Counter → Counter
check true rest c = record c { fails = 0; probing = rest }
check false rest c = record c { fails = (c.fails + 1) % int32_mod; probing = rest }

-- What may happen to a host next: an exchange that fails, a goroutine that wakes up, a tick of the
-- worker, which runs if the interval is not zero, and the end of a probe.
pub data Step (limits : Limits) : Counter → Counter → Type 0 where
  exchange_failed : (c : Counter) → Step limits c (note_failure limits c)
  woken :
      (c : Counter) (before after : List ℕ) (fails : ℕ)
      → c.sleeping ≡ before ++ fails ∷ after
      → Step limits c (wake fails (before ++ after) c)
  tick :
      (c : Counter)
      → (limits.check_interval == 0) ≡ false
      → Step limits c (record c { probing = c.probing + 1 })
  probe_passed : (c : Counter) (rest : ℕ) → c.probing ≡ rest + 1 → Step limits c (check true rest c)
  probe_failed :
      (c : Counter) (rest : ℕ) → c.probing ≡ rest + 1 → Step limits c (check false rest c)
