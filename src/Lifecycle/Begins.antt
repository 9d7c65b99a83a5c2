-- ===== src/Lifecycle/Begins.antt =====
-- What starting upstreams begins.
use dnsredir.Base.{
  ℕ, zero, suc, ◌+◌, ◌≤◌, ◌<◌, Bool, true, false, not, if◌then◌else◌, ◌||◌, List, [], ◌∷◌, ltb,
  ◌==◌, ◌≡◌, refl, ◌∙◌, arith, Bool-cases, inl, inr,
}
use dnsredir.Lifecycle.{
  Channel, stop_path_reload, stop_url_reload, stop_check, stop_transport, same_channel, State,
  spawn, Settings, spawn_if, start_loads, periodic_update, set_up, start_transports, start_check,
  start, on_startup,
}
use dnsredir.Lifecycle.Closes.{is_of, is_of_any}

-- What is begun is of the test, nothing is closed, and an open connection stays open.
abbrev pub Begins : (Channel → Bool) → State → State → Type 0
Begins p s s' =
    ((c : Channel) → s'.running c ≡ true → (s.running c || p c) ≡ true)
    × ((c : Channel) → s'.closed c ≡ s.closed c)
    × ((i : ℕ) → s.opened i ≡ true → s'.opened i ≡ true)

or_twice : (x a : Bool) → ((x || a) || a) ≡ true → (x || a) ≡ true
or_twice true a h = refl
or_twice false true h = refl
or_twice false false h = h

or_left : (x y a : Bool) → (y ≡ true → (x || a) ≡ true) → (y || a) ≡ true → ((x || a) || a) ≡ true
or_left x true a h e = rw (h refl) refl
or_left true false a h e = refl
or_left false false a h e = rw e refl

Begins-both :
    (p : Channel → Bool) (s s1 s2 : State) → Begins p s s1 → Begins p s1 s2 → Begins p s s2
Begins-both p s s1 s2 (a, k, m) (b, l, n) = (
  λ c h. or_twice (s.running c) (p c) (or_left (s.running c) (s1.running c) (p c) (a c) (b c h)),
  λ c. l c ∙ k c,
  λ i h. n i (m i h),
)

Begins-none : (p : Channel → Bool) (s : State) → Begins p s s
Begins-none p s = (λ c h. rw h refl, λ c. refl, λ i h. h)

or_implied : (x y a : Bool) → (y ≡ true → a ≡ true) → (x || y) ≡ true → (x || a) ≡ true
or_implied true y a h e = refl
or_implied false y a h e = h e

spawn-Begins :
    (p : Channel → Bool) (c : Channel) (s : State)
    → ((d : Channel) → same_channel c d ≡ true → p d ≡ true)
    → Begins p s (spawn c s)
unfolding spawn
spawn-Begins p c s h =
    (λ d e. or_implied (s.running d) (same_channel c d) (p d) (h d) e, λ d. refl, λ i h. h)

spawn_if-Begins :
    (p : Channel → Bool) (b : Bool) (c : Channel) (s : State)
    → ((d : Channel) → same_channel c d ≡ true → p d ≡ true)
    → Begins p s (spawn_if b c s)
unfolding spawn_if
spawn_if-Begins p true c s h = spawn-Begins p c s h
spawn_if-Begins p false c s h = Begins-none p s

path_is_of :
    (i n : ℕ) (d : Channel) → same_channel (stop_path_reload i) d ≡ true → is_of i n d ≡ true
path_is_of i n (stop_path_reload k) h = h
path_is_of i n (stop_url_reload k) h = ground arith
path_is_of i n (stop_check k) h = ground arith
path_is_of i n (stop_transport k l) h = ground arith

url_is_of : (i n : ℕ) (d : Channel) → same_channel (stop_url_reload i) d ≡ true → is_of i n d ≡ true
url_is_of i n (stop_path_reload k) h = ground arith
url_is_of i n (stop_url_reload k) h = h
url_is_of i n (stop_check k) h = ground arith
url_is_of i n (stop_transport k l) h = ground arith

check_is_of : (i n : ℕ) (d : Channel) → same_channel (stop_check i) d ≡ true → is_of i n d ≡ true
check_is_of i n (stop_path_reload k) h = ground arith
check_is_of i n (stop_url_reload k) h = ground arith
check_is_of i n (stop_check k) h = h
check_is_of i n (stop_transport k l) h = ground arith

transport_is_of :
    (i j n : ℕ) (d : Channel)
    → j < n
    → same_channel (stop_transport i j) d ≡ true
    → is_of i n d ≡ true
transport_is_of i j n (stop_path_reload k) b h = ground arith
transport_is_of i j n (stop_url_reload k) b h = ground arith
transport_is_of i j n (stop_check k) b h = ground arith
transport_is_of i j n (stop_transport k l) b h = ground arith

start_transports-Begins :
    (i j n hosts : ℕ) (s : State)
    → j + n ≤ hosts
    → Begins (is_of i hosts) s (start_transports i j n s)
unfolding start_transports
start_transports-Begins i j zero hosts s b = Begins-none (is_of i hosts) s
start_transports-Begins i j (suc n) hosts s b =
    Begins-both (is_of i hosts) s (spawn (stop_transport i j) s)
      (start_transports i (j + 1) n (spawn (stop_transport i j) s))
      (spawn-Begins (is_of i hosts) (stop_transport i j) s
        (λ d. transport_is_of i j hosts d (omega arith)))
      (start_transports-Begins i (j + 1) n hosts (spawn (stop_transport i j) s) (omega arith))

start_loads-Begins : (p : Channel → Bool) (i n : ℕ) (s : State) → Begins p s (start_loads i n s)
unfolding start_loads
start_loads-Begins p i zero s = Begins-none p s
start_loads-Begins p i (suc n) s = start_loads-Begins p i n (record s { loads = i ∷ s.loads })

set_up-Begins :
    (p : Channel → Bool) (i : ℕ) (u : Settings) (s : State) → Begins p s ((set_up i u s).0)
unfolding set_up
set_up-Begins p i u s = by_flags u.has_sets u.dials
  where
    by_flags :
        (has dials : Bool)
        → Begins p s (
            (if◌then◌else◌ {A = State × Bool}
              (not has)
              (s, true)
              (if not dials
                then (s, false)
                else (record s { opened = λ k. s.opened k || i == k }, u.fills))).0)
    by_flags false dials = Begins-none p s
    by_flags true false = Begins-none p s
    by_flags true true = (λ c h. rw h refl, λ c. refl, λ k h. rw h refl)

start-Begins : (i : ℕ) (u : Settings) (s : State) → Begins (is_of i u.hosts) s ((start i u s).0)
unfolding start periodic_update start_check
start-Begins i u s =
    let p = is_of i u.hosts in
    let s0 = start_loads i u.urls s in
    let s1 = spawn_if (ltb 0 u.path_reload) (stop_path_reload i) s0 in
    let s2 = spawn_if (ltb 0 u.url_reload) (stop_url_reload i) s1 in
    let s3 = spawn_if (not (u.check_interval == 0)) (stop_check i) s2 in
    let s4 = start_transports i 0 u.hosts s3 in
    Begins-both p s s4 ((set_up i u s4).0)
      (Begins-both p s s0 s4 (start_loads-Begins p i u.urls s) (
        Begins-both p s0 s1 s4
          (spawn_if-Begins p (ltb 0 u.path_reload) (stop_path_reload i) s0 (path_is_of i u.hosts))
          (Begins-both p s1 s2 s4
            (spawn_if-Begins p (ltb 0 u.url_reload) (stop_url_reload i) s1 (url_is_of i u.hosts))
            (Begins-both p s2 s3 s4
              (spawn_if-Begins p (not (u.check_interval == 0)) (stop_check i) s2
                (check_is_of i u.hosts))
              (start_transports-Begins i 0 u.hosts u.hosts s3 (omega arith))))))
      (set_up-Begins p i u s4)

Begins-wider :
    (p q : Channel → Bool) (s s' : State)
    → ((c : Channel) → p c ≡ true → q c ≡ true)
    → Begins p s s'
    → Begins q s s'
Begins-wider p q s s' h (a, k, m) =
    (λ c e. or_implied (s.running c) (p c) (q c) (h c) (a c e), k, m)

or_first : (a b : Bool) → a ≡ true → (a || b) ≡ true
or_first a b h = rw h refl

or_second : (a b : Bool) → b ≡ true → (a || b) ≡ true
or_second true b h = refl
or_second false b h = h

pub on_startup-Begins :
    (i : ℕ) (ups : List Settings) (s : State) → Begins (is_of_any i ups) s ((on_startup i ups s).0)
unfolding on_startup
on_startup-Begins i [] s = Begins-none (is_of_any i []) s
on_startup-Begins i (u ∷ ups) s =
    let one =
      Begins-wider (is_of i u.hosts) (is_of_any i (u ∷ ups)) s ((start i u s).0)
        (λ c. or_first (is_of i u.hosts c) (is_of_any (i + 1) ups c)) (start-Begins i u s) in
    elim (Bool-cases ((start i u s).1)) [
      | inl y ↦ rw y (
          Begins-both (is_of_any i (u ∷ ups)) s ((start i u s).0)
            ((on_startup (i + 1) ups ((start i u s).0)).0) one
            (Begins-wider (is_of_any (i + 1) ups) (is_of_any i (u ∷ ups)) ((start i u s).0)
              ((on_startup (i + 1) ups ((start i u s).0)).0)
              (λ c. or_second (is_of i u.hosts c) (is_of_any (i + 1) ups c))
              (on_startup-Begins (i + 1) ups ((start i u s).0))))
      | inr n ↦ rw n one
    ]

-- What Start gives where it gives no error: an upstream with sets has an open connection.
start-opened :
    (i : ℕ) (u : Settings) (s : State)
    → (start i u s).1 ≡ true
    → u.has_sets ≡ true
    → ((start i u s).0).opened i ≡ true
unfolding start set_up
start-opened i u s e h = by_dials (start_check i u (periodic_update i u s)) u.dials refl (rw h at e)
  where
    by_dials :
        (t : State) (b : Bool)
        → u.dials ≡ b
        → (if◌then◌else◌ {A = State × Bool}
            (not u.dials)
            (t, false)
            (record t { opened = λ k. t.opened k || i == k }, u.fills)).1
          ≡ true
        → ((if◌then◌else◌ {A = State × Bool}
            (not u.has_sets)
            (t, true)
            (if not u.dials
              then (t, false)
              else (record t { opened = λ k. t.opened k || i == k }, u.fills))).0
          ).opened
            i
          ≡ true
    by_dials t false p q = absurd (ground (arith, p))
    by_dials t true p q = rw (h, p) (ground arith)

-- Every upstream with sets has an open connection.
abbrev pub AreOpened : ℕ → List Settings → State → Type 0
AreOpened i [] s = Unit
AreOpened i (u ∷ ups) s = (u.has_sets ≡ true → s.opened i ≡ true) × AreOpened (i + 1) ups s

pub on_startup-AreOpened :
    (i : ℕ) (ups : List Settings) (s : State)
    → (on_startup i ups s).1 ≡ true
    → AreOpened i ups ((on_startup i ups s).0)
unfolding on_startup
on_startup-AreOpened i [] s e = tt
on_startup-AreOpened i (u ∷ ups) s e = elim (Bool-cases ((start i u s).1)) [
  | inl y ↦ rw y (
    λ h. (on_startup-Begins (i + 1) ups ((start i u s).0)).2 i (start-opened i u s y h),
    on_startup-AreOpened (i + 1) ups ((start i u s).0) (rw y at e),
  )
  | inr n ↦ absurd (ground (arith, n))
]
