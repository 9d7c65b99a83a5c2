-- ===== src/Lifecycle.antt =====
-- The goroutines that startup begins and shutdown ends: OnStartup and OnShutdown of dnsredir.go, Start and
-- Stop of upstream.go and healthcheck.go, and periodicUpdate of namelist.go. A goroutine is named by the
-- channel whose closing ends it; upstreams and the hosts of each are numbered. The goroutines of
-- initialUpdateFromUrl have no channel: they end by themselves, and are only listed. What the calls of the
-- kernel's sets give is a setting of the upstream. Not in here are the goroutines that requests begin
-- (healthCheck) and those of a round of the worker (Check), which end by themselves too.
pub mod Balance
pub mod Begins
pub mod Closes
use dnsredir.Base.{
  ℕ, zero, suc, ◌+◌, Bool, true, false, not, ◌&&◌, ◌||◌, List, [], ◌∷◌, if◌then◌else◌, ltb, ◌==◌,
  Run, ret, panic, ◌>>=◌,
}

-- stopPathReload, stopUrlReload, HealthCheck.stop, and Transport.stop of a host.
pub data Channel : Type 0 where
  stop_path_reload : ℕ → Channel
  stop_url_reload : ℕ → Channel
  stop_check : ℕ → Channel
  stop_transport : ℕ → ℕ → Channel

abbrev pub same_channel : Channel → Channel → Bool
same_channel (stop_path_reload i) (stop_path_reload k) = i == k
same_channel (stop_url_reload i) (stop_url_reload k) = i == k
same_channel (stop_check i) (stop_check k) = i == k
same_channel (stop_transport i j) (stop_transport k l) = i == k && j == l
same_channel _ _ = false

pub record State : Type 0 where
  pub running : Channel → Bool
  pub closed : Channel → Bool
  -- Whether the upstream's connection to the kernel's sets is open.
  pub opened : ℕ → Bool
  -- The upstreams of the goroutines that initialUpdateFromUrl began.
  pub loads : List ℕ

abbrev pub nothing : State
nothing = record { running = λ c. false; closed = λ c. false; opened = λ i. false; loads = [] }

-- go func() { ... }()
unfoldable pub spawn : Channel → State → State
spawn c s = record s { running = λ d. s.running d || same_channel c d }

-- close(c), which panics at a channel that is closed. What waits for it ends.
unfoldable pub closing : Channel → State → State
closing c s = record s {
  running = λ d. s.running d && not (same_channel c d);
  closed = λ d. s.closed d || same_channel c d;
}

unfoldable pub close : Channel → State → Run State
unfolding closing
close c s = if s.closed c then panic else ret (closing c s)

-- What Start and Stop read of an upstream. urls: how many items are URLs. has_sets: it has an ipset, or a pf
-- table. dials: Dial, or pf.Open, gives no error. fills: nor do the calls behind it. close_open: whether Close of
-- the open connection gives none. close_nil: what Close makes of a connection that was never opened, which
-- is a nil pointer for an ipset and the descriptor 0 for pf.
pub record Settings : Type 0 where
  pub path_reload : ℕ
  pub url_reload : ℕ
  pub check_interval : ℕ
  pub hosts : ℕ
  pub urls : ℕ
  pub has_sets : Bool
  pub dials : Bool
  pub fills : Bool
  pub close_open : Bool
  pub close_nil : Run Bool

unfoldable pub spawn_if : Bool → Channel → State → State
unfolding spawn
spawn_if true c s = spawn c s
spawn_if false c s = s

-- The goroutines of initialUpdateFromUrl that the first updateList begins, one for a URL.
unfoldable pub start_loads : ℕ → ℕ → State → State
start_loads i zero s = s
start_loads i (suc n) s = start_loads i n (record s { loads = i ∷ s.loads })

-- periodicUpdate: the first updateList, and the tickers.
unfoldable pub periodic_update : ℕ → Settings → State → State
unfolding spawn_if start_loads
periodic_update i u s =
    spawn_if (ltb 0 u.url_reload) (stop_url_reload i)
      (spawn_if (ltb 0 u.path_reload) (stop_path_reload i) (start_loads i u.urls s))

-- The transports of the hosts from the j-th on.
unfoldable pub start_transports : ℕ → ℕ → ℕ → State → State
unfolding spawn
start_transports i j zero s = s
start_transports i j (suc n) s = start_transports i (j + 1) n (spawn (stop_transport i j) s)

-- HealthCheck.Start
unfoldable pub start_check : ℕ → Settings → State → State
unfolding start_transports spawn_if
start_check i u s =
    start_transports i 0 u.hosts (spawn_if (not (u.check_interval == 0)) (stop_check i) s)

-- ipsetSetup and pfSetup: the connection, then what else they do, and whether they give no error. Only one
-- of the two does anything in a build.
unfoldable pub set_up : ℕ → Settings → State → State × Bool
set_up i u s =
    if not u.has_sets
    then (s, true)
    else if not u.dials
    then (s, false)
    else (record s { opened = λ k. s.opened k || i == k }, u.fills)

-- reloadableUpstream.Start, and whether it gives no error.
unfoldable pub start : ℕ → Settings → State → State × Bool
unfolding periodic_update start_check set_up
start i u s = set_up i u (start_check i u (periodic_update i u s))

unfoldable pub stop_transports : ℕ → ℕ → ℕ → State → Run State
unfolding close
stop_transports i j zero s = ret s
stop_transports i j (suc n) s = do s' ← close (stop_transport i j) s; stop_transports i (j + 1) n s'

-- HealthCheck.Stop; to wait for the worker takes no step here.
unfoldable pub stop_checks : ℕ → Settings → State → Run State
unfolding close stop_transports
stop_checks i u s = do s' ← close (stop_check i) s; stop_transports i 0 u.hosts s'

-- ipsetShutdown and pfShutdown, by whether the connection was opened; whether they give no error.
unfoldable pub shut_down : Settings → Bool → Run Bool
shut_down u opened =
    if not u.has_sets then ret true else if opened then ret u.close_open else u.close_nil

-- reloadableUpstream.Stop
unfoldable pub stop : ℕ → Settings → State → Run (State × Bool)
unfolding close stop_checks shut_down
stop i u s = do
  s1 ← close (stop_path_reload i) s
  s2 ← close (stop_url_reload i) s1
  s3 ← stop_checks i u s2
  down ← shut_down u (s3.opened i)
  ret (s3, down)

-- OnStartup: the first error ends it.
unfoldable pub on_startup : ℕ → List Settings → State → State × Bool
unfolding start
on_startup i [] s = (s, true)
on_startup i (u ∷ ups) s =
    let rest = on_startup (i + 1) ups ((start i u s).0) in
    if (start i u s).1 then rest else ((start i u s).0, false)

abbrev pub stopped_next : (State → Run (State × Bool)) → State × Bool → Run (State × Bool)
stopped_next next (s, true) = next s
stopped_next next (s, false) = ret (s, false)

-- OnShutdown, likewise.
unfoldable pub on_shutdown : ℕ → List Settings → State → Run (State × Bool)
unfolding stop
on_shutdown i [] s = ret (s, true)
on_shutdown i (u ∷ ups) s = stop i u s >>= stopped_next (λ s'. on_shutdown (i + 1) ups s')
