-- ===== src/Tests/Lifecycle.antt =====
-- Two upstreams, of which the second fails to start.
use dnsredir.Base.{Bool, true, false, List, [], ◌∷◌, ret, panic, ◌≡◌, refl}
use dnsredir.Lifecycle.{Channel, stop_transport, State, nothing, Settings, on_startup, on_shutdown}
use dnsredir.Lifecycle.Closes.{is_of_any}
use dnsredir.Lifecycle.Balance.{on_shutdown-on_startup}

-- An ipset whose kernel connection opens, or not.
abbrev settings_of : Bool → Settings
settings_of dials = record {
  path_reload = 2000;
  url_reload = 0;
  check_interval = 5;
  hosts = 2;
  urls = 1;
  has_sets = true;
  dials = dials;
  fills = true;
  close_open = true;
  close_nil = panic;
}

abbrev two_upstreams : Bool → List Settings
two_upstreams dials = settings_of true ∷ settings_of dials ∷ []

fails_at_second : (on_startup 0 (two_upstreams false) nothing).1 ≡ false
unfolding on_startup
fails_at_second = refl

runs_behind :
    State.running ((on_startup 0 (two_upstreams false) nothing).0) (stop_transport 1 1) ≡ true
unfolding on_startup
runs_behind = refl

-- A shutdown behind a startup that failed closes a nil connection.
panics_behind :
    on_shutdown 0 (two_upstreams false) ((on_startup 0 (two_upstreams false) nothing).0) ≡ panic
unfolding on_startup on_shutdown
panics_behind = refl

gets_through : (on_startup 0 (two_upstreams true) nothing).1 ≡ true
unfolding on_startup
gets_through = refl

on_shutdown-on_startup_example :
    (s : State) × (on_shutdown 0
        (two_upstreams true)
        ((on_startup 0 (two_upstreams true) nothing).0)
      ≡ ret (s, true))
    × ((c : Channel) → s.closed c ≡ is_of_any 0 (two_upstreams true) c)
    × ((c : Channel) → s.running c ≡ false)
    × (s.loads ≡ ((on_startup 0 (two_upstreams true) nothing).0).loads)
on_shutdown-on_startup_example =
    on_shutdown-on_startup (two_upstreams true) gets_through (refl, (refl, tt))
