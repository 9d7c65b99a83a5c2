-- ===== src/Lifecycle/Balance.antt =====
-- Shutdown ends every goroutine with a channel that startup began.
use dnsredir.Base.{
  ℕ, ◌+◌, ◌≤◌, ◌<◌, Bool, true, false, not, ◌&&◌, List, [], ◌∷◌, ret, ◌>>=◌, ◌≡◌, refl, sym, ◌∙◌,
  Bool-cases, inl, inr, arith, All,
}
use mathlib.Core.Path.{subst}
use dnsredir.Lifecycle.{
  Channel, stop_path_reload, stop_url_reload, stop_check, stop_transport, State, nothing, Settings,
  shut_down, on_startup, on_shutdown,
}
use dnsredir.Lifecycle.Closes.{
  is_of, is_of_any, Closes, Closes-both, AreOpen, nothing_closed, nothing_more, stop-Closes,
}
use dnsredir.Lifecycle.Begins.{on_startup-Begins, AreOpened, on_startup-AreOpened}

other_upstream : (i k n m : ℕ) (c : Channel) → i < k → is_of k m c ≡ true → is_of i n c ≡ false
other_upstream i k n m (stop_path_reload l) b h = ground arith
other_upstream i k n m (stop_url_reload l) b h = ground arith
other_upstream i k n m (stop_check l) b h = ground arith
other_upstream i k n m (stop_transport l j) b h = ground arith

-- Every shutdown of the kernel's sets gives no error.
abbrev AreShut : ℕ → List Settings → (ℕ → Bool) → Type 0
AreShut i [] opened = Unit
AreShut i (u ∷ ups) opened = (shut_down u (opened i) ≡ ret true) × AreShut (i + 1) ups opened

on_shutdown-Closes :
    (i : ℕ) (ups : List Settings) (s : State)
    → ((k : ℕ) → i ≤ k → AreOpen k s)
    → AreShut i ups s.opened
    → (s' : State) × (on_shutdown i ups s ≡ ret (s', true)) × Closes (is_of_any i ups) s s'
unfolding on_shutdown
on_shutdown-Closes i [] s o k =
    (s, refl, (λ c. nothing_closed (s.running c), λ c. nothing_more (s.closed c), (refl, refl)))
on_shutdown-Closes i (u ∷ ups) s o (k, ks) =
    let (s1, e, c1) = stop-Closes i u s (o i (omega arith)) k in
    let (s', e', c2) =
      on_shutdown-Closes (i + 1) ups s1
        (λ l b m c q.
          c1.1 c
          ∙ rw (o l (omega arith) m c q, other_upstream i l u.hosts m c (omega arith) q) refl)
        (subst (AreShut (i + 1) ups) (sym (c1.2.0)) ks) in
    (
      s',
      rw (e, ◌>>=◌) e',
      Closes-both (is_of i u.hosts) (is_of_any (i + 1) ups) (is_of_any i (u ∷ ups)) s s1 s' c1 c2
          (λ c. refl),
    )

AreOpened-AreShut :
    (i : ℕ) (ups : List Settings) (s : State)
    → AreOpened i ups s
    → All (λ u. u.close_open ≡ true) ups
    → AreShut i ups s.opened
unfolding shut_down
AreOpened-AreShut i [] s o k = tt
AreOpened-AreShut i (u ∷ ups) s (o, os) (k, ks) =
    (shut (s.opened i) o, AreOpened-AreShut (i + 1) ups s os ks)
  where
    shut : (b : Bool) → (u.has_sets ≡ true → b ≡ true) → shut_down u b ≡ ret true
    shut b h = elim (Bool-cases u.has_sets) [ inl y ↦ rw (y, h y, k) refl | inr n ↦ rw n refl ]

and_not_self : (x a : Bool) → (x ≡ true → a ≡ true) → (x && not a) ≡ false
and_not_self true a h = rw (h refl) refl
and_not_self false a h = refl

-- Shutdown behind a startup without an error gives no error and no panic, so it closes no channel twice,
-- when no Close of a connection to the kernel's sets gives one. Behind it every channel of an upstream is closed
-- and no other, no goroutine runs that has a channel, and those of initialUpdateFromUrl are as startup left them.
pub on_shutdown-on_startup :
    (ups : List Settings)
    → (on_startup 0 ups nothing).1 ≡ true
    → All (λ u. u.close_open ≡ true) ups
    → (s : State) × (on_shutdown 0 ups ((on_startup 0 ups nothing).0) ≡ ret (s, true))
      × ((c : Channel) → s.closed c ≡ is_of_any 0 ups c)
      × ((c : Channel) → s.running c ≡ false)
      × (s.loads ≡ ((on_startup 0 ups nothing).0).loads)
on_shutdown-on_startup ups through k =
    let started = (on_startup 0 ups nothing).0 in
    let b = on_startup-Begins 0 ups nothing in
    let (s, e, c) =
      on_shutdown-Closes 0 ups started (λ l h m d q. b.1 d)
        (AreOpened-AreShut 0 ups started (on_startup-AreOpened 0 ups nothing through) k) in
    (
      s,
      e,
      λ d. c.1 d ∙ rw (b.1 d) refl,
      λ d. c.0 d ∙ and_not_self (started.running d) (is_of_any 0 ups d) (b.0 d),
      c.2.1,
    )
