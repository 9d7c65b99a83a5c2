-- ===== src/Lifecycle/Closes.antt =====
-- What stopping an upstream closes and ends.
use dnsredir.Base.{
  ℕ, zero, suc, ◌+◌, ◌≤◌, Bool, true, false, not, ◌&&◌, ◌||◌, List, [], ◌∷◌, ltb, leb, ◌==◌, ret,
  ◌>>=◌, ◌≡◌, refl, ap, ◌∙◌, arith,
}
use dnsredir.Lifecycle.{
  Channel, stop_path_reload, stop_url_reload, stop_check, stop_transport, same_channel, State,
  closing, close, Settings, stop_transports, stop_checks, shut_down, stop,
}

-- The transports of the i-th upstream from the j-th to the one before j + n.
abbrev pub is_transport : ℕ → ℕ → ℕ → Channel → Bool
is_transport i j n (stop_transport k l) = i == k && (leb j l && ltb l (j + n))
is_transport i j n _ = false

-- The channels of the i-th upstream.
abbrev pub is_of : ℕ → ℕ → Channel → Bool
is_of i hosts (stop_path_reload k) = i == k
is_of i hosts (stop_url_reload k) = i == k
is_of i hosts (stop_check k) = i == k
is_of i hosts (stop_transport k l) = i == k && ltb l hosts

abbrev pub is_of_any : ℕ → List Settings → Channel → Bool
is_of_any i [] c = false
is_of_any i (u ∷ ups) c = is_of i u.hosts c || is_of_any (i + 1) ups c

-- What no close touches: the connections and the goroutines that have no channel.
abbrev pub Keeps : State → State → Type 0
Keeps s s' = (s'.opened ≡ s.opened) × (s'.loads ≡ s.loads)

-- What a close of the channels of a test leaves.
abbrev pub Closes : (Channel → Bool) → State → State → Type 0
Closes p s s' =
    ((c : Channel) → s'.running c ≡ (s.running c && not (p c)))
    × ((c : Channel) → s'.closed c ≡ (s.closed c || p c))
    × Keeps s s'

close_open : (c : Channel) (s : State) → s.closed c ≡ false → close c s ≡ ret (closing c s)
unfolding close
close_open c s e = rw e refl

closing-Closes : (c : Channel) (s : State) → Closes (same_channel c) s (closing c s)
unfolding closing
closing-Closes c s = (λ d. refl, λ d. refl, (refl, refl))

and_not_or : (x a b : Bool) → ((x && not a) && not b) ≡ (x && not (a || b))
and_not_or true true b = refl
and_not_or true false b = refl
and_not_or false a b = refl

or_assoc : (x a b : Bool) → ((x || a) || b) ≡ (x || (a || b))
or_assoc true a b = refl
or_assoc false a b = refl

-- One close behind another.
pub Closes-both :
    (p q r : Channel → Bool) (s s1 s2 : State)
    → Closes p s s1
    → Closes q s1 s2
    → ((c : Channel) → r c ≡ (p c || q c))
    → Closes r s s2
Closes-both p q r s s1 s2 (a, b, k) (a1, b1, k1) e = (
  λ c. rw (a1 c, a c, e c) (and_not_or (s.running c) (p c) (q c)),
  λ c. rw (b1 c, b c, e c) (or_assoc (s.closed c) (p c) (q c)),
  (k1.0 ∙ k.0, k1.1 ∙ k.1),
)

is_transport-none : (i j : ℕ) (c : Channel) → is_transport i j 0 c ≡ false
is_transport-none i j (stop_path_reload k) = refl
is_transport-none i j (stop_url_reload k) = refl
is_transport-none i j (stop_check k) = refl
is_transport-none i j (stop_transport k l) = ground arith

is_transport-suc :
    (i j n : ℕ) (c : Channel)
    → is_transport i j (suc n) c
      ≡ (same_channel (stop_transport i j) c || is_transport i (j + 1) n c)
is_transport-suc i j n (stop_path_reload k) = refl
is_transport-suc i j n (stop_url_reload k) = refl
is_transport-suc i j n (stop_check k) = refl
is_transport-suc i j n (stop_transport k l) = ground arith

pub nothing_closed : (x : Bool) → x ≡ (x && not false)
nothing_closed true = refl
nothing_closed false = refl

pub nothing_more : (x : Bool) → x ≡ (x || false)
nothing_more true = refl
nothing_more false = refl

stop_transports-Closes :
    (i j n : ℕ) (s : State)
    → ((l : ℕ) → j ≤ l → s.closed (stop_transport i l) ≡ false)
    → (s' : State) × (stop_transports i j n s ≡ ret s') × Closes (is_transport i j n) s s'
unfolding stop_transports
stop_transports-Closes i j zero s h = (
  s,
  refl,
  (
    λ c. rw (is_transport-none i j c) (nothing_closed (s.running c)),
    λ c. rw (is_transport-none i j c) (nothing_more (s.closed c)),
    (refl, refl),
  ),
)
stop_transports-Closes i j (suc n) s h =
    let one = closing-Closes (stop_transport i j) s in
    let (s', e, k) =
      stop_transports-Closes i (j + 1) n (closing (stop_transport i j) s)
        (λ l b. one.1 (stop_transport i l) ∙ still_open l b) in
    (
      s',
      rw (close_open (stop_transport i j) s (h j (omega arith)), ◌>>=◌) e,
      Closes-both (same_channel (stop_transport i j)) (is_transport i (j + 1) n)
          (is_transport i j (suc n)) s (closing (stop_transport i j) s) s' one k
          (is_transport-suc i j n),
    )
  where
    still_open :
        (l : ℕ)
        → j + 1 ≤ l
        → (s.closed (stop_transport i l) || same_channel (stop_transport i j) (stop_transport i l))
          ≡ false
    still_open l b = rw (h l (omega arith)) (ground arith)

-- The channels of the i-th upstream are open.
abbrev pub AreOpen : ℕ → State → Type 0
AreOpen i s = (hosts : ℕ) (c : Channel) → is_of i hosts c ≡ true → s.closed c ≡ false

is_of-parts :
    (i n : ℕ) (c : Channel)
    → is_of i n c ≡ (
        same_channel (stop_path_reload i) c
        || (same_channel (stop_url_reload i) c
            || (same_channel (stop_check i) c || is_transport i 0 n c)))
is_of-parts i n (stop_path_reload k) = ground arith
is_of-parts i n (stop_url_reload k) = ground arith
is_of-parts i n (stop_check k) = ground arith
is_of-parts i n (stop_transport k l) = ground arith

-- Stop ends the goroutines of its upstream and no other, where the connection closes without an error.
pub stop-Closes :
    (i : ℕ) (u : Settings) (s : State)
    → AreOpen i s
    → shut_down u (s.opened i) ≡ ret true
    → (s' : State) × (stop i u s ≡ ret (s', true)) × Closes (is_of i u.hosts) s s'
unfolding stop stop_checks
stop-Closes i u s h shut =
    let s1 = closing (stop_path_reload i) s in
    let s2 = closing (stop_url_reload i) s1 in
    let s3 = closing (stop_check i) s2 in
    let c1 = closing-Closes (stop_path_reload i) s in
    let c2 = closing-Closes (stop_url_reload i) s1 in
    let c3 = closing-Closes (stop_check i) s2 in
    let o2 : s1.closed (stop_url_reload i) ≡ false =
      c1.1 (stop_url_reload i) ∙ rw (h 0 (stop_url_reload i) (ground arith)) refl in
    let o3 : s2.closed (stop_check i) ≡ false =
      c2.1 (stop_check i) ∙ rw (c1.1 (stop_check i), h 0 (stop_check i) (ground arith)) refl in
    let (s', e, c4) = stop_transports-Closes i 0 u.hosts s3 (λ l b.
      c3.1 (stop_transport i l)
      ∙ rw
          (
            c2.1 (stop_transport i l),
            c1.1 (stop_transport i l),
            h (l + 1) (stop_transport i l) (ground arith),
          )
          refl) in
    (
      s',
      rw
          (
            close_open (stop_path_reload i) s (h 0 (stop_path_reload i) (ground arith)),
            ◌>>=◌,
            close_open (stop_url_reload i) s1 o2,
            ◌>>=◌,
            close_open (stop_check i) s2 o3,
            ◌>>=◌,
            e,
            ap (λ o. shut_down u (o i)) c4.2.0,
            shut,
          )
          refl,
      Closes-both (same_channel (stop_path_reload i)) _ (is_of i u.hosts) s s1 s' c1
          (Closes-both (same_channel (stop_url_reload i)) _ _ s1 s2 s' c2
            (Closes-both (same_channel (stop_check i)) (is_transport i 0 u.hosts) _ s2 s3 s' c3 c4
              (λ c. refl))
            (λ c. refl))
          (is_of-parts i u.hosts),
    )
