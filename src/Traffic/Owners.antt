-- ===== src/Traffic/Owners.antt =====
-- Who has a connection: never two callers at once, and never one that did not ask for its type.
use dnsredir.Base.{
  ℕ, zero, suc, ◌+◌, ◌≤◌, Bool, some, List, [], ◌∷◌, All, get_elem?, ◌≡◌, ◌≢◌, refl, ap, arith,
}
use dnsredir.Connections.{
  TransportType, type_udp, type_tcp, type_tls, stack, PersistConn, empty_cache,
}
use dnsredir.Connections.Conserve.{held}
use dnsredir.Traffic.{Caller, idle, holding, Manager, Traffic, quiet, Reach, start, later}
use dnsredir.Traffic.Callers.{total, All-get}
use dnsredir.Traffic.Filed.{IsOf}
use dnsredir.Traffic.Sound.{holds, waits, GetsIts, IsSound, Step-IsSound}

idle-total :
    (w : Caller → ℕ) (cs : List Caller) → w idle ≡ 0 → All (λ c. c ≡ idle) cs → total w cs ≡ 0
idle-total w [] z h = refl
idle-total w (c ∷ cs) z (e, h) = omega (arith, ap w e, z, idle-total w cs z h)

idle-GetsIts : (m : Manager) (cs : List Caller) → All (λ c. c ≡ idle) cs → All (GetsIts m) cs
idle-GetsIts m [] h = tt
idle-GetsIts m (c ∷ cs) (e, h) = (rw e tt, idle-GetsIts m cs h)

quiet-IsSound : (cs : List Caller) → All (λ c. c ≡ idle) cs → IsSound (quiet cs)
quiet-IsSound cs h = record {
  owned = λ id. ground (arith, idle-total (holds id) cs refl h);
  served = idle-total waits cs refl h;
  rightful = idle-GetsIts Manager.selecting cs h;
  filed = record { filed = λ which. none_there which };
}
  where
    none_there : (which : TransportType) → All (IsOf which) (stack which empty_cache)
    none_there type_udp = unfold stack in tt
    none_there type_tcp = unfold stack in tt
    none_there type_tls = unfold stack in tt

-- With any number of callers of Dial and Yield, whatever the order of their steps, connManager's, the ticker's and the
-- stop's: every connection made so far is at exactly one place, in the cache, closed, under way to a caller,
-- at one caller, or given up, and no other is anywhere; connManager owes an answer exactly while one caller waits for it;
-- a caller's connection, and the one under way to it, is of the type that it asked for.
pub reach-IsSound :
    (find : ℕ → (ℕ → Bool) → ℕ) (expire : ℕ) {s : Traffic} → Reach find expire s → IsSound s
reach-IsSound find expire (start cs h) = quiet-IsSound cs h
reach-IsSound find expire (later r m) = Step-IsSound find expire m (reach-IsSound find expire r)

one_le_total :
    (w : Caller → ℕ) (cs : List Caller) (i : ℕ) (c : Caller)
    → get_elem? cs i ≡ some c
    → w c ≤ total w cs
one_le_total w [] i c e = absurd (ground arith)
one_le_total w (b ∷ cs) zero c e = let q : b ≡ c = cc in omega (arith, ap w q)
one_le_total w (b ∷ cs) (suc i) c e = omega (arith, one_le_total w cs i c e)

two_le_total :
    (w : Caller → ℕ) (cs : List Caller) (i j : ℕ) (c d : Caller)
    → get_elem? cs i ≡ some c
    → get_elem? cs j ≡ some d
    → i ≢ j
    → w c + w d ≤ total w cs
two_le_total w [] i j c d e f ne = absurd (ground arith)
two_le_total w (b ∷ cs) zero zero c d e f ne = absurd (ne refl)
two_le_total w (b ∷ cs) zero (suc j) c d e f ne =
    let q : b ≡ c = cc in omega (arith, ap w q, one_le_total w cs j d f)
two_le_total w (b ∷ cs) (suc i) zero c d e f ne =
    let q : b ≡ d = cc in omega (arith, ap w q, one_le_total w cs i c e)
two_le_total w (b ∷ cs) (suc i) (suc j) c d e f ne =
    omega (arith, two_le_total w cs i j c d e f (λ p. ne (ap suc p)))

-- In whatever order the steps came, two callers that hold connections hold different ones, and neither
-- holds one that is in the cache or closed by it, nor one of a type that it did not ask for.
pub holders_differ :
    (find : ℕ → (ℕ → Bool) → ℕ) (expire : ℕ) {s : Traffic} (i j : ℕ) (a b : TransportType)
    (pc qc : PersistConn)
    → Reach find expire s
    → get_elem? s.callers i ≡ some (holding a pc)
    → get_elem? s.callers j ≡ some (holding b qc)
    → i ≢ j
    → (pc.id ≢ qc.id) × (held pc.id s.cache ≡ 0) × (pc.which_type ≡ a)
holders_differ find expire {s} i j a b pc qc r e f ne =
    let h = reach-IsSound find expire r in
    let two = two_le_total (holds pc.id) s.callers i j (holding a pc) (holding b qc) e f ne in
    let one = h.owned pc.id in
    (
      λ q. ground (arith, two, one, q),
      ground (arith, two, one),
      All-get (GetsIts s.manager) s.callers i (holding a pc) e h.rightful,
    )
