-- ===== src/Dialing/Bootstrap.antt =====
-- What the bootstrap servers and no_ipv6 do to a dial.
use dnsredir.Base.{
  ℕ, zero, suc, ◌<◌, Bool, true, false, inl, inr, none, some, List, [], ◌∷◌, ◌++◌, any, length,
  get_elem?, if◌then◌else◌, Str, codes, str_eq, str_eq_refl, ret, ◌≡◌, ◌≢◌, refl, arith, Bool-cases,
}
use dnsredir.Config.{UpstreamHost}
use dnsredir.Dialing.Kinds.{IsRequestProto}
use dnsredir.Dialing.{
  Resolver, bootstrap_network, pick_bootstrap, resolver_dial, resolver_of, dial_new,
}

get_elem?-any :
    (xs : List Str) (i : ℕ)
    → i < length xs
    → (x : Str) × (get_elem? xs i ≡ some x) × (any (str_eq x) xs ≡ true)
get_elem?-any [] i h = absurd (omega arith)
get_elem?-any (y ∷ ys) zero h = (y, refl, ground (arith, str_eq_refl y))
get_elem?-any (y ∷ ys) (suc i) h =
    let (x, e, a) = get_elem?-any ys i (omega (arith, h)) in (x, e, ground arith)

network_four :
    (no_ipv6 : Bool) (network : Str)
    → IsRequestProto network
    → bootstrap_network no_ipv6 network ≡ (if no_ipv6 then network ++ codes "4" else network)
unfolding bootstrap_network
network_four false network p = refl
network_four true network (inl p) = rw p refl
network_four true network (inr p) = rw p refl

-- rand.Intn gives a number below its argument.
abbrev pub IsPick : (ℕ → ℕ) → Type 0
IsPick pick = (n : ℕ) → 0 < n → pick n < n

picked :
    (pick : ℕ → ℕ) (bootstrap : List Str)
    → IsPick pick
    → bootstrap ≢ []
    → (addr : Str) × (pick_bootstrap pick bootstrap ≡ ret addr)
      × (any (str_eq addr) bootstrap ≡ true)
unfolding pick_bootstrap
picked pick [] law ne = absurd (ne refl)
picked pick (b ∷ bs) law ne =
    let (x, e, a) =
      get_elem?-any (b ∷ bs) (pick (length (b ∷ bs))) (law (length (b ∷ bs)) (omega arith)) in
    (x, rw (e, pick_bootstrap) refl, a)

-- With bootstrap servers the dialer resolves through a resolver that asks one of them, without a panic, over
-- the network that the resolver chose; with no_ipv6 over its IPv4 variant. Without bootstrap servers
-- there is no such resolver. Whatever no_ipv6 is, the client's own dial is the same but for the resolver, and without
-- bootstrap servers it is the same altogether.
pub dial_new-bootstrap :
    (pick : ℕ → ℕ) (host : UpstreamHost) (proto network : Str) (timeout : ℕ) (bootstrap : List Str)
    (no_ipv6 : Bool)
    → IsPick pick
    → IsRequestProto network
    → ((dial_new host proto timeout [] true ≡ dial_new host proto timeout [] false)
        × ((dial_new host proto timeout [] no_ipv6).resolver ≡ none))
      × (dial_new host proto timeout bootstrap true
          ≡ record (dial_new host proto timeout bootstrap false) {
            resolver = resolver_of bootstrap true;
          })
      × (bootstrap ≢ []
          → (r : Resolver) × (addr : Str) × ((dial_new host proto timeout bootstrap
                no_ipv6).resolver
              ≡ some r)
            × (resolver_dial pick r network
                ≡ ret (if no_ipv6 then network ++ codes "4" else network, addr))
            × (any (str_eq addr) bootstrap ≡ true))
unfolding dial_new resolver_of
dial_new-bootstrap pick host proto network timeout bootstrap no_ipv6 law p = (
  elim (Bool-cases (str_eq proto (codes "tcp-tls"))) [
    | inl y ↦ rw y (refl, refl)
    | inr n ↦ rw n (refl, refl)
  ],
  elim (Bool-cases (str_eq proto (codes "tcp-tls"))) [ inl y ↦ rw y refl | inr n ↦ rw n refl ],
  λ ne.
      let (addr, e, a) = picked pick bootstrap law ne in
      let r : Resolver = record { no_ipv6 = no_ipv6; bootstrap = bootstrap } in
      (
        r,
        addr,
        resolver_there ne,
        unfold resolver_dial in rw (e, resolver_dial) (rw (network_four no_ipv6 network p) refl),
        a,
      ),
)
  where
    resolver_there :
        bootstrap ≢ []
        → (dial_new host proto timeout bootstrap no_ipv6).resolver
          ≡ some (record { no_ipv6 = no_ipv6; bootstrap = bootstrap })
    resolver_there ne = elim (Bool-cases (str_eq proto (codes "tcp-tls"))) [
      | inl y ↦ rw y (one bootstrap ne)
      | inr n ↦ rw n (one bootstrap ne)
    ]
      where
        one :
            (b : List Str)
            → b ≢ []
            → resolver_of b no_ipv6 ≡ some (record { no_ipv6 = no_ipv6; bootstrap = b })
        one [] ne = absurd (ne refl)
        one (x ∷ xs) ne = ground arith
