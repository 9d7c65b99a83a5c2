-- ===== src/HostPort/Split.antt =====
-- HostPort's results are read back by SplitTransportHost, as parseTo reads them.
use dnsredir.Base.{
  inr, inl, ◌<◌, lt→ltb, Bool-cases, All, ℕ, suc, zero, true, List, [], ◌∷◌, ◌++◌, length, drop,
  Str, codes, has_prefix, to_lower, is_ascii, lower_byte, map, ◌≡◌, refl, ap, arith, ◌∙◌,
}
use mathlib.Core.Path.{ap₂}
use mathlib.Core.List.{tail}
use dnsredir.Base.Result.{ok}
use dnsredir.HostPort.{
  endpoint, endpoint, NetLibs, parts, is_host, host_port_of, known_trans, split_known,
  split_transport_host,
}

-- An endpoint that is spelled with its transport, in ASCII, is split into that transport and the
-- lower case of what is behind it, for each of the known transports.
pub split_transport_host-known :
    (lower : Str → Str) (addr : Str)
    → is_ascii addr ≡ true
    → All
        (λ trans.
          split_transport_host lower (trans ++ codes "://" ++ addr) ≡ (trans, map lower_byte addr))
        known_trans
unfolding split_transport_host
split_transport_host-known lower addr h = (rw h, (rw h, (rw h, (rw h, (rw h, (rw h, (rw h, tt)))))))

-- A property of every known transport holds of the one that the loop finds.
split_known-trans :
    (P : Str → Type 0) (known : List Str) (s : Str)
    → P (codes "dns")
    → All P known
    → P (split_known known s).0
unfolding split_known
split_known-trans P [] s d h = d
split_known-trans P (trans ∷ known) s d h =
    elim (Bool-cases (has_prefix s (trans ++ codes "://"))) [
      | inl e ↦ rw e h.0
      | inr e ↦ rw e (split_known-trans P known s d h.1)
    ]

-- ASCII text in lower case.
abbrev IsLower : Str → Type 0
IsLower s = (is_ascii s ≡ true) × (map lower_byte s ≡ s)

IsLower-drop : (n : ℕ) (s : Str) → IsLower s → IsLower (drop n s)
IsLower-drop zero s h = h
IsLower-drop (suc n) [] h = h
IsLower-drop (suc n) (c ∷ s) h = IsLower-drop n s (ground arith, ap tail h.1)

split_known-IsLower : (known : List Str) (s : Str) → IsLower s → IsLower (split_known known s).1
unfolding split_known
split_known-IsLower [] s h = h
split_known-IsLower (trans ∷ known) s h = elim (Bool-cases (has_prefix s (trans ++ codes "://"))) [
  | inl e ↦ rw e (IsLower-drop (length (trans ++ codes "://")) s h)
  | inr e ↦ rw e (split_known-IsLower known s h)
]

lower_byte_idem :
    (c : ℕ) → c < 128 → (lower_byte (lower_byte c) ≡ lower_byte c) × (lower_byte c < 128)
lower_byte_idem c h = (ground arith, ground arith)

IsLower-map : (s : Str) → is_ascii s ≡ true → IsLower (map lower_byte s)
IsLower-map [] h = (refl, refl)
IsLower-map (c ∷ s) h =
    let (a, b) = lower_byte_idem c (ground arith) in
    let (d, e) = IsLower-map s (ground arith) in
    (ground (arith, lt→ltb _ _ b), ap₂ (λ x y. x ∷ y) a e)

split-IsLower :
    (lower : Str → Str) (h : Str) → is_ascii h ≡ true → IsLower (split_transport_host lower h).1
unfolding split_transport_host
split-IsLower lower h a =
    rw a (split_known-IsLower known_trans (map lower_byte h) (IsLower-map h a))

split-trans :
    (P : Str → Type 0) (lower : Str → Str) (h : Str)
    → P (codes "dns")
    → All P known_trans
    → P (split_transport_host lower h).0
unfolding split_transport_host
split-trans P lower h d a = split_known-trans P known_trans (to_lower lower h) d a

endpoint_lem :
    (net : NetLibs) (h trans host addr port : Str)
    → net.split_host_port host ≡ parts addr port
    → is_host net addr ≡ true
    → endpoint net h trans host ≡ ok (trans ++ codes "://" ++ host)
unfolding endpoint
endpoint_lem net h trans host addr port e i = rw (e, endpoint) (rw i)

-- An endpoint in ASCII whose address has a port and a host that is a domain name or an IP address is
-- accepted by HostPort, and what HostPort makes of it splits into the same transport and address.
pub host_port_of-split :
    (net : NetLibs) (h addr port : Str)
    → is_ascii h ≡ true
    → net.split_host_port (split_transport_host net.unicode_lower h).1 ≡ parts addr port
    → is_host net addr ≡ true
    → (s : Str) × (host_port_of net h ≡ ok s)
      × (split_transport_host net.unicode_lower s ≡ split_transport_host net.unicode_lower h)
host_port_of-split net h addr port a e i = (
  t ++ codes "://" ++ host,
  whole ∙ endpoint_lem net h t host addr port e i,
  again ∙ ap (λ x. (t, x)) low.1,
)
  where
    t : Str
    t = (split_transport_host net.unicode_lower h).0

    host : Str
    host = (split_transport_host net.unicode_lower h).1

    whole : host_port_of net h ≡ endpoint net h t host
    whole = unfold host_port_of in refl

    low : IsLower host
    low = split-IsLower net.unicode_lower h a

    known :
        All
          (λ trans.
            split_transport_host net.unicode_lower (trans ++ codes "://" ++ host)
            ≡ (trans, map lower_byte host))
          known_trans
    known = split_transport_host-known net.unicode_lower host low.0

    again :
        split_transport_host net.unicode_lower (t ++ codes "://" ++ host) ≡ (t, map lower_byte host)
    again =
        split-trans
          (λ trans.
            split_transport_host net.unicode_lower (trans ++ codes "://" ++ host)
            ≡ (trans, map lower_byte host))
          net.unicode_lower h known.0 known
