-- ===== src/Handler/Prepared.antt =====
-- A request that an upstream takes is answered, and the kernel's sets know the addresses before the client.
use dnsredir.Base.{
  ◌^◌, ℕ, ◌+◌, ◌^◌, ◌<◌, Bool, true, false, ◌&&◌, ◌||◌, Option, none, some, List, [], ◌∷◌, ◌++◌,
  map, any, any-append, ◌==◌, Str, Run, ret, ◌>>=◌, ◌≡◌, refl, ap,
}
use dnsredir.Addresses.{rcode_success, address_of, gives}
use dnsredir.StringSet.{contains}
use dnsredir.IpSet.{IpSetHandle, ipset_add_ip}
use dnsredir.IpSet.Adds
use dnsredir.IpSet.Adds.{fits, ipset_add_ip-any}
use dnsredir.Pf.{Table, PfHandle, lookup, pf_add_ip}
use dnsredir.Pf.Adds as PfAdds
use dnsredir.Pf.Adds.{takes, pf_add_ip-any}
use dnsredir.Pf.Tables.{IsSound}
use dnsredir.Serve.{Served, reply, format_error, no_healthy, upstream_error, match_name}
use dnsredir.Serve.Loop.{serve-Answers}
use dnsredir.Serve.Rounds.{Ends, Explains}
use dnsredir.Handler.{
  Effect, set_add, table_add, write, write_format_error, Backend, Replies, add_ips, respond, handle,
  serve_dns,
}

abbrev pub is_set_add : Str → Str → Effect → Bool
is_set_add name ip (set_add call) = Adds.is_call name ip call
is_set_add name ip _ = false

abbrev pub is_table_add : Table → Str → Effect → Bool
is_table_add t ip (table_add call) = PfAdds.is_call t ip call
is_table_add t ip _ = false

-- The addresses that a reply has for an ipset, and for a table.
abbrev pub for_set : Replies → Option IpSetHandle → ℕ → Str → Str → Bool
for_set env none r name ip = false
for_set env (some h) r name ip =
    env.rcode r == rcode_success
    && any
        (λ rr.
          gives (address_of env.ipset_libs.parse_ip rr) ip
          && (fits (env.ipset_libs.family name) rr.kind && contains h.set name))
        (env.answer r)

abbrev pub for_table : Replies → Option PfHandle → ℕ → Table → Str → Bool
for_table env none r t ip = false
for_table env (some h) r t ip =
    env.rcode r == rcode_success
    && any (λ rr. gives (address_of env.pf_libs.parse_ip rr) ip && takes (lookup h.set t) rr.kind)
        (env.answer r)

abbrev pub HasSoundTables : Option PfHandle → Type 0
HasSoundTables none = Unit
HasSoundTables (some h) = IsSound h.set

-- A reply is written last, behind exactly the additions of its addresses; nothing else adds one.
abbrev pub IsPrepared : Replies → Backend → Served → List Effect → Type 0
IsPrepared env b (reply r) effects =
    (adds : List Effect) × (effects ≡ adds ++ write r ∷ [])
    × ((name ip : Str) → any (is_set_add name ip) adds ≡ for_set env b.ipset r name ip)
    × ((t : Table) (ip : Str) → any (is_table_add t ip) adds ≡ for_table env b.pf r t ip)
IsPrepared env b format_error effects = effects ≡ write_format_error ∷ []
IsPrepared env b no_healthy effects = effects ≡ []
IsPrepared env b (upstream_error e) effects = effects ≡ []

any-map {ℓ κ} :
    {A : Type ℓ} {B : Type κ} (f : B → Bool) (g : A → B) (xs : List A)
    → any f (map g xs) ≡ any (λ x. f (g x)) xs
any-map f g [] = refl
any-map f g (x ∷ xs) = ap (λ b. f (g x) || b) (any-map f g xs)

any-false {ℓ} : {A : Type ℓ} (xs : List A) → any (λ x. false) xs ≡ false
any-false [] = refl
any-false (x ∷ xs) = any-false xs

or_false : (b : Bool) → (b || false) ≡ b
or_false true = refl
or_false false = refl

set_adds :
    (env : Replies) (h : Option IpSetHandle) (r : ℕ) (name ip : Str)
    → any (Adds.is_call name ip) (ipset_add_ip env.ipset_libs h (env.rcode r) (env.answer r))
      ≡ for_set env h r name ip
set_adds env none r name ip = unfold ipset_add_ip in refl
set_adds env (some h) r name ip =
    ipset_add_ip-any env.ipset_libs h (env.rcode r) (env.answer r) name ip

table_adds :
    (env : Replies) (h : Option PfHandle) (r : ℕ) (t : Table) (ip : Str)
    → HasSoundTables h
    → any (PfAdds.is_call t ip) (pf_add_ip env.pf_libs h (env.rcode r) (env.answer r))
      ≡ for_table env h r t ip
table_adds env none r t ip s = unfold pf_add_ip in refl
table_adds env (some h) r t ip s = pf_add_ip-any env.pf_libs h (env.rcode r) (env.answer r) t ip s

any-add_ips_set :
    (env : Replies) (b : Backend) (r : ℕ) (name ip : Str)
    → any (is_set_add name ip) (add_ips env b r) ≡ for_set env b.ipset r name ip
unfolding add_ips
any-add_ips_set env b r name ip =
    let sets = ipset_add_ip env.ipset_libs b.ipset (env.rcode r) (env.answer r) in
    let tables = pf_add_ip env.pf_libs b.pf (env.rcode r) (env.answer r) in
    rw
      (
        any-append (is_set_add name ip) (map set_add sets) (map table_add tables),
        any-map (is_set_add name ip) set_add sets,
        any-map (is_set_add name ip) table_add tables,
        any-false tables,
        or_false,
      )
      (set_adds env b.ipset r name ip)

any-add_ips_table :
    (env : Replies) (b : Backend) (r : ℕ) (t : Table) (ip : Str)
    → HasSoundTables b.pf
    → any (is_table_add t ip) (add_ips env b r) ≡ for_table env b.pf r t ip
unfolding add_ips
any-add_ips_table env b r t ip s =
    let sets = ipset_add_ip env.ipset_libs b.ipset (env.rcode r) (env.answer r) in
    let tables = pf_add_ip env.pf_libs b.pf (env.rcode r) (env.answer r) in
    rw
      (
        any-append (is_table_add t ip) (map set_add sets) (map table_add tables),
        any-map (is_table_add t ip) set_add sets,
        any-map (is_table_add t ip) table_add tables,
        any-false sets,
      )
      (table_adds env b.pf r t ip s)

respond-IsPrepared :
    (env : Replies) (b : Backend) (a : Served)
    → HasSoundTables b.pf
    → IsPrepared env b a ((respond env b a).1)
unfolding respond
respond-IsPrepared env b (reply r) s =
    (add_ips env b r, refl, any-add_ips_set env b r, λ t ip. any-add_ips_table env b r t ip s)
respond-IsPrepared env b format_error s = refl
respond-IsPrepared env b no_healthy s = refl
respond-IsPrepared env b (upstream_error e) s = refl

-- When an upstream takes the name, its tables are sound, every attempt's exchanges end within `inner`,
-- max_retry is below the largest int32, the first look at the clock is in time and the fuel is above max_retry + 1, ServeDNS returns. What it
-- answers rests on what that upstream's hosts gave, and a reply is written last, behind the additions
-- of exactly the addresses that it has for each ipset and for each pf table of that upstream; no other
-- answer adds an address.
pub serve_dns-IsPrepared :
    (matches : Backend → Str → Run Bool) (fuel inner : ℕ) (env : Replies) (ups : List Backend)
    (name : Str) (b : Backend)
    → match_name matches ups name ≡ ret (some b)
    → HasSoundTables b.pf
    → Ends inner b.world
    → b.max_retry + 1 < 2 ^ 31
    → b.world.in_time 1 ≡ true
    → b.max_retry + 1 < fuel
    → (a : Served) × (count : ℕ) × (serve_dns matches fuel inner env ups name
        ≡ ret (respond env b a))
      × Explains b.world b.max_retry a count
      × IsPrepared env b a ((respond env b a).1)
unfolding serve_dns handle
serve_dns-IsPrepared matches fuel inner env ups name b m s ends in_range t enough =
    let (a, state, e, x, q, l) =
      serve-Answers fuel inner b.world b.max_retry b.max_fails ends in_range t enough in
    (a, state.try_count, rw (m, ◌>>=◌, e) refl, x, respond-IsPrepared env b a s)
