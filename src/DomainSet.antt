-- ===== src/DomainSet.antt =====
-- The two-level domain set of namelist.go: names in buckets by their first two bytes.
pub mod Laws
pub mod Match
pub mod Search
pub mod Held
pub mod Ends
use Prim.Native.Nat.{bit_or}
use dnsredir.Base.{
  ℕ, zero, suc, ◌+◌, ◌*◌, ◌%◌, ◌^◌, Bool, true, false, Option, none, some, List, [], ◌∷◌, ◌==◌,
  if◌then◌else◌, length, drop, any, Str, index_byte, Run, ret, panic, no_fuel, ◌>>=◌,
}
use dnsredir.Domain.{string_to_domain}
use dnsredir.Externals.{NameLibs}
use dnsredir.StringSet
use dnsredir.StringSet.{StringSet, contains}

-- map[uint16]StringSet; a missing key reads as the nil map, which is empty.
abbrev pub DomainSet : Type 0
DomainSet = List (ℕ × StringSet)

abbrev pub empty : DomainSet
empty = []

unfoldable pub bucket : ℕ → DomainSet → StringSet
bucket i [] = []
bucket i ((j, s) ∷ d) = if j == i then s else bucket i d

unfoldable pub put : ℕ → StringSet → DomainSet → DomainSet
put i s [] = (i, s) ∷ []
put i s ((j, t) ∷ d) = if j == i then (i, s) ∷ d else (j, t) ∷ put i s d

-- Total number of names; the source counts in a uint64.
unfoldable pub len : DomainSet → ℕ
len [] = 0
len ((i, s) ∷ d) = length s + len d

-- The key is a uint16 of two bytes, the first one high; a single byte is padded with '-'.
unfoldable pub domain_to_index : Str → Run ℕ
domain_to_index [] = panic
domain_to_index (c ∷ []) = ret (bit_or (b'-' * 2 ^ 8 % 2 ^ 16) c)
domain_to_index (c ∷ d ∷ s) = ret (bit_or (c * 2 ^ 8 % 2 ^ 16) d)

-- The name under which Add files a text, if it files it at all.
unfoldable pub add_name : NameLibs → Str → Option Str
add_name libs str = elim (string_to_domain libs.unicode_lower str) [
  | some name ↦ some name
  | none ↦ elim (libs.to_ascii str) [
    | none ↦ none
    | some name ↦ if length name == 0 then none else some name
  ]
]

unfoldable pub add : NameLibs → DomainSet → Str → Run (DomainSet × Bool)
unfolding add_name
add libs d str = elim (add_name libs str) [
  | none ↦ ret (d, false)
  | some name ↦ do i ← domain_to_index name; ret (put i (StringSet.add (bucket i d) name) d, true)
]

-- The callback returns an error or `none`; the walk stops at the first error.
for_each_name : {E : Type 0} → (Str → Option E) → StringSet → Option E
for_each_name f [] = none
for_each_name f (name ∷ s) =
    let rest = for_each_name f s in elim (f name) [ some e ↦ some e | none ↦ rest ]

unfoldable pub for_each_domain : {E : Type 0} → (Str → Option E) → DomainSet → Option E
unfolding for_each_name
for_each_domain f [] = none
for_each_domain f ((i, s) ∷ d) =
    let rest = for_each_domain f d in elim (for_each_name f s) [ some e ↦ some e | none ↦ rest ]

-- One round of the loop of Match: a full match in the bucket, then the walk over the bucket.
unfoldable pub hit : NameLibs → StringSet → Str → Bool
hit libs s child =
    if contains s child then true else any (λ parent. libs.name_matches parent child) s

-- The text behind the first dot; `none` where the loop breaks, i <= 0.
pub next_child : Str → Option Str
next_child child = elim (index_byte b'.' child) [
  | none ↦ none
  | some i ↦ elim i [ zero ↦ none | suc j ↦ some (drop (suc j + 1) child) ]
]

-- The loop, on fuel; each round drops a label and its dot.
pub match_loop : ℕ → NameLibs → DomainSet → Str → Run Bool
unfolding hit next_child
match_loop zero libs d child = no_fuel
match_loop (suc fuel) libs d child = do
  k ← domain_to_index child
  elim (hit libs (bucket k d) child) [
    | true ↦ ret true
    | false ↦ elim (next_child child) [ none ↦ ret false | some rest ↦ match_loop fuel libs d rest ]
  ]

unfoldable pub match : NameLibs → DomainSet → Str → Run Bool
unfolding match_loop
match libs d child =
    if length child == 0 then panic else match_loop (suc (length child)) libs d child
