-- ===== src/Addresses.antt =====
-- The addresses that ipsetAddIP of ipset_linux.go and pfAddIP of pf_darwin.go take out of a reply, by
-- the same steps. An answer is its type and the text that the dns library prints for it.
use dnsredir.Base.{
  ℕ, Bool, false, not, ◌&&◌, Option, none, some, List, [], ◌∷◌, if◌then◌else◌, ◌==◌, Str, str_eq,
  split,
}

pub record Record : Type 0 where
  pub kind : ℕ
  pub text : Str

-- dns.TypeA, dns.TypeAAAA, dns.RcodeSuccess
abbrev pub type_a : ℕ
type_a = 1

abbrev pub type_aaaa : ℕ
type_aaaa = 28

abbrev pub rcode_success : ℕ
rcode_success = 0

-- len(ss) == 5 and ss[4]
abbrev pub fifth_of_five : List Str → Option Str
fifth_of_five (a ∷ b ∷ c ∷ d ∷ e ∷ []) = some e
fifth_of_five _ = none

-- The guards in front of the sets: `none` to continue with the next answer. The parameter is
-- net.ParseIP.
unfoldable pub address_of : (Str → Option Str) → Record → Option Str
address_of parse_ip rr =
    if not (rr.kind == type_a) && not (rr.kind == type_aaaa)
    then none
    else elim (fifth_of_five (split b'\t' rr.text)) [ none ↦ none | some s ↦ parse_ip s ]

-- The answer's address is this one.
abbrev pub gives : Option Str → Str → Bool
gives none ip = false
gives (some a) ip = str_eq a ip
