-- ===== src/IpSet/Adds.antt =====
-- Which addresses reach which ipset.
use dnsredir.Base.{
  ◌||◌, ℕ, Bool, false, ◌&&◌, Option, none, some, List, [], ◌∷◌, ◌≡◌, refl, arith, any, any-append,
  Bool-cases, inl, inr, str_eq_sound, str_eq_refl, ◌==◌, Str, str_eq,
}
use dnsredir.StringSet.{StringSet, contains}
use dnsredir.Addresses.{Record, rcode_success, address_of, gives}
use dnsredir.IpSet.{
  IpSetLibs, IpSetHandle, type_match, add_to, add_to_sets, add_answers, ipset_add_ip,
}

-- The call adds this address to this set.
abbrev pub is_call : Str → Str → Str × Str → Bool
is_call name ip call = str_eq call.0 name && str_eq call.1 ip

-- The kernel knows the set, and its family is NFPROTO_IPV4 where the answer is an A, with the code 1, and
-- NFPROTO_IPV6 where it is an AAAA, with the code 28.
abbrev pub fits : Option ℕ → ℕ → Bool
fits none kind = false
fits (some family) kind = kind == 1 && family == 2 || kind == 28 && family == 10

type_match-fits : (family kind : ℕ) → type_match family kind ≡ fits (some family) kind
unfolding type_match
type_match-fits family kind = ground arith

any-add_to :
    (family : Option ℕ) (kind : ℕ) (n a name ip : Str)
    → any (is_call name ip) (add_to family kind n a)
      ≡ (fits family kind && (str_eq n name && str_eq a ip))
unfolding add_to
any-add_to none kind n a name ip = refl
any-add_to (some family) kind n a name ip = rw (type_match-fits family kind) (ground arith)

any-add_to_sets :
    (libs : IpSetLibs) (kind : ℕ) (a : Option Str) (set : StringSet) (name ip : Str)
    → any (is_call name ip) (add_to_sets libs kind a set)
      ≡ (gives a ip && (fits (libs.family name) kind && contains set name))
unfolding add_to_sets
any-add_to_sets libs kind none set name ip = refl
any-add_to_sets libs kind (some a) [] name ip = ground arith
any-add_to_sets libs kind (some a) (n ∷ set) name ip =
    rw
      (
        any-append (is_call name ip) (add_to (libs.family n) kind n a)
            (add_to_sets libs kind (some a) set),
        any-add_to (libs.family n) kind n a name ip,
        any-add_to_sets libs kind (some a) set name ip,
      )
      (elim (Bool-cases (str_eq n name)) [
        | inl e ↦ rw (str_eq_sound n name e, str_eq_refl name) ground arith
        | inr e ↦ rw e ground arith
      ])

any-add_answers :
    (libs : IpSetLibs) (set : StringSet) (answer : List Record) (name ip : Str)
    → any (is_call name ip) (add_answers libs set answer)
      ≡ any
          (λ rr.
            gives (address_of libs.parse_ip rr) ip
            && (fits (libs.family name) rr.kind && contains set name))
          answer
unfolding add_answers
any-add_answers libs set [] name ip = refl
any-add_answers libs set (rr ∷ answer) name ip =
    rw
      (
        any-append (is_call name ip) (add_to_sets libs rr.kind (address_of libs.parse_ip rr) set)
            (add_answers libs set answer),
        any-add_to_sets libs rr.kind (address_of libs.parse_ip rr) set name ip,
        any-add_answers libs set answer name ip,
      )
      refl

pub ipset_add_ip-any :
    (libs : IpSetLibs) (handle : IpSetHandle) (rcode : ℕ) (answer : List Record) (name ip : Str)
    → any (is_call name ip) (ipset_add_ip libs (some handle) rcode answer) ≡ (
        rcode == rcode_success
        && any
            (λ rr.
              gives (address_of libs.parse_ip rr) ip
              && (fits (libs.family name) rr.kind && contains handle.set name))
            answer)
unfolding ipset_add_ip
ipset_add_ip-any libs handle rcode answer name ip = elim (Bool-cases (rcode == rcode_success)) [
  | inl e ↦ rw e (any-add_answers libs handle.set answer name ip)
  | inr e ↦ rw e refl
]
