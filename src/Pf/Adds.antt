-- ===== src/Pf/Adds.antt =====
-- Which addresses reach which pf table, and what pfSetup creates.
use dnsredir.Base.{
  ℕ, Bool, true, false, not, ◌&&◌, ◌||◌, Option, none, some, List, [], ◌∷◌, ◌≡◌, refl, sym, arith,
  any, any-append, Bool-cases, inl, inr, if◌then◌else◌, ◌==◌, Str, str_eq,
}
use dnsredir.Addresses.{Record, type_a, type_aaaa, rcode_success, address_of, gives}
use dnsredir.Pf.{
  Flags, Table, table_eq, TableSet, lookup, is_v4_only, is_v6_only, PfLibs, PfHandle, add_to,
  add_to_tables, add_answers, pf_add_ip,
}
use dnsredir.Pf.Tables.{IsSound, table_eq_sound}

abbrev pub is_call : Table → Str → Table × Str → Bool
is_call t ip call = table_eq call.0 t && str_eq call.1 ip

-- A table whose flags take an answer of this type.
abbrev pub takes : Option Flags → ℕ → Bool
takes none kind = false
takes (some flags) kind =
    not (is_v4_only flags && not (kind == type_a))
    && not (is_v6_only flags && not (kind == type_aaaa))

call_unless :
    (p q : Bool) (f : Table × Str → Bool) (call : Table × Str)
    → any f (if p then [] else if q then [] else call ∷ []) ≡ (not p && not q && f call)
call_unless true q f call = refl
call_unless false true f call = refl
call_unless false false f call = ground arith

hit : (x y : Bool) → (x && (true && y) || y && false) ≡ (y && x)
hit x y = ground arith

miss : (x y z : Bool) → (x && (false && y) || z) ≡ z
miss x y z = ground arith

any-add_to :
    (kind : ℕ) (s : Table) (flags : Flags) (a : Str) (t : Table) (ip : Str)
    → any (is_call t ip) (add_to kind s flags a)
      ≡ (takes (some flags) kind && (table_eq s t && str_eq a ip))
unfolding add_to
any-add_to kind s flags a t ip =
    call_unless (is_v4_only flags && not (kind == type_a))
      (is_v6_only flags && not (kind == type_aaaa)) (is_call t ip) (s, a)

any-add_to_tables :
    (kind : ℕ) (a : Option Str) (set : TableSet) (t : Table) (ip : Str)
    → IsSound set
    → any (is_call t ip) (add_to_tables kind a set) ≡ (gives a ip && takes (lookup set t) kind)
unfolding add_to_tables
any-add_to_tables kind none set t ip i = refl
any-add_to_tables kind (some a) [] t ip i = ground arith
any-add_to_tables kind (some a) ((s, flags) ∷ set) t ip (k, v, n, i) =
    rw
      (
        any-append (is_call t ip) (add_to kind s flags a) (add_to_tables kind (some a) set),
        any-add_to kind s flags a t ip,
        any-add_to_tables kind (some a) set t ip i,
      )
      (elim (Bool-cases (table_eq s t)) [
        | inl e ↦
            rw (e, sym (table_eq_sound s t e), n) (hit (takes (some flags) kind) (str_eq a ip))
        | inr e ↦ rw e (
            miss (takes (some flags) kind) (str_eq a ip) (str_eq a ip && takes (lookup set t) kind))
      ])

any-add_answers :
    (libs : PfLibs) (set : TableSet) (answer : List Record) (t : Table) (ip : Str)
    → IsSound set
    → any (is_call t ip) (add_answers libs set answer)
      ≡ any (λ rr. gives (address_of libs.parse_ip rr) ip && takes (lookup set t) rr.kind) answer
unfolding add_answers
any-add_answers libs set [] t ip i = refl
any-add_answers libs set (rr ∷ answer) t ip i =
    rw
      (
        any-append (is_call t ip) (add_to_tables rr.kind (address_of libs.parse_ip rr) set)
            (add_answers libs set answer),
        any-add_to_tables rr.kind (address_of libs.parse_ip rr) set t ip i,
        any-add_answers libs set answer t ip i,
      )
      refl

pub pf_add_ip-any :
    (libs : PfLibs) (handle : PfHandle) (rcode : ℕ) (answer : List Record) (t : Table) (ip : Str)
    → IsSound handle.set
    → any (is_call t ip) (pf_add_ip libs (some handle) rcode answer) ≡ (
        rcode == rcode_success
        && any
            (λ rr. gives (address_of libs.parse_ip rr) ip && takes (lookup handle.set t) rr.kind)
            answer)
unfolding pf_add_ip
pf_add_ip-any libs handle rcode answer t ip i = elim (Bool-cases (rcode == rcode_success)) [
  | inl e ↦ rw e (any-add_answers libs handle.set answer t ip i)
  | inr e ↦ rw e refl
]
