-- ===== src/Pf/Tables.antt =====
-- The set of tables that the `pf` lines of a block build up.
use dnsredir.Base.{
  ◌<◌, Bool, true, false, not, ◌||◌, Option, none, some, List, [], ◌∷◌, ◌≡◌, refl, sym, ap, ◌∙◌,
  arith, any, length, Bool-cases, inl, inr, str_eq_sound, if◌then◌else◌, ◌==◌, leb, Str,
}
use mathlib.Core.Path.{subst}
use dnsredir.Base.Result.{ok-injective, ok_of_bind, ok, err, err_if}
use dnsredir.Pf.{
  flag_loop, is_option_first, Flags, Table, table_eq, TableSet, lookup, Added, added, exists,
  refused, add_new, table_set_add, split_name_anchor, is_valid, parse_flags, add_tables, PfHandle,
  handle_of, pf_parse, max_table_name_size, max_anchor_name_size,
}

-- A name that is not too long and not empty, and an anchor that is not too long.
abbrev pub IsTable : Table → Type 0
IsTable t = (0 < length t.name) × (length t.name < 32) × (length t.anchor < 1024)

-- Good names, valid flags, and no table twice.
abbrev pub IsSound : TableSet → Type 0
IsSound [] = Unit
IsSound ((t, flags) ∷ set) =
    IsTable t × (is_valid flags ≡ true) × (lookup set t ≡ none) × IsSound set

pub table_eq_sound : (s t : Table) → table_eq s t ≡ true → s ≡ t
table_eq_sound s t e = ground (arith, str_eq_sound s.name t.name, str_eq_sound s.anchor t.anchor)

-- What each answer of Add says.
abbrev Means : TableSet → Table → Flags → Added → Type 0
Means set t flags (added set') = (lookup set t ≡ none) × (set' ≡ (t, flags) ∷ set) × IsTable t
Means set t flags exists = (v : Flags) × (lookup set t ≡ some v)
Means set t flags refused = Unit

add_new-Means :
    (set : TableSet) (t : Table) (flags : Flags) (o : Option Flags)
    → lookup set t ≡ o
    → IsTable t
    → Means set t flags (add_new set t flags o)
add_new-Means set t flags none e k = (e, refl, k)
add_new-Means set t flags (some v) e k = (v, e)

table_set_add-Means :
    (set : TableSet) (t : Table) (flags : Flags) → Means set t flags (table_set_add set t flags)
unfolding table_set_add
table_set_add-Means set t flags = elim (Bool-cases (length t.name == 0)) [
  | inl e ↦ rw e tt
  | inr e1 ↦ elim (Bool-cases (leb max_table_name_size (length t.name))) [
    | inl e ↦ rw (e1, e) tt
    | inr e2 ↦ elim (Bool-cases (leb max_anchor_name_size (length t.anchor))) [
      | inl e ↦ rw (e1, e2, e) tt
      | inr e3 ↦ rw (e1, e2, e3) (add_new-Means set t flags (lookup set t) refl (ground arith))
    ]
  ]
]

abbrev pub or_else : Option Flags → Option Flags → Option Flags
or_else none b = b
or_else (some v) b = some v

abbrev pub given : List Str → Flags → Table → Option Flags
given args flags t =
    if any (λ arg. table_eq (split_name_anchor arg) t) args then some flags else none

-- A table that is there with the same text.
lookup_same : (set : TableSet) (s t : Table) → table_eq s t ≡ true → lookup set s ≡ lookup set t
lookup_same set s t e = ap (lookup set) (table_eq_sound s t e)

or_else_new :
    (set : TableSet) (s t : Table) (flags : Flags) (b : Bool)
    → lookup set s ≡ none
    → or_else (if table_eq s t then some flags else lookup set t) (if b then some flags else none)
      ≡ or_else (lookup set t) (if table_eq s t || b then some flags else none)
or_else_new set s t flags b n = elim (Bool-cases (table_eq s t)) [
  | inl e ↦ rw (e, sym (lookup_same set s t e), n) refl
  | inr e ↦ rw e refl
]

or_else_old :
    (set : TableSet) (s t : Table) (flags v : Flags) (b : Bool)
    → lookup set s ≡ some v
    → or_else (lookup set t) (if b then some flags else none)
      ≡ or_else (lookup set t) (if table_eq s t || b then some flags else none)
or_else_old set s t flags v b n = elim (Bool-cases (table_eq s t)) [
  | inl e ↦ rw (e, sym (lookup_same set s t e), n) refl
  | inr e ↦ rw e refl
]

-- One argument, by what Add answers.
lookup-after :
    (flags : Flags) (set set' : TableSet) (s t : Table) (args : List Str) (r : Added)
    → Means set s flags r
    → ((set1 : TableSet)
        → add_tables flags set1 args ≡ ok set'
        → lookup set' t ≡ or_else (lookup set1 t) (given args flags t))
    → elim r [
      | added set1 ↦ add_tables flags set1 args
      | exists ↦ add_tables flags set args
      | refused ↦ err
    ]
      ≡ ok set'
    → lookup set' t
      ≡ or_else (lookup set t) (
          if table_eq s t || any (λ arg. table_eq (split_name_anchor arg) t) args
          then some flags
          else none)
lookup-after flags set set' s t args (added set1) (n, e, k) ih h =
    ih set1 h
    ∙ ap (λ x. or_else (lookup x t) (given args flags t)) e
    ∙ or_else_new set s t flags (any (λ arg. table_eq (split_name_anchor arg) t) args) n
lookup-after flags set set' s t args exists (v, n) ih h =
    ih set h ∙ or_else_old set s t flags v (any (λ arg. table_eq (split_name_anchor arg) t) args) n
lookup-after flags set set' s t args refused m ih h = ground arith

or_else-none : (o : Option Flags) → o ≡ or_else o none
or_else-none none = refl
or_else-none (some v) = refl

-- Every table of the arguments is there behind them, and one that was there before keeps its flags.
lookup-add_tables :
    (flags : Flags) (args : List Str) (set set' : TableSet) (t : Table)
    → add_tables flags set args ≡ ok set'
    → lookup set' t ≡ or_else (lookup set t) (given args flags t)
unfolding add_tables
lookup-add_tables flags [] set set' t h =
    ap (λ x. lookup x t) (sym (ok-injective h)) ∙ or_else-none (lookup set t)
lookup-add_tables flags (arg ∷ args) set set' t h =
    lookup-after flags set set' (split_name_anchor arg) t args
      (table_set_add set (split_name_anchor arg) flags)
      (table_set_add-Means set (split_name_anchor arg) flags)
      (λ set1. lookup-add_tables flags args set1 set' t) h

-- One argument keeps the set sound.
IsSound-after :
    (flags : Flags) (set set' : TableSet) (s : Table) (args : List Str) (r : Added)
    → Means set s flags r
    → is_valid flags ≡ true
    → IsSound set
    → ((set1 : TableSet) → IsSound set1 → add_tables flags set1 args ≡ ok set' → IsSound set')
    → elim r [
      | added set1 ↦ add_tables flags set1 args
      | exists ↦ add_tables flags set args
      | refused ↦ err
    ]
      ≡ ok set'
    → IsSound set'
IsSound-after flags set set' s args (added set1) (n, e, k) v i ih h =
    ih set1 (subst IsSound (sym e) (k, v, n, i)) h
IsSound-after flags set set' s args exists m v i ih h = ih set i h
IsSound-after flags set set' s args refused m v i ih h = ground arith

add_tables-IsSound :
    (flags : Flags) (args : List Str) (set set' : TableSet)
    → is_valid flags ≡ true
    → IsSound set
    → add_tables flags set args ≡ ok set'
    → IsSound set'
unfolding add_tables
add_tables-IsSound flags [] set set' v i h = subst IsSound (ok-injective h) i
add_tables-IsSound flags (arg ∷ args) set set' v i h =
    IsSound-after flags set set' (split_name_anchor arg) args
      (table_set_add set (split_name_anchor arg) flags)
      (table_set_add-Means set (split_name_anchor arg) flags) v i
      (λ set1 i1 h1. add_tables-IsSound flags args set1 set' v i1 h1) h

-- The set that pfParse leaves is what its two steps make of the arguments.
pf_parse-steps :
    (handle : Option PfHandle) (arg : Str) (args : List Str) (handle' : PfHandle)
    → pf_parse handle (arg ∷ args) ≡ ok handle'
    → (p : Flags × List Str) × (parse_flags (arg ∷ args) ≡ ok p)
      × (add_tables p.0 (handle_of handle).set p.1 ≡ ok handle'.set)
unfolding pf_parse
pf_parse-steps handle arg args handle' h =
    let (p, e, h1) = ok_of_bind (parse_flags (arg ∷ args)) _ handle' h in
    let (set, e2, h2) = ok_of_bind (add_tables p.0 (handle_of handle).set p.1) _ handle' h1 in
    (p, e, e2 ∙ ap (λ x. ok (PfHandle.set x)) (ok-injective h2))

-- A `pf' line that is accepted names tables behind its options, and afterwards each of them is in the
-- set; a table that was in the set before keeps the flags that it had, and a new one has the line's.
pub pf_parse_first_wins :
    (handle : Option PfHandle) (arg : Str) (args : List Str) (handle' : PfHandle)
    → pf_parse handle (arg ∷ args) ≡ ok handle'
    → (flags : Flags) × (rest : List Str) × (parse_flags (arg ∷ args) ≡ ok (flags, rest))
      × ((t : Table)
          → lookup handle'.set t ≡ or_else (lookup (handle_of handle).set t) (given rest flags t))
pf_parse_first_wins handle arg args handle' h =
    let ((flags, rest), e, a) = pf_parse-steps handle arg args handle' h in
    (flags, rest, e, λ t. lookup-add_tables flags rest (handle_of handle).set handle'.set t a)

parse_flags-is_valid :
    (args rest : List Str) (flags : Flags)
    → parse_flags args ≡ ok (flags, rest)
    → is_valid flags ≡ true
unfolding parse_flags
parse_flags-is_valid args rest flags h =
    let (p, e, h1) = ok_of_bind (flag_loop 0 [] args) _ (flags, rest) h in
    let (u, e2, h2) = ok_of_bind (err_if (is_option_first p.1)) _ (flags, rest) h1 in
    let (v, e3, h3) = ok_of_bind (err_if (not (is_valid p.0))) _ (flags, rest) h2 in
    subst (λ f. is_valid f ≡ true) (ap (λ q. q.0) (ok-injective h3)) (accepted (is_valid p.0) v e3)
  where
    accepted : (b : Bool) (v : Unit {0}) → err_if (not b) ≡ ok v → b ≡ true
    accepted true v e = refl
    accepted false v e = ground arith

-- A `pf' line that is accepted keeps the set sound: each table's name is not empty and shorter than 32
-- bytes, its anchor shorter than 1024, its flags valid, and no table is there twice.
pub pf_parse-IsSound :
    (handle : Option PfHandle) (arg : Str) (args : List Str) (handle' : PfHandle)
    → IsSound (handle_of handle).set
    → pf_parse handle (arg ∷ args) ≡ ok handle'
    → IsSound handle'.set
pf_parse-IsSound handle arg args handle' i h =
    let ((flags, rest), e, a) = pf_parse-steps handle arg args handle' h in
    add_tables-IsSound flags rest (handle_of handle).set handle'.set
      (parse_flags-is_valid (arg ∷ args) rest flags e) i a
