-- ===== src/Pf/Options.antt =====
-- parseFlags of pf_darwin.go against a reading of the arguments as options in front of names.
use dnsredir.Base.{
  Bool, true, false, not, ◌&&◌, ◌||◌, List, [], ◌∷◌, ◌≡◌, refl, arith, any, all, Bool-cases, inl,
  inr, str_eq_sound, if◌then◌else◌, Str, codes, str_eq,
}
use dnsredir.Base.Result.{Result, ok, err, ◌>>=◌, ◌>>◌, err_if}
use dnsredir.Pf.{
  Flags, is_valid, turn_on, turn_on_create_if_not_exist, turn_on_v4_only, turn_on_v6_only,
  is_option, flag_loop, is_option_first, parse_flags,
}

-- The word of the three flags.
abbrev pub word_of : Bool → Bool → Bool → Flags
word_of true true true = 7
word_of true true false = 3
word_of true false true = 5
word_of true false false = 1
word_of false true true = 6
word_of false true false = 2
word_of false false true = 4
word_of false false false = 0

abbrev pub is_known : Str → Bool
is_known arg =
    str_eq arg (codes "+create") || (str_eq arg (codes "+v4_only") || str_eq arg (codes "+v6_only"))

abbrev pub options_of : List Str → List Str
options_of [] = []
options_of (arg ∷ args) = if is_option arg then arg ∷ options_of args else []

abbrev pub names_of : List Str → List Str
names_of [] = []
names_of (arg ∷ args) = if is_option arg then names_of args else arg ∷ args

abbrev pub has : Str → List Str → Bool
has option = any (λ arg. str_eq arg option)

abbrev pub accepts : List Str → Bool
accepts options =
    all is_known options && not (has (codes "+v4_only") options && has (codes "+v6_only") options)

abbrev pub word_of_all : List Str → Flags
word_of_all options =
    word_of (has (codes "+create") options) (has (codes "+v4_only") options)
      (has (codes "+v6_only") options)

abbrev pub is_empty : List Str → Bool
is_empty [] = true
is_empty (name ∷ names) = false

-- Known options, not both families, in front of at least one name.
abbrev pub read_options : List Str → List Str → Result (Flags × List Str)
read_options options [] = err
read_options options (name ∷ names) =
    if accepts options then ok (word_of_all options, name ∷ names) else err

turn_on_create :
    (c v4 v6 : Bool) → turn_on_create_if_not_exist (word_of c v4 v6) ≡ word_of true v4 v6
unfolding turn_on_create_if_not_exist
turn_on_create true true true = refl
turn_on_create true true false = refl
turn_on_create true false true = refl
turn_on_create true false false = refl
turn_on_create false true true = refl
turn_on_create false true false = refl
turn_on_create false false true = refl
turn_on_create false false false = refl

turn_on_v4 : (c v4 v6 : Bool) → turn_on_v4_only (word_of c v4 v6) ≡ word_of c true v6
unfolding turn_on_v4_only
turn_on_v4 true true true = refl
turn_on_v4 true true false = refl
turn_on_v4 true false true = refl
turn_on_v4 true false false = refl
turn_on_v4 false true true = refl
turn_on_v4 false true false = refl
turn_on_v4 false false true = refl
turn_on_v4 false false false = refl

turn_on_v6 : (c v4 v6 : Bool) → turn_on_v6_only (word_of c v4 v6) ≡ word_of c v4 true
unfolding turn_on_v6_only
turn_on_v6 true true true = refl
turn_on_v6 true true false = refl
turn_on_v6 true false true = refl
turn_on_v6 true false false = refl
turn_on_v6 false true true = refl
turn_on_v6 false true false = refl
turn_on_v6 false false true = refl
turn_on_v6 false false false = refl

is_valid-word_of : (c v4 v6 : Bool) → is_valid (word_of c v4 v6) ≡ not (v4 && v6)
unfolding is_valid
is_valid-word_of true true true = refl
is_valid-word_of true true false = refl
is_valid-word_of true false true = refl
is_valid-word_of true false false = refl
is_valid-word_of false true true = refl
is_valid-word_of false true false = refl
is_valid-word_of false false true = refl
is_valid-word_of false false false = refl

-- The loop's flags behind the options that it read.
abbrev pub raised : Bool → Bool → Bool → List Str → Flags
raised c v4 v6 options =
    word_of (c || has (codes "+create") options) (v4 || has (codes "+v4_only") options)
      (v6 || has (codes "+v6_only") options)

abbrev pub ends : List Str → List Str → List Str
ends last [] = last
ends last (arg ∷ args) = if is_option arg then ends (arg ∷ args) args else arg ∷ args

or_false : (b : Bool) → (b || false) ≡ b
or_false true = refl
or_false false = refl

or_true : (b : Bool) → (b || true) ≡ true
or_true true = refl
or_true false = refl

flag_loop_lem :
    (c v4 v6 : Bool) (last args : List Str)
    → flag_loop (word_of c v4 v6) last args ≡ (
        if all is_known (options_of args)
        then ok (raised c v4 v6 (options_of args), ends last args)
        else err)
unfolding flag_loop turn_on
flag_loop_lem c v4 v6 last [] = rw (or_false c, or_false v4, or_false v6) refl
flag_loop_lem c v4 v6 last (arg ∷ args) = elim (Bool-cases (str_eq arg (codes "+create"))) [
  | inl e ↦
      rw
        (
          str_eq_sound arg _ e,
          turn_on_create c v4 v6,
          flag_loop_lem true v4 v6 (codes "+create" ∷ args) args,
          or_true c,
        )
        refl
  | inr e1 ↦ elim (Bool-cases (str_eq arg (codes "+v4_only"))) [
    | inl e ↦
        rw
          (
            str_eq_sound arg _ e,
            turn_on_v4 c v4 v6,
            flag_loop_lem c true v6 (codes "+v4_only" ∷ args) args,
            or_true v4,
          )
          refl
    | inr e2 ↦ elim (Bool-cases (str_eq arg (codes "+v6_only"))) [
      | inl e ↦
          rw
            (
              str_eq_sound arg _ e,
              turn_on_v6 c v4 v6,
              flag_loop_lem c v4 true (codes "+v6_only" ∷ args) args,
              or_true v6,
            )
            refl
      | inr e3 ↦ elim (Bool-cases (is_option arg)) [
        | inl o ↦ rw (o, e1, e2, e3) refl
        | inr o ↦ rw (o, or_false c, or_false v4, or_false v6) refl
      ]
    ]
  ]
]

-- Where the loop ends: at the names, or at an option when there are none.
ends-names_of :
    (last args : List Str)
    → is_option_first last ≡ true
    → is_option_first (ends last args) ≡ is_empty (names_of args)
ends-names_of last [] h = h
ends-names_of last (arg ∷ args) h = elim (Bool-cases (is_option arg)) [
  | inl o ↦ rw o (ends-names_of (arg ∷ args) args o)
  | inr o ↦ rw o o
]

same_ends :
    (last args : List Str) → is_empty (names_of args) ≡ false → ends last args ≡ names_of args
same_ends last [] h = absurd (ground arith)
same_ends last (arg ∷ args) h = elim (Bool-cases (is_option arg)) [
  | inl o ↦ rw o (same_ends (arg ∷ args) args (rw o at h))
  | inr o ↦ rw o refl
]

-- The checks behind the loop.
abbrev checked : Flags × List Str → Result (Flags × List Str)
checked (flags, rest) =
    err_if (is_option_first rest) >> (err_if (not (is_valid flags)) >> ok (flags, rest))

not_both :
    (both : Bool) (r : Flags × List Str)
    → (err_if (not (not both)) >> ok r) ≡ (if true && not both then ok r else err)
not_both true r = refl
not_both false r = refl

checked-read_options :
    (options names rest : List Str)
    → is_option_first rest ≡ is_empty names
    → (is_empty names ≡ false → rest ≡ names)
    → ((if all is_known options then ok (word_of_all options, rest) else err) >>= checked)
      ≡ read_options options names
checked-read_options options [] rest h k = elim (Bool-cases (all is_known options)) [
  | inl a ↦ rw (a, h) refl
  | inr a ↦ rw a refl
]
checked-read_options options (name ∷ names) rest h k = elim (Bool-cases (all is_known options)) [
  | inl a ↦
      rw
        (
          a,
          h,
          k refl,
          is_valid-word_of (has (codes "+create") options) (has (codes "+v4_only") options)
              (has (codes "+v6_only") options),
        )
        (not_both (has (codes "+v4_only") options && has (codes "+v6_only") options)
          (word_of_all options, name ∷ names))
  | inr a ↦ rw a refl
]

-- parseFlags reads one argument or more as options in front of names: it accepts exactly known options,
-- without `+v4_only' and `+v6_only' together, in front of at least one name, and gives the flags of the
-- options, whatever their order and repetitions, with the names.
pub parse_flags_lem :
    (arg : Str) (args : List Str)
    → parse_flags (arg ∷ args) ≡ read_options (options_of (arg ∷ args)) (names_of (arg ∷ args))
unfolding parse_flags
parse_flags_lem arg args = rw (flag_loop_lem false false false [] (arg ∷ args)) (
    checked-read_options (options_of (arg ∷ args)) (names_of (arg ∷ args)) (ends [] (arg ∷ args))
      (elim (Bool-cases (is_option arg)) [
        | inl o ↦ rw o (ends-names_of (arg ∷ args) args o)
        | inr o ↦ rw o o
      ])
      (same_ends [] (arg ∷ args)))
