-- ===== src/Base/Bytes.antt =====
-- Go strings as lists of bytes, with the functions of package strings that the source calls.
use Prim.Native.Nat.{ℕ, suc, ◌+◌}
use Prim.Native.Char.{code}
use Prim.Native.String.{String}
use mathlib.Core.Path.{◌≡◌, refl}
use mathlib.Core.Logic.{inr, inl, ◌≢◌}
use mathlib.Core.Bool.{Bool, true, false, ◌&&◌}
use mathlib.Core.Option
use mathlib.Core.Option.{Option, none, some}
use mathlib.Core.List.{List, [], ◌∷◌, ◌++◌, map}
use native.Mathlib.Omega.{arith}
use dnsredir.Base.Tests.{Bool-cases, ltb, leb, ◌==◌, if◌then◌else◌}
use dnsredir.Base.Lists.{length, all, All}

abbrev pub Str : Type 0
Str = List ℕ

-- The bytes of an ASCII literal.
abbrev pub codes : String → Str
codes String.[] = []
codes (String.◌∷◌ c s) = code c ∷ codes s

-- s == t
abbrev pub str_eq : Str → Str → Bool
str_eq [] [] = true
str_eq [] (d ∷ t) = false
str_eq (c ∷ s) [] = false
str_eq (c ∷ s) (d ∷ t) = c == d && str_eq s t

pub str_eq_sound : (s t : Str) → str_eq s t ≡ true → s ≡ t
str_eq_sound [] [] h = refl
str_eq_sound [] (d ∷ t) h = ground arith
str_eq_sound (c ∷ s) [] h = ground arith
str_eq_sound (c ∷ s) (d ∷ t) h = ground (arith, str_eq_sound s t)

pub str_eq_refl : (s : Str) → str_eq s s ≡ true
str_eq_refl [] = refl
str_eq_refl (c ∷ s) = ground (arith, str_eq_refl s)

pub str_eq_ne : (s t : Str) → s ≢ t → str_eq s t ≡ false
str_eq_ne s t h = elim (Bool-cases (str_eq s t)) [
  | inl e ↦ absurd (h (str_eq_sound s t e))
  | inr e ↦ e
]

-- strings.IndexByte(s, b); `none` for -1. On one-byte patterns strings.Index is the same.
abbrev pub index_byte : ℕ → Str → Option ℕ
index_byte b [] = none
index_byte b (c ∷ s) = if c == b then some 0 else Option.map suc (index_byte b s)

-- strings.HasPrefix(s, p)
abbrev pub has_prefix : Str → Str → Bool
has_prefix s [] = true
has_prefix [] (d ∷ p) = false
has_prefix (c ∷ s) (d ∷ p) = c == d && has_prefix s p

-- strings.Index(s, p) for a longer pattern
abbrev pub index : Str → Str → Option ℕ
index [] p = if has_prefix [] p then some 0 else none
index (c ∷ s) p = if has_prefix (c ∷ s) p then some 0 else Option.map suc (index s p)

-- strings.Contains(s, p)
abbrev pub contains_str : Str → Str → Bool
contains_str s p = elim (index s p) [ none ↦ false | some i ↦ true ]

-- strings.Split(s, sep) at a one-byte separator: always at least one part.
abbrev pub cons_head : ℕ → List Str → List Str
cons_head c [] = (c ∷ []) ∷ []
cons_head c (p ∷ ps) = (c ∷ p) ∷ ps

unfoldable pub split : ℕ → Str → List Str
split sep [] = [] ∷ []
split sep (c ∷ s) = if c == sep then [] ∷ split sep s else cons_head c (split sep s)

-- The byte is not in the text.
abbrev pub Lacks : ℕ → Str → Type 0
Lacks b = All (λ c. c ≢ b)

pub index_byte-Lacks : (b : ℕ) (s : Str) → Lacks b s → index_byte b s ≡ none
index_byte-Lacks b [] h = refl
index_byte-Lacks b (c ∷ s) h = ground (arith, index_byte-Lacks b s)

pub index_byte-append :
    (b : ℕ) (s t : Str) → Lacks b s → index_byte b (s ++ b ∷ t) ≡ some (length s)
index_byte-append b [] t h = ground arith
index_byte-append b (c ∷ s) t h = ground (arith, index_byte-append b s t)

-- strings.ToLower: bytewise on an ASCII text. On any other text it maps runes by Unicode's
-- tables, which are the parameter `unicode_lower`.
abbrev pub lower_byte : ℕ → ℕ
lower_byte c = if leb b'A' c && leb c b'Z' then c + 32 else c

abbrev pub is_ascii : Str → Bool
is_ascii = all (λ c. ltb c 128)

unfoldable pub to_lower : (Str → Str) → Str → Str
to_lower unicode_lower s = if is_ascii s then map lower_byte s else unicode_lower s

pub split-Lacks : (sep : ℕ) (l : Str) → Lacks sep l → split sep l ≡ l ∷ []
unfolding split
split-Lacks sep [] h = refl
split-Lacks sep (c ∷ l) h = ground (arith, split-Lacks sep l)

pub split-append : (sep : ℕ) (l s : Str) → Lacks sep l → split sep (l ++ sep ∷ s) ≡ l ∷ split sep s
unfolding split
split-append sep [] s h = ground arith
split-append sep (c ∷ l) s h = ground (arith, split-append sep l s)

cons_head-Lacks :
    (b c : ℕ) (ps : List Str) → c ≢ b → All (Lacks b) ps → All (Lacks b) (cons_head c ps)
cons_head-Lacks b c [] h hs = ((h, tt), tt)
cons_head-Lacks b c (p ∷ ps) h hs = ((h, hs.0), hs.1)

-- The parts of a text lack what the text lacks.
pub split-All_Lacks : (sep b : ℕ) (s : Str) → Lacks b s → All (Lacks b) (split sep s)
unfolding split
split-All_Lacks sep b [] h = (tt, tt)
split-All_Lacks sep b (c ∷ s) (h, hs) =
    let ih = split-All_Lacks sep b s hs in
    elim (Bool-cases (c == sep)) [
      | inl e ↦ rw e (tt, ih)
      | inr e ↦ rw e (cons_head-Lacks b c (split sep s) h ih)
    ]
