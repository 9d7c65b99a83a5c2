-- ===== src/Domain.antt =====
-- Domain names as utils.go reads them: isDomainName, removeTrailingDot, stringToDomain and
-- SplitByByte. A text is a list of bytes. The source walks a segment by runes; a byte from 128 on
-- starts or continues a rune that is no letter, digit or hyphen, so the walk by bytes gives the
-- same answer.
pub mod Labels
pub mod Valid
use dnsredir.Base.{
  ℕ, zero, suc, ◌-◌, Bool, true, false, not, ◌&&◌, ◌||◌, Option, none, some, List, [], ◌∷◌, ltb,
  ◌==◌, if◌then◌else◌, length, get_elem?, take, drop, any, Str, split, index_byte, to_lower,
}

-- s[i] == b, for an index in range.
abbrev pub byte_is : Str → ℕ → ℕ → Bool
byte_is s i b = elim (get_elem? s i) [ none ↦ false | some c ↦ c == b ]

-- The test in the inner loop: the byte is no hyphen, no digit and no lower case letter.
abbrev pub bad_byte : ℕ → Bool
bad_byte c = not (c == b'-') && (ltb c b'0' || ltb b'9' c) && (ltb c b'a' || ltb b'z' c)

-- The loop over the segments; a segment that fails a test returns at once.
segments : List Str → Bool
segments [] = true
segments (seg ∷ f) =
    let n = length seg in
    let rest = segments f in
    if n == 0 || ltb 63 n
    then false
    else if any bad_byte seg
    then false
    else if byte_is seg 0 b'-' || byte_is seg (n - 1) b'-'
    then false
    else rest

unfoldable pub is_domain_name : Str → Bool
unfolding segments split
is_domain_name s = let f = split b'.' s in if length f == 0 then false else segments f

unfoldable pub remove_trailing_dot : Str → Str
remove_trailing_dot s =
    let n = length s in if ltb 0 n && byte_is s (n - 1) b'.' then take (n - 1) s else s

-- `("", false)` is `none`. The parameter is Unicode's part of strings.ToLower.
unfoldable pub string_to_domain : (Str → Str) → Str → Option Str
unfolding remove_trailing_dot to_lower is_domain_name
string_to_domain unicode_lower s =
    let t = remove_trailing_dot (to_lower unicode_lower s) in
    if is_domain_name t then some t else none

-- The text up to the first byte `c`, and the rest from that byte on.
unfoldable pub split_by_byte : Str → ℕ → Str × Str
split_by_byte s c = elim (index_byte c s) [ some i ↦ (take i s, drop i s) | none ↦ (s, []) ]
