-- ===== src/Route/Walk.antt =====
-- What GetDefaultRoute reads from messages as the kernel writes them, whatever their attributes are.
use dnsredir.Base.{
  ℕ, zero, suc, ◌+◌, ◌-◌, ◌*◌, ◌/◌, ◌%◌, ◌<◌, false, some, List, [], ◌∷◌, ◌++◌, length, drop, All,
  ltb, Str, ◌≡◌, ◌≢◌, ◌⊎◌, inl, inr, refl, sym, ap, ◌∙◌, arith, length-append, take-length_append,
  drop-length_append, append_assoc,
}
use dnsredir.Base.Result.{ok, ◌>>=◌}
use dnsredir.Route.{
  advance, nlmsg_align, Info, u32_of, read_data, Interfaces, read_oif, read_gateway, read_attribute,
  walk,
}

-- An attribute that has a meaning for the plugin, or another one of a known type.
pub data Attr : Type 0 where
  oif : Str → ℕ → Str → Attr
  gateway : Str → Attr
  unused : ℕ → Str → Attr

abbrev pub kind_of : Attr → ℕ
kind_of (oif bits index name) = 4
kind_of (gateway address) = 5
kind_of (unused kind value) = kind

abbrev pub value_of : Attr → Str
value_of (oif bits index name) = bits
value_of (gateway address) = address
value_of (unused kind value) = value

-- The bits are the index of a device; an address has four bytes or sixteen; a value fits its length.
abbrev pub IsAttr : Interfaces → Attr → Type 0
IsAttr devices (oif bits index name) =
    (length bits ≡ 4) × (devices (u32_of bits) ≡ some (index, name))
IsAttr devices (gateway address) = (length address ≡ 4) ⊎ (length address ≡ 16)
IsAttr devices (unused kind value) = (kind < 31) × (kind ≢ 4) × (kind ≢ 5) × (length value < 65532)

abbrev pub apply_attr : Attr → Info → Info
apply_attr (oif bits index name) info = record info { if_index = index; if_name = name }
apply_attr (gateway address) info = record info { gateway = some address }
apply_attr (unused kind value) info = info

abbrev pub apply_all : List Attr → Info → Info
apply_all [] info = info
apply_all (a ∷ attrs) info = apply_all attrs (apply_attr a info)

abbrev pub zeros : ℕ → Str
zeros zero = []
zeros (suc n) = 0 ∷ zeros n

length-zeros : (n : ℕ) → length (zeros n) ≡ n
length-zeros zero = refl
length-zeros (suc n) = ap suc (length-zeros n)

-- The kernel's layout: the length, the type, the value and zeros up to a multiple of four.
abbrev pub padding : ℕ → ℕ
padding n = (3 - (n + 3) % 4)

abbrev pub body_of : Attr → Str
body_of a = value_of a ++ zeros (padding (4 + length (value_of a)))

-- One attribute in front of the others.
unfoldable pub put_attr : Attr → Str → Str
put_attr a rest =
    let n = 4 + length (value_of a) in
    n % 256 ∷ n / 256 ∷ kind_of a % 256 ∷ kind_of a / 256 ∷ (body_of a ++ rest)

abbrev pub encode : List Attr → Str
encode [] = []
encode (a ∷ attrs) = put_attr a (encode attrs)

align_lem : (n : ℕ) → nlmsg_align (4 + n) - 4 ≡ n + padding (4 + n)
unfolding nlmsg_align
align_lem n = omega arith

read_data-append : (xs ys : Str) (n : ℕ) → length xs ≡ n → read_data n (xs ++ ys) ≡ ok xs
unfolding read_data
read_data-append xs ys n e =
    rw (sym e, length-append xs ys, take-length_append xs ys) (ground arith)

-- The value is read where it stands.
read_attribute-encoded :
    (devices : Interfaces) (a : Attr) (behind : Str) (info : Info)
    → IsAttr devices a
    → read_attribute devices (4 + length (value_of a)) (kind_of a) (value_of a ++ behind) info
      ≡ ok (apply_attr a info)
unfolding read_attribute read_oif read_gateway
read_attribute-encoded devices (oif bits index name) behind info (l, d) =
    rw (l, read_data-append bits behind 4 l, ◌>>=◌, d) refl
read_attribute-encoded devices (gateway address) behind info (inl l) =
    rw (l, read_data-append address behind 4 l, ◌>>=◌) refl
read_attribute-encoded devices (gateway address) behind info (inr l) =
    rw (l, read_data-append address behind 16 l, ◌>>=◌) refl
read_attribute-encoded devices (unused kind value) behind info (k, k4, k5, l) = ground arith

length-body_of : (a : Attr) → length (body_of a) ≡ nlmsg_align (4 + length (value_of a)) - 4
length-body_of a = rw (align_lem (length (value_of a)), length-append, length-zeros) refl

two_bytes : (n : ℕ) → n % 256 + 256 * (n / 256) ≡ n
two_bytes n = omega arith

pub drop-append : (xs ys : Str) (n : ℕ) → length xs ≡ n → drop n (xs ++ ys) ≡ ys
drop-append xs ys n e = rw (sym e) (drop-length_append xs ys)

ltb-append : (xs ys : Str) (n : ℕ) → length xs ≡ n → ltb (length (xs ++ ys)) n ≡ false
ltb-append xs ys n e = rw (sym e, length-append xs ys) (ground arith)

read_attribute-body :
    (devices : Interfaces) (a : Attr) (rest : Str) (info : Info)
    → IsAttr devices a
    → read_attribute devices (4 + length (value_of a)) (kind_of a) (body_of a ++ rest) info
      ≡ ok (apply_attr a info)
read_attribute-body devices a rest info k =
    rw (append_assoc (value_of a) (zeros (padding (4 + length (value_of a)))) rest)
      (read_attribute-encoded devices a (zeros (padding (4 + length (value_of a))) ++ rest) info k)

advance-body :
    (a : Attr) (rest : Str) → advance (4 + length (value_of a)) (body_of a ++ rest) ≡ some rest
unfolding advance
advance-body a rest =
    rw
      (
        ltb-append (body_of a) rest _ (length-body_of a),
        drop-append (body_of a) rest _ (length-body_of a),
      )
      refl

-- One round of the loop takes one attribute.
walk-put_attr :
    (fuel : ℕ) (devices : Interfaces) (a : Attr) (rest : Str) (info : Info)
    → IsAttr devices a
    → walk (suc fuel) devices (put_attr a rest) info ≡ walk fuel devices rest (apply_attr a info)
unfolding walk put_attr
walk-put_attr fuel devices a rest info k =
    rw
      (
        two_bytes (4 + length (value_of a)),
        two_bytes (kind_of a),
        read_attribute-body devices a rest info k,
        ◌>>=◌,
        advance-body a rest,
      )
      refl

length-put_attr : (a : Attr) (rest : Str) → length rest < length (put_attr a rest)
unfolding put_attr
length-put_attr a rest = rw (length-append (body_of a) rest) (omega arith)

-- From attributes as the kernel lays them out, each with an index of a known device, an address of four
-- or sixteen bytes, or a known type that is not read, the loop takes what they say, one after the
-- other, on any fuel above the number of their bytes.
pub walk-encode :
    (fuel : ℕ) (devices : Interfaces) (attrs : List Attr) (info : Info)
    → All (IsAttr devices) attrs
    → length (encode attrs) < fuel
    → walk fuel devices (encode attrs) info ≡ ok (apply_all attrs info)
unfolding walk
walk-encode zero devices attrs info k h = absurd (omega arith)
walk-encode (suc fuel) devices [] info k h = refl
walk-encode (suc fuel) devices (a ∷ attrs) info (k, ks) h =
    walk-put_attr fuel devices a (encode attrs) info k
    ∙ walk-encode fuel devices attrs (apply_attr a info) ks
        (omega (arith, length-put_attr a (encode attrs)))
