-- ===== src/Route/Default.antt =====
-- GetDefaultRoute on a whole answer of the kernel, against the entries that the answer describes.
use dnsredir.Base.{
  ℕ, suc, ◌+◌, Bool, true, false, ◌&&◌, ◌||◌, Option, none, some, List, [], ◌∷◌, ◌++◌, length, All,
  if◌then◌else◌, ltb, ◌==◌, Str, ◌≡◌, refl, arith, length-append, map,
}
use dnsredir.Base.Result.{Result, ok, ◌>>=◌}
use dnsredir.Route.{
  Message, Info, clear, is_valid, af_inet, af_inet6, rt_table_main, Interfaces, read_attributes,
  read_table, read_message, get_default_route,
}
use dnsredir.Route.Walk.{Attr, IsAttr, apply_all, encode, walk-encode, drop-append}

-- A route of the kernel. `others` are the seven bytes behind the table: protocol, scope, type and flags.
pub record Entry : Type 0 where
  pub family : ℕ
  pub dst_length : ℕ
  pub src_length : ℕ
  pub tos : ℕ
  pub table : ℕ
  pub others : Str
  pub attrs : List Attr

abbrev pub IsEntry : Interfaces → Entry → Type 0
IsEntry devices e = (length e.others ≡ 7) × All (IsAttr devices) e.attrs

abbrev pub message_of : Entry → Message
message_of e = record {
  header_length = 28 + length (encode e.attrs);
  payload = e.family ∷ e.dst_length ∷ e.src_length ∷ e.tos ∷ e.table ∷ (e.others ++ encode e.attrs);
}

-- What an entry says, when it is one of the main table with a gateway and a device.
abbrev pub said_by : Bool → Info → Option Info
said_by true info = if is_valid info then some info else none
said_by false info = none

abbrev pub is_wanted : Entry → Bool
is_wanted e = (e.family == af_inet || e.family == af_inet6) && e.table == rt_table_main

abbrev pub first_of : List Entry → Option Info
first_of [] = none
first_of (e ∷ es) = elim (said_by (is_wanted e) (apply_all e.attrs clear)) [
  | some info ↦ some info
  | none ↦ first_of es
]

length-payload :
    (devices : Interfaces) (e : Entry)
    → IsEntry devices e
    → length (Message.payload (message_of e)) ≡ 12 + length (encode e.attrs)
length-payload devices e (l, k) = rw (length-append e.others (encode e.attrs), l) (omega arith)

no_shorter : (n k : ℕ) → ltb (n + k) n ≡ false
no_shorter n k = ground arith

read_attributes-message_of :
    (devices : Interfaces) (e : Entry)
    → IsEntry devices e
    → read_attributes devices (Message.payload (message_of e))
      ≡ ok (said_by true (apply_all e.attrs clear))
unfolding read_attributes
read_attributes-message_of devices e (l, k) =
    rw
      (
        length-payload devices e (l, k),
        no_shorter 12 (length (encode e.attrs)),
        drop-append e.others (encode e.attrs) 7 l,
        walk-encode (suc (length (Message.payload (message_of e)))) devices e.attrs clear k
            (omega (arith, length-payload devices e (l, k))),
        ◌>>=◌,
      )
      refl

header_length-payload :
    (devices : Interfaces) (e : Entry)
    → IsEntry devices e
    → (Message.header_length (message_of e) == 16 + length (Message.payload (message_of e))) ≡ true
header_length-payload devices e k = rw (length-payload devices e k) (ground arith)

by_table :
    (r : Result (Option Info)) (info : Info) (b c : Bool)
    → r ≡ ok (said_by true info)
    → (if b then (if c then r else ok none) else ok none) ≡ ok (said_by (b && c) info)
by_table r info true true h = h
by_table r info true false h = refl
by_table r info false c h = refl

read_message-message_of :
    (devices : Interfaces) (e : Entry)
    → IsEntry devices e
    → read_message devices (message_of e) ≡ ok (said_by (is_wanted e) (apply_all e.attrs clear))
unfolding read_message read_table
read_message-message_of devices e k = rw (header_length-payload devices e k) (
    by_table (read_attributes devices (Message.payload (message_of e))) (apply_all e.attrs clear)
      (e.family == af_inet || e.family == af_inet6) (e.table == rt_table_main)
      (read_attributes-message_of devices e k))

or_next :
    (devices : Interfaces) (es : List Entry) (found : Option Info)
    → get_default_route devices (map message_of es) ≡ ok (first_of es)
    → elim found [
      | some info ↦ ok (some info)
      | none ↦ get_default_route devices (map message_of es)
    ]
      ≡ ok (elim found [ some info ↦ some info | none ↦ first_of es ])
or_next devices es (some info) h = refl
or_next devices es none h = h

-- On the messages of the kernel's routes GetDefaultRoute returns the first route of the main table and
-- of a family of addresses whose attributes give a gateway and a device, or finds none. The length of
-- the destination, which is 0 for a default route alone, has no part in it.
pub get_default_route_lem :
    (devices : Interfaces) (es : List Entry)
    → All (IsEntry devices) es
    → get_default_route devices (map message_of es) ≡ ok (first_of es)
unfolding get_default_route
get_default_route_lem devices [] k = refl
get_default_route_lem devices (e ∷ es) (k, ks) =
    rw (read_message-message_of devices e k, ◌>>=◌)
      (or_next devices es (said_by (is_wanted e) (apply_all e.attrs clear))
        (get_default_route_lem devices es ks))
