-- ===== src/Route.antt =====
-- Package route: GetDefaultRoute of route/route_linux.go with rtattr.go, rtmsg.go and util.go, on the
-- messages that netlink returns. A message's data is a list of bytes. The source reads it through
-- unsafe pointers; a read behind the end of the data is a panic here, whatever the memory there holds.
pub mod Default
pub mod Walk
use dnsredir.Base.{
  ℕ, zero, suc, ◌+◌, ◌-◌, ◌*◌, ◌/◌, ◌%◌, ◌^◌, Bool, true, false, not, ◌&&◌, ◌||◌, Option, none,
  some, List, [], ◌∷◌, length, take, drop, get_elem?, if◌then◌else◌, ltb, leb, ◌==◌, Str,
}
use dnsredir.Base.Result.{Result, ok, err, crash, stuck, ◌>>=◌, ◌>>◌, err_if}

-- nlmsgAlign, on lengths that are not negative.
unfoldable pub nlmsg_align : ℕ → ℕ
nlmsg_align len = (len + 3) / 4 * 4

abbrev pub nlmsghdr_sizeof : ℕ
nlmsghdr_sizeof = 16

abbrev pub rtmsg_sizeof : ℕ
rtmsg_sizeof = 12

abbrev pub rt_attr_sizeof : ℕ
rt_attr_sizeof = 4

-- AF_INET, AF_INET6, RT_TABLE_MAIN, RTA_OIF, RTA_GATEWAY, __RTA_MAX.
abbrev pub af_inet : ℕ
af_inet = 2

abbrev pub af_inet6 : ℕ
af_inet6 = 10

abbrev pub rt_table_main : ℕ
rt_table_main = 254

abbrev pub rta_oif : ℕ
rta_oif = 4

abbrev pub rta_gateway : ℕ
rta_gateway = 5

abbrev pub rta_max : ℕ
rta_max = 31

-- netlink.Message: the length of its header, and its data.
pub record Message : Type 0 where
  pub header_length : ℕ
  pub payload : Str

pub record Info : Type 0 where
  pub gateway : Option Str
  pub if_index : ℕ
  pub if_name : Str

abbrev pub clear : Info
clear = record { gateway = none; if_index = 0; if_name = [] }

unfoldable pub is_valid : Info → Bool
is_valid info =
    elim info.gateway [ none ↦ false | some g ↦ true ]
    && ltb 0 info.if_index
    && not (length info.if_name == 0)

-- The byte at an offset.
abbrev pub byte_at : Str → ℕ → Result ℕ
byte_at bytes i = elim (get_elem? bytes i) [ none ↦ crash | some b ↦ ok b ]

-- Little-endian numbers, as on the machines that the program is built for. An int32 is kept as its bits.
abbrev pub u32_of : Str → ℕ
u32_of (b0 ∷ b1 ∷ b2 ∷ b3 ∷ rest) = b0 + 256 * b1 + 65536 * b2 + 16777216 * b3
u32_of _ = 0

-- The first n bytes behind an attribute's header.
unfoldable pub read_data : ℕ → Str → Result Str
read_data n behind = if ltb (length behind) n then crash else ok (take n behind)

-- net.InterfaceByIndex: the index and the name.
abbrev pub Interfaces : Type 0
Interfaces = ℕ → Option (ℕ × Str)

abbrev pub with_device : Info → Option (ℕ × Str) → Result Info
with_device info none = err
with_device info (some (index, name)) = ok (record info { if_index = index; if_name = name })

unfoldable pub read_oif : Interfaces → Str → Info → Result Info
unfolding read_data
read_oif devices behind info = do
  bits ← read_data 4 behind
  with_device info (devices (u32_of bits))

unfoldable pub read_gateway : ℕ → Str → Info → Result Info
unfolding read_data
read_gateway n behind info = do
  address ← read_data n behind
  ok (record info { gateway = some address })

-- An attribute of the length and the type of its header, with its part in the information.
unfoldable pub read_attribute : Interfaces → ℕ → ℕ → Str → Info → Result Info
unfolding read_oif read_gateway
read_attribute devices len kind behind info =
    if ltb len rt_attr_sizeof
    then err
    else if leb rta_max kind
    then err
    else if kind == rta_oif
    then (if not (len - rt_attr_sizeof == 4) then err else read_oif devices behind info)
    else if kind == rta_gateway
    then (if len - rt_attr_sizeof == 4
        then read_gateway 4 behind info
        else if len - rt_attr_sizeof == 16
        then read_gateway 16 behind info
        else err)
    else ok info

-- What is left behind an attribute whose header was taken already; `none` when it reaches over the end.
unfoldable pub advance : ℕ → Str → Option Str
unfolding nlmsg_align
advance len behind =
    if ltb (length behind) (nlmsg_align len - rt_attr_sizeof)
    then none
    else some (drop (nlmsg_align len - rt_attr_sizeof) behind)

-- The loop over the attributes, by what is left of the data, on fuel. A round whose attribute reaches
-- over the end leaves a cursor behind the total length, which is an error.
unfoldable pub walk : ℕ → Interfaces → Str → Info → Result Info
unfolding advance read_attribute
walk zero devices rest info = stuck
walk (suc fuel) devices [] info = ok info
walk (suc fuel) devices (b0 ∷ b1 ∷ b2 ∷ b3 ∷ behind) info =
    let len = b0 + 256 * b1 in
    do
      info' ← read_attribute devices len (b2 + 256 * b3) behind info
      elim (advance len behind) [ none ↦ err | some rest ↦ walk fuel devices rest info' ]
walk (suc fuel) devices _ info = crash

-- The attributes of a message and the test behind them; `none` to go on with the next message.
unfoldable pub read_attributes : Interfaces → Str → Result (Option Info)
unfolding walk is_valid
read_attributes devices payload = if ltb (length payload) rtmsg_sizeof then err else do
  info ← walk (suc (length payload)) devices (drop rtmsg_sizeof payload) clear
  ok (if is_valid info then some info else none)

-- The test on the table, behind the one on the family.
unfoldable pub read_table : Interfaces → Str → Result (Option Info)
unfolding read_attributes
read_table devices payload = do
  table ← byte_at payload 4
  if table == rt_table_main then read_attributes devices payload else ok none

-- The body of the loop over the messages.
unfoldable pub read_message : Interfaces → Message → Result (Option Info)
unfolding read_table
read_message devices msg = do
  err_if (not (msg.header_length == nlmsghdr_sizeof + length msg.payload))
  family ← byte_at msg.payload 0
  if family == af_inet || family == af_inet6 then read_table devices msg.payload else ok none

-- GetDefaultRoute on the answer of netlink; `ok none` is ErrDefaultRouteNotFound.
unfoldable pub get_default_route : Interfaces → List Message → Result (Option Info)
unfolding read_message
get_default_route devices [] = ok none
get_default_route devices (msg ∷ msgs) = do
  found ← read_message devices msg
  elim found [ some info ↦ ok (some info) | none ↦ get_default_route devices msgs ]
