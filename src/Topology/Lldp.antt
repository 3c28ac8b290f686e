-- ===== src/Topology/Lldp.antt =====
-- The reader of LLDP frames of src/topology/lldp.rs. The socket loop around it is not modelled.
pub mod Frames
pub mod Parts
use accelrd.Prelude.{
  ℕ, zero, suc, ◌+◌, ◌-◌, ◌*◌, ◌/◌, ◌%◌, Bool, true, false, ◌&&◌, ◌||◌, List, [], ◌∷◌, ◌++◌, Option,
  none, some, Text, codes, ltb, leb, ◌==◌, if◌then◌else◌, length, is_empty, keep_if, map_option,
  and_then,
}
use accelrd.Topology.{ChassisIdKind, mac, name, other, LldpNeighbor}
use accelrd.Topology.Slugs.{slugify}

unfoldable pub take : ℕ → Text → Text
take zero s = []
take (suc n) [] = []
take (suc n) (b ∷ s) = b ∷ take n s

unfoldable pub drop : ℕ → Text → Text
drop zero s = s
drop (suc n) [] = []
drop (suc n) (b ∷ s) = drop n s

-- `std::str::from_utf8`: how many bytes a character still needs, and the range of the next one.
abbrev Pending : Type 0
Pending = ℕ × ℕ × ℕ

abbrev within : ℕ → ℕ → ℕ → Bool
within lo hi c = leb lo c && leb c hi

abbrev first_byte : ℕ → Option Pending
first_byte c =
    if ltb c 0x80
    then some (0, 0x80, 0xbf)
    else if within 0xc2 0xdf c
    then some (1, 0x80, 0xbf)
    else if c == 0xe0
    then some (2, 0xa0, 0xbf)
    else if c == 0xed
    then some (2, 0x80, 0x9f)
    else if within 0xe1 0xef c
    then some (2, 0x80, 0xbf)
    else if c == 0xf0
    then some (3, 0x90, 0xbf)
    else if within 0xf1 0xf3 c
    then some (3, 0x80, 0xbf)
    else if c == 0xf4
    then some (3, 0x80, 0x8f)
    else none

abbrev next_byte : Pending → ℕ → Option Pending
next_byte (zero, lo, hi) c = first_byte c
next_byte (suc n, lo, hi) c = if within lo hi c then some (n, 0x80, 0xbf) else none

unfoldable pub utf8_from : Option Pending → Text → Bool
utf8_from none s = false
utf8_from (some p) [] = p.0 == 0
utf8_from (some p) (c ∷ s) = utf8_from (next_byte p c) s

unfoldable pub from_utf8 : Text → Option Text
unfolding utf8_from
from_utf8 s = if utf8_from (some (0, 0x80, 0xbf)) s then some s else none

-- `{b:02x}`
abbrev hex_digit : ℕ → ℕ
hex_digit d = if ltb d 10 then 48 + d else 87 + d

unfoldable pub hex_encode : Text → Text
hex_encode [] = []
hex_encode (b ∷ s) = hex_digit (b / 16) ∷ hex_digit (b % 16) ∷ hex_encode s

unfoldable pub mac_to_string : (a b c d e f : ℕ) → Text
unfolding hex_encode
mac_to_string a b c d e f =
    hex_encode (a ∷ [])
    ++ b':' ∷ hex_encode (b ∷ [])
    ++ b':' ∷ hex_encode (c ∷ [])
    ++ b':' ∷ hex_encode (d ∷ [])
    ++ b':' ∷ hex_encode (e ∷ [])
    ++ b':' ∷ hex_encode (f ∷ [])

-- The six bytes of a MAC address, if `body` has six.
unfoldable pub as_mac : Text → Option Text
unfolding mac_to_string
as_mac (a ∷ b ∷ c ∷ d ∷ e ∷ f ∷ []) = some (mac_to_string a b c d e f)
as_mac _ = none

unfoldable pub parse_chassis_id : Text → Option (Text × ChassisIdKind)
unfolding as_mac from_utf8 hex_encode
parse_chassis_id [] = none
parse_chassis_id (subtype ∷ body) = elim (if subtype == 4 then as_mac body else none) [
  | some address ↦ some (address, mac)
  | none ↦
      if (subtype == 6) || (subtype == 7)
      then map_option (λ s. (s, name))
          (keep_if (λ s. if is_empty s then false else true) (from_utf8 body))
      else some (hex_encode body, other)
]

unfoldable pub parse_port_id : Text → Option Text
unfolding as_mac from_utf8 hex_encode
parse_port_id [] = none
parse_port_id (subtype ∷ body) = elim (if subtype == 3 then as_mac body else none) [
  | some address ↦ some address
  | none ↦
      if (subtype == 5) || (subtype == 6) || (subtype == 7)
      then from_utf8 body
      else some (hex_encode body)
]

-- `chassis`, `port` and `sysname`.
pub record Seen : Type 0 where
  pub chassis : Option (Text × ChassisIdKind)
  pub port : Option Text
  pub sysname : Option Text

-- The arms of the `match` on a TLV's type, but for the end.
unfoldable pub note_tlv : ℕ → Text → Seen → Seen
unfolding parse_chassis_id parse_port_id
note_tlv ty val seen =
    if ty == 1
    then record seen { chassis = parse_chassis_id val }
    else if ty == 2
    then record seen { port = parse_port_id val }
    else if ty == 5
    then record seen { sysname = keep_if (λ s. if is_empty s then false else true) (from_utf8 val) }
    else seen

-- The loop, on the bytes from `p` on. A header of two bytes is 7 bits of type and 9 of length.
unfoldable pub parse_tlvs : (fuel : ℕ) → Text → Seen → Seen
unfolding take drop note_tlv
parse_tlvs zero buf seen = seen
parse_tlvs (suc fuel) [] seen = seen
parse_tlvs (suc fuel) (_ ∷ []) seen = seen
parse_tlvs (suc fuel) (h ∷ l ∷ rest) seen =
    let hdr = h * 256 + l in
    let ty = hdr / 512 in
    let len = hdr % 512 in
    let later = parse_tlvs fuel (drop len rest) (note_tlv ty (take len rest) seen) in
    if ltb (length rest) len || (ty == 0) then seen else later

-- What the loop found, once both mandatory TLVs are there.
unfoldable pub neighbor : Text → Seen → Option LldpNeighbor
neighbor interface seen = and_then seen.chassis λ c. and_then seen.port λ port. some (record {
  interface = interface;
  chassis_id = c.0;
  chassis_id_kind = c.1;
  port_id = port;
  system_name = seen.sysname;
})

unfoldable pub parse_lldpdu : Text → (interface : Text) → Option LldpNeighbor
unfolding parse_tlvs neighbor
parse_lldpdu buf interface =
    neighbor interface
      (parse_tlvs (length buf) buf (record { chassis = none; port = none; sysname = none }))

-- `chassis_id.replace(':', "")`
unfoldable pub without_colons : Text → Text
without_colons [] = []
without_colons (c ∷ s) = let rest = without_colons s in if c == b':' then rest else c ∷ rest

unfoldable pub rack_slug : LldpNeighbor → Text
unfolding without_colons slugify
rack_slug n = elim n.chassis_id_kind [
  | mac ↦ without_colons n.chassis_id
  | name ↦ slugify n.chassis_id
  | other ↦ slugify n.chassis_id
]
