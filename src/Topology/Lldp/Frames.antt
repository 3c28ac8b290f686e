-- ===== src/Topology/Lldp/Frames.antt =====
-- What the reader makes of the frames that a switch sends.
use accelrd.Prelude.{
  ℕ, zero, suc, false, ◌+◌, ◌*◌, ◌/◌, ◌%◌, ◌≤◌, ◌<◌, ◌≡◌, refl, ◌∙◌, ap, List, [], ◌∷◌, ◌++◌, none,
  Text, length, All, arith, ltb, ◌||◌, length-append, ◌==◌,
}
use mathlib.Core.List.{append_assoc}
use accelrd.Topology.Lldp.{take, drop, Seen, note_tlv, parse_tlvs, neighbor, parse_lldpdu}

-- A TLV: its type and value, and its bytes on the wire.
abbrev pub Tlv : Type 0
Tlv = ℕ × Text

abbrev pub IsTlv : Tlv → Type 0
IsTlv (ty, val) = (0 < ty) × (ty < 128) × (length val < 512)

abbrev pub encode : List Tlv → Text
encode [] = []
encode ((ty, val) ∷ ts) = (ty * 2 + length val / 256) ∷ (length val % 256) ∷ val ++ encode ts

take-append : (s t : Text) → take (length s) (s ++ t) ≡ s
unfolding take
take-append [] t = refl
take-append (b ∷ s) t = ap (λ r. b ∷ r) (take-append s t)

drop-append : (s t : Text) → drop (length s) (s ++ t) ≡ t
unfolding drop
drop-append [] t = refl
drop-append (b ∷ s) t = drop-append s t

abbrev pub note_all : List Tlv → Seen → Seen
note_all [] seen = seen
note_all ((ty, val) ∷ ts) seen = note_all ts (note_tlv ty val seen)

parse_tlvs-tlv :
    (fuel ty : ℕ) (val rest : Text) (seen : Seen)
    → IsTlv (ty, val)
    → parse_tlvs (suc fuel) ((ty * 2 + length val / 256) ∷ (length val % 256) ∷ val ++ rest) seen
      ≡ parse_tlvs fuel rest (note_tlv ty val seen)
unfolding parse_tlvs
parse_tlvs-tlv fuel ty val rest seen h =
    let hdr = (ty * 2 + length val / 256) * 256 + length val % 256 in
    let low : hdr % 512 ≡ length val = omega (arith, h) in
    let high : hdr / 512 ≡ ty = omega (arith, h) in
    let going : (ltb (length (val ++ rest)) (length val) || (ty == 0)) ≡ false =
      ground (arith, h, length-append val rest) in
    rw (low, high, take-append val rest, drop-append val rest, going) refl

parse_tlvs-encode :
    (fuel : ℕ) (ts : List Tlv) (pad : Text) (seen : Seen)
    → All IsTlv ts
    → length ts < fuel
    → parse_tlvs fuel (encode ts ++ 0 ∷ 0 ∷ pad) seen ≡ note_all ts seen
unfolding parse_tlvs
parse_tlvs-encode zero ts pad seen h k = absurd (omega arith)
parse_tlvs-encode (suc fuel) [] pad seen h k = ground arith
parse_tlvs-encode (suc fuel) ((ty, val) ∷ ts) pad seen h k =
    ap (λ s. parse_tlvs (suc fuel) ((ty * 2 + length val / 256) ∷ (length val % 256) ∷ s) seen)
      (append_assoc val (encode ts) (0 ∷ 0 ∷ pad))
    ∙ parse_tlvs-tlv fuel ty val (encode ts ++ 0 ∷ 0 ∷ pad) seen h.0
    ∙ parse_tlvs-encode fuel ts pad (note_tlv ty val seen) h.1 (omega arith)

encode-long : (ts : List Tlv) → length ts ≤ length (encode ts)
encode-long [] = omega arith
encode-long ((ty, val) ∷ ts) = omega (arith, encode-long ts, length-append val (encode ts))

-- A frame of TLVs of types 1 to 127, each of fewer than 512 bytes, with an end TLV and any padding,
-- reads as the neighbour that its TLVs describe, each noted in their order.
pub parse_lldpdu-encode :
    (ts : List Tlv) (pad interface : Text)
    → All IsTlv ts
    → parse_lldpdu (encode ts ++ 0 ∷ 0 ∷ pad) interface
      ≡ neighbor interface (note_all ts (record { chassis = none; port = none; sysname = none }))
unfolding parse_lldpdu
parse_lldpdu-encode ts pad interface h = ap (neighbor interface) (
    parse_tlvs-encode (length (encode ts ++ 0 ∷ 0 ∷ pad)) ts pad _ h
      (omega (arith, encode-long ts, length-append (encode ts) (0 ∷ 0 ∷ pad))))
