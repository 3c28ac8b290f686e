-- ===== src/Topology/Lldp/Parts.antt =====
-- What the reader of src/topology/lldp.rs makes of any bytes at all.
use accelrd.Prelude.{
  ℕ, zero, suc, true, false, ◌+◌, ◌*◌, ◌/◌, ◌%◌, ◌≤◌, ◌<◌, ◌≡◌, refl, ◌∙◌, ap, sym, inl, inr, List,
  [], ◌∷◌, ◌++◌, none, Text, length, All, arith, ltb, ltb→lt, ◌||◌, Bool-cases, ◌==◌,
}
use mathlib.Core.List.{append_assoc}
use accelrd.Topology.Lldp.{take, drop, Seen, note_tlv, parse_tlvs, neighbor, parse_lldpdu}
use accelrd.Topology.Lldp.Frames.{Tlv, IsTlv, encode, note_all}

-- Bytes at which the reader stops: fewer than two, a TLV of type 0, or one that is longer than the bytes that are left. The length
-- of a TLV is the low bit of its first byte, and its second byte.
pub data IsStop : Text → Type 0 where
  ended : IsStop []
  lone : (b : ℕ) → IsStop (b ∷ [])
  end_tlv : (h l : ℕ) (rest : Text) → h < 2 → IsStop (h ∷ l ∷ rest)
  cut_off : (h l : ℕ) (rest : Text) → length rest < h % 2 * 256 + l → IsStop (h ∷ l ∷ rest)

-- The bytes as TLVs up to a stop.
pub record Parts (buf : Text) : Type 0 where
  pub tlvs : List Tlv
  pub tail : Text
  pub tlvs_fit : All IsTlv tlvs
  pub bytes : buf ≡ encode tlvs ++ tail
  pub stops : IsStop tail

length-take : (n : ℕ) (s : Text) → n ≤ length s → length (take n s) ≡ n
unfolding take
length-take zero s h = refl
length-take (suc n) [] h = absurd (omega arith)
length-take (suc n) (b ∷ s) h = omega (arith, length-take n s (omega arith))

take-drop : (n : ℕ) (s : Text) → take n s ++ drop n s ≡ s
unfolding take drop
take-drop zero s = refl
take-drop (suc n) [] = refl
take-drop (suc n) (b ∷ s) = ap (λ t. b ∷ t) (take-drop n s)

drop-All : (n : ℕ) (s : Text) → All (λ b. b < 256) s → All (λ b. b < 256) (drop n s)
unfolding drop
drop-All zero s h = h
drop-All (suc n) [] h = tt
drop-All (suc n) (b ∷ s) h = drop-All n s h.1

length-drop_le : (n : ℕ) (s : Text) → length (drop n s) ≤ length s
unfolding drop
length-drop_le zero s = omega arith
length-drop_le (suc n) [] = omega arith
length-drop_le (suc n) (b ∷ s) = omega (arith, length-drop_le n s)

-- What the loop finds on some bytes, and the parts that it found it in.
abbrev Read : ℕ → Text → Seen → Type 0
Read fuel buf seen = (p : Parts buf) × (parse_tlvs fuel buf seen ≡ note_all p.tlvs seen)

stop :
    (h l : ℕ) (rest : Text)
    → (ltb (length rest) ((h * 256 + l) % 512) || ((h * 256 + l) / 512 == 0)) ≡ true
    → l < 256
    → IsStop (h ∷ l ∷ rest)
stop h l rest e k = elim (Bool-cases (ltb (length rest) ((h * 256 + l) % 512))) [
  | inl c ↦ cut_off h l rest (omega (arith, ltb→lt (length rest) ((h * 256 + l) % 512) c))
  | inr c ↦ end_tlv h l rest (ground (arith, e, c))
]

front :
    (h l : ℕ) (rest : Text)
    → (ltb (length rest) ((h * 256 + l) % 512) || ((h * 256 + l) / 512 == 0)) ≡ false
    → h < 256
    → l < 256
    → Parts (drop ((h * 256 + l) % 512) rest)
    → Parts (h ∷ l ∷ rest)
front h l rest e k m p =
    let len = (h * 256 + l) % 512 in
    let ty = (h * 256 + l) / 512 in
    let val = take len rest in
    let fits : len ≤ length rest = ground (arith, e) in
    let long = length-take len rest fits in
    let first : h ≡ ty * 2 + length val / 256 = omega arith in
    let second : l ≡ length val % 256 = omega arith in
    let body : rest ≡ (val ++ encode p.tlvs) ++ p.tail =
      sym (take-drop len rest)
      ∙ ap (λ t. val ++ t) p.bytes
      ∙ sym (append_assoc val (encode p.tlvs) p.tail) in
    record {
      tlvs = (ty, val) ∷ p.tlvs;
      tail = p.tail;
      tlvs_fit = (ground (arith, e, long), p.tlvs_fit);
      bytes =
          ap (λ x. x ∷ l ∷ rest) first
          ∙ ap (λ x. (ty * 2 + length val / 256) ∷ x ∷ rest) second
          ∙ ap (λ t. (ty * 2 + length val / 256) ∷ (length val % 256) ∷ t) body;
      stops = p.stops;
    }

read :
    (fuel : ℕ) (buf : Text) (seen : Seen)
    → length buf ≤ fuel
    → All (λ b. b < 256) buf
    → Read fuel buf seen
unfolding parse_tlvs front
read zero [] seen k h =
    (record { tlvs = []; tail = []; tlvs_fit = tt; bytes = refl; stops = ended }, refl)
read zero (b ∷ s) seen k h = absurd (omega arith)
read (suc fuel) [] seen k h =
    (record { tlvs = []; tail = []; tlvs_fit = tt; bytes = refl; stops = ended }, refl)
read (suc fuel) (b ∷ []) seen k h =
    (record { tlvs = []; tail = b ∷ []; tlvs_fit = tt; bytes = refl; stops = lone b }, refl)
read (suc fuel) (b ∷ c ∷ s) seen k h =
    let len = (b * 256 + c) % 512 in
    let ty = (b * 256 + c) / 512 in
    let rest =
      read fuel (drop len s) (note_tlv ty (take len s) seen) (omega (arith, length-drop_le len s))
        (drop-All len s h.1.1) in
    elim (Bool-cases (ltb (length s) len || (ty == 0))) [
      | inl e ↦ (
        record {
          tlvs = [];
          tail = b ∷ c ∷ s;
          tlvs_fit = tt;
          bytes = refl;
          stops = stop b c s e (h.1).0;
        },
        rw e refl,
      )
      | inr e ↦ (front b c s e h.0 (h.1).0 rest.0, rw e rest.1)
    ]

-- Any bytes are TLVs of types 1 to 127 and of fewer than 512 bytes each up to a stop, where the bytes end, a TLV of type 0 begins or a
-- TLV is cut off; and the reader finds the neighbour that those TLVs describe, each noted in their order, whatever stands from the stop on.
pub parse_lldpdu_parts :
    (buf interface : Text)
    → All (λ b. b < 256) buf
    → (p : Parts buf) × (parse_lldpdu buf interface
        ≡ neighbor interface
            (note_all p.tlvs (record { chassis = none; port = none; sysname = none })))
unfolding parse_lldpdu
parse_lldpdu_parts buf interface h =
    let r =
      read (length buf) buf (record { chassis = none; port = none; sysname = none }) (omega arith)
        h in
    (r.0, ap (neighbor interface) r.1)
