-- ===== src/Dns/FieldBits.antt =====
-- The bits of the two fields of four bits of the flags.
use Prim.Native.Nat.{bit_and, min, max}
use network_protocols.Common.{ℕ, ◌+◌, ◌*◌, ◌/◌, ◌%◌, ◌≤◌, ◌≡◌, refl, ◌∙◌, arith}
use network_protocols.Common.Bits.{
  bit, bit-le, bit-bit_or, bit-bit_and, bit_and-fifteen, bit_or_fits, bit_and_fits,
}
use network_protocols.Dns.Header.{
  Header, Flag, qr, aa, tc, rd, ra, get_field_opcode, set_field_opcode, get_field_rcode,
  set_field_rcode,
}
use network_protocols.Dns.Flags.{Fits, position}

-- The four bits above the lowest eleven.
opcode_bits : (x : ℕ) → x / 2048 % 16 ≡ bit 11 x + 2 * bit 12 x + 4 * bit 13 x + 8 * bit 14 x
unfolding bit
opcode_bits x = omega arith

pub rcode_bits : (x : ℕ) → x % 16 ≡ bit 0 x + 2 * bit 1 x + 4 * bit 2 x + 8 * bit 3 x
unfolding bit
rcode_bits x = omega arith

pub get_opcode-bits :
    (h : Header)
    → get_field_opcode h
      ≡ bit 11 h.flags + 2 * bit 12 h.flags + 4 * bit 13 h.flags + 8 * bit 14 h.flags
unfolding get_field_opcode
get_opcode-bits h = bit_and-fifteen (h.flags / 2048) ∙ opcode_bits h.flags

pub get_rcode-bits :
    (h : Header)
    → get_field_rcode h ≡ bit 0 h.flags + 2 * bit 1 h.flags + 4 * bit 2 h.flags + 8 * bit 3 h.flags
unfolding get_field_rcode
get_rcode-bits h = bit_and-fifteen h.flags ∙ rcode_bits h.flags

-- The bits of a field's value in its place.
pub shifted_bits :
    (v : ℕ)
    → (bit 11 (v % 16 * 2048) ≡ bit 0 v)
      × (bit 12 (v % 16 * 2048) ≡ bit 1 v)
      × (bit 13 (v % 16 * 2048) ≡ bit 2 v)
      × (bit 14 (v % 16 * 2048) ≡ bit 3 v)
unfolding bit
shifted_bits v = omega arith

pub shifted_elsewhere :
    (f : Flag) (v : ℕ) → (bit (position f) (v % 16 * 2048) ≡ 0) × (bit (position f) 0x87FF ≡ 1)
unfolding bit
shifted_elsewhere qr v = (omega arith, refl)
shifted_elsewhere aa v = (omega arith, refl)
shifted_elsewhere tc v = (omega arith, refl)
shifted_elsewhere rd v = (omega arith, refl)
shifted_elsewhere ra v = (omega arith, refl)

pub low_elsewhere :
    (f : Flag) (v : ℕ) → (bit (position f) (v % 16) ≡ 0) × (bit (position f) 0xFFF0 ≡ 1)
unfolding bit
low_elsewhere qr v = (omega arith, refl)
low_elsewhere aa v = (omega arith, refl)
low_elsewhere tc v = (omega arith, refl)
low_elsewhere rd v = (omega arith, refl)
low_elsewhere ra v = (omega arith, refl)

pub bit-set_field_opcode :
    (v : ℕ) (h : Header) (k : ℕ)
    → bit k (set_field_opcode v h).flags
      ≡ max (min (bit k h.flags) (bit k 0x87FF)) (bit k (v % 16 * 2048))
unfolding set_field_opcode
bit-set_field_opcode v h k = rw bit_and-fifteen (
    omega
      (arith, bit-bit_or k (bit_and h.flags 0x87FF) (v % 16 * 2048), bit-bit_and k h.flags 0x87FF))

pub bit-set_field_rcode :
    (v : ℕ) (h : Header) (k : ℕ)
    → bit k (set_field_rcode v h).flags ≡ max (min (bit k h.flags) (bit k 0xFFF0)) (bit k (v % 16))
unfolding set_field_rcode
bit-set_field_rcode v h k =
    rw bit_and-fifteen
      (omega (arith, bit-bit_or k (bit_and h.flags 0xFFF0) (v % 16), bit-bit_and k h.flags 0xFFF0))

pub set_field_opcode-Fits : (v : ℕ) (h : Header) → Fits h → Fits (set_field_opcode v h)
unfolding set_field_opcode
set_field_opcode-Fits v h i =
    bit_or_fits _ _ (bit_and_fits h.flags 0x87FF i) (omega (arith, bit_and-fifteen v))

pub set_field_rcode-Fits : (v : ℕ) (h : Header) → Fits h → Fits (set_field_rcode v h)
unfolding set_field_rcode
set_field_rcode-Fits v h i =
    bit_or_fits _ _ (bit_and_fits h.flags 0xFFF0 i) (omega (arith, bit_and-fifteen v))

-- The masks at the four places of the opcode, and at those of the code.
pub masks_high :
    (bit 11 0x87FF ≡ 0)
    × (bit 12 0x87FF ≡ 0)
    × (bit 13 0x87FF ≡ 0)
    × (bit 14 0x87FF ≡ 0)
    × (bit 11 0xFFF0 ≡ 1)
    × (bit 12 0xFFF0 ≡ 1)
    × (bit 13 0xFFF0 ≡ 1)
    × (bit 14 0xFFF0 ≡ 1)
unfolding bit
masks_high = (refl, refl, refl, refl, refl, refl, refl, refl)

pub masks_low :
    (bit 0 0x87FF ≡ 1)
    × (bit 1 0x87FF ≡ 1)
    × (bit 2 0x87FF ≡ 1)
    × (bit 3 0x87FF ≡ 1)
    × (bit 0 0xFFF0 ≡ 0)
    × (bit 1 0xFFF0 ≡ 0)
    × (bit 2 0xFFF0 ≡ 0)
    × (bit 3 0xFFF0 ≡ 0)
unfolding bit
masks_low = (refl, refl, refl, refl, refl, refl, refl, refl)

pub values_low :
    (v : ℕ)
    → (bit 0 (v % 16 * 2048) ≡ 0)
      × (bit 1 (v % 16 * 2048) ≡ 0)
      × (bit 2 (v % 16 * 2048) ≡ 0)
      × (bit 3 (v % 16 * 2048) ≡ 0)
      × (bit 0 (v % 16) ≡ bit 0 v)
      × (bit 1 (v % 16) ≡ bit 1 v)
      × (bit 2 (v % 16) ≡ bit 2 v)
      × (bit 3 (v % 16) ≡ bit 3 v)
unfolding bit
values_low v = omega arith

pub values_high :
    (v : ℕ)
    → (bit 11 (v % 16) ≡ 0) × (bit 12 (v % 16) ≡ 0) × (bit 13 (v % 16) ≡ 0) × (bit 14 (v % 16) ≡ 0)
unfolding bit
values_high v = omega arith

pub digits_small : (a b c d x : ℕ) → (bit a x ≤ 1) × (bit b x ≤ 1) × (bit c x ≤ 1) × (bit d x ≤ 1)
digits_small a b c d x = (bit-le a x, bit-le b x, bit-le c x, bit-le d x)
