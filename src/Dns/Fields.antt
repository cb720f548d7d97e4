-- ===== src/Dns/Fields.antt =====
-- The laws of the two fields of four bits, beside the flags.
use network_protocols.Common.{ℕ, ◌%◌, ◌≡◌, sym, ◌∙◌, ap, ◌==◌, arith}
use network_protocols.Common.Bits.{bit-le}
use network_protocols.Dns.Header.{
  Header, Flag, get_flag, get_field_opcode, set_field_opcode, get_field_rcode, set_field_rcode,
}
use network_protocols.Dns.Flags.{Fits, position, get_flag-bit}
use network_protocols.Dns.FieldBits.{
  rcode_bits, get_opcode-bits, get_rcode-bits, shifted_bits, shifted_elsewhere, low_elsewhere,
  bit-set_field_opcode, bit-set_field_rcode, set_field_opcode-Fits, set_field_rcode-Fits,
  masks_high, masks_low, values_low, values_high, digits_small,
}

opcode_value : (v : ℕ) (h : Header) → get_field_opcode (set_field_opcode v h) ≡ v % 16
opcode_value v h =
    let s = bit-set_field_opcode v h in
    omega (
      arith,
      get_opcode-bits (set_field_opcode v h),
      rcode_bits v,
      masks_high,
      shifted_bits v,
      s 11,
      s 12,
      s 13,
      s 14,
    )

opcode_keeps_rcode :
    (v : ℕ) (h : Header) → get_field_rcode (set_field_opcode v h) ≡ get_field_rcode h
opcode_keeps_rcode v h =
    let s = bit-set_field_opcode v h in
    omega (
      arith,
      get_rcode-bits (set_field_opcode v h),
      get_rcode-bits h,
      masks_low,
      values_low v,
      digits_small 0 1 2 3 h.flags,
      s 0,
      s 1,
      s 2,
      s 3,
    )

rcode_value : (v : ℕ) (h : Header) → get_field_rcode (set_field_rcode v h) ≡ v % 16
rcode_value v h =
    let s = bit-set_field_rcode v h in
    omega (
      arith,
      get_rcode-bits (set_field_rcode v h),
      rcode_bits v,
      masks_low,
      values_low v,
      s 0,
      s 1,
      s 2,
      s 3,
    )

rcode_keeps_opcode :
    (v : ℕ) (h : Header) → get_field_opcode (set_field_rcode v h) ≡ get_field_opcode h
rcode_keeps_opcode v h =
    let s = bit-set_field_rcode v h in
    omega (
      arith,
      get_opcode-bits (set_field_rcode v h),
      get_opcode-bits h,
      masks_high,
      values_high v,
      digits_small 11 12 13 14 h.flags,
      s 11,
      s 12,
      s 13,
      s 14,
    )

opcode_keeps_flag :
    (f : Flag) (v : ℕ) (h : Header) → Fits h → get_flag f (set_field_opcode v h) ≡ get_flag f h
opcode_keeps_flag f v h i =
    get_flag-bit f (set_field_opcode v h) (set_field_opcode-Fits v h i)
    ∙ ap (λ b. b == 1)
        (omega (
          arith,
          bit-set_field_opcode v h (position f),
          shifted_elsewhere f v,
          bit-le (position f) h.flags,
        ))
    ∙ sym (get_flag-bit f h i)

rcode_keeps_flag :
    (f : Flag) (v : ℕ) (h : Header) → Fits h → get_flag f (set_field_rcode v h) ≡ get_flag f h
rcode_keeps_flag f v h i =
    get_flag-bit f (set_field_rcode v h) (set_field_rcode-Fits v h i)
    ∙ ap (λ b. b == 1)
        (omega (
          arith,
          bit-set_field_rcode v h (position f),
          low_elsewhere f v,
          bit-le (position f) h.flags,
        ))
    ∙ sym (get_flag-bit f h i)

-- Setting the opcode stores its low four bits, and changes neither the response code nor a flag.
pub set_field_opcode_lem :
    (v : ℕ) (f : Flag) (h : Header)
    → Fits h
    → (get_field_opcode (set_field_opcode v h) ≡ v % 16)
      × (get_field_rcode (set_field_opcode v h) ≡ get_field_rcode h)
      × (get_flag f (set_field_opcode v h) ≡ get_flag f h)
set_field_opcode_lem v f h i = (opcode_value v h, opcode_keeps_rcode v h, opcode_keeps_flag f v h i)

-- Setting the response code stores its low four bits, and changes neither the opcode nor a flag.
pub set_field_rcode_lem :
    (v : ℕ) (f : Flag) (h : Header)
    → Fits h
    → (get_field_rcode (set_field_rcode v h) ≡ v % 16)
      × (get_field_opcode (set_field_rcode v h) ≡ get_field_opcode h)
      × (get_flag f (set_field_rcode v h) ≡ get_flag f h)
set_field_rcode_lem v f h i = (rcode_value v h, rcode_keeps_opcode v h, rcode_keeps_flag f v h i)
