-- ===== src/Dns/Header.antt =====
-- `DNSMessage` of dns/common: the header, its flags, and its form on the wire.
use Prim.Native.Nat.{bit_and, bit_or}
use network_protocols.Common.{
  ℕ, suc, ◌+◌, ◌-◌, ◌*◌, ◌/◌, ◌%◌, Bool, true, false, [], ◌∷◌, ◌++◌, Option, some, Bytes, get_elem?,
  ◌==◌, if◌then◌else◌, ◌>>=◌, ◌^◌,
}

pub record Header : Type 0 where
  pub id : ℕ
  pub flags : ℕ
  pub q_count : ℕ
  pub a_count : ℕ
  pub ns_count : ℕ
  pub ar_count : ℕ

-- The flags of one bit, and the weights that the source shifts 1 to.
pub data Flag : Type 0 where
  qr aa tc rd ra : Flag

abbrev pub weight : Flag → ℕ
weight qr = 2 ^ 15
weight aa = 2 ^ 10
weight tc = 2 ^ 9
weight rd = 2 ^ 8
weight ra = 2 ^ 7

-- `getFlagQR`, which has no mask behind the shift, and the other four, which do.
unfoldable pub get_flag : Flag → Header → Bool
get_flag qr h = h.flags / 2 ^ 15 == 1
get_flag aa h = bit_and (h.flags / 2 ^ 10) 1 == 1
get_flag tc h = bit_and (h.flags / 2 ^ 9) 1 == 1
get_flag rd h = bit_and (h.flags / 2 ^ 8) 1 == 1
get_flag ra h = bit_and (h.flags / 2 ^ 7) 1 == 1

-- `setFlagQR` and the others: `_flags |= 1 << k`, or `_flags &= ~(1 << k)` in 16 bits.
unfoldable pub set_flag : Flag → Bool → Header → Header
set_flag f true h = record h { flags = bit_or h.flags (weight f) }
set_flag f false h = record h { flags = bit_and h.flags (65535 - weight f) }

unfoldable pub get_field_opcode : Header → ℕ
get_field_opcode h = bit_and (h.flags / 2 ^ 11) 0xF

unfoldable pub set_field_opcode : ℕ → Header → Header
set_field_opcode opcode h = record h {
  flags = bit_or (bit_and h.flags 0x87FF) (bit_and opcode 0xF * 2 ^ 11);
}

unfoldable pub get_field_rcode : Header → ℕ
get_field_rcode h = bit_and h.flags 0xF

unfoldable pub set_field_rcode : ℕ → Header → Header
set_field_rcode rcode h = record h { flags = bit_or (bit_and h.flags 0xFFF0) (bit_and rcode 0xF) }

-- The constructor `DNSMessage(id, isResponse)`.
unfoldable pub new_header : ℕ → Bool → Header
new_header id is_response =
    let h : Header = record {
      id = id;
      flags = 0;
      q_count = 0;
      a_count = 0;
      ns_count = 0;
      ar_count = 0;
    } in
    if is_response then set_flag qr true h else h

-- The bytes of `htons` and `htonl`, high byte first.
abbrev pub put_16 : ℕ → Bytes
put_16 n = (n / 256 % 256) ∷ (n % 256) ∷ []

abbrev pub put_32 : ℕ → Bytes
put_32 n = put_16 (n / 65536 % 65536) ++ put_16 (n % 65536)

-- `ntohs` of the two bytes at an index; `none` is a read past the end of the buffer.
unfoldable pub get_16 : Bytes → ℕ → Option ℕ
get_16 buffer i = do hi ← get_elem? buffer i; lo ← get_elem? buffer (suc i); some (hi * 256 + lo)

unfoldable pub get_32 : Bytes → ℕ → Option ℕ
get_32 buffer i = do hi ← get_16 buffer i; lo ← get_16 buffer (suc (suc i)); some (hi * 65536 + lo)

-- `DNSMessage::encode`.
unfoldable pub encode_header : Header → Bytes
encode_header h =
    put_16 h.id
    ++ (put_16 h.flags
        ++ (put_16 h.q_count ++ (put_16 h.a_count ++ (put_16 h.ns_count ++ put_16 h.ar_count))))

-- `DNSMessage::decode`: the header and the number of bytes read.
unfoldable pub decode_header : Bytes → Option (Header × ℕ)
unfolding get_16
decode_header buffer = do
  id ← get_16 buffer 0
  flags ← get_16 buffer 2
  q_count ← get_16 buffer 4
  a_count ← get_16 buffer 6
  ns_count ← get_16 buffer 8
  ar_count ← get_16 buffer 10
  some (
    record {
      id = id;
      flags = flags;
      q_count = q_count;
      a_count = a_count;
      ns_count = ns_count;
      ar_count = ar_count;
    },
    12,
  )
