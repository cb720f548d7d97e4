-- ===== src/Dns/Names.antt =====
-- `encodeDomainName` and `decodeDomainName` of dns/common/src/dns_message.cpp, and `decodeName` of
-- dns/common/src/dns_query.cpp.
use Prim.Native.Nat.{bit_and}
use network_protocols.Common.{
  ℕ, zero, suc, ◌+◌, ◌*◌, ◌%◌, Bool, true, false, not, ◌&&◌, [], ◌∷◌, ◌++◌, Option, none, some,
  Bytes, length, ◌==◌, if◌then◌else◌, ◌>>=◌,
}

-- A label's length and its bytes.
abbrev pub put_label : Bytes → Bytes
put_label l = (length l % 256) ∷ l

-- `encodeDomainName`, with the bytes since the last dot.
unfoldable pub encode_labels : Bytes → Bytes → Bytes
encode_labels l [] = put_label l ++ 0 ∷ []
encode_labels l (x ∷ xs) =
    let ended = put_label l ++ encode_labels [] xs in
    let longer = encode_labels (l ++ x ∷ []) xs in if x == b'.' then ended else longer

unfoldable pub encode_domain_name : Bytes → Bytes
encode_domain_name = encode_labels []

-- The inner loop: a label's bytes, and what stands behind them. `none` is a read past the buffer.
unfoldable pub read_label : ℕ → Bytes → Option (Bytes × Bytes)
read_label zero xs = some ([], xs)
read_label (suc n) [] = none
read_label (suc n) (x ∷ xs) = do r ← read_label n xs; some (x ∷ r.0, r.1)

-- `*data & 0xC0`, as a condition.
abbrev pub is_pointer : ℕ → Bool
is_pointer x = not (bit_and x 0xC0 == 0)

-- A name, the number of bytes read, and the offset that a pointer gives, 0 if there is none.
pub record Decoded : Type 0 where
  pub count : ℕ
  pub name : Bytes
  pub offset : ℕ

-- `((*data) & 0x3F) << 8` plus the next byte.
unfoldable pub pointer : ℕ → Bytes → Option ℕ
pointer x [] = none
pointer x (y ∷ ys) = some (bit_and x 0x3F * 256 + y)

abbrev pub dotted : Bytes → ℕ → Bytes
dotted name x = if not (x == 0) then name ++ b'.' ∷ [] else name

-- What stands behind a label: a pointer, which is followed only in `decodeDomainName`, or the
-- length of the next label, for which the loop `go` goes round. `none` is a read past the buffer.
abbrev pub after_label :
    (ℕ → Bytes → ℕ → Bytes → Option Decoded) → Bool → ℕ → Bytes → Bytes → Option Decoded
after_label go pointers count name [] = none
after_label go pointers count name (y ∷ ys) =
    if pointers && is_pointer y
    then (pointer y ys >>= λ o. some (record { count = count + 2; name = name; offset = o }))
    else go y ys count (dotted name y)

-- The outer loop, at a length byte `x`, on fuel for its turns.
unfoldable pub decode_labels : ℕ → Bool → ℕ → Bytes → ℕ → Bytes → Option Decoded
decode_labels zero pointers x xs count name = none
decode_labels (suc fuel) pointers x xs count name =
    if x == 0
    then some (record { count = count + 1; name = name; offset = 0 })
    else (read_label x xs >>= λ r.
        after_label (decode_labels fuel pointers) pointers (count + 1 + x) (name ++ r.0) r.1)

-- `decodeDomainName` on the bytes from `data` on. A turn takes two bytes at least, so the fuel is
-- enough.
unfoldable pub decode_domain_name : Bytes → Option Decoded
decode_domain_name [] = none
decode_domain_name (x ∷ xs) =
    if is_pointer x
    then (pointer x xs >>= λ o. some (record { count = 2; name = []; offset = o }))
    else decode_labels (suc (length xs)) true x xs 0 []

-- `DNSQuery::decodeName`, where every length byte is taken as a length.
unfoldable pub decode_name : Bytes → Option Decoded
decode_name [] = none
decode_name (x ∷ xs) = decode_labels (suc (length xs)) false x xs 0 []
