-- ===== src/Dns/Response.antt =====
-- `DNSResponse` of dns/common/src/dns_response.cpp.
use network_protocols.Common.{
  ℕ, zero, suc, ◌+◌, ◌/◌, ◌%◌, List, [], ◌∷◌, ◌++◌, Option, none, some, Bytes, length, take, drop,
  is_empty, ltb, leb, ◌==◌, if◌then◌else◌, ◌>>=◌,
}
use network_protocols.Dns.Header.{
  Header, encode_header, decode_header, put_16, put_32, get_16, get_32,
}
use network_protocols.Dns.Names.{encode_domain_name, decode_domain_name}

pub record Question : Type 0 where
  pub name : Bytes
  pub type : ℕ
  pub cls : ℕ

pub record ResourceRecord : Type 0 where
  pub name : Bytes
  pub type : ℕ
  pub cls : ℕ
  pub ttl : ℕ
  pub rdata : Bytes
  -- the data as text
  pub text : Bytes

-- The fields that are used when a response is sent.
pub record Response : Type 0 where
  pub header : Header
  pub name : Bytes
  pub type : ℕ
  pub cls : ℕ
  pub ttl : ℕ
  pub rdata : Bytes

-- The fields that are used when a response is received.
pub record Received : Type 0 where
  pub header : Header
  pub questions : List Question
  pub answers : List ResourceRecord

abbrev pub type_a : ℕ
type_a = 1

abbrev pub type_cname : ℕ
type_cname = 5

-- A part of a name is put behind a dot, unless nothing stands before it.
abbrev pub add_part : Bytes → Bytes → Bytes
add_part name part = (if is_empty name then [] else name ++ b'.' ∷ []) ++ part

-- `while (offset != 0)`, on fuel for the pointers followed; `none` is a read past the buffer, or the
-- end of the fuel.
unfoldable pub follow : ℕ → Bytes → ℕ → Bytes → Option Bytes
follow zero buffer offset name = if offset == 0 then some name else none
follow (suc fuel) buffer offset name =
    if offset == 0
    then some name
    else (decode_domain_name (drop offset buffer) >>= λ d.
        follow fuel buffer d.offset (add_part name d.name))

-- A name at an index with the pointers behind it followed, and the number of bytes of the name.
unfoldable pub read_name : ℕ → Bytes → ℕ → Option (Bytes × ℕ)
read_name fuel buffer i = do
  d ← decode_domain_name (drop i buffer)
  name ← follow fuel buffer d.offset d.name
  some (name, d.count)

-- A byte in decimal.
unfoldable pub decimal : ℕ → Bytes
decimal n =
    if ltb n 10
    then (b'0' + n) ∷ []
    else if ltb n 100
    then (b'0' + n / 10) ∷ (b'0' + n % 10) ∷ []
    else (b'0' + n / 100) ∷ (b'0' + n / 10 % 10) ∷ (b'0' + n % 10) ∷ []

-- The bytes in decimal with dots between. With no bytes `size() - 1` wraps round, and the loop reads
-- past the end.
unfoldable pub address_text : Bytes → Option Bytes
address_text [] = none
address_text (x ∷ []) = some (decimal x)
address_text (x ∷ y ∷ ys) = (address_text (y ∷ ys) >>= λ rest. some (decimal x ++ b'.' ∷ rest))

-- The `switch` on the type: what `_text` is.
unfoldable pub record_text : ℕ → Bytes → ℕ → Bytes → Option Bytes
record_text fuel buffer type rdata =
    if type == type_a
    then address_text rdata
    else if type == type_cname
    then (decode_domain_name rdata >>= λ d. follow fuel buffer d.offset d.name)
    else some []

-- `copy_n` of the data; `none` is a read past the buffer.
unfoldable pub read_bytes : Bytes → ℕ → ℕ → Option Bytes
read_bytes buffer i n = if leb (i + n) (length buffer) then some (take n (drop i buffer)) else none

-- `readResourceRecord`: the record at an index, and the number of bytes read.
unfoldable pub read_resource_record : ℕ → Bytes → ℕ → Option (ResourceRecord × ℕ)
read_resource_record fuel buffer i = do
  n ← read_name fuel buffer i
  type ← get_16 buffer (i + n.1)
  cls ← get_16 buffer (i + n.1 + 2)
  ttl ← get_32 buffer (i + n.1 + 4)
  size ← get_16 buffer (i + n.1 + 8)
  rdata ← read_bytes buffer (i + n.1 + 10) size
  text ← record_text fuel buffer type rdata
  some (
    record { name = n.0; type = type; cls = cls; ttl = ttl; rdata = rdata; text = text },
    n.1 + 10 + size,
  )

unfoldable pub read_question : ℕ → Bytes → ℕ → Option (Question × ℕ)
read_question fuel buffer i = do
  n ← read_name fuel buffer i
  type ← get_16 buffer (i + n.1)
  cls ← get_16 buffer (i + n.1 + 2)
  some (record { name = n.0; type = type; cls = cls }, n.1 + 4)

-- The loops over the counts of the header: the items and the index behind them.
unfoldable pub read_all : {A : Type 0} → (ℕ → Option (A × ℕ)) → ℕ → ℕ → Option (List A × ℕ)
read_all read zero i = some ([], i)
read_all read (suc n) i = do
  x ← read i
  rest ← read_all read n (i + x.1)
  some (x.0 ∷ rest.0, rest.1)

-- The sections of authority and additional records: `reserve` leaves the vector empty, so that
-- storing a record at an index is out of bounds.
unfoldable pub read_none : ℕ → Option (Unit {0})
read_none zero = some tt
read_none (suc n) = none

-- `DNSResponse::decode`: the sections, and the number of bytes read.
unfoldable pub decode_response : ℕ → Bytes → Option (Received × ℕ)
decode_response fuel buffer = do
  h ← decode_header buffer
  qs ← read_all (read_question fuel buffer) h.0.q_count h.1
  rs ← read_all (read_resource_record fuel buffer) h.0.a_count qs.1
  _ ← read_none h.0.ns_count
  _ ← read_none h.0.ar_count
  some (record { header = h.0; questions = qs.0; answers = rs.0 }, rs.1)

-- `DNSResponse::encode`: the question, and one answer whose data is encoded as a domain name.
unfoldable pub encode_response : Response → Bytes
encode_response r =
    let name = encode_domain_name r.name in
    let rdata = encode_domain_name r.rdata in
    encode_header r.header
    ++ (name
        ++ (put_16 r.type
            ++ (put_16 r.cls
                ++ (name
                    ++ (put_16 r.type
                        ++ (put_16 r.cls ++ (put_32 r.ttl ++ (put_16 (length rdata) ++ rdata))))))))
