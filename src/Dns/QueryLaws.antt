-- ===== src/Dns/QueryLaws.antt =====
-- A query is read back from its encoding.
use network_protocols.Common.{
  ℕ, suc, ◌+◌, ◌*◌, ◌/◌, ◌%◌, ◌<◌, ◌≡◌, refl, sym, ◌∙◌, ap, ap₂, List, [], ◌∷◌, ◌++◌, append_assoc,
  some, Bytes, length, length-append, drop, get_elem?, ◌>>=◌, arith,
}
use network_protocols.Dns.Header.{Header, encode_header, decode_header, put_16, get_16}
use network_protocols.Dns.Names.{Decoded, encode_domain_name, decode_name}
use network_protocols.Dns.NameLaws.{IsLabel, AllLabels, join, decode-encode_domain_name}
use network_protocols.Dns.Query.{Query, encode_query, decode_query}

-- Every field of a header is a `std::uint16_t`.
pub record IsHeader (h : Header) : Type 0 where
  pub id_fits : h.id < 65536
  pub flags_fits : h.flags < 65536
  pub q_fits : h.q_count < 65536
  pub a_fits : h.a_count < 65536
  pub ns_fits : h.ns_count < 65536
  pub ar_fits : h.ar_count < 65536

word_parts : (n : ℕ) → n < 65536 → n / 256 % 256 * 256 + n % 256 ≡ n
word_parts n h = omega arith

-- A header is read back from its twelve bytes, whatever stands behind them.
pub decode-encode_header :
    (h : Header) (rest : Bytes)
    → IsHeader h
    → decode_header (encode_header h ++ rest) ≡ some (h, 12)
unfolding decode_header encode_header
decode-encode_header h rest i = rw (
  word_parts h.id i.id_fits,
  word_parts h.flags i.flags_fits,
  word_parts h.q_count i.q_fits,
  word_parts h.a_count i.a_fits,
  word_parts h.ns_count i.ns_fits,
  word_parts h.ar_count i.ar_fits,
)

get_elem?-append : (xs ys : Bytes) (i : ℕ) → get_elem? (xs ++ ys) (length xs + i) ≡ get_elem? ys i
get_elem?-append [] ys i = ap (get_elem? ys) (omega arith)
get_elem?-append (x ∷ xs) ys i =
    let e : suc (length xs) + i ≡ suc (length xs + i) = omega arith in
    ap (get_elem? ((x ∷ xs) ++ ys)) e ∙ get_elem?-append xs ys i

-- A word behind `xs`.
pub get_16-append :
    (xs rest : Bytes) (n i : ℕ)
    → n < 65536
    → i ≡ length xs
    → get_16 (xs ++ (put_16 n ++ rest)) i ≡ some n
unfolding get_16
get_16-append xs rest n i h e =
    let a = get_elem?-append xs (put_16 n ++ rest) 0 in
    let b = get_elem?-append xs (put_16 n ++ rest) 1 in
    let e0 : i ≡ length xs + 0 = omega arith in
    let e1 : suc i ≡ length xs + 1 = omega arith in
    let buffer = xs ++ (put_16 n ++ rest) in
    ap₂ (λ hi lo. hi >>= λ x. lo >>= λ y. some (x * 256 + y)) (ap (get_elem? buffer) e0 ∙ a)
      (ap (get_elem? buffer) e1 ∙ b)
    ∙ ap some (word_parts n h)

pub record IsQuery (q : Query) : Type 0 where
  pub header_fits : IsHeader q.header
  pub type_fits : q.type < 65536
  pub cls_fits : q.cls < 65536

pub length-encode_header : (h : Header) → length (encode_header h) ≡ 12
unfolding encode_header
length-encode_header h = refl

decode_query_parts :
    (buffer : Bytes) (h : Header) (d : Decoded) (type cls : ℕ)
    → decode_header buffer ≡ some (h, 12)
    → decode_name (drop 12 buffer) ≡ some d
    → get_16 buffer (12 + d.count) ≡ some type
    → get_16 buffer (12 + d.count + 2) ≡ some cls
    → decode_query buffer
      ≡ some (record { header = h; name = d.name; type = type; cls = cls }, 12 + d.count + 4)
unfolding decode_query
decode_query_parts buffer h d type cls eh en et ec = rw eh (rw en (rw et (rw ec)))

-- `DNSQuery::decode` reads back what `DNSQuery::encode` writes, and as many bytes, for a name of
-- labels and whatever follows the message.
pub decode-encode_query :
    (q : Query) (l : Bytes) (ls : List Bytes) (rest : Bytes)
    → IsQuery q
    → q.name ≡ join l ls
    → IsLabel l
    → AllLabels ls
    → decode_query (encode_query q ++ rest) ≡ some (q, length (encode_query q))
unfolding encode_query encode_header
decode-encode_query q l ls rest i n il is =
    let head = encode_header q.header in
    let name = encode_domain_name q.name in
    let tail = put_16 q.cls ++ rest in
    let d : Decoded = record { count = length name; name = q.name; offset = 0 } in
    let buffer = encode_query q ++ rest in
    let at_name : decode_name (name ++ (put_16 q.type ++ tail)) ≡ some d =
      rw n ((decode-encode_domain_name l ls (put_16 q.type ++ tail) il is).1) in
    let b : name ++ (put_16 q.type ++ put_16 q.cls) ++ rest ≡ name ++ (put_16 q.type ++ tail) =
      append_assoc name (put_16 q.type ++ put_16 q.cls) rest in
    let t : buffer ≡ (head ++ name) ++ (put_16 q.type ++ tail) = ap (λ x. head ++ x) b in
    let c : buffer ≡ ((head ++ name) ++ put_16 q.type) ++ tail =
      t ∙ sym (append_assoc (head ++ name) (put_16 q.type) tail) in
    decode_query_parts buffer q.header d q.type q.cls
      (decode-encode_header q.header _ i.header_fits) (ap decode_name b ∙ at_name)
      (ap (λ x. get_16 x (12 + length name)) t
        ∙ get_16-append (head ++ name) tail q.type (12 + length name) i.type_fits (omega arith))
      (ap (λ x. get_16 x (12 + length name + 2)) c
        ∙ get_16-append ((head ++ name) ++ put_16 q.type) rest q.cls (12 + length name + 2)
            i.cls_fits (omega (arith, length-append (head ++ name) (put_16 q.type))))
    ∙ ap (λ k. some (q, k)) (omega (arith, length-append name (put_16 q.type ++ put_16 q.cls)))
