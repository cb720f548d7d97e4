-- ===== src/Dns/RoundTrip.antt =====
-- A response of `DNSResponse::encode` as `DNSResponse::decode` reads it.
use network_protocols.Common.{
  ℕ, ◌+◌, ◌<◌, ◌≡◌, sym, ◌∙◌, ap, [], ◌∷◌, ◌++◌, append-nil, append_assoc, Option, some, Bytes,
  length, length-append, arith,
}
use network_protocols.Dns.Header.{Header, encode_header, decode_header, put_16, put_32}
use network_protocols.Dns.Names.{Decoded, encode_domain_name, decode_domain_name}
use network_protocols.Dns.NameLaws.{decode-encode_domain_name}
use network_protocols.Dns.QueryLaws.{IsHeader, decode-encode_header, length-encode_header}
use network_protocols.Dns.Response.{
  Question, ResourceRecord, Response, Received, type_a, type_cname, address_text, read_question,
  read_resource_record, record_text, read_all, read_none, decode_response, encode_response,
}
use network_protocols.Dns.ResponseLaws.{IsName, follow_zero}
use network_protocols.Dns.Sections.{
  start-before, length-before, read_question-append, read_resource_record-append,
}

-- The counts of the sections are those that `DNSResolver::process` sets, and every number fits its
-- field.
pub record IsResponse (r : Response) : Type 0 where
  pub header_fits : IsHeader r.header
  pub one_question : r.header.q_count ≡ 1
  pub one_answer : r.header.a_count ≡ 1
  pub no_authority : r.header.ns_count ≡ 0
  pub no_additional : r.header.ar_count ≡ 0
  pub is_name : IsName r.name
  pub type_fits : r.type < 65536
  pub cls_fits : r.cls < 65536
  pub ttl_fits : r.ttl < 4294967296
  pub rdata_fits : length (encode_domain_name r.rdata) < 65536

abbrev pub question_of : Response → Question
question_of r = record { name = r.name; type = r.type; cls = r.cls }

abbrev pub record_of : Response → Bytes → ResourceRecord
record_of r text = record {
  name = r.name;
  type = r.type;
  cls = r.cls;
  ttl = r.ttl;
  rdata = encode_domain_name r.rdata;
  text = text;
}

read_all_one :
    {A : Type 0} (read : ℕ → Option (A × ℕ)) (c i n : ℕ) (x : A)
    → c ≡ 1
    → read i ≡ some (x, n)
    → read_all read c i ≡ some (x ∷ [], i + n)
unfolding read_all
read_all_one read c i n x e h = rw (e, h)

read_none_zero : (c : ℕ) → c ≡ 0 → read_none c ≡ some tt
unfolding read_none
read_none_zero c e = rw e

decode_response_parts :
    (fuel : ℕ) (buffer : Bytes) (h : Header) (q : Question) (a : ResourceRecord) (m n : ℕ)
    → h.q_count ≡ 1
    → h.a_count ≡ 1
    → h.ns_count ≡ 0
    → h.ar_count ≡ 0
    → decode_header buffer ≡ some (h, 12)
    → read_question fuel buffer 12 ≡ some (q, m)
    → read_resource_record fuel buffer (12 + m) ≡ some (a, n)
    → decode_response fuel buffer
      ≡ some (record { header = h; questions = q ∷ []; answers = a ∷ [] }, 12 + m + n)
unfolding decode_response
decode_response_parts fuel buffer h q a m n e1 e2 e3 e4 eh eq ea = rw (
  eh,
  read_all_one _ h.q_count 12 m q e1 eq,
  read_all_one _ h.a_count (12 + m) n a e2 ea,
  read_none_zero h.ns_count e3,
  read_none_zero h.ar_count e4,
)

encode_response-append :
    (r : Response) (rest : Bytes)
    → encode_response r ++ rest
      ≡ encode_header r.header
        ++ (encode_domain_name r.name
            ++ (put_16 r.type
                ++ (put_16 r.cls
                    ++ (encode_domain_name r.name
                        ++ (put_16 r.type
                            ++ (put_16 r.cls
                                ++ (put_32 r.ttl
                                    ++ (put_16 (length (encode_domain_name r.rdata))
                                        ++ (encode_domain_name r.rdata ++ rest)))))))))
unfolding encode_response encode_header
encode_response-append r rest =
    let name = encode_domain_name r.name in
    let rdata = encode_domain_name r.rdata in
    let fixed = put_32 r.ttl ++ (put_16 (length rdata) ++ rdata) in
    let answer = name ++ (put_16 r.type ++ (put_16 r.cls ++ fixed)) in
    ap (λ x. encode_header r.header ++ x)
      (append_assoc name (put_16 r.type ++ (put_16 r.cls ++ answer)) rest
        ∙ ap (λ x. name ++ (put_16 r.type ++ (put_16 r.cls ++ x)))
            (append_assoc name (put_16 r.type ++ (put_16 r.cls ++ fixed)) rest))

-- What is read of a response whose answer's data as text is `text`, and the number of bytes read.
abbrev pub read_back : Response → Bytes → Received × ℕ
read_back r text = (
  record { header = r.header; questions = question_of r ∷ []; answers = record_of r text ∷ [] },
  length (encode_response r),
)

-- A response is read back whatever stands behind it.
pub decode-encode_as :
    (fuel : ℕ) (r : Response) (text rest : Bytes)
    → IsResponse r
    → ((buffer : Bytes) → record_text fuel buffer r.type (encode_domain_name r.rdata) ≡ some text)
    → decode_response fuel (encode_response r ++ rest) ≡ some (read_back r text)
decode-encode_as fuel r text rest ok t =
    let head = encode_header r.header in
    let name = encode_domain_name r.name in
    let rdata = encode_domain_name r.rdata in
    let buffer = encode_response r ++ rest in
    let at_head : 12 ≡ length head = sym (length-encode_header r.header) in
    let tail = put_32 r.ttl ++ (put_16 (length rdata) ++ (rdata ++ rest)) in
    let answer = name ++ (put_16 r.type ++ (put_16 r.cls ++ tail)) in
    let front = ((head ++ name) ++ put_16 r.type) ++ put_16 r.cls in
    let opened = encode_response-append r rest in
    let question =
      read_question-append fuel head r.name r.type r.cls 12 at_head ok.is_name ok.type_fits
        ok.cls_fits answer in
    let moved : buffer ≡ front ++ answer =
      opened
      ∙ start-before fuel head r.name r.type r.cls 12 at_head ok.is_name ok.type_fits ok.cls_fits
          answer in
    let m = length name + 4 in
    let lf =
      length-before fuel head r.name r.type r.cls 12 at_head ok.is_name ok.type_fits ok.cls_fits in
    let at_answer : 12 + m ≡ length front = omega (arith, lf, at_head) in
    let record_there =
      read_resource_record-append fuel front r.name r.type r.cls (12 + m) at_answer ok.is_name
        ok.type_fits ok.cls_fits r.ttl rdata text ok.ttl_fits ok.rdata_fits rest (t _) in
    let n = length name + 10 + length rdata in
    let size : 12 + m + n ≡ length (encode_response r) = omega (
      arith,
      ap length moved,
      length-append (encode_response r) rest,
      length-append front answer,
      length-append name (put_16 r.type ++ (put_16 r.cls ++ tail)),
      length-append rdata rest,
      lf,
      at_head,
    ) in
    decode_response_parts fuel buffer r.header (question_of r) (record_of r text) m n
      ok.one_question ok.one_answer ok.no_authority ok.no_additional
      (ap decode_header opened ∙ decode-encode_header r.header _ ok.header_fits)
      (ap (λ b. read_question fuel b 12) opened ∙ question)
      (ap (λ b. read_resource_record fuel b (12 + m)) moved ∙ record_there)
    ∙ ap
        (λ k. some (
          record {
            header = r.header;
            questions = question_of r ∷ [];
            answers = record_of r text ∷ [];
          },
          k,
        ))
        size

decode-encode_alone :
    (fuel : ℕ) (r : Response) (text : Bytes)
    → IsResponse r
    → ((buffer : Bytes) → record_text fuel buffer r.type (encode_domain_name r.rdata) ≡ some text)
    → decode_response fuel (encode_response r) ≡ some (read_back r text)
decode-encode_alone fuel r text ok t =
    ap (decode_response fuel) (sym (append-nil (encode_response r)))
    ∙ decode-encode_as fuel r text [] ok t

-- An answer of type CNAME that `DNSResponse::encode` writes is read back by `DNSResponse::decode`
-- with its question, and the text of the answer is the name it was given.
pub decode-encode_alias :
    (fuel : ℕ) (r : Response)
    → IsResponse r
    → r.type ≡ type_cname
    → IsName r.rdata
    → decode_response fuel (encode_response r)
      ≡ some (
        record {
          header = r.header;
          questions = question_of r ∷ [];
          answers = record_of r r.rdata ∷ [];
        },
        length (encode_response r),
      )
unfolding record_text
decode-encode_alias fuel r ok e n =
    let alias = encode_domain_name r.rdata in
    let d : Decoded = record { count = length alias; name = r.rdata; offset = 0 } in
    let read : decode_domain_name alias ≡ some d =
      ap decode_domain_name (sym (append-nil alias))
      ∙ rw n.is_join
          ((decode-encode_domain_name n.first n.others [] n.first_label n.other_labels).0) in
    decode-encode_alone fuel r r.rdata ok (λ buffer. rw (e, read) (follow_zero fuel buffer r.rdata))

-- An answer of type A that `DNSResponse::encode` writes is read back with its question, and the text
-- of the answer is the bytes of the encoded name in decimal, since the address was encoded as a name.
pub decode-encode_address :
    (fuel : ℕ) (r : Response) (text : Bytes)
    → IsResponse r
    → r.type ≡ type_a
    → address_text (encode_domain_name r.rdata) ≡ some text
    → decode_response fuel (encode_response r)
      ≡ some (
        record {
          header = r.header;
          questions = question_of r ∷ [];
          answers = record_of r text ∷ [];
        },
        length (encode_response r),
      )
unfolding record_text
decode-encode_address fuel r text ok e h = decode-encode_alone fuel r text ok (λ buffer. rw (e, h))
