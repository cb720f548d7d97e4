-- ===== src/Dns/Sections.antt =====
-- The sections of a response: a question and a record are read back where they stand.
use network_protocols.Common.{
  ℕ, ◌+◌, ◌<◌, ◌≡◌, sym, ◌∙◌, ap, ◌++◌, append_assoc, some, Bytes, length, length-append, arith,
}
use network_protocols.Dns.Header.{put_16, put_32, get_16, get_32}
use network_protocols.Dns.Names.{encode_domain_name}
use network_protocols.Dns.QueryLaws.{get_16-append}
use network_protocols.Dns.Response.{
  read_name, read_question, read_resource_record, record_text, read_bytes,
}
use network_protocols.Dns.ResponseLaws.{IsName, read_name-append, get_32-append, read_bytes-append}

-- The fixed part of a question and of a record, at an index behind `pre`.
module _ (fuel : ℕ) (pre name : Bytes) (type cls i : ℕ) (at : i ≡ length pre)
    (is_name : IsName name) (type_fits : type < 65536) (cls_fits : cls < 65536) where
  abbrev size : ℕ
  size = length (encode_domain_name name)

  abbrev pub start : Bytes → Bytes
  start rest = pre ++ (encode_domain_name name ++ (put_16 type ++ (put_16 cls ++ rest)))

  abbrev pub before : Bytes
  before = ((pre ++ encode_domain_name name) ++ put_16 type) ++ put_16 cls

  pub start-before : (rest : Bytes) → start rest ≡ before ++ rest
  start-before rest =
      sym (append_assoc pre (encode_domain_name name) (put_16 type ++ (put_16 cls ++ rest)))
      ∙ sym (append_assoc (pre ++ encode_domain_name name) (put_16 type) (put_16 cls ++ rest))
      ∙ sym (append_assoc ((pre ++ encode_domain_name name) ++ put_16 type) (put_16 cls) rest)

  pub length-before : length before ≡ length pre + size + 4
  length-before = omega (
    arith,
    length-append ((pre ++ encode_domain_name name) ++ put_16 type) (put_16 cls),
    length-append (pre ++ encode_domain_name name) (put_16 type),
    length-append pre (encode_domain_name name),
  )

  get_type : (rest : Bytes) → get_16 (start rest) (i + size) ≡ some type
  get_type rest =
      ap (λ b. get_16 b (i + size))
        (sym (append_assoc pre (encode_domain_name name) (put_16 type ++ (put_16 cls ++ rest))))
      ∙ get_16-append (pre ++ encode_domain_name name) (put_16 cls ++ rest) type (i + size)
          type_fits (omega (arith, length-append pre (encode_domain_name name)))

  get_cls : (rest : Bytes) → get_16 (start rest) (i + size + 2) ≡ some cls
  get_cls rest =
      ap (λ b. get_16 b (i + size + 2))
        (sym (append_assoc pre (encode_domain_name name) (put_16 type ++ (put_16 cls ++ rest)))
          ∙ sym (append_assoc (pre ++ encode_domain_name name) (put_16 type) (put_16 cls ++ rest)))
      ∙ get_16-append ((pre ++ encode_domain_name name) ++ put_16 type) rest cls (i + size + 2)
          cls_fits
          (omega (
            arith,
            length-append pre (encode_domain_name name),
            length-append (pre ++ encode_domain_name name) (put_16 type),
          ))

  get_name : (rest : Bytes) → read_name fuel (start rest) i ≡ some (name, size)
  get_name rest = read_name-append fuel pre (put_16 type ++ (put_16 cls ++ rest)) i at name is_name

  pub read_question-append :
      (rest : Bytes)
      → read_question fuel (start rest) i
        ≡ some (record { name = name; type = type; cls = cls }, size + 4)
  unfolding read_question
  read_question-append rest = rw (get_name rest) (rw (get_type rest) (rw (get_cls rest)))

  module _ (ttl : ℕ) (rdata text : Bytes) (ttl_fits : ttl < 4294967296)
      (rdata_fits : length rdata < 65536) where
    abbrev pub record_at : Bytes → Bytes
    record_at rest = start (put_32 ttl ++ (put_16 (length rdata) ++ (rdata ++ rest)))

    pub read_resource_record-append :
        (rest : Bytes)
        → record_text fuel (record_at rest) type rdata ≡ some text
        → read_resource_record fuel (record_at rest) i
          ≡ some (
            record { name = name; type = type; cls = cls; ttl = ttl; rdata = rdata; text = text },
            size + 10 + length rdata,
          )
    unfolding read_resource_record
    read_resource_record-append rest t =
        let buffer = record_at rest in
        let sized = put_16 (length rdata) ++ (rdata ++ rest) in
        let b1 = start-before (put_32 ttl ++ sized) in
        let b2 = b1 ∙ sym (append_assoc before (put_32 ttl) sized) in
        let b3 =
          b2 ∙ sym (append_assoc (before ++ put_32 ttl) (put_16 (length rdata)) (rdata ++ rest)) in
        let l2 = length-append before (put_32 ttl) in
        let l3 = length-append (before ++ put_32 ttl) (put_16 (length rdata)) in
        let get_ttl : get_32 buffer (i + size + 4) ≡ some ttl =
          ap (λ b. get_32 b (i + size + 4)) b1
          ∙ get_32-append fuel before sized (i + size + 4) (omega (arith, length-before)) ttl
              ttl_fits in
        let get_size : get_16 buffer (i + size + 8) ≡ some (length rdata) =
          ap (λ b. get_16 b (i + size + 8)) b2
          ∙ get_16-append (before ++ put_32 ttl) (rdata ++ rest) (length rdata) (i + size + 8)
              rdata_fits (omega (arith, length-before, l2)) in
        let get_data : read_bytes buffer (i + size + 10) (length rdata) ≡ some rdata =
          ap (λ b. read_bytes b (i + size + 10) (length rdata)) b3
          ∙ read_bytes-append fuel ((before ++ put_32 ttl) ++ put_16 (length rdata)) rest
              (i + size + 10) (omega (arith, length-before, l2, l3)) rdata in
        rw (get_name _)
          (rw (get_type _) (rw (get_cls _) (rw get_ttl (rw get_size (rw get_data (rw t))))))
