-- ===== src/Dns/Answers.antt =====
-- What a client that asks with `DNSQuery::encode` reads in the datagram that `DNSServer::receive`
-- sends.
use network_protocols.Common.{
  ℕ, ◌+◌, ◌<◌, ◌≡◌, refl, sym, ◌∙◌, ap, Bool, true, false, List, [], ◌∷◌, ◌++◌, append-nil, some,
  Bytes, length, is_empty, if◌then◌else◌, arith,
}
use network_protocols.Dns.Header.{
  Header, decode_header, qr, get_flag, set_flag, set_field_rcode, new_header,
}
use network_protocols.Dns.Names.{encode_domain_name}
use network_protocols.Dns.Query.{Query, encode_query, decode_query}
use network_protocols.Dns.QueryLaws.{IsQuery, decode-encode_query, decode-encode_header}
use network_protocols.Dns.Response.{Response, type_cname, decode_response, encode_response}
use network_protocols.Dns.NameLaws.{join_rest}
use network_protocols.Dns.ResponseLaws.{IsName}
use network_protocols.Dns.RoundTrip.{IsResponse, decode-encode_alias}
use network_protocols.Dns.Resolver.{Record, answer, react, look_up, process, receive}

-- The response before `process`.
abbrev pub fresh : ℕ → Response
fresh ttl = record {
  header = new_header 0 true;
  name = [];
  type = 0;
  cls = 0;
  ttl = ttl;
  rdata = [];
}

-- The header of an answer to a query of this identifier: QR set, and the code.
abbrev pub answer_header : ℕ → ℕ → Header
answer_header id rcode = record {
  id = id;
  flags = 32768 + rcode;
  q_count = 1;
  a_count = 1;
  ns_count = 0;
  ar_count = 0;
}

pub receive-encode_query :
    (ttl : ℕ) (records : List Record) (q : Query)
    → IsQuery q
    → IsName q.name
    → get_flag qr q.header ≡ false
    → receive ttl records (encode_query q)
      ≡ answer (encode_response (process records q (fresh ttl)))
unfolding receive
receive-encode_query ttl records q ok n asks =
    let read : decode_query (encode_query q) ≡ some (q, length (encode_query q)) =
      ap decode_query (sym (append-nil (encode_query q)))
      ∙ decode-encode_query q n.first n.others [] ok n.is_join n.first_label n.other_labels in
    ap (react ttl records) read ∙ rw asks

set_field_rcode_answer :
    (id : ℕ) (missing : Bool)
    → set_field_rcode
        (if missing then 3 else 0)
        (record (new_header 0 true) { id = id; q_count = 1; a_count = 1 })
      ≡ answer_header id (if missing then 3 else 0)
unfolding set_field_rcode new_header set_flag
set_field_rcode_answer id true = refl
set_field_rcode_answer id false = refl

header-process :
    (ttl : ℕ) (records : List Record) (q : Query)
    → (process records q (fresh ttl)).header
      ≡ answer_header q.header.id (if is_empty (look_up q.name records) then 3 else 0)
unfolding process
header-process ttl records q =
    set_field_rcode_answer q.header.id (is_empty (look_up q.name records))

-- The response of `process`.
abbrev pub response_to : ℕ → Query → ℕ → Bytes → Response
response_to ttl q rcode text = record {
  header = answer_header q.header.id rcode;
  name = q.name;
  type = q.type;
  cls = q.cls;
  ttl = ttl;
  rdata = text;
}

pub process_of_code :
    (ttl : ℕ) (records : List Record) (q : Query) (code : ℕ)
    → (if is_empty (look_up q.name records) then 3 else 0) ≡ code
    → process records q (fresh ttl) ≡ response_to ttl q code (look_up q.name records)
unfolding process
process_of_code ttl records q code e =
    ap
      (λ h. record {
        header = h;
        name = q.name;
        type = q.type;
        cls = q.cls;
        ttl = ttl;
        rdata = look_up q.name records;
      })
      (header-process ttl records q ∙ ap (answer_header q.header.id) e)

append-IsName : (first rest : Bytes) → 0 < length first → is_empty (first ++ rest) ≡ false
append-IsName [] rest h = absurd (omega arith)
append-IsName (c ∷ cs) rest h = refl

IsName-nonempty : (s : Bytes) → IsName s → is_empty s ≡ false
IsName-nonempty s n =
    rw n.is_join (append-IsName n.first (join_rest n.others) n.first_label.nonempty)

-- A client that encodes a query of type CNAME, sends it to the server and decodes the answer reads
-- its own identifier and question, the code 0, and one record whose text is what the server's
-- records hold for the name.
pub answers_alias :
    (fuel ttl : ℕ) (records : List Record) (q : Query)
    → IsQuery q
    → IsName q.name
    → get_flag qr q.header ≡ false
    → q.type ≡ type_cname
    → IsName (look_up q.name records)
    → length (encode_domain_name (look_up q.name records)) < 65536
    → ttl < 4294967296
    → (reply : Bytes) × (receive ttl records (encode_query q) ≡ answer reply)
      × ((text : Bytes) × (text ≡ look_up q.name records)
          × (decode_response fuel reply
              ≡ some (
                record {
                  header = answer_header q.header.id 0;
                  questions = record { name = q.name; type = q.type; cls = q.cls } ∷ [];
                  answers =
                      record {
                        name = q.name;
                        type = q.type;
                        cls = q.cls;
                        ttl = ttl;
                        rdata = encode_domain_name text;
                        text = text;
                      }
                      ∷ [];
                },
                length reply,
              )))
answers_alias fuel ttl records q ok n asks e found fits ttl_fits =
    let text = look_up q.name records in
    let r = response_to ttl q 0 text in
    let same : process records q (fresh ttl) ≡ r =
      process_of_code ttl records q 0 (rw (IsName-nonempty text found)) in
    let is_response : IsResponse r = record {
      header_fits = record {
        id_fits = ok.header_fits.id_fits;
        flags_fits = omega arith;
        q_fits = omega arith;
        a_fits = omega arith;
        ns_fits = omega arith;
        ar_fits = omega arith;
      };
      one_question = refl;
      one_answer = refl;
      no_authority = refl;
      no_additional = refl;
      is_name = n;
      type_fits = ok.type_fits;
      cls_fits = ok.cls_fits;
      ttl_fits = ttl_fits;
      rdata_fits = fits;
    } in
    (
      encode_response r,
      receive-encode_query ttl records q ok n asks ∙ ap (λ x. answer (encode_response x)) same,
      (text, refl, decode-encode_alias fuel r is_response e found),
    )

-- A client that asks for a name that the server's records do not hold reads the code 3, and its own
-- identifier.
pub answers_missing :
    (ttl : ℕ) (records : List Record) (q : Query)
    → IsQuery q
    → IsName q.name
    → get_flag qr q.header ≡ false
    → look_up q.name records ≡ []
    → (reply : Bytes) × (receive ttl records (encode_query q) ≡ answer reply)
      × (decode_header reply ≡ some (answer_header q.header.id 3, 12))
unfolding encode_response
answers_missing ttl records q ok n asks missing =
    let r = response_to ttl q 3 [] in
    let same : process records q (fresh ttl) ≡ r =
      process_of_code ttl records q 3 (rw missing) ∙ ap (response_to ttl q 3) missing in
    (
      encode_response r,
      receive-encode_query ttl records q ok n asks ∙ ap (λ x. answer (encode_response x)) same,
      decode-encode_header r.header _ (record {
        id_fits = ok.header_fits.id_fits;
        flags_fits = omega arith;
        q_fits = omega arith;
        a_fits = omega arith;
        ns_fits = omega arith;
        ar_fits = omega arith;
      }),
    )
