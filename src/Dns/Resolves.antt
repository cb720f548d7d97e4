-- ===== src/Dns/Resolves.antt =====
-- The client of dns/client/ joined to the server of dns/server/.
use network_protocols.Common.{
  ℕ, ◌+◌, ◌<◌, ◌≤◌, ◌≡◌, refl, ◌∙◌, ap, Bool, true, false, List, [], ◌∷◌, ◌++◌, Option, none, some,
  Bytes, length, length-append, drop, take_of_short, is_empty, if◌then◌else◌, ◌>>=◌, arith,
}
use network_protocols.Dns.Header.{qr, get_flag, set_flag, put_16, put_32, encode_header}
use network_protocols.Dns.Names.{encode_domain_name}
use network_protocols.Dns.Query.{encode_query, set_use_recursion}
use network_protocols.Dns.QueryLaws.{IsQuery}
use network_protocols.Dns.Response.{
  Response, type_a, address_text, record_text, decode_response, encode_response,
}
use network_protocols.Dns.ResponseLaws.{IsName}
use network_protocols.Dns.RoundTrip.{decode-encode_as}
use network_protocols.Dns.Resolver.{Record, Reaction, overrun, not_query, answer, look_up, receive}
use network_protocols.Dns.Answers.{answer_header, receive-encode_query, process_of_code}
use network_protocols.Dns.Client.{shown, query_id, query_of, recv_buffer, outcome, resolve}

-- What the server sends for a datagram, if it does.
abbrev reply_of : Reaction → Option Bytes
reply_of (answer d) = some d
reply_of overrun = none
reply_of not_query = none

abbrev pub served : ℕ → List Record → Bytes → Option Bytes
served ttl records d = reply_of (receive ttl records d)

query_of-IsQuery : (use_recursion : Bool) (addr : Bytes) → IsQuery (query_of use_recursion addr)
unfolding query_of set_use_recursion set_flag
query_of-IsQuery true addr = record {
  header_fits = record {
    id_fits = omega arith;
    flags_fits = omega arith;
    q_fits = omega arith;
    a_fits = omega arith;
    ns_fits = omega arith;
    ar_fits = omega arith;
  };
  type_fits = omega arith;
  cls_fits = omega arith;
}
query_of-IsQuery false addr = record {
  header_fits = record {
    id_fits = omega arith;
    flags_fits = omega arith;
    q_fits = omega arith;
    a_fits = omega arith;
    ns_fits = omega arith;
    ar_fits = omega arith;
  };
  type_fits = omega arith;
  cls_fits = omega arith;
}

query_of_asks :
    (use_recursion : Bool) (addr : Bytes) → get_flag qr (query_of use_recursion addr).header ≡ false
unfolding query_of set_use_recursion set_flag get_flag
query_of_asks true addr = refl
query_of_asks false addr = refl

-- The response of the server to the client's query.
abbrev pub reply_for : ℕ → List Record → Bytes → Response
reply_for ttl records addr = record {
  header = answer_header query_id (if is_empty (look_up addr records) then 3 else 0);
  name = addr;
  type = type_a;
  cls = 1;
  ttl = ttl;
  rdata = look_up addr records;
}

served_reply :
    (use_recursion : Bool) (ttl : ℕ) (records : List Record) (addr : Bytes)
    → IsName addr
    → served ttl records (encode_query (query_of use_recursion addr))
      ≡ some (encode_response (reply_for ttl records addr))
unfolding query_of set_use_recursion set_flag
served_reply true ttl records addr n = ap reply_of (
    receive-encode_query ttl records (query_of true addr) (query_of-IsQuery true addr) n
      (query_of_asks true addr)
    ∙ ap (λ r. answer (encode_response r))
        (process_of_code ttl records (query_of true addr) _ refl))
served_reply false ttl records addr n = ap reply_of (
    receive-encode_query ttl records (query_of false addr) (query_of-IsQuery false addr) n
      (query_of_asks false addr)
    ∙ ap (λ r. answer (encode_response r))
        (process_of_code ttl records (query_of false addr) _ refl))

length-encode_response :
    (r : Response)
    → length (encode_response r)
      ≡ 26
        + length (encode_domain_name r.name)
        + length (encode_domain_name r.name)
        + length (encode_domain_name r.rdata)
unfolding encode_response encode_header
length-encode_response r =
    let name = encode_domain_name r.name in
    let rdata = encode_domain_name r.rdata in
    let fixed = put_32 r.ttl ++ (put_16 (length rdata) ++ rdata) in
    omega (
      arith,
      length-append name
          (put_16 r.type ++ (put_16 r.cls ++ (name ++ (put_16 r.type ++ (put_16 r.cls ++ fixed))))),
      length-append name (put_16 r.type ++ (put_16 r.cls ++ fixed)),
    )

recv_buffer_short :
    (d stale : Bytes) → length d ≤ 512 → recv_buffer d stale ≡ d ++ drop (length d) stale
recv_buffer_short d stale h = ap (λ x. x ++ drop (length x) stale) (take_of_short 512 d h)

-- A client that resolves a name by the server's resolver is shown a response to its question, with
-- one record of type A: the code is 3 if the server's records do not hold the name and 0 otherwise;
-- and the text of the record is not the address that they hold but the bytes, in decimal, of its
-- encoding as a domain name. The response is to fit in the client's buffer of 512 bytes, whatever
-- that held before.
pub resolve-served :
    (fuel ttl : ℕ) (use_recursion : Bool) (records : List Record) (stale addr text : Bytes)
    → IsName addr
    → ttl < 4294967296
    → address_text (encode_domain_name (look_up addr records)) ≡ some text
    → 26
        + length (encode_domain_name addr)
        + length (encode_domain_name addr)
        + length (encode_domain_name (look_up addr records))
      ≤ 512
    → resolve fuel use_recursion (served ttl records) stale addr
      ≡ some (
          shown (record {
            header = answer_header query_id (if is_empty (look_up addr records) then 3 else 0);
            questions = record { name = addr; type = type_a; cls = 1 } ∷ [];
            answers =
                record {
                  name = addr;
                  type = type_a;
                  cls = 1;
                  ttl = ttl;
                  rdata = encode_domain_name (look_up addr records);
                  text = text;
                }
                ∷ [];
          }))
unfolding resolve record_text
resolve-served fuel ttl use_recursion records stale addr text n t e fits =
    let r = reply_for ttl records addr in
    let d = encode_response r in
    let short : length d ≤ 512 = omega (arith, length-encode_response r) in
    rw (resolve, served_reply use_recursion ttl records addr n)
      (ap (λ b. decode_response fuel b >>= λ x. some (outcome x.0))
          (recv_buffer_short d stale short)
        ∙ ap (λ o. o >>= λ x. some (outcome x.0))
            (decode-encode_as fuel r text (drop (length d) stale)
              (record {
                header_fits = record {
                  id_fits = omega arith;
                  flags_fits = code_fits (is_empty (look_up addr records));
                  q_fits = omega arith;
                  a_fits = omega arith;
                  ns_fits = omega arith;
                  ar_fits = omega arith;
                };
                one_question = refl;
                one_answer = refl;
                no_authority = refl;
                no_additional = refl;
                is_name = n;
                type_fits = omega arith;
                cls_fits = omega arith;
                ttl_fits = t;
                rdata_fits = omega (arith, fits);
              })
              (λ buffer. e)))
  where
    code_fits : (missing : Bool) → 32768 + (if missing then 3 else 0) < 65536
    code_fits true = omega arith
    code_fits false = omega arith
