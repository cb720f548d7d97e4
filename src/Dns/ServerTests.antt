-- ===== src/Dns/ServerTests.antt =====
-- The theorems on dns/server/ at concrete records and queries.
use network_protocols.Common.{
  ◌++◌, ◌+◌, ◌<◌, ◌≤◌, ◌≡◌, refl, true, false, is_empty, if◌then◌else◌, List, [], ◌∷◌, some, Bytes,
  length, codes, bytes_eq, arith,
}
use network_protocols.Dns.Header.{qr, get_flag}
use network_protocols.Dns.Names.{encode_domain_name, encode_labels}
use network_protocols.Dns.Query.{Query, encode_query}
use network_protocols.Dns.Response.{type_a, address_text, decimal, decode_response}
use network_protocols.Dns.ResponseLaws.{IsName}
use network_protocols.Dns.Resolver.{
  Record, answer, parse_line, load_records, add_line, cut_space, find_address, before_suffix,
  ip_addr_from_qname, look_up, receive,
}
use network_protocols.Dns.Records.{Absent, line_of, find_address-load_records}
use network_protocols.Dns.Reverse.{ip_addr_from_qname-dotted}
use network_protocols.Dns.Answers.{answer_header, answers_alias}
use network_protocols.Dns.Server.{datagram, Status, run_server}
use network_protocols.Dns.Stops.{Asked, asked, answers, run_server_until}
use network_protocols.Dns.QueryLaws.{IsQuery}
use network_protocols.Dns.Client.{shown, query_id, resolve}
use network_protocols.Dns.Resolves.{served, resolve-served}
use network_protocols.Dns.Tests.{
  host, alias, host-IsName, alias-IsName, query, query-IsQuery, asking, encoded_alias_fits,
}

-- The records of the server: `cd.e` is kept for `ab`.
abbrev records : List Record
records =
    record { address = codes "1"; domain = codes "x" }
    ∷ record { address = alias; domain = host }
    ∷ []

look_up-host : look_up host records ≡ alias
unfolding find_address bytes_eq ip_addr_from_qname before_suffix
look_up-host = refl

asking_asks : get_flag qr asking ≡ false
unfolding get_flag
asking_asks = refl

found-IsName : IsName (look_up host records)
unfolding find_address bytes_eq ip_addr_from_qname before_suffix
found-IsName = alias-IsName

found_fits : length (encode_domain_name (look_up host records)) < 65536
unfolding find_address bytes_eq ip_addr_from_qname before_suffix
found_fits = encoded_alias_fits

answers_alias_example :
    (reply : Bytes) × (receive 600 records (encode_query query) ≡ answer reply)
    × ((text : Bytes) × (text ≡ look_up host records)
        × (decode_response 0 reply
            ≡ some (
              record {
                header = answer_header 7 0;
                questions = record { name = host; type = 5; cls = 1 } ∷ [];
                answers =
                    record {
                      name = host;
                      type = 5;
                      cls = 1;
                      ttl = 600;
                      rdata = encode_domain_name text;
                      text = text;
                    }
                    ∷ [];
              },
              length reply,
            )))
answers_alias_example =
    answers_alias 0 600 records query query-IsQuery host-IsName asking_asks refl found-IsName
      found_fits (omega arith)

host-Absent : Absent host (load_records (codes "1 x" ∷ []) [])
unfolding load_records add_line parse_line cut_space
host-Absent = (λ e. cc, tt)

find_address-load_records_example :
    find_address host
      (load_records (codes "1 x" ∷ line_of (codes "2") 1 97 (codes "b") ∷ codes "3 ab" ∷ []) [])
    ≡ codes "2"
find_address-load_records_example =
    find_address-load_records (codes "1 x" ∷ []) (codes "3 ab" ∷ []) (codes "2") 1 97 (codes "b")
      (omega arith) (omega arith) host-Absent

ip_addr_from_qname-dotted_example :
    ip_addr_from_qname (codes "4.3.2.1.in-addr.arpa") ≡ codes "1.2.3.4"
ip_addr_from_qname-dotted_example =
    ip_addr_from_qname-dotted (codes "4") (codes "3") (codes "2") (codes "1") (omega arith)
      (omega arith) (omega arith) (omega arith)

-- The bytes of the encoding of `cd.e`.
address_text-alias :
    address_text (encode_domain_name (look_up host records)) ≡ some (codes "2.99.100.1.101.0")
unfolding find_address bytes_eq ip_addr_from_qname before_suffix encode_domain_name encode_labels
    address_text decimal
address_text-alias = refl

reply_fits :
    26
      + length (encode_domain_name host)
      + length (encode_domain_name host)
      + length (encode_domain_name (look_up host records))
    ≤ 512
unfolding find_address bytes_eq ip_addr_from_qname before_suffix encode_domain_name encode_labels
reply_fits = omega arith

resolve-served_example :
    resolve 0 true (served 600 records) (1 ∷ []) host
    ≡ some (
        shown (record {
          header = answer_header query_id (if is_empty (look_up host records) then 3 else 0);
          questions = record { name = host; type = type_a; cls = 1 } ∷ [];
          answers =
              record {
                name = host;
                type = type_a;
                cls = 1;
                ttl = 600;
                rdata = encode_domain_name (look_up host records);
                text = codes "2.99.100.1.101.0";
              }
              ∷ [];
        }))
resolve-served_example =
    resolve-served 0 600 true records (1 ∷ []) host (codes "2.99.100.1.101.0") host-IsName
      (omega arith) address_text-alias reply_fits

-- The query `query`, and a datagram like it with the flag QR.
abbrev once : Asked
once = record {
  query = query;
  ttl = 600;
  is_query = query-IsQuery;
  is_name = host-IsName;
  asks = asking_asks;
}

abbrev response : Query
response = record query {
  header = record { id = 7; flags = 32768; q_count = 1; a_count = 0; ns_count = 0; ar_count = 0 };
}

response-IsQuery : IsQuery response
response-IsQuery = record {
  header_fits = record {
    id_fits = omega arith;
    flags_fits = omega arith;
    q_fits = omega arith;
    a_fits = omega arith;
    ns_fits = omega arith;
    ar_fits = omega arith;
  };
  type_fits = omega arith;
  cls_fits = omega arith;
}

has_qr : get_flag qr response.header ≡ true
unfolding get_flag
has_qr = refl

run_server_until_example :
    (run_server records (asked (once ∷ []))
      ≡ record { replies = answers records (once ∷ []); status = Status.waits })
    × (run_server records
          (asked (once ∷ []) ++ datagram (encode_query response) 600 true ∷ asked (once ∷ []))
        ≡ record { replies = answers records (once ∷ []); status = Status.idle })
run_server_until_example =
    run_server_until records (once ∷ []) response 600 true (asked (once ∷ [])) response-IsQuery
      host-IsName has_qr
