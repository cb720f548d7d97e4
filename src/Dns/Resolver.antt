-- ===== src/Dns/Resolver.antt =====
-- `DNSResolver` of dns/server/dns_resolver.cpp, and what `DNSServer::receive` does with a datagram.
use network_protocols.Common.{
  ℕ, Bool, true, false, ◌||◌, ◌&&◌, List, [], ◌∷◌, ◌++◌, Option, none, some, Bytes, codes, is_empty,
  bytes_eq, leb, ◌==◌, if◌then◌else◌, ◌>>=◌,
}
use network_protocols.Dns.Header.{qr, get_flag, set_field_rcode, new_header}
use network_protocols.Dns.Query.{Query, decode_query}
use network_protocols.Dns.Response.{Response, encode_response}

-- An address and a domain name.
pub record Record : Type 0 where
  pub address : Bytes
  pub domain : Bytes

-- `std::isspace` in the C locale.
abbrev pub is_space : ℕ → Bool
is_space c = c == b' ' || (leb 9 c && leb c 13)

abbrev pub skip_spaces : Bytes → Bytes
skip_spaces [] = []
skip_spaces (c ∷ cs) = let rest = skip_spaces cs in if is_space c then rest else c ∷ cs

-- `find(' ')`: what stands before the first space, and what stands from it on.
unfoldable pub cut_space : Bytes → Option (Bytes × Bytes)
cut_space [] = none
cut_space (c ∷ cs) =
    let rest = cut_space cs in
    if c == b' ' then some ([], c ∷ cs) else (rest >>= λ r. some (c ∷ r.0, r.1))

abbrev pub make_record : Bytes → Bytes → Option Record
make_record address [] = none
make_record address (c ∷ cs) = some (record { address = address; domain = c ∷ cs })

-- `addLine`: a line that is refused changes nothing.
unfoldable pub parse_line : Bytes → Option Record
parse_line line = cut_space line >>= λ r. make_record r.0 (skip_spaces r.1)

abbrev pub add_parsed : Option Record → List Record → List Record
add_parsed none records = records
add_parsed (some r) records = records ++ r ∷ []

unfoldable pub add_line : Bytes → List Record → List Record
add_line line records = add_parsed (parse_line line) records

-- `loadRecordsFromFile`, on the lines of the file.
unfoldable pub load_records : List Bytes → List Record → List Record
load_records [] records = records
load_records (line ∷ lines) records = load_records lines (add_line line records)

unfoldable pub find_address : Bytes → List Record → Bytes
find_address domain [] = []
find_address domain (r ∷ rs) =
    let rest = find_address domain rs in if bytes_eq r.domain domain then r.address else rest

unfoldable pub find_domain_name : Bytes → List Record → Bytes
find_domain_name address [] = []
find_domain_name address (r ∷ rs) =
    let rest = find_domain_name address rs in if bytes_eq r.address address then r.domain else rest

abbrev pub starts_with : Bytes → Bytes → Bool
starts_with [] s = true
starts_with (x ∷ xs) [] = false
starts_with (x ∷ xs) (y ∷ ys) = x == y && starts_with xs ys

-- `qname.find(".in-addr.arpa")`: what stands before it.
unfoldable pub before_suffix : Bytes → Option Bytes
before_suffix [] = none
before_suffix (c ∷ cs) =
    let rest = before_suffix cs in
    if starts_with (codes ".in-addr.arpa") (c ∷ cs) then some [] else (rest >>= λ s. some (c ∷ s))

-- The loop over `rfind('.')`: the labels in reverse order. `label` holds the bytes since the last
-- dot, and `done` what is to stand behind them.
unfoldable pub reverse_labels : Bytes → Bytes → Bytes → Bytes
reverse_labels label done [] = label ++ done
reverse_labels label done (c ∷ cs) =
    reverse_labels (if c == b'.' then [] else label ++ c ∷ [])
      (if c == b'.' then b'.' ∷ (label ++ done) else done) cs

abbrev pub reverse_found : Option Bytes → Bytes
reverse_found none = []
reverse_found (some s) = reverse_labels [] [] s

unfoldable pub ip_addr_from_qname : Bytes → Bytes
ip_addr_from_qname qname = reverse_found (before_suffix qname)

abbrev pub look_up : Bytes → List Record → Bytes
look_up qname records =
    let address = ip_addr_from_qname qname in
    if is_empty address then find_address qname records else find_domain_name address records

-- `process`, on a response whose other fields are as they were before.
unfoldable pub process : List Record → Query → Response → Response
process records q r =
    let rdata = look_up q.name records in
    record r {
      header =
          set_field_rcode (if is_empty rdata then 3 else 0)
            (record (r.header) { id = q.header.id; q_count = 1; a_count = 1 });
      name = q.name;
      type = q.type;
      cls = q.cls;
      rdata = rdata;
    }

-- What the server does with a datagram.
pub data Reaction : Type 0 where
  -- a read past the end of the buffer
  overrun : Reaction
  -- the exception "Received message is not query."
  not_query : Reaction
  answer : Bytes → Reaction

-- The handler of `receive`, behind the reading of the query. A new response has the flag QR set; its
-- `_ttl` is not initialised, and is the parameter `ttl`.
abbrev pub react : ℕ → List Record → Option (Query × ℕ) → Reaction
react ttl records none = overrun
react ttl records (some (q, n)) =
    if get_flag qr q.header
    then not_query
    else answer (
        encode_response (
          process records q (record {
            header = new_header 0 true;
            name = [];
            type = 0;
            cls = 0;
            ttl = ttl;
            rdata = [];
          })))

unfoldable pub receive : ℕ → List Record → Bytes → Reaction
receive ttl records buffer = react ttl records (decode_query buffer)
