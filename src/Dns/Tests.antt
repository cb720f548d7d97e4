-- ===== src/Dns/Tests.antt =====
-- The theorems on dns/ at concrete names, messages and records.
use network_protocols.Common.{◌<◌, ◌≡◌, refl, [], ◌∷◌, ◌++◌, some, Bytes, length, codes, arith}
use network_protocols.Dns.Header.{Header}
use network_protocols.Dns.Names.{encode_labels, encode_domain_name}
use network_protocols.Dns.NameLaws.{IsLabel}
use network_protocols.Dns.Query.{Query, encode_query, decode_query}
use network_protocols.Dns.QueryLaws.{IsHeader, IsQuery, decode-encode_query}
use network_protocols.Dns.Response.{Response}
use network_protocols.Dns.ResponseLaws.{IsName}
use network_protocols.Dns.Answers.{answer_header}

-- The names `ab` and `cd.e`.
abbrev pub host : Bytes
host = codes "ab"

abbrev pub alias : Bytes
alias = codes "cd.e"

host-IsLabel : IsLabel host
host-IsLabel = record { nonempty = omega arith; short = omega arith; no_dot = omega arith }

cd-IsLabel : IsLabel (codes "cd")
cd-IsLabel = record { nonempty = omega arith; short = omega arith; no_dot = omega arith }

e-IsLabel : IsLabel (codes "e")
e-IsLabel = record { nonempty = omega arith; short = omega arith; no_dot = omega arith }

pub host-IsName : IsName host
host-IsName = record {
  first = host;
  others = [];
  is_join = refl;
  first_label = host-IsLabel;
  other_labels = tt;
}

pub alias-IsName : IsName alias
alias-IsName = record {
  first = codes "cd";
  others = codes "e" ∷ [];
  is_join = refl;
  first_label = cd-IsLabel;
  other_labels = (e-IsLabel, tt);
}

abbrev pub asking : Header
asking = record { id = 7; flags = 256; q_count = 1; a_count = 0; ns_count = 0; ar_count = 0 }

-- The query of a client for the other name of `ab`.
abbrev pub query : Query
query = record { header = asking; name = host; type = 5; cls = 1 }

asking-IsHeader : IsHeader asking
asking-IsHeader = record {
  id_fits = omega arith;
  flags_fits = omega arith;
  q_fits = omega arith;
  a_fits = omega arith;
  ns_fits = omega arith;
  ar_fits = omega arith;
}

pub query-IsQuery : IsQuery query
query-IsQuery = record {
  header_fits = asking-IsHeader;
  type_fits = omega arith;
  cls_fits = omega arith;
}

decode-encode_query_example :
    decode_query (encode_query query ++ 9 ∷ []) ≡ some (query, length (encode_query query))
decode-encode_query_example =
    decode-encode_query query host [] (9 ∷ []) query-IsQuery refl host-IsLabel tt

abbrev response : Response
response = record {
  header = answer_header 7 0;
  name = host;
  type = 5;
  cls = 1;
  ttl = 600;
  rdata = alias;
}

pub encoded_alias_fits : length (encode_domain_name alias) < 65536
unfolding encode_domain_name encode_labels
encoded_alias_fits = omega arith
