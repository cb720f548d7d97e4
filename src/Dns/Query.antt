-- ===== src/Dns/Query.antt =====
-- `DNSQuery` of dns/common/src/dns_query.cpp.
use network_protocols.Common.{ℕ, ◌+◌, Bool, [], ◌++◌, Option, some, Bytes, drop, ◌>>=◌}
use network_protocols.Dns.Header.{
  Header, rd, set_flag, encode_header, decode_header, put_16, get_16,
}
use network_protocols.Dns.Names.{encode_domain_name, decode_name}

pub record Query : Type 0 where
  pub header : Header
  pub name : Bytes
  pub type : ℕ
  pub cls : ℕ

-- A query before anything is set: the class is 1, IN.
abbrev pub new_query : Query
new_query = record {
  header = record { id = 0; flags = 0; q_count = 0; a_count = 0; ns_count = 0; ar_count = 0 };
  name = [];
  type = 0;
  cls = 1;
}

unfoldable pub set_use_recursion : Bool → Query → Query
set_use_recursion on q = record q { header = set_flag rd on q.header }

unfoldable pub encode_query : Query → Bytes
encode_query q =
    encode_header q.header ++ (encode_domain_name q.name ++ (put_16 q.type ++ put_16 q.cls))

-- The query and the number of bytes read; `none` is a read past the end of the buffer.
unfoldable pub decode_query : Bytes → Option (Query × ℕ)
decode_query buffer = do
  h ← decode_header buffer
  d ← decode_name (drop h.1 buffer)
  type ← get_16 buffer (h.1 + d.count)
  cls ← get_16 buffer (h.1 + d.count + 2)
  some (record { header = h.0; name = d.name; type = type; cls = cls }, h.1 + d.count + 4)
