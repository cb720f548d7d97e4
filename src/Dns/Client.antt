-- ===== src/Dns/Client.antt =====
-- `DNSClient::resolve` of dns/client/dns_client.cpp.
use network_protocols.Common.{
  ℕ, Bool, ◌++◌, Option, none, some, Bytes, length, take, drop, ◌==◌, if◌then◌else◌, ◌>>=◌,
}
use network_protocols.Dns.Query.{Query, new_query, set_use_recursion, encode_query}
use network_protocols.Dns.Response.{Received, type_a, decode_response}

-- What `resolve` comes to: an error of the socket, a response with another identifier, or the
-- response that is printed.
pub data Outcome : Type 0 where
  failed : Outcome
  unexpected : ℕ → Outcome
  shown : Received → Outcome

-- 0xAAAA
abbrev pub query_id : ℕ
query_id = 43690

unfoldable pub query_of : Bool → Bytes → Query
unfolding set_use_recursion
query_of use_recursion addr =
    let fresh = new_query in
    let q = record fresh { header = record (fresh.header) { id = query_id } } in
    let asked = if use_recursion then set_use_recursion use_recursion q else q in
    record asked { header = record (asked.header) { q_count = 1 }; type = type_a; name = addr }

-- `recvBuffer` behind `receive_from`: a datagram, cut to 512 bytes, in front of what the array held.
-- All of it is decoded.
abbrev pub recv_buffer : Bytes → Bytes → Bytes
recv_buffer d stale = take 512 d ++ drop (length (take 512 d)) stale

abbrev pub outcome : Received → Outcome
outcome r = if r.header.id == query_id then shown r else unexpected (r.header.id)

-- `resolve`, where `exchange` gives the datagram that comes back for the one sent, or `none` for an
-- error of one of the two. A read past the buffer is `none`.
unfoldable pub resolve : ℕ → Bool → (Bytes → Option Bytes) → Bytes → Bytes → Option Outcome
unfolding query_of
resolve fuel use_recursion exchange stale addr =
    elim (exchange (encode_query (query_of use_recursion addr))) [
      | none ↦ some failed
      | some d ↦ decode_response fuel (recv_buffer d stale) >>= λ r. some (outcome r.0)
    ]
