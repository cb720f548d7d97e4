-- ===== src/Dns/Server.antt =====
-- `DNSServer` of dns/server/dns_server.cpp: when it waits for a datagram, and what it sends.
use network_protocols.Common.{ℕ, Bool, true, false, List, [], ◌∷◌, Bytes}
use network_protocols.Dns.Resolver.{Record, Reaction, overrun, not_query, answer, receive}

-- What ends a wait of `receive`: a datagram, with what stands in `_ttl` of its response and whether
-- that can be sent; or an error of one of the reads.
pub data Happening : Type 0 where
  datagram : Bytes → ℕ → Bool → Happening
  failed : Happening

-- The server waits for a datagram, or nothing makes it receive again, or it has read past a buffer.
pub data Status : Type 0 where
  waits idle past_end : Status

pub record Served : Type 0 where
  pub replies : List Bytes
  pub status : Status

-- A response that was sent makes the server receive again.
abbrev pub after_send : Bool → Bytes → Served → Served
after_send true d next = record next { replies = d ∷ next.replies }
after_send false d next = record { replies = []; status = Status.idle }

abbrev pub after_reaction : Bool → Served → Reaction → Served
after_reaction sends next (answer d) = after_send sends d next
after_reaction sends next not_query = record { replies = []; status = Status.idle }
after_reaction sends next overrun = record { replies = []; status = Status.past_end }

unfoldable pub run_server : List Record → List Happening → Served
run_server records [] = record { replies = []; status = Status.waits }
run_server records (failed ∷ hs) = record { replies = []; status = Status.idle }
run_server records (datagram d ttl sends ∷ hs) =
    after_reaction sends (run_server records hs) (receive ttl records d)
