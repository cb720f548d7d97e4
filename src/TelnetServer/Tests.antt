-- ===== src/TelnetServer/Tests.antt =====
-- The theorems on telnet-server/ at concrete clients and buffers.
use network_protocols.Common.{◌+◌, ◌≡◌, refl, [], ◌∷◌, ◌++◌, length, codes, arith}
use network_protocols.TelnetServer.Client.{
  AuthStatus, Client, read_ends, write_ends, received, Reach, here, next, reads_ok, writes_ok,
  new_client,
}
use network_protocols.TelnetServer.Server.{handle_connection, remove_at}
use network_protocols.TelnetServer.Logins.{never_logs_in}
use network_protocols.TelnetServer.Reads.{type_keys, type_keys_reads}
use network_protocols.TelnetServer.Identifiers.{same_id}

-- The negotiation is sent, and the client types the user name, in one read.
abbrev named : Client
named = read_ends (codes "testuser") 8 (write_ends (new_client 1))

named-Reach : Reach (new_client 1) named
named-Reach =
    next (next here (writes_ok (new_client 1) (omega arith)))
      (reads_ok (codes "testuser") 8 (write_ends (new_client 1)) (omega arith) (omega arith))

-- The end of its line.
abbrev entered : Client
entered = read_ends (codes "\r\n") 2 named

entered-Reach : Reach (new_client 1) entered
unfolding received
entered-Reach = next named-Reach (reads_ok (codes "\r\n") 2 named (omega arith) (omega arith))

never_logs_in_example : entered.auth_status ≡ AuthStatus.guest
never_logs_in_example = never_logs_in 1 entered-Reach

type_keys_reads_example :
    type_keys [] (codes "ab") (record (new_client 3) { reads = 1 })
    ≡ record (new_client 3) { received_data = [] ++ codes "ab"; reads = 1 + length (codes "ab") }
type_keys_reads_example =
    type_keys_reads [] (codes "ab") (record (new_client 3) { reads = 1 })
      (
        record { printable = omega arith; no_dot = λ e. absurd (omega arith); low = omega arith },
        (
          record { printable = omega arith; no_dot = λ e. absurd (omega arith); low = omega arith },
          tt,
        ),
      )
      (omega arith)

same_id_example :
    handle_connection (remove_at 0 (handle_connection (new_client 1 ∷ [])))
    ≡ (remove_at 0 (new_client 1 ∷ []) ++ new_client 2 ∷ []) ++ new_client 2 ∷ []
same_id_example = same_id (new_client 1 ∷ []) 0 (new_client 1) refl refl
