-- ===== src/TelnetServer/Server.antt =====
-- The sessions of telnet-server/server.cpp, in the order in which they were made, those that were
-- removed too.
use network_protocols.Common.{ℕ, zero, suc, ◌+◌, List, [], ◌∷◌, ◌++◌, if◌then◌else◌}
use network_protocols.TelnetServer.Client.{Client, new_client, remove_client}

-- `_sessions.size()`.
abbrev pub size : List Client → ℕ
size [] = 0
size (c ∷ cs) = (if c.kept then 1 else 0) + size cs

-- `handleConnection`, the session's number among them.
unfoldable pub handle_connection : List Client → List Client
handle_connection cs = cs ++ new_client (size cs + 1) ∷ []

-- `removeClient` of one of them.
unfoldable pub remove_at : ℕ → List Client → List Client
remove_at i [] = []
remove_at zero (c ∷ cs) = remove_client c ∷ cs
remove_at (suc i) (c ∷ cs) = c ∷ remove_at i cs
