-- ===== src/Ftp/Server.antt =====
-- `FTPServer` of ftp/server/ftp_server.cpp: its sessions, each with its thread.
use network_protocols.Common.{
  ℕ, Bool, true, false, List, [], ◌∷◌, ◌++◌, Option, none, some, Bytes, if◌then◌else◌,
}
use network_protocols.Common.Places.{update_at}
use network_protocols.Ftp.Execute.{
  Surroundings, new_session, Read, Status, closed, reading, busy, Run, behind, work, worker,
}

abbrev pub ftp_data_connection_port : ℕ
ftp_data_connection_port = 10020

-- Whether the acceptor is open, and `_sessions`, each as far as its thread has come.
pub record Server : Type 0 where
  pub acceptor_open : Bool
  pub sessions : List Run

-- A server behind `start`.
abbrev pub new_server : Server
new_server = record { acceptor_open = true; sessions = [] }

-- A session that is started in a directory: its thread has greeted and waits for a line.
abbrev pub started : Bytes → Run
started home_dir = worker [] (new_session ftp_data_connection_port home_dir)

-- A connection without error: there is a session if `HOME` is set.
unfoldable pub accept_connection : Option Bytes → Server → Server
accept_connection none s = s
accept_connection (some home_dir) s = record s { sessions = s.sessions ++ started home_dir ∷ [] }

-- One turn of a thread.
abbrev pub turn_in : Status → Surroundings × Read → Run → Run
turn_in reading x r = behind r.events (work (x ∷ []) r.session)
turn_in closed x r = r
turn_in busy x r = r

abbrev pub on_turn : Surroundings × Read → Run → Run
on_turn x r = turn_in r.status x r

-- A connection, with the value of `HOME`; an error of `async_accept`; `stop`; and a turn of the
-- thread of a session, by its place.
pub data Happening : Type 0 where
  accepted : Option Bytes → Happening
  refused stopped : Happening
  turned : ℕ → Surroundings × Read → Happening

-- The handler of `async_accept` does nothing once the acceptor is closed; the threads go on.
unfoldable pub handle : Happening → Server → Server
handle (accepted home) s = if s.acceptor_open then accept_connection home s else s
handle refused s = s
handle stopped s = record s { acceptor_open = false }
handle (turned i x) s = record s { sessions = update_at (on_turn x) i s.sessions }

unfoldable pub run_server : List Happening → Server → Server
run_server [] s = s
run_server (h ∷ hs) s = run_server hs (handle h s)
