-- ===== src/Smtp/Server.antt =====
-- `SMTPServer` of smtp/server/smtp_server.cpp: its sessions, and what the event loop calls.
use network_protocols.Common.{
  ℕ, Bool, ◌+◌, ◌%◌, List, [], ◌∷◌, ◌++◌, Option, none, some, Bytes, ◌==◌, if◌then◌else◌,
}
use network_protocols.Smtp.Session.{Recipient, Session, Disk, Event, Next, Step, respond, written}
use network_protocols.Smtp.Receive.{on_received}
use network_protocols.Smtp.Reached.{new_session}

-- A session, what it does next, and what it has done.
pub record Entry : Type 0 where
  pub session : Session
  pub next : Next
  pub events : List Event

abbrev pub Table : Type 0
Table = ℕ → Option Entry

pub record Server : Type 0 where
  pub next_session_id : ℕ
  pub sessions : Table

abbrev pub new_server : Server
new_server = record { next_session_id = 0; sessions = λ id. none }

abbrev pub update : Table → ℕ → Option Entry → Table
update table id v k = if k == id then v else table k

abbrev pub after_step : List Event → Step → Entry
after_step before st = record { session = st.session; next = st.next; events = before ++ st.events }

-- A session behind its `start`, with whether its greeting can be written; what its arrays hold is
-- not initialised.
abbrev pub started : Bool → Bytes → List Recipient → Entry
started sends buffer recipients =
    after_step [] (written sends (respond 220 (new_session buffer recipients)))

-- The handler of `acceptConnection`, without error. The identifier has 32 bits.
unfoldable pub accept_connection : Bool → Bytes → List Recipient → Server → Server
accept_connection sends buffer recipients s =
    let id = (s.next_session_id + 1) % 4294967296 in
    record {
      next_session_id = id;
      sessions = update s.sessions id (some (started sends buffer recipients));
    }

-- The end of a read of a session that receives. A session that closes stays in the table, since
-- `closeSession` does nothing.
abbrev pub read_in : Next → Disk → Option Bytes → Entry → Entry
read_in Next.listening disk read e = after_step e.events (on_received disk read e.session)
read_in _ disk read e = e

abbrev pub on_read : Disk → Option Bytes → Entry → Entry
on_read disk read e = read_in e.next disk read e

abbrev pub read_entry : Disk → Option Bytes → Option Entry → Option Entry
read_entry disk read none = none
read_entry disk read (some e) = some (on_read disk read e)

-- What the event loop calls the server for.
pub data Happening : Type 0 where
  accepted : Bool → Bytes → List Recipient → Happening
  refused : Happening
  read : ℕ → Disk → Option Bytes → Happening

unfoldable pub serve : Happening → Server → Server
serve (accepted sends buffer recipients) s = accept_connection sends buffer recipients s
serve refused s = s
serve (read id disk bytes) s = record s {
  sessions = update s.sessions id (read_entry disk bytes (s.sessions id));
}

unfoldable pub run_server : List Happening → Server → Server
run_server [] s = s
run_server (h ∷ hs) s = run_server hs (serve h s)
