-- ===== src/Telnet/Server.antt =====
-- `TelnetServer` of telnet/server/telnet_server.cpp: its sessions, and what the event loop calls.
use network_protocols.Common.{
  ℕ, Bool, true, false, List, [], ◌∷◌, ◌++◌, Option, none, some, Bytes, if◌then◌else◌,
}
use network_protocols.Common.Places.{update_at}
use network_protocols.Telnet.Session.{Session, Event, start}
use network_protocols.Telnet.Receive.{receive}
use network_protocols.Telnet.Reached.{new_session}

-- A session, whether it receives again, and what it has done.
pub record Entry : Type 0 where
  pub session : Session
  pub receives : Bool
  pub events : List Event

-- The server: whether it has a callback for lines, whether its loop runs, and `_sessions`.
pub record Server : Type 0 where
  pub notifies : Bool
  pub running : Bool
  pub sessions : List Entry

-- A server behind `start`.
abbrev pub new_server : Bool → Server
new_server notifies = record { notifies = notifies; running = true; sessions = [] }

-- What the writes of the session's `start` come to: all are done, and the session receives, or an
-- error of one of the three, behind which it does nothing more.
abbrev pub first_event : List Event → List Event
first_event [] = []
first_event (e ∷ es) = e ∷ []

abbrev pub first_two : List Event → List Event
first_two [] = []
first_two (e ∷ es) = e ∷ first_event es

pub data Writes : Type 0 where
  all_done first_fails second_fails third_fails : Writes

abbrev pub written : Writes → List Event → List Event
written Writes.all_done es = es
written Writes.first_fails es = []
written Writes.second_fails es = first_event es
written Writes.third_fails es = first_two es

abbrev pub all_written : Writes → Bool
all_written Writes.all_done = true
all_written _ = false

-- A session that the server makes, behind its `start`.
abbrev pub started : Bool → Writes → Entry
started notifies w =
    let begun = start (new_session notifies) in
    record { session = begun.0; receives = all_written w; events = written w begun.1 }

-- The end of a read; an error, which is `none`, is only logged.
unfoldable pub on_received : Option Bytes → Entry → Entry
on_received none e = record e { receives = false }
on_received (some bytes) e =
    let r = receive bytes e.session in
    record { session = r.0; receives = true; events = e.events ++ r.1 }

abbrev pub on_read : Option Bytes → Entry → Entry
on_read bytes e = if e.receives then on_received bytes e else e

abbrev pub read_at : ℕ → Option Bytes → List Entry → List Entry
read_at i bytes es = update_at (on_read bytes) i es

-- What the event loop calls the server for: a connection, an error of `async_accept`, the end of a
-- read of a session by its place, and a signal.
pub data Happening : Type 0 where
  accepted : Writes → Happening
  refused signal : Happening
  read : ℕ → Option Bytes → Happening

-- `acceptConnection`: the session goes behind the others.
unfoldable pub accept_connection : Writes → Server → Server
accept_connection w s = record s { sessions = s.sessions ++ started s.notifies w ∷ [] }

-- `shutdown`, which closes the acceptor and stops the loop; the sessions stay.
abbrev pub shutdown : Server → Server
shutdown s = record s { running = false }

unfoldable pub handle : Happening → Server → Server
handle (accepted w) s = accept_connection w s
handle refused s = s
handle signal s = shutdown s
handle (read i bytes) s = record s { sessions = read_at i bytes s.sessions }

unfoldable pub run_server : List Happening → Server → Server
run_server [] s = s
run_server (h ∷ hs) s = let next = run_server hs (handle h s) in if s.running then next else s
