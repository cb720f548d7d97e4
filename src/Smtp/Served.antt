-- ===== src/Smtp/Served.antt =====
-- What holds of every session of `SMTPServer`.
use mathlib.Core.Path.{subst}
use network_protocols.Common.{
  ℕ, Bool, ◌+◌, ◌%◌, ◌≤◌, ◌≡◌, inl, inr, List, [], ◌∷◌, Option, none, some, Bytes, length, ◌==◌,
  Bool-cases,
}
use network_protocols.Smtp.Session.{
  recv_buffer_size, max_rcpt_allowed, Recipient, Session, Disk, Next, respond,
}
use network_protocols.Smtp.WellFormed.{IsSession, IsStep, Answered, answers, text_220}
use network_protocols.Smtp.Receive.{on_received}
use network_protocols.Smtp.Reached.{
  written-IsStep, new_session, new_session-IsSession, Answered-append, receive-IsStep,
}
use network_protocols.Smtp.Server.{
  Entry, Table, Server, new_server, update, started, accept_connection, read_in, read_entry,
  Happening, accepted, refused, read, serve, run_server,
}

-- The arrays of a session have their sizes, and a read gives no more than the buffer takes.
abbrev pub FitsRead : Option Bytes → Type 0
FitsRead none = Unit
FitsRead (some bytes) = length bytes ≤ recv_buffer_size

abbrev pub Fits : Happening → Type 0
Fits (accepted sends buffer recipients) =
    (length buffer ≡ recv_buffer_size) × (length recipients ≡ max_rcpt_allowed)
Fits refused = Unit
Fits (read id disk bytes) = FitsRead bytes

abbrev pub AllFit : List Happening → Type 0
AllFit [] = Unit
AllFit (h ∷ hs) = Fits h × AllFit hs

pub record IsEntry (e : Entry) : Type 0 where
  pub is_session : IsSession e.session
  pub answered : Answered e.events

abbrev IsEntry? : Option Entry → Type 0
IsEntry? none = Unit
IsEntry? (some e) = IsEntry e

abbrev AllEntries : Table → Type 0
AllEntries t = (id : ℕ) → IsEntry? (t id)

on_received-IsStep :
    (disk : Disk) (bytes : Option Bytes) (s : Session)
    → FitsRead bytes
    → IsSession s
    → IsStep (on_received disk bytes s)
unfolding on_received
on_received-IsStep disk none s b h = record { is_session = h; answered = tt }
on_received-IsStep disk (some bytes) s b h = receive-IsStep disk bytes s b h

read_in-IsEntry :
    (n : Next) (disk : Disk) (bytes : Option Bytes) (e : Entry)
    → FitsRead bytes
    → IsEntry e
    → IsEntry (read_in n disk bytes e)
read_in-IsEntry Next.listening disk bytes e b h =
    let st = on_received disk bytes e.session in
    let k = on_received-IsStep disk bytes e.session b h.is_session in
    record {
      is_session = k.is_session;
      answered = Answered-append e.events st.events h.answered k.answered;
    }
read_in-IsEntry Next.closing disk bytes e b h = h
read_in-IsEntry Next.stalled disk bytes e b h = h
read_in-IsEntry Next.overrun disk bytes e b h = h

read_entry-IsEntry? :
    (disk : Disk) (bytes : Option Bytes) (o : Option Entry)
    → FitsRead bytes
    → IsEntry? o
    → IsEntry? (read_entry disk bytes o)
read_entry-IsEntry? disk bytes none b h = tt
read_entry-IsEntry? disk bytes (some e) b h = read_in-IsEntry e.next disk bytes e b h

update-AllEntries :
    (t : Table) (id : ℕ) (v : Option Entry) → AllEntries t → IsEntry? v → AllEntries (update t id v)
update-AllEntries t id v h k i = elim (Bool-cases (i == id)) [ inl e ↦ rw e k | inr e ↦ rw e (h i) ]

started-IsEntry :
    (sends : Bool) (buffer : Bytes) (recipients : List Recipient)
    → length buffer ≡ recv_buffer_size
    → length recipients ≡ max_rcpt_allowed
    → IsEntry (started sends buffer recipients)
started-IsEntry sends buffer recipients b r =
    let st = written-IsStep sends (respond 220 (new_session buffer recipients)) (
      answers 220 (new_session buffer recipients) text_220
        (new_session-IsSession buffer recipients b r)) in
    record { is_session = st.is_session; answered = st.answered }

serve-AllEntries :
    (h : Happening) (s : Server) → Fits h → AllEntries s.sessions → AllEntries (serve h s).sessions
unfolding serve accept_connection
serve-AllEntries (accepted sends buffer recipients) s f k =
    update-AllEntries s.sessions ((s.next_session_id + 1) % 4294967296) _ k
      (started-IsEntry sends buffer recipients f.0 f.1)
serve-AllEntries refused s f k = k
serve-AllEntries (read id disk bytes) s f k =
    update-AllEntries s.sessions id (read_entry disk bytes (s.sessions id)) k
      (read_entry-IsEntry? disk bytes (s.sessions id) f (k id))

run_kept :
    (hs : List Happening) (s : Server)
    → AllFit hs
    → AllEntries s.sessions
    → AllEntries (run_server hs s).sessions
unfolding run_server
run_kept [] s f k = k
run_kept (h ∷ hs) s f k = run_kept hs (serve h s) f.1 (serve-AllEntries h s f.0 k)

-- Connections and reads in any order, of no more bytes than the buffers have: every session in the
-- table is well formed, with at most 100 recipients, and receives a message exactly when its last
-- command was DATA; and each reply that it was sent has a text, so that the assertion of
-- `sendResponse` does not fail.
pub run_server-IsEntry :
    (hs : List Happening) (id : ℕ) (e : Entry)
    → AllFit hs
    → (run_server hs new_server).sessions id ≡ some e
    → IsEntry e
run_server-IsEntry hs id e f at_id = subst IsEntry? at_id (run_kept hs new_server f (λ i. tt) id)
