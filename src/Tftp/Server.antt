-- ===== src/Tftp/Server.antt =====
-- `TFTPServer::receive` of tftp/tftp-server.cpp: the table of sessions, keyed by the endpoint that
-- a datagram comes from.
use mathlib.Core.Logic.{ite}
use network_protocols.Common.{
  ℕ, Bool, true, false, List, [], ◌∷◌, Option, none, some, Bytes, u16_at, ◌==◌, if◌then◌else◌,
}
use network_protocols.Tftp.Protocol.{
  State, finished, rrq, wrq, opcode, illegal_operation, error_message,
}
use network_protocols.Tftp.Reader.Blocks.{ReadSession}
use network_protocols.Tftp.Reader.Requests.{new_reader, on_read_request}
use network_protocols.Tftp.Writer.Checks.{Folder}
use network_protocols.Tftp.Writer.Blocks.{WriteSession, new_writer, on_write_request}

-- `TFTPSession` with its two subclasses.
pub data Session : Type 0 where
  reader : ReadSession → Session
  writer : WriteSession → Session

abbrev pub state_of : Session → State
state_of (reader s) = s.state
state_of (writer s) = s.state

abbrev pub is_finished : State → Bool
is_finished finished = true
is_finished _ = false

-- What the system answers while a datagram is handled.
pub record System : Type 0 where
  pub files : Bytes → Option Bytes
  pub folder : Folder
  -- whether a datagram can be sent
  pub sent : Bool

-- `onDataReceived`, by the session's class.
unfoldable pub on_data_received : System → Bytes → ℕ → Session → Option (Session × List Bytes)
on_data_received sys buffer n (reader s) = elim (on_read_request sys.files buffer s) [
  | none ↦ none
  | some (t, out) ↦ some (reader t, out)
]
on_data_received sys buffer n (writer s) = elim (on_write_request sys.folder sys.sent buffer n s) [
  | none ↦ none
  | some (t, out) ↦ some (writer t, out)
]

module _ {E : Type 0} (E-discrete : Discrete E) where
  abbrev pub Table : Type 0
  Table = E → Option Session

  abbrev pub update : Table → E → Option Session → Table
  update table ep v k = ite (E-discrete k ep) v (table k)

  -- The session's answer goes back into the table.
  abbrev pub store : Table → E → Option (Session × List Bytes) → Option (Table × List Bytes)
  store table ep none = none
  store table ep (some (s, out)) = some (update table ep (some s), out)

  -- Likewise, but a finished session is erased.
  abbrev pub store_or_erase :
      Table → E → Option (Session × List Bytes) → Option (Table × List Bytes)
  store_or_erase table ep none = none
  store_or_erase table ep (some (s, out)) =
      some (update table ep (if is_finished (state_of s) then none else some s), out)

  -- A datagram from an endpoint with no session.
  unfoldable pub first_datagram : System → E → Bytes → ℕ → Table → Option (Table × List Bytes)
  first_datagram sys ep buffer n table =
      if u16_at buffer 0 == opcode rrq
      then store table ep (on_data_received sys buffer n (reader new_reader))
      else if u16_at buffer 0 == opcode wrq
      then store table ep (on_data_received sys buffer n (writer new_writer))
      else some (table, error_message illegal_operation [] ∷ [])

  -- The completion handler of `async_receive_from` on a datagram of `n` bytes in the buffer: the
  -- table afterwards, and the datagrams handed to the socket for that endpoint.
  unfoldable pub receive : System → E → Bytes → ℕ → Table → Option (Table × List Bytes)
  receive sys ep buffer n table = elim (table ep) [
    | none ↦ first_datagram sys ep buffer n table
    | some s ↦ store_or_erase table ep (on_data_received sys buffer n s)
  ]
