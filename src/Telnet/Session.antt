-- ===== src/Telnet/Session.antt =====
-- The state of `TelnetSession` (telnet/server/telnet_session.h), and the helpers of its handler.
use network_protocols.Common.{
  ℕ, suc, ◌+◌, ◌-◌, Bool, ◌&&◌, List, [], ◌∷◌, ◌++◌, Option, none, some, Bytes, length, get_or,
  codes, bytes_eq, ltb, ◌==◌, if◌then◌else◌, ◌>>=◌,
}

-- The control codes, commands and options that the session uses.
abbrev pub nul : ℕ
nul = 0

abbrev pub back_space : ℕ
back_space = 8

abbrev pub line_feed : ℕ
line_feed = 10

abbrev pub carriage_return : ℕ
carriage_return = 13

abbrev pub will : ℕ
will = 0xFB

abbrev pub do_option : ℕ
do_option = 0xFD

abbrev pub dont : ℕ
dont = 0xFE

abbrev pub iac : ℕ
iac = 0xFF

abbrev pub echo : ℕ
echo = 1

abbrev pub suppress_go_ahead : ℕ
suppress_go_ahead = 3

abbrev pub max_history_length : ℕ
max_history_length = 80

pub data State : Type 0 where
  negotiation authentication interaction : State

pub record Session : Type 0 where
  pub username : Bytes
  pub password : Bytes
  pub state : State
  pub options_to_confirm : List ℕ
  pub buffer : Bytes
  pub history : List Bytes
  pub history_pos : ℕ
  -- whether `_lineCompleteCB` is set
  pub notifies : Bool

-- What a handler does outside the session: bytes given to the socket, and the call of
-- `_lineCompleteCB`.
pub data Event : Type 0 where
  sent : Bytes → Event
  line_complete : Bytes → Event

-- `start`: the options to confirm, and the bytes that are sent before the first `receive`.
unfoldable pub start : Session → Session × List Event
start s = (
  record s { options_to_confirm = s.options_to_confirm ++ echo ∷ suppress_go_ahead ∷ [] },
  sent (iac ∷ will ∷ echo ∷ [])
      ∷ sent (iac ∷ dont ∷ echo ∷ [])
      ∷ sent (iac ∷ will ∷ suppress_go_ahead ∷ [])
      ∷ [],
)

-- `startAuthentication`
unfoldable pub start_authentication : Session → Session × List Event
start_authentication s = (
  record s { buffer = []; username = []; password = []; state = State.authentication },
  sent (codes "Username: ") ∷ [],
)

-- `startInteraction`
unfoldable pub start_interaction : Session → Session
start_interaction s = record s { buffer = []; state = State.interaction }

-- `authorize`
unfoldable pub authorize : Session → Bool
authorize s = bytes_eq s.username (codes "testuser") && bytes_eq s.password (codes "testpassword")

-- `sendEraseLine`: ESC [2K and ESC [80D.
abbrev pub erase_line : List Event
erase_line = sent (0x1B ∷ codes "[2K") ∷ sent (0x1B ∷ codes "[80D") ∷ []

-- `std::find` and `std::distance`: the first index of a line.
unfoldable pub index_of : Bytes → List Bytes → Option ℕ
index_of line [] = none
index_of line (l ∷ ls) =
    let rest = index_of line ls in if bytes_eq l line then some 0 else (rest >>= λ i. some (suc i))

-- `erase` of the first line when there are more than the limit.
unfoldable pub trim_history : List Bytes → List Bytes
trim_history [] = []
trim_history (l ∷ ls) = if ltb max_history_length (length (l ∷ ls)) then ls else l ∷ ls

-- `addToHistory`, behind the search.
unfoldable pub add_found : Option ℕ → Bytes → Session → Session
add_found none line s =
    let history = trim_history (s.history ++ line ∷ []) in
    record s { history = history; history_pos = length history - 1 }
add_found (some i) line s = record s { history_pos = i }

unfoldable pub add_to_history : Bytes → Session → Session
add_to_history line s = add_found (index_of line s.history) line s

-- The line of the history at the position, on the line that is edited and on the screen.
unfoldable pub show_history : ℕ → Session → Session × List Event
show_history pos s =
    let line = get_or s.history pos [] in
    (record s { history_pos = pos; buffer = line }, erase_line ++ sent line ∷ [])

unfoldable pub arrow_down : Session → Session × List Event
arrow_down s =
    let last = length s.history - 1 in
    if ltb 1 (length s.history)
    then show_history (if s.history_pos == last then 0 else s.history_pos + 1) s
    else (s, [])

unfoldable pub arrow_up : Session → Session × List Event
arrow_up s =
    let last = length s.history - 1 in
    if ltb 1 (length s.history)
    then show_history (if s.history_pos == 0 then last else s.history_pos - 1) s
    else (s, [])

-- `processEscapeSequence`; the arrows to the left and to the right only write to the log.
unfoldable pub process_escape_sequence : Bytes → Session → Session × List Event
process_escape_sequence seq s =
    if bytes_eq seq (0x1B ∷ codes "[D")
    then (s, [])
    else if bytes_eq seq (0x1B ∷ codes "[C")
    then (s, [])
    else if bytes_eq seq (0x1B ∷ codes "[B")
    then arrow_down s
    else if bytes_eq seq (0x1B ∷ codes "[A")
    then arrow_up s
    else (s, [])
