-- ===== src/Telnet/Receive.antt =====
-- The handler of `TelnetSession::receive` (telnet/server/telnet_session.cpp).
use network_protocols.Common.{
  ℕ, ◌-◌, Bool, true, false, ◌&&◌, List, [], ◌∷◌, ◌++◌, Bytes, length, take, is_empty, codes, ltb,
  leb, ◌==◌, if◌then◌else◌,
}
use network_protocols.Telnet.Session.{
  nul, back_space, line_feed, carriage_return, do_option, iac, State, Session, Event, sent,
  line_complete, start_authentication, start_interaction, authorize, erase_line, add_to_history,
  process_escape_sequence,
}

-- `isprint` in the C locale.
abbrev pub is_print : ℕ → Bool
is_print b = leb 0x20 b && ltb b 0x7F

-- `remove_if`
unfoldable pub remove_option : ℕ → List ℕ → List ℕ
remove_option x [] = []
remove_option x (v ∷ vs) = let rest = remove_option x vs in if x == v then rest else v ∷ rest

-- The loop of the negotiation; the first argument says that the byte before was DO.
unfoldable pub confirm_options : Bool → Bytes → List ℕ → List ℕ
confirm_options after_do [] options = options
confirm_options true (x ∷ xs) options =
    confirm_options false xs (if x == iac then options else remove_option x options)
confirm_options false (x ∷ xs) options = confirm_options (x == do_option) xs options

abbrev pub negotiate_end : List ℕ → Session → Session × List Event
negotiate_end [] s = start_authentication s
negotiate_end (o ∷ os) s = (s, [])

unfoldable pub negotiate : Bytes → Session → Session × List Event
negotiate received s =
    let options = confirm_options false received s.options_to_confirm in
    negotiate_end options (record s { options_to_confirm = options })

-- The bytes that were typed, as the user name or as the password.
unfoldable pub enter_credential : Session → Session × List Event
enter_credential s =
    let end_of_line = sent (carriage_return ∷ line_feed ∷ []) in
    if is_empty s.username
    then (
      record s { username = s.buffer; buffer = [] },
      end_of_line ∷ sent (codes "Password: ") ∷ [],
    )
    else (let entered : Session = record s { password = s.buffer; buffer = [] } in
        let again = start_authentication entered in
        if authorize entered
        then (start_interaction entered, end_of_line ∷ [])
        else (again.0, end_of_line ∷ again.1))

-- A key of one, two or three bytes; the tests on the size are the shapes of the list.
unfoldable pub authenticate : Bytes → Session → Session × List Event
authenticate (a ∷ []) s =
    if is_print a
    then (record s { buffer = s.buffer ++ a ∷ [] }, sent (b'*' ∷ []) ∷ [])
    else (s, [])
authenticate (a ∷ b ∷ []) s =
    if a == carriage_return && b == nul then enter_credential s else (s, [])
authenticate _ s = (s, [])

-- `_buffer.substr(0, _buffer.length() - 1)`: on the empty buffer the length wraps round, and the
-- buffer stays empty.
abbrev pub drop_last : Bytes → Bytes
drop_last s = take (length s - 1) s

unfoldable pub complete_line : Session → Session × List Event
complete_line s = (
  record (add_to_history s.buffer s) { buffer = [] },
  (if s.notifies then line_complete s.buffer ∷ [] else []) ++ erase_line,
)

unfoldable pub interact : Bytes → Session → Session × List Event
interact (a ∷ []) s =
    if is_print a
    then (record s { buffer = s.buffer ++ a ∷ [] }, sent (a ∷ []) ∷ [])
    else if a == back_space
    then (record s { buffer = drop_last s.buffer }, erase_line ++ sent (drop_last s.buffer) ∷ [])
    else (s, [])
interact (a ∷ b ∷ []) s = if a == carriage_return && b == nul then complete_line s else (s, [])
interact (a ∷ b ∷ c ∷ []) s =
    if a == 0x1B then process_escape_sequence (a ∷ b ∷ c ∷ []) s else (s, [])
interact _ s = (s, [])

abbrev pub receive_in : State → Bytes → Session → Session × List Event
receive_in State.negotiation r s = negotiate r s
receive_in State.authentication r s = authenticate r s
receive_in State.interaction r s = interact r s

-- The handler, on the bytes received; it receives again behind every call.
unfoldable pub receive : Bytes → Session → Session × List Event
receive [] s = (s, [])
receive (x ∷ xs) s = receive_in s.state (x ∷ xs) s

-- The session behind a sequence of receptions.
abbrev pub run : List Bytes → Session → Session
run [] s = s
run (r ∷ rs) s = run rs (receive r s).0
