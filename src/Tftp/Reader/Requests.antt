-- ===== src/Tftp/Reader/Requests.antt =====
-- `TFTPSessionRead::onDataReceived`.
use network_protocols.Common.{
  ℕ, ◌+◌, false, List, [], ◌∷◌, Option, none, some, Bytes, length, drop, codes, bytes_eq, is_empty,
  u16_at, ◌==◌, not, if◌then◌else◌,
}
use network_protocols.Tftp.Protocol.{
  TransferMode, binary, ascii, active, finished, undefined, rrq, ack, opcode, file_not_found,
  unknown_transfer_id, c_string, error_message,
}
use network_protocols.Tftp.Streams.{closed_in, open_in, close_in}
use network_protocols.Tftp.Reader.Blocks.{ReadSession, send_block_of_data}

abbrev pub new_reader : ReadSession
new_reader = record {
  mode = ascii;
  block_counter = 0;
  state = undefined;
  in_file = closed_in;
  read_complete = false;
  line_feed = false;
}

-- A session with the datagrams that it handed to the socket.
abbrev pub Outcome : Type 0
Outcome = ReadSession × List Bytes

abbrev with_block : ReadSession × Bytes → Outcome
with_block (s, datagram) = (s, datagram ∷ [])

-- The mode is known: open the file and send the first block.
unfoldable pub start_reading : (Bytes → Option Bytes) → Bytes → ReadSession → Outcome
unfolding open_in
start_reading files filename s =
    let (f, is_open) = open_in (files filename) s.in_file in
    if is_open
    then with_block (send_block_of_data (record s { in_file = f }))
    else (record s { in_file = f }, error_message file_not_found [] ∷ [])

-- The comparison of the mode string of a request, `none` if it is neither.
unfoldable pub mode_of : Bytes → Option TransferMode
unfolding bytes_eq
mode_of text =
    if bytes_eq text (codes "octet")
    then some binary
    else if bytes_eq text (codes "netascii")
    then some ascii
    else none

-- The two strings of a request: file name and mode; `none` is a read past the buffer.
pub data Request : Type 0 where
  no_filename : Request
  bad_mode : Request
  request : Bytes → TransferMode → Request

unfoldable pub parse_mode : Bytes → Bytes → Option Request
parse_mode filename rest = elim (c_string rest) [
  | none ↦ none
  | some text ↦ elim (mode_of text) [ none ↦ some bad_mode | some m ↦ some (request filename m) ]
]

unfoldable pub parse_request : Bytes → Option Request
parse_request buffer = elim (c_string (drop 2 buffer)) [
  | none ↦ none
  | some name ↦
      if is_empty name
      then some no_filename
      else parse_mode name (drop (2 + (length name + 1)) buffer)
]

abbrev pub answer_request : (Bytes → Option Bytes) → ReadSession → Request → Outcome
answer_request files s no_filename = (s, [])
answer_request files s bad_mode = (s, [])
answer_request files s (request name m) = start_reading files name (record s { mode = m })

-- An acknowledgement of block `counter`.
unfoldable pub on_ack : ℕ → ReadSession → Outcome
on_ack counter s =
    if not (counter == s.block_counter)
    then (s, error_message unknown_transfer_id [] ∷ [])
    else if s.read_complete
    then (record s { in_file = close_in s.in_file; state = finished }, [])
    else with_block (send_block_of_data s)

unfoldable pub on_read_request : (Bytes → Option Bytes) → Bytes → ReadSession → Option Outcome
unfolding start_reading on_ack
on_read_request files buffer s =
    if u16_at buffer 0 == opcode rrq
    then elim (parse_request buffer) [
      | none ↦ none
      | some r ↦ some (answer_request files (record s { state = active }) r)
    ]
    else if u16_at buffer 0 == opcode ack
    then some (on_ack (u16_at buffer 2) s)
    else some (s, [])
