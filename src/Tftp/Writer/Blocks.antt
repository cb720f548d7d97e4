-- ===== src/Tftp/Writer/Blocks.antt =====
-- `TFTPSessionWrite::onDataReceived` and `sendAcknowledge`.
use network_protocols.Common.{
  ℕ, ◌+◌, ◌-◌, ◌%◌, Bool, List, [], ◌∷◌, ◌++◌, Option, none, some, Bytes, take, drop, put_u16,
  u16_at, ltb, ◌==◌, not, if◌then◌else◌,
}
use network_protocols.Tftp.Protocol.{
  TransferMode, binary, ascii, State, undefined, active, finished, wrq, data_block, ack, opcode,
  unknown_transfer_id, error_message,
}
use network_protocols.Tftp.Streams.{OutFile, closed_out, open_out, write_out, close_out}
use network_protocols.Tftp.Reader.Requests.{Request, no_filename, bad_mode, request, parse_request}
use network_protocols.Tftp.Writer.Checks.{Folder, silent, refuse, create, check_folder}

pub record WriteSession : Type 0 where
  pub mode : TransferMode
  pub block_counter : ℕ
  pub state : State
  pub out_file : OutFile

abbrev pub new_writer : WriteSession
new_writer = record { mode = ascii; block_counter = 0; state = undefined; out_file = closed_out }

-- A session with the datagrams that it handed to the socket.
abbrev pub Outcome : Type 0
Outcome = WriteSession × List Bytes

-- The datagram of `sendAcknowledge`.
abbrev pub acknowledge : ℕ → Bytes
acknowledge counter = put_u16 (opcode ack) ++ put_u16 counter

unfoldable pub start_writing : Folder → Bytes → WriteSession → Outcome
start_writing folder name s = elim (check_folder folder name) [
  | silent ↦ (s, [])
  | refuse code ↦ (s, error_message code [] ∷ [])
  | create allowed ↦
      (record s { out_file = open_out allowed s.out_file }, acknowledge s.block_counter ∷ [])
]

abbrev pub answer_request : Folder → WriteSession → Request → Outcome
answer_request folder s no_filename = (s, [])
answer_request folder s bad_mode = (s, [])
answer_request folder s (request name m) = start_writing folder name (record s { mode = m })

-- The loop that drops every CR.
unfoldable pub without_cr : Bytes → Bytes
without_cr [] = []
without_cr (x ∷ xs) = (if x == 13 then [] else x ∷ []) ++ without_cr xs

-- What a block adds to the file.
abbrev pub decoded : TransferMode → Bytes → Bytes
decoded binary payload = payload
decoded ascii payload = without_cr payload

-- The block's data is written, and acknowledged; `sent` says whether the acknowledgement could be
-- sent, for otherwise the last block does not finish the session.
unfoldable pub accept_block : Bool → ℕ → Bytes → WriteSession → Outcome
accept_block sent n payload s =
    let t = record s { out_file = write_out (decoded s.mode payload) s.out_file } in
    (
      if not sent
          then t
          else if ltb n 512
          then record t { out_file = close_out t.out_file; state = finished }
          else t,
      acknowledge s.block_counter ∷ [],
    )

-- A datagram of `amount` bytes, in the receive buffer, whose type is `DATA`. The counter goes up
-- before it is compared. With less than four bytes `amount - bytesCount` wraps round to a number
-- far beyond the buffer: that is `none`.
unfoldable pub on_block : Bool → Bytes → ℕ → WriteSession → Option Outcome
on_block sent buffer amount s =
    let t = record s { block_counter = (s.block_counter + 1) % 65536 } in
    if not (u16_at buffer 2 == t.block_counter)
    then some (t, error_message unknown_transfer_id [] ∷ [])
    else if ltb amount 4
    then none
    else some (accept_block sent (amount - 4) (take (amount - 4) (drop 4 buffer)) t)

unfoldable pub on_write_request : Folder → Bool → Bytes → ℕ → WriteSession → Option Outcome
on_write_request folder sent buffer amount s =
    if u16_at buffer 0 == opcode wrq
    then elim (parse_request buffer) [
      | none ↦ none
      | some r ↦ some (answer_request folder (record s { state = active }) r)
    ]
    else if u16_at buffer 0 == opcode data_block
    then on_block sent buffer amount s
    else some (s, [])
