-- ===== src/Tftp/Client/Get.antt =====
-- `TFTPClient::getFile`.
use network_protocols.Common.{
  ℕ, ◌+◌, ◌-◌, ◌%◌, Bool, true, false, [], Option, none, some, Bytes, take, drop, u16_at, ltb, not,
  ◌==◌, ◌&&◌, if◌then◌else◌, ◌>>=◌,
}
use network_protocols.Tftp.Protocol.{TransferMode, rrq, data_block, error, opcode}
use network_protocols.Tftp.Streams.{OutFile, closed_out, open_out, write_out, close_out}
use network_protocols.Tftp.Writer.Blocks.{acknowledge, decoded}
use network_protocols.Tftp.Client.Messages.{
  request_datagram, received, received_count, write_error_message, Turn, more, ended,
}

-- The variables of the loop, and the receive buffer.
pub record Getting : Type 0 where
  pub expected_block_number : ℕ
  pub out_file : OutFile
  pub recv_buffer : Bytes

-- What `getFile` returns, the file as it leaves it, whether it asked for it to be removed, and what
-- it wrote of an error message.
pub record GetEnd : Type 0 where
  pub result : Bool
  pub out_file : OutFile
  pub removed : Bool
  pub report : Bytes

-- The end of the function closes the file.
abbrev leave : Bool → OutFile → GetEnd
leave result f = record { result = result; out_file = close_out f; removed = false; report = [] }

-- `removeOutFile`, and `return false`.
abbrev pub remove_out_file : Bytes → OutFile → GetEnd
remove_out_file report f = record {
  result = false;
  out_file = close_out f;
  removed = true;
  report = report;
}

-- A block in sequence is written and acknowledged; `sent` says whether that could be sent.
unfoldable pub get_block : TransferMode → Bool → ℕ → Bytes → Getting → Turn Getting GetEnd
get_block m sent block_size payload g =
    let f = write_out (decoded m payload) g.out_file in
    let ack = acknowledge g.expected_block_number in
    if not sent
    then ended (remove_out_file [] f) none
    else if ltb block_size 512
    then ended (leave true f) (some ack)
    else more (record g { out_file = f }) (some ack)

-- A `DATA` message of `n` bytes. With fewer than four the block size wraps round, so that its
-- assertion fails: that is `none`.
unfoldable pub get_data : TransferMode → Bool → ℕ → Getting → Option (Turn Getting GetEnd)
get_data m sent n g =
    if not (u16_at g.recv_buffer 2 == g.expected_block_number)
    then some (ended (remove_out_file [] g.out_file) none)
    else if ltb n 4
    then none
    else some (get_block m sent (n - 4) (take (n - 4) (drop 4 g.recv_buffer)) g)

-- The number that is expected goes up before the type is known to be `DATA`.
unfoldable pub get_message : TransferMode → Bool → ℕ → Getting → Option (Turn Getting GetEnd)
get_message m sent n g =
    let msg_type = u16_at g.recv_buffer 0 in
    let next = record g { expected_block_number = (g.expected_block_number + 1) % 65536 } in
    if msg_type == opcode error
    then (write_error_message g.recv_buffer >>= λ report.
        some (ended (remove_out_file report g.out_file) none))
    else if msg_type == opcode data_block
    then get_data m sent n next
    else some (more next none)

-- One turn of the loop, on what `recv` gives; `none` is an error, which leaves the file where it is.
unfoldable pub get_turn :
    TransferMode → Bool → Option Bytes → Getting → Option (Turn Getting GetEnd)
unfolding get_message get_data get_block
get_turn m sent none g = some (ended (leave false g.out_file) none)
get_turn m sent (some d) g =
    get_message m sent (received_count d) (record g { recv_buffer = received d g.recv_buffer })

-- `getFile` up to its loop: the file is opened and the request sent; `buffer` is what stands in the
-- receive buffer.
unfoldable pub get_file : TransferMode → Bool → Bool → Bytes → Bytes → Turn Getting GetEnd
unfolding open_out
get_file m can_create sent src_filename buffer =
    let f = open_out can_create closed_out in
    if not (f.opened && f.good)
    then ended (leave false f) none
    else if not sent
    then ended (leave false f) none
    else more (record { expected_block_number = 0; out_file = f; recv_buffer = buffer })
        (some (request_datagram rrq src_filename m))
