-- ===== src/Tftp/Client/Put.antt =====
-- `TFTPClient::putFile`.
use network_protocols.Common.{
  ℕ, ◌+◌, ◌%◌, Bool, true, false, ◌++◌, Option, none, some, Bytes, [], put_u16, u16_at, ltb, not,
  ◌==◌, if◌then◌else◌, ◌>>=◌,
}
use network_protocols.Tftp.Protocol.{TransferMode, wrq, data_block, ack, error, opcode}
use network_protocols.Tftp.Streams.{InFile, closed_in, open_in}
use network_protocols.Tftp.Reader.Blocks.{next_block}
use network_protocols.Tftp.Client.Messages.{
  request_datagram, received, write_error_message, Turn, more, ended,
}

-- The variables of the loop, and the receive buffer.
pub record Putting : Type 0 where
  pub curr_block_number : ℕ
  pub complete : Bool
  pub line_feed : Bool
  pub in_file : InFile
  pub recv_buffer : Bytes

-- What `putFile` returns, and what it wrote of an error message.
pub record PutEnd : Type 0 where
  pub result : Bool
  pub report : Bytes

abbrev fail : Bytes → Turn Putting PutEnd
fail report = ended (record { result = false; report = report }) none

-- The next block. The two loops that fill it, on the local copies of the variables, are those of the
-- server's `sendBlockOfData`.
unfoldable pub put_block : TransferMode → Bool → Putting → Turn Putting PutEnd
unfolding next_block
put_block m sent s =
    let number = (s.curr_block_number + 1) % 65536 in
    let block = next_block m s.in_file s.line_feed in
    let datagram = put_u16 (opcode data_block) ++ (put_u16 number ++ block.payload) in
    if not sent
    then fail []
    else more
        (record s {
          curr_block_number = number;
          complete = if ltb block.n 512 then true else s.complete;
          line_feed = block.line_feed;
          in_file = block.file;
        })
        (some datagram)

-- An `ACK` message.
unfoldable pub put_ack : TransferMode → Bool → Putting → Turn Putting PutEnd
put_ack m sent s =
    if not (u16_at s.recv_buffer 2 == s.curr_block_number)
    then fail []
    else if s.complete
    then ended (record { result = true; report = [] }) none
    else put_block m sent s

unfoldable pub put_message : TransferMode → Bool → Putting → Option (Turn Putting PutEnd)
put_message m sent s =
    let msg_type = u16_at s.recv_buffer 0 in
    if msg_type == opcode error
    then (write_error_message s.recv_buffer >>= λ report. some (fail report))
    else if msg_type == opcode ack
    then some (put_ack m sent s)
    else some (more s none)

-- One turn of the loop, on what `recv` gives.
unfoldable pub put_turn :
    TransferMode → Bool → Option Bytes → Putting → Option (Turn Putting PutEnd)
unfolding put_message put_ack put_block
put_turn m sent none s = some (fail [])
put_turn m sent (some d) s =
    put_message m sent (record s { recv_buffer = received d s.recv_buffer })

-- `putFile` up to its loop, on the contents of the file, if there is one.
unfoldable pub put_file : TransferMode → Option Bytes → Bool → Bytes → Bytes → Turn Putting PutEnd
unfolding open_in
put_file m contents sent dst_filename buffer =
    let (f, is_open) = open_in contents closed_in in
    if not is_open
    then fail []
    else if not sent
    then fail []
    else more
        (record {
          curr_block_number = 0;
          complete = false;
          line_feed = false;
          in_file = f;
          recv_buffer = buffer;
        })
        (some (request_datagram wrq dst_filename m))
