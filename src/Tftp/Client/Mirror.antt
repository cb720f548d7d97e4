-- ===== src/Tftp/Client/Mirror.antt =====
-- The loop of `putFile` sends what a session of the server that reads the same file would send.
use network_protocols.Common.{
  ◌<◌, ◌≡◌, refl, true, [], some, none, Bytes, drop, u16_at-put_u16, ==_iff, if◌then◌else◌,
}
use network_protocols.Tftp.Protocol.{TransferMode, active}
use network_protocols.Tftp.Reader.Blocks.{ReadSession, send_block_of_data}
use network_protocols.Tftp.Writer.Blocks.{acknowledge}
use network_protocols.Tftp.Client.Messages.{received, more, ended}
use network_protocols.Tftp.Client.Put.{Putting, put_block, put_ack, put_message, put_turn}

-- The loop's variables as those of a session of the server that sends the same file.
abbrev pub as_reader : TransferMode → Putting → ReadSession
as_reader m s = record {
  mode = m;
  block_counter = s.curr_block_number;
  state = active;
  in_file = s.in_file;
  read_complete = s.complete;
  line_feed = s.line_feed;
}

-- The variables behind the next block.
abbrev pub behind_block : TransferMode → Bytes → Putting → Putting
behind_block m d s =
    let t = (send_block_of_data (as_reader m s)).0 in
    record {
      curr_block_number = t.block_counter;
      complete = t.read_complete;
      line_feed = t.line_feed;
      in_file = t.in_file;
      recv_buffer = received d s.recv_buffer;
    }

-- The client sends what a session of the server would.
pub put_block-send_block :
    (m : TransferMode) (d : Bytes) (s : Putting)
    → put_block m true (record s { recv_buffer = received d s.recv_buffer })
      ≡ more (behind_block m d s) (some (send_block_of_data (as_reader m s)).1)
unfolding put_block send_block_of_data
put_block-send_block m d s = refl

pub as_reader-behind_block :
    (m : TransferMode) (d : Bytes) (s : Putting)
    → as_reader m (behind_block m d s) ≡ (send_block_of_data (as_reader m s)).0
unfolding send_block_of_data
as_reader-behind_block m d s = refl

pub put_turn-acknowledge :
    (m : TransferMode) (s : Putting)
    → s.curr_block_number < 65536
    → let d = acknowledge s.curr_block_number in
      put_turn m true (some d) s
      ≡ some (
          if s.complete
          then ended (record { result = true; report = [] }) none
          else put_block m true (record s { recv_buffer = received d s.recv_buffer }))
unfolding put_turn put_message put_ack
put_turn-acknowledge m s h =
    let number = u16_at-put_u16 s.curr_block_number (drop 4 s.recv_buffer) h in
    rw (number, (==_iff s.curr_block_number s.curr_block_number).1 refl) refl
