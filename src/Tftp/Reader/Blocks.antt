-- ===== src/Tftp/Reader/Blocks.antt =====
-- `TFTPSessionRead::sendBlockOfData`.
use network_protocols.Common.{
  ℕ, zero, suc, ◌+◌, ◌%◌, Bool, true, false, [], ◌∷◌, ◌++◌, Option, none, some, Bytes, length,
  put_u16, ltb, ◌==◌, if◌then◌else◌,
}
use network_protocols.Tftp.Protocol.{TransferMode, binary, ascii, State, data_block, opcode}
use network_protocols.Tftp.Streams.{InFile, peek, at_eof, skip, read_block}

pub record ReadSession : Type 0 where
  pub mode : TransferMode
  pub block_counter : ℕ
  pub state : State
  pub in_file : InFile
  pub read_complete : Bool
  pub line_feed : Bool

-- The local variables of the netascii loop: the bytes put into the buffer behind the header, `n`,
-- the flag `_lineFeed` and the stream.
pub record Fill : Type 0 where
  pub payload : Bytes
  pub n : ℕ
  pub line_feed : Bool
  pub file : InFile

abbrev pub push : ℕ → Fill → Fill
push x s = record s { payload = s.payload ++ x ∷ []; n = s.n + 1 }

-- One turn of the loop ends by `break`, or goes round.
pub data Turn : Type 0 where
  stop again : Fill → Turn

-- The line feed left over from the block before.
abbrev pub flush : Fill → Fill
flush s = if s.line_feed then record (push 10 s) { line_feed = false } else s

-- `x` was peeked; a line feed is sent as CR LF, and at the last place of the block only the CR.
abbrev pub carry : Fill → Turn
carry s =
    if s.n == 512
    then stop (record s { file = skip s.file; line_feed = true })
    else again (push 10 (record s { file = skip s.file }))

unfoldable pub turn_on : Option ℕ → Fill → Turn
turn_on none s = stop (record s { file = at_eof s.file })
turn_on (some x) s =
    if x == 10 then carry (push 13 s) else again (push x (record s { file = skip s.file }))

unfoldable pub turn : Fill → Turn
unfolding turn_on
turn s = turn_on (peek (flush s).file) (flush s)

-- `while (n < 512)`, on fuel for its turns.
unfoldable pub fill : ℕ → Fill → Fill
fill zero s = s
fill (suc fuel) s = elim (ltb s.n 512) [
  | true ↦ elim (turn s) [ stop t ↦ t | again t ↦ fill fuel t ]
  | false ↦ s
]

-- The data of the next block, with the stream and the flag afterwards. Each turn puts a byte or
-- ends, so 512 turns are enough.
unfoldable pub next_block : TransferMode → InFile → Bool → Fill
next_block ascii f lf = fill 512 (record { payload = []; n = 0; line_feed = lf; file = f })
next_block binary f lf =
    let (bytes, after) = read_block 512 f in
    record { payload = bytes; n = length bytes; line_feed = lf; file = after }

-- The session afterwards, with the datagram; the caller's flag is whether it could be sent.
unfoldable pub send_block_of_data : ReadSession → ReadSession × Bytes
unfolding next_block
send_block_of_data s =
    let counter = (s.block_counter + 1) % 65536 in
    let block = next_block s.mode s.in_file s.line_feed in
    (
      record s {
        block_counter = counter;
        in_file = block.file;
        line_feed = block.line_feed;
        read_complete = if ltb block.n 512 then true else s.read_complete;
      },
      put_u16 (opcode data_block) ++ (put_u16 counter ++ block.payload),
    )
