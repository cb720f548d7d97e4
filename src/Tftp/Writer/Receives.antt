-- ===== src/Tftp/Writer/Receives.antt =====
-- A whole upload: a client that sends the blocks of a file in turn.
use network_protocols.Common.{
  ℕ, ◌+◌, ◌-◌, ◌%◌, ◌≤◌, ◌≡◌, refl, ◌∙◌, ap, true, false, [], ◌∷◌, ◌++◌, some, Bytes, length, take,
  drop, take-length_append, u16_at, u16_at-put_u16, ltb, if◌then◌else◌, ==_iff, arith,
}
use network_protocols.Tftp.Protocol.{finished}
use network_protocols.Tftp.Streams.{write_out, close_out}
use network_protocols.Tftp.Reader.Transfer.{data_message}
use network_protocols.Tftp.Writer.Checks.{Folder}
use network_protocols.Tftp.Writer.Blocks.{
  WriteSession, acknowledge, decoded, accept_block, on_block, on_write_request,
}

abbrev pub next_counter : WriteSession → ℕ
next_counter s = (s.block_counter + 1) % 65536

-- The session after a block that is in sequence.
abbrev pub after_block : Bytes → WriteSession → WriteSession
after_block payload s =
    let t = record s {
      block_counter = next_counter s;
      out_file = write_out (decoded s.mode payload) s.out_file;
    } in
    if ltb (length payload) 512
    then record t { out_file = close_out t.out_file; state = finished }
    else t

on_block-in_sequence :
    (buffer payload : Bytes) (amount : ℕ) (s : WriteSession)
    → u16_at buffer 2 ≡ next_counter s
    → 4 ≤ amount
    → amount - 4 ≡ length payload
    → take (amount - 4) (drop 4 buffer) ≡ payload
    → on_block true buffer amount s
      ≡ some (after_block payload s, acknowledge (next_counter s) ∷ [])
unfolding on_block accept_block
on_block-in_sequence buffer payload amount s c h n e =
    let small : ltb amount 4 ≡ false = ground arith in
    rw ((==_iff (u16_at buffer 2) (next_counter s)).1 c, small, e, n) refl

-- A block in sequence: its data is written behind what the file holds, the block is acknowledged
-- by its own number, and a block that is not full closes the file and finishes the session.
pub on_write_request-data_message :
    (folder : Folder) (payload rest : Bytes) (s : WriteSession)
    → let counter = (s.block_counter + 1) % 65536 in
      on_write_request folder true (data_message counter payload ++ rest) (4 + length payload) s
      ≡ some (after_block payload s, acknowledge counter ∷ [])
unfolding on_write_request
on_write_request-data_message folder payload rest s =
    let n : 4 + length payload - 4 ≡ length payload = omega arith in
    on_block-in_sequence (data_message (next_counter s) payload ++ rest) payload
      (4 + length payload) s (u16_at-put_u16 (next_counter s) (payload ++ rest) (omega arith))
      (omega arith) n (ap (λ k. take k (payload ++ rest)) n ∙ take-length_append payload rest)
