-- ===== src/Tftp/Repeats.antt =====
-- Datagrams that come twice.
use network_protocols.Common.{
  ℕ, ◌+◌, ◌%◌, ◌<◌, ◌≡◌, refl, sym, ◌∙◌, ap, ◌≢◌, Bool, false, [], ◌∷◌, Option, some, Bytes, u16_at,
  u16_at-put_u16, ◌==◌, arith,
}
use network_protocols.Tftp.Protocol.{unknown_transfer_id, error_message}
use network_protocols.Tftp.Reader.Blocks.{ReadSession, send_block_of_data}
use network_protocols.Tftp.Reader.Requests.{on_ack, on_read_request}
use network_protocols.Tftp.Reader.Transfer.{ack_message, data_message, on_read_request-ack_message}
use network_protocols.Tftp.Writer.Checks.{Folder}
use network_protocols.Tftp.Writer.Blocks.{WriteSession, on_block, on_write_request}

other_counter : (a b : ℕ) → a ≢ b → (a == b) ≡ false
other_counter a b ne = ground arith

-- An acknowledgement of any block but the last one sent changes nothing, and is answered by the
-- error `unknown_transfer_id`.
pub stale_ack :
    (files : Bytes → Option Bytes) (c : ℕ) (s : ReadSession)
    → c < 65536
    → c ≢ s.block_counter
    → on_read_request files (ack_message c) s ≡ some (s, error_message unknown_transfer_id [] ∷ [])
unfolding on_ack
stale_ack files c s h ne =
    on_read_request-ack_message files c s h ∙ rw (other_counter c s.block_counter ne)

-- So an acknowledgement that comes twice sends no block twice: after the next block went out, the
-- acknowledgement of the block before it is stale.
repeated_ack :
    (files : Bytes → Option Bytes) (s : ReadSession)
    → s.block_counter < 65536
    → let t = (send_block_of_data s).0 in
      on_read_request files (ack_message s.block_counter) t
      ≡ some (t, error_message unknown_transfer_id [] ∷ [])
unfolding send_block_of_data
repeated_ack files s h =
    stale_ack files s.block_counter (send_block_of_data s).0 h (λ e. omega arith)

refused_block :
    (folder : Folder) (sent : Bool) (c amount : ℕ) (p : Bytes) (s : WriteSession)
    → c < 65536
    → c ≢ (s.block_counter + 1) % 65536
    → on_write_request folder sent (data_message c p) amount s
      ≡ some (
        record s { block_counter = (s.block_counter + 1) % 65536 },
        error_message unknown_transfer_id [] ∷ [],
      )
unfolding on_write_request on_block
refused_block folder sent c amount p s h ne =
    let e : u16_at (data_message c p) 2 ≡ c = u16_at-put_u16 c p h in
    rw
      (other_counter (u16_at (data_message c p) 2) ((s.block_counter + 1) % 65536)
        (λ f. ne (sym e ∙ f)))
      refl

-- A block that comes twice puts a write session out of step: the counter goes up on the repeated
-- block too, so both it and the block that the client sends next are refused.
pub repeated_block :
    (folder : Folder) (sent : Bool) (p q : Bytes) (amount amount' : ℕ) (s : WriteSession)
    → s.block_counter < 65536
    → let t = record s { block_counter = (s.block_counter + 1) % 65536 } in
      let u = record s { block_counter = (s.block_counter + 2) % 65536 } in
      (on_write_request folder sent (data_message s.block_counter p) amount s
        ≡ some (t, error_message unknown_transfer_id [] ∷ []))
      × (on_write_request folder sent (data_message ((s.block_counter + 1) % 65536) q) amount' t
          ≡ some (u, error_message unknown_transfer_id [] ∷ []))
repeated_block folder sent p q amount amount' s h =
    let t = record s { block_counter = (s.block_counter + 1) % 65536 } in
    let c : (t.block_counter + 1) % 65536 ≡ (s.block_counter + 2) % 65536 = omega arith in
    (
      refused_block folder sent s.block_counter amount p s h (λ e. omega arith),
      refused_block folder sent t.block_counter amount' q t (omega arith) (λ e. omega arith)
          ∙ ap
              (λ k.
                some (record s { block_counter = k }, error_message unknown_transfer_id [] ∷ []))
              c,
    )
