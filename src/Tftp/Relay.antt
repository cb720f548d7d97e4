-- ===== src/Tftp/Relay.antt =====
-- A transfer from a read session to a write session, from the first block to the last.
use network_protocols.Common.{
  ℕ, zero, suc, ◌+◌, ◌%◌, ◌≤◌, ◌<◌, ◌≡◌, refl, sym, ◌∙◌, ap, true, false, inl, inr, ◌++◌,
  append-nil, append_assoc, Option, some, Bytes, length, ltb, Bool-cases, ltb→lt, ltb→le, arith,
}
use network_protocols.Tftp.Protocol.{finished}
use network_protocols.Tftp.Streams.{write_out, close_out, close_in}
use network_protocols.Tftp.Reader.Blocks.{ReadSession, send_block_of_data}
use network_protocols.Tftp.Reader.Transfer.{
  data_message, IsSending, Sends, send_block-Sends, rounds, rounds-Sends, to_send, on_ack_last,
  on_ack_next,
}
use network_protocols.Tftp.Writer.Checks.{Folder}
use network_protocols.Tftp.Writer.Blocks.{WriteSession, decoded}
use network_protocols.Tftp.Writer.Receives.{next_counter, after_block}
use network_protocols.Tftp.Joined.{answer, relay, relay_step, Holds, decoded-append}

-- The block before the reader's next: what it tells of the reader.
pub record InStep (s : ReadSession) (w : WriteSession) (p got : Bytes) : Type 0 where
  pub sending : IsSending s
  pub counters : s.block_counter ≡ next_counter w
  pub modes : w.mode ≡ s.mode
  pub last : s.read_complete ≡ ltb (length p) 512
  pub file : Holds got w

pub record Delivered (bytes : Bytes) (s : ReadSession) (w : WriteSession) : Type 0 where
  pub reader_finished : s.state ≡ finished
  pub writer_finished : w.state ≡ finished
  pub file_closed : w.out_file.opened ≡ false
  pub file_good : w.out_file.good ≡ true
  pub file_is : w.out_file.written ≡ bytes

pub record KeepsOpen (p got : Bytes) (w v : WriteSession) : Type 0 where
  pub modes : v.mode ≡ w.mode
  pub counters : v.block_counter ≡ next_counter w
  pub file : Holds (got ++ decoded w.mode p) v

pub after_block_full :
    (p got : Bytes) (w : WriteSession)
    → 512 ≤ length p
    → Holds got w
    → KeepsOpen p got w (after_block p w)
unfolding write_out
after_block_full p got w h f =
    let big : ltb (length p) 512 ≡ false = ground arith in
    rw (big, f.good, f.opened)
      (record {
        modes = refl;
        counters = refl;
        file = record {
          opened = refl;
          good = refl;
          holds = ap (λ b. b ++ decoded w.mode p) f.holds;
        };
      })

pub after_block_last :
    (p got : Bytes) (w : WriteSession)
    → length p < 512
    → Holds got w
    → let v = after_block p w in
      (v.state ≡ finished)
      × (v.out_file.opened ≡ false)
      × (v.out_file.good ≡ true)
      × (v.out_file.written ≡ got ++ decoded w.mode p)
unfolding write_out close_out
after_block_last p got w h f =
    let small : ltb (length p) 512 ≡ true = ground arith in
    rw (small, f.good, f.opened) (refl, refl, refl, ap (λ b. b ++ decoded w.mode p) f.holds)

pub Sends-last :
    (s t : ReadSession) (d : Bytes) (k : Sends s t d)
    → s.read_complete ≡ false
    → t.read_complete ≡ ltb (length k.payload) 512
Sends-last s t d k h = elim (Bool-cases (ltb (length k.payload) 512)) [
  | inl short ↦ k.short (ltb→lt _ _ short) ∙ sym short
  | inr full ↦ k.full (ltb→le _ _ full) ∙ h ∙ sym full
]

pub relay-Delivered :
    (fuel : ℕ) (files : Bytes → Option Bytes) (folder : Folder) (s : ReadSession) (w : WriteSession)
    (p got : Bytes)
    → InStep s w p got
    → rounds s ≤ fuel
    → (t : ReadSession) × (v : WriteSession) × (relay fuel files folder s w
          (data_message s.block_counter p)
        ≡ some (t, v))
      × Delivered (got ++ decoded s.mode (p ++ to_send s)) t v
relay-Delivered zero files folder s w p got i h = absurd (ground arith)
relay-Delivered (suc fuel) files folder s w p got i h = elim (Bool-cases s.read_complete) [
  | inl last ↦
      let (f, closed, good, written) =
        after_block_last p got w (ltb→lt _ _ (sym i.last ∙ last)) i.file in
      (
        record s { in_file = close_in s.in_file; state = finished },
        after_block p w,
        relay_step fuel files folder s w p i.counters
            ∙ ap (λ o. answer (relay fuel files folder) (after_block p w) (some o))
                (on_ack_last s last),
        record {
          reader_finished = refl;
          writer_finished = f;
          file_closed = closed;
          file_good = good;
          file_is =
              written
              ∙ ap (λ b. got ++ b)
                  (ap (λ m. decoded m p) i.modes
                    ∙ ap (decoded s.mode)
                        (sym (append-nil p) ∙ ap (λ b. p ++ b) (sym (i.sending.complete last))));
        },
      )
  | inr more ↦
      let (t, d) = send_block_of_data s in
      let k = send_block-Sends s i.sending in
      let v = after_block p w in
      let o = after_block_full p got w (ltb→le _ _ (sym i.last ∙ more)) i.file in
      let j : InStep t v k.payload (got ++ decoded w.mode p) = record {
        sending = k.sending;
        counters = k.counter_is ∙ ap (λ c. (c + 1) % 65536) (i.counters ∙ sym o.counters);
        modes = o.modes ∙ i.modes ∙ sym k.mode_kept;
        last = Sends-last s t d k more;
        file = o.file;
      } in
      let (u, x, e, f) =
        relay-Delivered fuel files folder t v k.payload (got ++ decoded w.mode p) j
          (omega (arith, rounds-Sends s t d k more)) in
      (
        u,
        x,
        relay_step fuel files folder s w p i.counters
            ∙ ap (λ o. answer (relay fuel files folder) v (some o)) (on_ack_next s more)
            ∙ ap (relay fuel files folder t v) k.datagram_is
            ∙ e,
        record {
          reader_finished = f.reader_finished;
          writer_finished = f.writer_finished;
          file_closed = f.file_closed;
          file_good = f.file_good;
          file_is =
              f.file_is
              ∙ ap (λ m. (got ++ decoded w.mode p) ++ decoded m (k.payload ++ to_send t))
                  k.mode_kept
              ∙ ap (λ m. (got ++ decoded m p) ++ decoded s.mode (k.payload ++ to_send t)) i.modes
              ∙ ap (λ b. (got ++ decoded s.mode p) ++ decoded s.mode b) k.next
              ∙ append_assoc got (decoded s.mode p) (decoded s.mode (to_send s))
              ∙ ap (λ b. got ++ b) (sym (decoded-append s.mode p (to_send s)));
        },
      )
]
