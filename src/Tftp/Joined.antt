-- ===== src/Tftp/Joined.antt =====
-- A read session and a write session joined: the data of the one is the input of the other, and
-- each acknowledgement goes back.
use network_protocols.Common.{
  ℕ, zero, suc, ◌+◌, ◌≡◌, refl, sym, ◌∙◌, ap, true, inl, inr, List, [], ◌∷◌, ◌++◌, append-nil,
  append_assoc, Option, none, some, Bytes, length, ◌==◌, if◌then◌else◌, Bool-cases, ==_iff, arith,
}
use network_protocols.Tftp.Protocol.{TransferMode, binary, ascii}
use network_protocols.Tftp.Reader.Blocks.{ReadSession}
use network_protocols.Tftp.Reader.Requests.{on_ack, on_read_request}
use network_protocols.Tftp.Reader.Turns.{netascii}
use network_protocols.Tftp.Reader.Transfer.{data_message, on_read_request-ack_message}
use network_protocols.Tftp.Writer.Checks.{Folder}
use network_protocols.Tftp.Writer.Blocks.{
  WriteSession, acknowledge, without_cr, decoded, on_write_request,
}
use network_protocols.Tftp.Writer.Receives.{
  next_counter, after_block, on_write_request-data_message,
}

abbrev pub answer :
    (ReadSession → WriteSession → Bytes → Option (ReadSession × WriteSession))
    → WriteSession
    → Option (ReadSession × List Bytes)
    → Option (ReadSession × WriteSession)
answer go w none = none
answer go w (some (s, [])) = some (s, w)
answer go w (some (s, d ∷ _)) = go s w d

abbrev pub deliver :
    (ReadSession → WriteSession → Bytes → Option (ReadSession × WriteSession))
    → (Bytes → Option Bytes)
    → ReadSession
    → Option (WriteSession × List Bytes)
    → Option (ReadSession × WriteSession)
deliver go files s none = none
deliver go files s (some (w, [])) = none
deliver go files s (some (w, a ∷ _)) = answer go w (on_read_request files a s)

-- The writer gets the reader's last datagram, the reader gets the acknowledgement, and so on until
-- the reader has nothing to answer. `none` is the end of the fuel, or a session that fails.
pub relay :
    ℕ
    → (Bytes → Option Bytes)
    → Folder
    → ReadSession
    → WriteSession
    → Bytes
    → Option (ReadSession × WriteSession)
relay zero files folder s w d = none
relay (suc fuel) files folder s w d =
    deliver (relay fuel files folder) files s (on_write_request folder true d (length d) w)

write_data_message :
    (folder : Folder) (p : Bytes) (w : WriteSession)
    → let d = data_message (next_counter w) p in
      on_write_request folder true d (length d) w
      ≡ some (after_block p w, acknowledge (next_counter w) ∷ [])
write_data_message folder p w =
    let d = data_message (next_counter w) p in
    let n : length d ≡ 4 + length p = omega arith in
    ap (λ k. on_write_request folder true d k w) n
    ∙ ap (λ x. on_write_request folder true x (4 + length p) w) (sym (append-nil d))
    ∙ on_write_request-data_message folder p [] w

pub relay_step :
    (fuel : ℕ) (files : Bytes → Option Bytes) (folder : Folder) (s : ReadSession) (w : WriteSession)
    (p : Bytes)
    → s.block_counter ≡ next_counter w
    → relay (suc fuel) files folder s w (data_message s.block_counter p)
      ≡ answer (relay fuel files folder) (after_block p w) (some (on_ack s.block_counter s))
unfolding relay
relay_step fuel files folder s w p e =
    let go = relay fuel files folder in
    ap
      (λ c.
        deliver go files s
          (on_write_request folder true (data_message c p) (length (data_message c p)) w))
      e
    ∙ ap (deliver go files s) (write_data_message folder p w)
    ∙ ap (λ k. answer go (after_block p w) (on_read_request files (acknowledge k) s)) (sym e)
    ∙ ap (answer go (after_block p w))
        (on_read_request-ack_message files s.block_counter s (omega arith))

-- A file that is open, with `bytes` in it.
pub record Holds (bytes : Bytes) (w : WriteSession) : Type 0 where
  pub opened : w.out_file.opened ≡ true
  pub good : w.out_file.good ≡ true
  pub holds : w.out_file.written ≡ bytes

without_cr-append : (xs ys : Bytes) → without_cr (xs ++ ys) ≡ without_cr xs ++ without_cr ys
unfolding without_cr
without_cr-append [] ys = refl
without_cr-append (x ∷ xs) ys =
    rw (without_cr-append xs ys) (sym (append_assoc (if x == 13 then [] else x ∷ []) _ _))

pub decoded-append :
    (m : TransferMode) (xs ys : Bytes) → decoded m (xs ++ ys) ≡ decoded m xs ++ decoded m ys
decoded-append binary xs ys = refl
decoded-append ascii xs ys = without_cr-append xs ys

pub without_cr-netascii : (xs : Bytes) → without_cr (netascii xs) ≡ without_cr xs
unfolding without_cr netascii
without_cr-netascii [] = refl
without_cr-netascii (x ∷ xs) = elim (Bool-cases (x == 10)) [
  | inl e ↦ rw ((==_iff x 10).0 e) (ap (◌∷◌ 10) (without_cr-netascii xs))
  | inr e ↦ rw e (rw (without_cr-netascii xs))
]
