-- ===== src/Tftp/Serves.antt =====
-- From a read request to the end of the transfer.
use network_protocols.Common.{
  ℕ, ◌+◌, ◌≤◌, ◌≡◌, refl, ◌∙◌, ap, ◌≢◌, true, false, [], ◌∷◌, Option, some, Bytes, length, arith,
}
use network_protocols.Tftp.Protocol.{TransferMode, binary, ascii, active, finished, rrq}
use network_protocols.Tftp.Streams.{open_in}
use network_protocols.Tftp.Reader.Blocks.{ReadSession, send_block_of_data}
use network_protocols.Tftp.Reader.Requests.{new_reader, on_read_request, start_reading}
use network_protocols.Tftp.Reader.Turns.{netascii, pending}
use network_protocols.Tftp.Reader.Transfer.{
  IsSending, send_block-Sends, converse, converse-to_send, rounds-Sends, to_send,
}
use network_protocols.Tftp.Strings.{NoNul, request_message, parse_request-request_message}

-- A file as the transfer mode puts it on the wire.
abbrev pub on_wire : TransferMode → Bytes → Bytes
on_wire binary contents = contents
on_wire ascii contents = netascii contents

-- The session after a good request, before its first block.
abbrev pub opened_session : TransferMode → Bytes → ReadSession
opened_session m contents = record {
  mode = m;
  block_counter = 0;
  state = active;
  in_file = record { opened = true; good = true; rest = contents };
  read_complete = false;
  line_feed = false;
}

pub to_send-opened_session :
    (m : TransferMode) (contents : Bytes) → to_send (opened_session m contents) ≡ on_wire m contents
unfolding pending
to_send-opened_session binary contents = refl
to_send-opened_session ascii contents = refl

pub on_read_request-request_message :
    (files : Bytes → Option Bytes) (name contents : Bytes) (m : TransferMode) (rest : Bytes)
    → NoNul name
    → name ≢ []
    → files name ≡ some contents
    → let r = send_block_of_data (opened_session m contents) in
      on_read_request files (request_message rrq name m rest) new_reader ≡ some (r.0, r.1 ∷ [])
unfolding on_read_request start_reading open_in
on_read_request-request_message files name contents m rest h ne found =
    rw (parse_request-request_message rrq name m rest h ne, on_read_request)
      (rw (found, start_reading, open_in) refl)

-- A new read session that is asked for a file which exists answers with a first block, and a
-- client that acknowledges every block gets the whole file, in the form of the transfer mode,
-- after which the session has finished. The client needs at most two rounds more than there are
-- bytes on the wire. The block number may wrap round on the way.
pub serves_file :
    (files : Bytes → Option Bytes) (name contents : Bytes) (m : TransferMode) (rest : Bytes)
    (fuel : ℕ)
    → NoNul name
    → name ≢ []
    → files name ≡ some contents
    → length (on_wire m contents) + 2 ≤ fuel
    → (s : ReadSession) × (datagram : Bytes) × (t : ReadSession) × (on_read_request files
          (request_message rrq name m rest)
          new_reader
        ≡ some (s, datagram ∷ []))
      × (converse fuel files s datagram [] ≡ some (t, on_wire m contents))
      × (t.state ≡ finished)
serves_file files name contents m rest fuel h ne found enough =
    let o = opened_session m contents in
    let i : IsSending o = record { counter_fits = omega arith; complete = λ e. cc } in
    let k = send_block-Sends o i in
    let s = (send_block_of_data o).0 in
    let (t, e, f) =
      converse-to_send fuel files s k.payload [] k.sending
        (omega (arith, rounds-Sends o s _ k refl, ap length (to_send-opened_session m contents))) in
    (
      s,
      (send_block_of_data o).1,
      t,
      on_read_request-request_message files name contents m rest h ne found,
      ap (λ d. converse fuel files s d []) k.datagram_is
          ∙ e
          ∙ ap (λ x. some (t, x)) (k.next ∙ to_send-opened_session m contents),
      f,
    )
