-- ===== src/Tftp/Copies.antt =====
-- A file read from one server and written to another.
use network_protocols.Common.{
  ℕ, ◌+◌, ◌≤◌, ◌≡◌, refl, sym, ◌∙◌, ap, ◌≢◌, true, false, [], ◌∷◌, Option, some, Bytes, length,
  arith, ◌++◌,
}
use network_protocols.Tftp.Protocol.{TransferMode, binary, ascii, rrq, wrq, active}
use network_protocols.Tftp.Streams.{open_out}
use network_protocols.Tftp.Reader.Blocks.{ReadSession, send_block_of_data}
use network_protocols.Tftp.Reader.Requests.{new_reader, on_read_request}
use network_protocols.Tftp.Reader.Transfer.{IsSending, send_block-Sends, rounds-Sends, to_send}
use network_protocols.Tftp.Writer.Checks.{Folder, check_folder}
use network_protocols.Tftp.Writer.Blocks.{
  WriteSession, new_writer, acknowledge, decoded, start_writing, on_write_request,
}
use network_protocols.Tftp.Strings.{NoNul, request_message, parse_request-request_message}
use network_protocols.Tftp.Serves.{
  on_wire, opened_session, to_send-opened_session, on_read_request-request_message,
}
use network_protocols.Tftp.Joined.{relay, without_cr-netascii}
use network_protocols.Tftp.Relay.{InStep, Delivered, relay-Delivered, Sends-last}

-- The checks of a write request all pass.
pub record Allows (folder : Folder) (name : Bytes) : Type 0 where
  pub path_ok : folder.current_path ≡ true
  pub is_new : folder.file_exists name ≡ some false
  pub may_write : folder.others_write ≡ some true
  pub creates : folder.can_create name ≡ true

-- The session after a good write request.
abbrev pub receiving_session : TransferMode → WriteSession
receiving_session m = record {
  mode = m;
  block_counter = 0;
  state = active;
  out_file = record { opened = true; good = true; written = [] };
}

pub on_write_request-request_message :
    (folder : Folder) (name : Bytes) (m : TransferMode) (rest : Bytes) (amount : ℕ)
    → NoNul name
    → name ≢ []
    → Allows folder name
    → on_write_request folder true (request_message wrq name m rest) amount new_writer
      ≡ some (receiving_session m, acknowledge 0 ∷ [])
unfolding on_write_request start_writing check_folder open_out
on_write_request-request_message folder name m rest amount h ne a =
    rw (parse_request-request_message wrq name m rest h ne, on_write_request)
      (rw (a.path_ok, start_writing)
        (rw (a.is_new, start_writing)
          (rw (a.may_write, start_writing) (rw (a.creates, open_out) refl))))

pub decoded-on_wire :
    (m : TransferMode) (contents : Bytes) → decoded m (on_wire m contents) ≡ decoded m contents
decoded-on_wire binary contents = refl
decoded-on_wire ascii contents = without_cr-netascii contents

-- A read session for a file that exists and a write session whose checks pass, in the same mode
-- and joined by a client that passes on data and acknowledgements, both finish; the file written
-- is closed and holds the bytes read, in binary mode all of them and in netascii mode all but the
-- carriage returns. At most two rounds more are needed than there are bytes on the wire.
pub copies_file :
    (files : Bytes → Option Bytes) (folder : Folder) (name target contents : Bytes)
    (m : TransferMode) (rest : Bytes) (amount fuel : ℕ)
    → NoNul name
    → name ≢ []
    → NoNul target
    → target ≢ []
    → files name ≡ some contents
    → Allows folder target
    → length (on_wire m contents) + 2 ≤ fuel
    → (s : ReadSession) × (datagram : Bytes) × (w : WriteSession) × (t : ReadSession)
      × (v : WriteSession) × (on_read_request files (request_message rrq name m rest) new_reader
          ≡ some (s, datagram ∷ []))
      × (on_write_request folder true (request_message wrq target m rest) amount new_writer
          ≡ some (w, acknowledge 0 ∷ []))
      × (relay fuel files folder s w datagram ≡ some (t, v))
      × Delivered (decoded m contents) t v
copies_file files folder name target contents m rest amount fuel h ne h' ne' found a enough =
    let o = opened_session m contents in
    let i : IsSending o = record { counter_fits = omega arith; complete = λ e. cc } in
    let k = send_block-Sends o i in
    let s = (send_block_of_data o).0 in
    let w = receiving_session m in
    let j : InStep s w k.payload [] = record {
      sending = k.sending;
      counters = k.counter_is;
      modes = sym k.mode_kept;
      last = Sends-last o s _ k refl;
      file = record { opened = refl; good = refl; holds = refl };
    } in
    let (t, v, e, f) =
      relay-Delivered fuel files folder s w k.payload [] j
        (omega (arith, rounds-Sends o s _ k refl, ap length (to_send-opened_session m contents))) in
    (
      s,
      (send_block_of_data o).1,
      w,
      t,
      v,
      on_read_request-request_message files name contents m rest h ne found,
      on_write_request-request_message folder target m rest amount h' ne' a,
      ap (relay fuel files folder s w) k.datagram_is ∙ e,
      record {
        reader_finished = f.reader_finished;
        writer_finished = f.writer_finished;
        file_closed = f.file_closed;
        file_good = f.file_good;
        file_is =
            f.file_is
            ∙ ap (λ x. decoded x (k.payload ++ to_send s)) k.mode_kept
            ∙ ap (decoded m) (k.next ∙ to_send-opened_session m contents)
            ∙ decoded-on_wire m contents;
      },
    )
