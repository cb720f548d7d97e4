-- ===== src/Tftp/Client/Peer.antt =====
-- What `TFTPServer::receive` answers to the datagrams of the client.
use network_protocols.Common.{
  take_of_short, ℕ, true, false, ◌+◌, ◌≤◌, ◌<◌, ◌≡◌, refl, ◌∙◌, ap, ◌≢◌, List, [], ◌∷◌, ◌++◌,
  append_assoc, Option, none, some, Bytes, length, put_u16, u16_at-put_u16, arith,
}
use network_protocols.Tftp.Protocol.{
  TransferMode, MessageType, rrq, wrq, opcode, error_message, file_not_found, active,
}
use network_protocols.Tftp.Streams.{closed_in, open_in}
use network_protocols.Tftp.Reader.Blocks.{ReadSession, send_block_of_data}
use network_protocols.Tftp.Reader.Requests.{new_reader, on_ack, on_read_request, start_reading}
use network_protocols.Tftp.Reader.Transfer.{data_message}
use network_protocols.Tftp.Writer.Blocks.{WriteSession, acknowledge, on_write_request}
use network_protocols.Tftp.Writer.Receives.{
  next_counter, after_block, on_write_request-data_message,
}
use network_protocols.Tftp.Strings.{
  NoNul, mode_text, request_message, parse_request-request_message,
}
use network_protocols.Tftp.Serves.{opened_session, on_read_request-request_message}
use network_protocols.Tftp.Copies.{Allows, receiving_session, on_write_request-request_message}
use network_protocols.Tftp.Server.{
  Session, reader, writer, System, Table, store_or_erase, update, on_data_received, first_datagram,
  receive,
}
use network_protocols.Tftp.Client.Messages.{request_datagram}

-- A request with what stands behind it in the server's buffer.
pub request_datagram-append :
    (t : MessageType) (name : Bytes) (m : TransferMode) (rest : Bytes)
    → length name ≤ 78
    → request_datagram t name m ++ rest ≡ request_message t name m rest
request_datagram-append t name m rest h =
    ap (λ s. (put_u16 (opcode t) ++ (s ++ 0 ∷ (mode_text m ++ 0 ∷ []))) ++ rest)
      (take_of_short 78 name h)
    ∙ ap (λ b. put_u16 (opcode t) ++ b) (append_assoc name (0 ∷ (mode_text m ++ 0 ∷ [])) rest)
    ∙ ap (λ b. put_u16 (opcode t) ++ (name ++ 0 ∷ b)) (append_assoc (mode_text m) (0 ∷ []) rest)

-- The session that has been asked for a file that does not exist.
abbrev pub missing_session : TransferMode → ReadSession
missing_session m = record new_reader {
  mode = m;
  state = active;
  in_file = record closed_in { good = false };
}

on_read_request-missing :
    (files : Bytes → Option Bytes) (name : Bytes) (m : TransferMode) (rest : Bytes)
    → NoNul name
    → name ≢ []
    → files name ≡ none
    → on_read_request files (request_message rrq name m rest) new_reader
      ≡ some (missing_session m, error_message file_not_found [] ∷ [])
unfolding on_read_request start_reading open_in
on_read_request-missing files name m rest h ne missing =
    rw (parse_request-request_message rrq name m rest h ne, on_read_request)
      (rw (missing, start_reading, open_in) refl)

module _ {E : Type 0} (E-discrete : Discrete E) (sys : System) (ep : E)
    (behind : Bytes → Bytes) where
  -- The server, for datagrams that the client sends from its endpoint; `behind` is what stands in the
  -- server's buffer behind a datagram.
  abbrev pub server : Table E-discrete → Bytes → Option (Table E-discrete × List Bytes)
  server table d = receive E-discrete sys ep (d ++ behind d) (length d) table

  receive_at :
      (buffer : Bytes) (n : ℕ) (table : Table E-discrete) (s : Session)
      → table ep ≡ some s
      → receive E-discrete sys ep buffer n table
        ≡ store_or_erase E-discrete table ep (on_data_received sys buffer n s)
  unfolding receive
  receive_at buffer n table s at = rw (at, receive) refl

  receive_first :
      (buffer : Bytes) (n : ℕ) (table : Table E-discrete)
      → table ep ≡ none
      → receive E-discrete sys ep buffer n table ≡ first_datagram E-discrete sys ep buffer n table
  unfolding receive
  receive_first buffer n table at = rw (at, receive) refl

  pub reader_acked :
      (table : Table E-discrete) (s : ReadSession)
      → table ep ≡ some (reader s)
      → s.block_counter < 65536
      → server table (acknowledge s.block_counter)
        ≡ store_or_erase E-discrete table ep
            (some (reader (on_ack s.block_counter s).0, (on_ack s.block_counter s).1))
  unfolding on_data_received on_read_request
  reader_acked table s at h =
      let d = acknowledge s.block_counter in
      receive_at (d ++ behind d) (length d) table (reader s) at
      ∙ ap (λ c. store_or_erase E-discrete table ep (some (reader (on_ack c s).0, (on_ack c s).1)))
          (u16_at-put_u16 s.block_counter (behind d) h)

  pub writer_told :
      (table : Table E-discrete) (w : WriteSession) (p : Bytes)
      → table ep ≡ some (writer w)
      → sys.sent ≡ true
      → server table (data_message (next_counter w) p)
        ≡ store_or_erase E-discrete table ep
            (some (writer (after_block p w), acknowledge (next_counter w) ∷ []))
  unfolding on_data_received
  writer_told table w p at sent =
      let d = data_message (next_counter w) p in
      let n : length d ≡ 4 + length p = omega arith in
      let told =
        ap (λ k. on_write_request sys.folder true (d ++ behind d) k w) n
        ∙ on_write_request-data_message sys.folder p (behind d) w in
      receive_at (d ++ behind d) (length d) table (writer w) at
      ∙ rw (sent, on_data_received) (rw (told, on_data_received) refl)

  pub reader_requested :
      (table : Table E-discrete) (name contents : Bytes) (m : TransferMode)
      → table ep ≡ none
      → NoNul name
      → name ≢ []
      → length name ≤ 78
      → sys.files name ≡ some contents
      → let r = send_block_of_data (opened_session m contents) in
        server table (request_datagram rrq name m)
        ≡ some (update E-discrete table ep (some (reader r.0)), r.1 ∷ [])
  unfolding first_datagram on_data_received
  reader_requested table name contents m at h ne fits found =
      let d = request_datagram rrq name m in
      receive_first (d ++ behind d) (length d) table at
      ∙ ap (λ b. first_datagram E-discrete sys ep b (length d) table)
          (request_datagram-append rrq name m (behind d) fits)
      ∙ rw
          (
            on_read_request-request_message sys.files name contents m (behind d) h ne found,
            on_data_received,
          )
          refl

  pub writer_requested :
      (table : Table E-discrete) (name : Bytes) (m : TransferMode)
      → table ep ≡ none
      → NoNul name
      → name ≢ []
      → length name ≤ 78
      → Allows sys.folder name
      → sys.sent ≡ true
      → server table (request_datagram wrq name m)
        ≡ some
            (update E-discrete table ep (some (writer (receiving_session m))), acknowledge 0 ∷ [])
  unfolding first_datagram on_data_received
  writer_requested table name m at h ne fits a sent =
      let d = request_datagram wrq name m in
      receive_first (d ++ behind d) (length d) table at
      ∙ ap (λ b. first_datagram E-discrete sys ep b (length d) table)
          (request_datagram-append wrq name m (behind d) fits)
      ∙ rw (sent, on_data_received)
          (rw
            (
              on_write_request-request_message sys.folder name m (behind d) (length d) h ne a,
              on_data_received,
            )
            refl)

  pub reader_missing :
      (table : Table E-discrete) (name : Bytes) (m : TransferMode)
      → table ep ≡ none
      → NoNul name
      → name ≢ []
      → length name ≤ 78
      → sys.files name ≡ none
      → server table (request_datagram rrq name m)
        ≡ some (
          update E-discrete table ep (some (reader (missing_session m))),
          error_message file_not_found [] ∷ [],
        )
  unfolding first_datagram on_data_received
  reader_missing table name m at h ne fits missing =
      let d = request_datagram rrq name m in
      receive_first (d ++ behind d) (length d) table at
      ∙ ap (λ b. first_datagram E-discrete sys ep b (length d) table)
          (request_datagram-append rrq name m (behind d) fits)
      ∙ rw (on_read_request-missing sys.files name m (behind d) h ne missing, on_data_received) refl
