-- ===== src/Tftp/Client/Downloads.antt =====
-- `getFile` against `TFTPServer::receive`: a whole download.
use mathlib.Core.Path.{subst}
use network_protocols.Common.{
  ℕ, zero, suc, ◌+◌, ◌≤◌, ◌≡◌, refl, sym, ◌∙◌, ap, ◌≢◌, true, false, inl, inr, [], ◌∷◌, ◌++◌,
  append-nil, append_assoc, Option, some, none, Bytes, length, Bool-cases, ◌>>=◌, arith,
}
use network_protocols.Tftp.Protocol.{TransferMode}
use network_protocols.Tftp.Streams.{write_out, close_out, open_out}
use network_protocols.Tftp.Reader.Blocks.{ReadSession, send_block_of_data}
use network_protocols.Tftp.Reader.Transfer.{
  data_message, IsSending, send_block-Sends, rounds, rounds-Sends, to_send,
}
use network_protocols.Tftp.Writer.Blocks.{decoded}
use network_protocols.Tftp.Strings.{NoNul}
use network_protocols.Tftp.Serves.{on_wire, opened_session, to_send-opened_session}
use network_protocols.Tftp.Joined.{decoded-append}
use network_protocols.Tftp.Relay.{Sends-last}
use network_protocols.Tftp.Copies.{decoded-on_wire}
use network_protocols.Tftp.Server.{reader, System, Table, update}
use network_protocols.Tftp.Table.{update_here, update_elsewhere}
use network_protocols.Tftp.Client.Messages.{talk}
use network_protocols.Tftp.Client.Get.{Getting, GetEnd, get_turn, get_file}
use network_protocols.Tftp.Client.Receives.{next_expected, counted, HasGot, write_out-Holds, leaves}
use network_protocols.Tftp.Client.Peer.{server, reader_requested}
use network_protocols.Tftp.Client.Exchanges.{
  Ready, Ready-next, sent_fits, Erased, erase, getting, getting_last, getting_next,
}

module _ {E : Type 0} (E-discrete : Discrete E) (sys : System) (ep : E)
    (behind : Bytes → Bytes) where
  -- What a conversation that ends well leaves.
  abbrev pub Gets : Table E-discrete → Bytes → Option (Table E-discrete × GetEnd) → Type 0
  Gets table bytes o =
      (after : Table E-discrete) × (e : GetEnd) × (o ≡ some (after, e))
      × HasGot bytes e
      × Erased E-discrete sys ep behind table after

  Gets-of :
      (table : Table E-discrete) (bytes bytes' : Bytes) (o o' : Option (Table E-discrete × GetEnd))
      → o ≡ o'
      → bytes' ≡ bytes
      → Gets table bytes' o'
      → Gets table bytes o
  Gets-of table bytes bytes' o o' e b (after, end, h, got, gone) =
      (after, end, e ∙ h, subst (λ x. HasGot x end) b got, gone)

  Gets-last :
      (fuel : ℕ) (before table : Table E-discrete) (m : TransferMode) (s : ReadSession)
      (p got : Bytes) (g : Getting)
      → Ready m s p got g
      → table ep ≡ some (reader s)
      → ((k : E) → k ≢ ep → table k ≡ before k)
      → s.read_complete ≡ true
      → Gets before
          (got ++ decoded m (p ++ to_send s))
          (getting E-discrete sys ep behind m fuel table (data_message s.block_counter p ∷ []) g)
  Gets-last fuel before table m s p got g r at same last =
      let end : GetEnd = record {
        result = true;
        out_file = close_out (write_out (decoded m p) g.out_file);
        removed = false;
        report = [];
      } in
      let all : p ≡ p ++ to_send s =
        sym (append-nil p) ∙ ap (λ b. p ++ b) (sym (r.sending.complete last)) in
      (
        update E-discrete table ep none,
        end,
        getting_last E-discrete sys ep behind fuel table m s p got g r at last,
        subst (λ x. HasGot (got ++ decoded m x) end) all
            (leaves (got ++ decoded m p) _ (write_out-Holds (decoded m p) got g.out_file r.file)),
        erase E-discrete sys ep behind before table same,
      )

  getting-Gets :
      (fuel : ℕ) (before table : Table E-discrete) (m : TransferMode) (s : ReadSession)
      (p got : Bytes) (g : Getting)
      → Ready m s p got g
      → table ep ≡ some (reader s)
      → ((k : E) → k ≢ ep → table k ≡ before k)
      → rounds s ≤ suc fuel
      → Gets before
          (got ++ decoded m (p ++ to_send s))
          (getting E-discrete sys ep behind m fuel table (data_message s.block_counter p ∷ []) g)
  getting-Gets zero before table m s p got g r at same h = elim (Bool-cases s.read_complete) [
    | inl last ↦ Gets-last zero before table m s p got g r at same last
    | inr more ↦ absurd (ground arith)
  ]
  getting-Gets (suc fuel) before table m s p got g r at same h = elim (Bool-cases s.read_complete) [
    | inl last ↦ Gets-last (suc fuel) before table m s p got g r at same last
    | inr next ↦
        let (t, d) = send_block_of_data s in
        let k = send_block-Sends s r.sending in
        let table' = update E-discrete table ep (some (reader t)) in
        let g' = record (counted (data_message (next_expected g) p) g) {
          out_file = write_out (decoded m p) g.out_file;
        } in
        Gets-of before (got ++ decoded m (p ++ to_send s))
          ((got ++ decoded m p) ++ decoded m (k.payload ++ to_send t)) _ _
          (getting_next E-discrete sys ep behind fuel table m s p got g r at next
            ∙ ap (λ x. getting E-discrete sys ep behind m fuel table' (x ∷ []) g') k.datagram_is)
          (ap (λ b. (got ++ decoded m p) ++ decoded m b) k.next
            ∙ append_assoc got (decoded m p) (decoded m (to_send s))
            ∙ ap (λ b. got ++ b) (sym (decoded-append m p (to_send s))))
          (getting-Gets fuel before table' m t k.payload (got ++ decoded m p) g'
            (Ready-next m s p got g r k next) (update_here E-discrete table _ ep _ refl)
            (λ j ne. update_elsewhere E-discrete table _ ep j _ ne refl ∙ same j ne)
            (omega (arith, rounds-Sends s t d k next)))
  ]

  -- `getFile` for a file that the server has, from an endpoint with no session there, with a file
  -- name of at most 78 bytes: it returns true, and the local file is closed and holds the bytes of
  -- the server's file, in binary mode all of them and in netascii mode all but the carriage
  -- returns; the session is gone from the server's table, and no other has changed. What stood in
  -- the two receive buffers does not matter, and at most three rounds more are needed than there
  -- are bytes on the wire.
  pub get_file_downloads :
      (table : Table E-discrete) (name contents buffer : Bytes) (m : TransferMode) (fuel : ℕ)
      → table ep ≡ none
      → NoNul name
      → name ≢ []
      → length name ≤ 78
      → sys.files name ≡ some contents
      → length (on_wire m contents) + 3 ≤ fuel
      → Gets table (decoded m contents) (
          talk
            (get_turn m true)
            (server E-discrete sys ep behind)
            fuel
            table
            []
            (get_file m true true name buffer))
  unfolding get_file talk open_out
  get_file_downloads table name contents buffer m zero at h ne fits found enough =
      absurd (omega arith)
  get_file_downloads table name contents buffer m (suc fuel) at h ne fits found enough =
      let o = opened_session m contents in
      let i : IsSending o = record { counter_fits = omega arith; complete = λ e. cc } in
      let k = send_block-Sends o i in
      let (s, d) = send_block_of_data o in
      let table' = update E-discrete table ep (some (reader s)) in
      let g : Getting = record {
        expected_block_number = 0;
        out_file = record { opened = true; good = true; written = [] };
        recv_buffer = buffer;
      } in
      let r : Ready m s k.payload [] g = record {
        sending = k.sending;
        is_active = k.state_kept;
        mode_is = k.mode_kept;
        counters = k.counter_is;
        last = Sends-last o s d k refl;
        fits = sent_fits o s d k;
        file = record { opened = refl; good = refl; holds = refl };
      } in
      Gets-of table (decoded m contents) (decoded m (k.payload ++ to_send s)) _ _
        (ap (λ q. q >>= λ a. getting E-discrete sys ep behind m fuel a.0 a.1 g)
            (reader_requested E-discrete sys ep behind table name contents m at h ne fits found)
          ∙ ap (λ x. getting E-discrete sys ep behind m fuel table' (x ∷ []) g) k.datagram_is)
        (ap (decoded m) (k.next ∙ to_send-opened_session m contents) ∙ decoded-on_wire m contents)
        (getting-Gets fuel table table' m s k.payload [] g r
          (update_here E-discrete table _ ep _ refl)
          (λ j no. update_elsewhere E-discrete table _ ep j _ no refl)
          (omega (arith, rounds-Sends o s d k refl, ap length (to_send-opened_session m contents))))
