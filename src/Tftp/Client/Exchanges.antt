-- ===== src/Tftp/Client/Exchanges.antt =====
-- One exchange of `getFile` with `TFTPServer::receive`: a block, and its acknowledgement.
use network_protocols.Common.{
  ℕ, suc, ◌+◌, ◌%◌, ◌≤◌, ◌<◌, ◌≡◌, refl, sym, ◌∙◌, ap, ◌≢◌, true, false, List, [], ◌∷◌, ◌++◌,
  Option, some, none, Bytes, length, ltb, ltb→lt, ltb→le, ◌>>=◌, arith,
}
use network_protocols.Tftp.Protocol.{TransferMode, active}
use network_protocols.Tftp.Streams.{write_out, close_out}
use network_protocols.Tftp.Reader.Blocks.{ReadSession, send_block_of_data}
use network_protocols.Tftp.Reader.Transfer.{
  data_message, IsSending, Sends, send_block-Sends, on_ack_last, on_ack_next,
}
use network_protocols.Tftp.Writer.Blocks.{acknowledge, decoded}
use network_protocols.Tftp.Relay.{Sends-last}
use network_protocols.Tftp.Server.{reader, System, Table, update}
use network_protocols.Tftp.Table.{update_here, update_elsewhere}
use network_protocols.Tftp.Client.Messages.{hear, talk}
use network_protocols.Tftp.Client.Get.{Getting, GetEnd, get_turn}
use network_protocols.Tftp.Client.Receives.{
  next_expected, counted, get_turn-data_message, Holds, write_out-Holds, get_block_last,
  get_block_full,
}
use network_protocols.Tftp.Client.Peer.{server, reader_acked}

-- The loop, with what the server's session has sent last.
pub record Ready (m : TransferMode) (s : ReadSession) (p got : Bytes) (g : Getting) : Type 0 where
  pub sending : IsSending s
  pub is_active : s.state ≡ active
  pub mode_is : s.mode ≡ m
  pub counters : s.block_counter ≡ next_expected g
  pub last : s.read_complete ≡ ltb (length p) 512
  pub fits : length p ≤ 512
  pub file : Holds got g.out_file

pub sent_fits : (s t : ReadSession) (d : Bytes) (k : Sends s t d) → length k.payload ≤ 512
sent_fits s t d k = omega (arith, k.fits, ap length k.datagram_is)

-- The loop behind a full block, and the session behind its acknowledgement.
pub Ready-next :
    (m : TransferMode) (s : ReadSession) (p got : Bytes) (g : Getting) (r : Ready m s p got g)
    (k : Sends s (send_block_of_data s).0 (send_block_of_data s).1)
    → s.read_complete ≡ false
    → let d = data_message (next_expected g) p in
      Ready m
        (send_block_of_data s).0
        k.payload
        (got ++ decoded m p)
        (record (counted d g) { out_file = write_out (decoded m p) g.out_file })
Ready-next m s p got g r k h =
    let (t, d) = send_block_of_data s in
    record {
      sending = k.sending;
      is_active = k.state_kept ∙ r.is_active;
      mode_is = k.mode_kept ∙ r.mode_is;
      counters = k.counter_is ∙ ap (λ (c : ℕ). (c + 1) % 65536) r.counters;
      last = Sends-last s t d k h;
      fits = sent_fits s t d k;
      file = write_out-Holds (decoded m p) got g.out_file r.file;
    }

module _ {E : Type 0} (E-discrete : Discrete E) (sys : System) (ep : E)
    (behind : Bytes → Bytes) where
  -- Only the session of the endpoint is gone.
  pub record Erased (table after : Table E-discrete) : Type 0 where
    pub erased : after ep ≡ none
    pub elsewhere : (k : E) → k ≢ ep → after k ≡ table k

  pub erase :
      (before table : Table E-discrete)
      → ((k : E) → k ≢ ep → table k ≡ before k)
      → Erased before (update E-discrete table ep none)
  erase before table same = record {
    erased = update_here E-discrete table _ ep none refl;
    elsewhere = λ k ne. update_elsewhere E-discrete table _ ep k none ne refl ∙ same k ne;
  }

  acked_last :
      (table : Table E-discrete) (s : ReadSession)
      → table ep ≡ some (reader s)
      → s.block_counter < 65536
      → s.read_complete ≡ true
      → server E-discrete sys ep behind table (acknowledge s.block_counter)
        ≡ some (update E-discrete table ep none, [])
  acked_last table s at fits last =
      reader_acked E-discrete sys ep behind table s at fits ∙ rw (on_ack_last s last) refl

  acked_next :
      (table : Table E-discrete) (s : ReadSession)
      → table ep ≡ some (reader s)
      → IsSending s
      → s.state ≡ active
      → s.read_complete ≡ false
      → server E-discrete sys ep behind table (acknowledge s.block_counter)
        ≡ some (
          update E-discrete table ep (some (reader (send_block_of_data s).0)),
          (send_block_of_data s).1 ∷ [],
        )
  acked_next table s at i live next =
      reader_acked E-discrete sys ep behind table s at i.counter_fits
      ∙ rw (on_ack_next s next) (rw ((send_block-Sends s i).state_kept ∙ live) refl)

  abbrev pub getting :
      TransferMode
      → ℕ
      → Table E-discrete
      → List Bytes
      → Getting
      → Option (Table E-discrete × GetEnd)
  getting m fuel table =
      let step = get_turn m true in
      let peer = server E-discrete sys ep behind in hear step peer (talk step peer fuel table)

  pub getting_last :
      (fuel : ℕ) (table : Table E-discrete) (m : TransferMode) (s : ReadSession) (p got : Bytes)
      (g : Getting)
      → Ready m s p got g
      → table ep ≡ some (reader s)
      → s.read_complete ≡ true
      → getting m fuel table (data_message s.block_counter p ∷ []) g
        ≡ some (
          update E-discrete table ep none,
          record {
            result = true;
            out_file = close_out (write_out (decoded m p) g.out_file);
            removed = false;
            report = [];
          },
        )
  unfolding talk
  getting_last fuel table m s p got g r at last =
      let step = get_turn m true in
      let peer = server E-discrete sys ep behind in
      let go = talk step peer fuel table in
      let end : GetEnd = record {
        result = true;
        out_file = close_out (write_out (decoded m p) g.out_file);
        removed = false;
        report = [];
      } in
      let short = ltb→lt (length p) 512 (sym r.last ∙ last) in
      ap (λ c. getting m fuel table (data_message c p ∷ []) g) r.counters
      ∙ ap (λ o. o >>= go []) (get_turn-data_message m p g r.fits)
      ∙ ap (go []) (get_block_last m p (counted (data_message (next_expected g) p) g) short)
      ∙ ap (λ c. peer table (acknowledge c) >>= λ o. some (o.0, end)) (sym r.counters)
      ∙ ap (λ o. o >>= λ a. some (a.0, end)) (acked_last table s at r.sending.counter_fits last)

  pub getting_next :
      (fuel : ℕ) (table : Table E-discrete) (m : TransferMode) (s : ReadSession) (p got : Bytes)
      (g : Getting)
      → Ready m s p got g
      → table ep ≡ some (reader s)
      → s.read_complete ≡ false
      → getting m (suc fuel) table (data_message s.block_counter p ∷ []) g
        ≡ getting m fuel
            (update E-discrete table ep (some (reader (send_block_of_data s).0)))
            ((send_block_of_data s).1 ∷ [])
            (record (counted (data_message (next_expected g) p) g) {
              out_file = write_out (decoded m p) g.out_file;
            })
  unfolding talk
  getting_next fuel table m s p got g r at next =
      let step = get_turn m true in
      let peer = server E-discrete sys ep behind in
      let go = talk step peer (suc fuel) table in
      let after = record (counted (data_message (next_expected g) p) g) {
        out_file = write_out (decoded m p) g.out_file;
      } in
      let full = ltb→le (length p) 512 (sym r.last ∙ next) in
      ap (λ c. getting m (suc fuel) table (data_message c p ∷ []) g) r.counters
      ∙ ap (λ o. o >>= go []) (get_turn-data_message m p g r.fits)
      ∙ ap (go []) (get_block_full m p (counted (data_message (next_expected g) p) g) full)
      ∙ ap
          (λ c.
            peer table (acknowledge c) >>= λ a. hear step peer (talk step peer fuel a.0) a.1 after)
          (sym r.counters)
      ∙ ap (λ o. o >>= λ a. hear step peer (talk step peer fuel a.0) a.1 after)
          (acked_next table s at r.sending r.is_active next)
