-- ===== src/Tftp/Client/Uploads.antt =====
-- `putFile` against the session that the server makes for it: a whole upload.
use mathlib.Core.Path.{subst}
use network_protocols.Common.{
  ℕ, zero, suc, ◌+◌, ◌%◌, ◌≤◌, ◌≡◌, refl, sym, ◌∙◌, ap, ◌≢◌, Bool, true, false, inl, inr, List, [],
  ◌∷◌, ◌++◌, append-nil, append_assoc, Option, some, none, Bytes, length, Bool-cases, ltb→lt,
  ltb→le, ◌>>=◌, if◌then◌else◌, arith,
}
use network_protocols.Tftp.Protocol.{TransferMode, wrq, finished}
use network_protocols.Tftp.Streams.{open_in}
use network_protocols.Tftp.Reader.Blocks.{send_block_of_data}
use network_protocols.Tftp.Reader.Transfer.{
  data_message, IsSending, send_block-Sends, rounds, rounds-Sends, to_send,
}
use network_protocols.Tftp.Writer.Blocks.{
  WriteSession, new_writer, acknowledge, decoded, on_write_request,
}
use network_protocols.Tftp.Writer.Receives.{
  next_counter, after_block, on_write_request-data_message,
}
use network_protocols.Tftp.Strings.{NoNul}
use network_protocols.Tftp.Serves.{on_wire, opened_session, to_send-opened_session}
use network_protocols.Tftp.Joined.{decoded-append}
use network_protocols.Tftp.Relay.{InStep, Sends-last, after_block_full, after_block_last}
use network_protocols.Tftp.Copies.{
  Allows, receiving_session, decoded-on_wire, on_write_request-request_message,
}
use network_protocols.Tftp.Server.{Session, writer, System, on_data_received}
use network_protocols.Tftp.Client.Messages.{request_datagram, Turn, more, ended, hear, talk}
use network_protocols.Tftp.Client.Put.{Putting, PutEnd, put_turn, put_file}
use network_protocols.Tftp.Client.Peer.{request_datagram-append}
use network_protocols.Tftp.Client.Mirror.{
  as_reader, behind_block, put_block-send_block, as_reader-behind_block, put_turn-acknowledge,
}

-- The client returns true; the server's session has finished, and its file is closed and holds the
-- bytes.
pub record HasPut (bytes : Bytes) (v : WriteSession) (e : PutEnd) : Type 0 where
  pub result : e.result ≡ true
  pub writer_finished : v.state ≡ finished
  pub file_closed : v.out_file.opened ≡ false
  pub file_good : v.out_file.good ≡ true
  pub file_is : v.out_file.written ≡ bytes

abbrev succeeded : PutEnd
succeeded = record { result = true; report = [] }

module _ (sys : System) (behind : Bytes → Bytes) (sent : sys.sent ≡ true) where
  -- The session of the client's endpoint; `behind` is what stands in the server's buffer behind a
  -- datagram.
  abbrev pub session : Session → Bytes → Option (Session × List Bytes)
  session s d = on_data_received sys (d ++ behind d) (length d) s

  abbrev pub putting : TransferMode → ℕ → Session → Turn Putting PutEnd → Option (Session × PutEnd)
  putting m fuel s = talk (put_turn m true) session fuel s []

  told :
      (p : Bytes) (w : WriteSession)
      → session (writer w) (data_message (next_counter w) p)
        ≡ some (writer (after_block p w), acknowledge (next_counter w) ∷ [])
  unfolding on_data_received
  told p w =
      let d = data_message (next_counter w) p in
      let n : length d ≡ 4 + length p = omega arith in
      rw (sent, on_data_received)
        (rw
          (
            ap (λ k. on_write_request sys.folder true (d ++ behind d) k w) n
                ∙ on_write_request-data_message sys.folder p (behind d) w,
            on_data_received,
          )
          refl)

  requested :
      (name : Bytes) (m : TransferMode)
      → NoNul name
      → name ≢ []
      → length name ≤ 78
      → Allows sys.folder name
      → session (writer new_writer) (request_datagram wrq name m)
        ≡ some (writer (receiving_session m), acknowledge 0 ∷ [])
  unfolding on_data_received
  requested name m h ne fits a =
      let d = request_datagram wrq name m in
      ap (λ b. on_data_received sys b (length d) (writer new_writer))
        (request_datagram-append wrq name m (behind d) fits)
      ∙ rw (sent, on_data_received)
          (rw
            (
              on_write_request-request_message sys.folder name m (behind d) (length d) h ne a,
              on_data_received,
            )
            refl)

  -- What the client does with the acknowledgement of the block that it sent.
  exchange :
      (fuel : ℕ) (m : TransferMode) (s : Putting) (w : WriteSession) (p : Bytes)
      → s.curr_block_number ≡ next_counter w
      → putting m (suc fuel) (writer w) (more s (some (data_message s.curr_block_number p)))
        ≡ putting m fuel (writer (after_block p w)) (
            if s.complete
            then ended succeeded none
            else more
                (behind_block m (acknowledge s.curr_block_number) s)
                (some (send_block_of_data (as_reader m s)).1))
  unfolding talk
  exchange fuel m s w p e =
      let step = put_turn m true in
      let v = writer (after_block p w) in
      let go = λ (o : Option (Turn Putting PutEnd)). (o >>= talk step session fuel v []) in
      ap
        (λ c. session (writer w) (data_message c p) >>= λ r.
          hear step session (talk step session fuel r.0) r.1 s)
        e
      ∙ ap (λ o. o >>= λ r. hear step session (talk step session fuel r.0) r.1 s) (told p w)
      ∙ ap (λ c. go (step (some (acknowledge c)) s)) (sym e)
      ∙ ap go (put_turn-acknowledge m s (omega arith))
      ∙ ap (λ t. talk step session fuel v [] (if s.complete then ended succeeded none else t))
          (put_block-send_block m (acknowledge s.curr_block_number) s)

  abbrev pub Puts : Bytes → Option (Session × PutEnd) → Type 0
  Puts bytes o = (v : WriteSession) × (e : PutEnd) × (o ≡ some (writer v, e)) × HasPut bytes v e

  Puts-last :
      (fuel : ℕ) (m : TransferMode) (s : Putting) (w : WriteSession) (p got : Bytes)
      → InStep (as_reader m s) w p got
      → s.complete ≡ true
      → Puts
          (got ++ decoded m (p ++ to_send (as_reader m s)))
          (putting m (suc fuel) (writer w) (more s (some (data_message s.curr_block_number p))))
  unfolding talk
  Puts-last fuel m s w p got i last =
      let (f, closed, good, written) =
        after_block_last p got w (ltb→lt _ _ (sym i.last ∙ last)) i.file in
      (
        after_block p w,
        succeeded,
        exchange fuel m s w p i.counters
            ∙ ap
                (λ (b : Bool). putting m fuel (writer (after_block p w)) (
                  if b
                  then ended succeeded none
                  else more (behind_block m (acknowledge s.curr_block_number) s)
                      (some (send_block_of_data (as_reader m s)).1)))
                last,
        record {
          result = refl;
          writer_finished = f;
          file_closed = closed;
          file_good = good;
          file_is =
              written
              ∙ ap (λ x. got ++ decoded x p) i.modes
              ∙ ap (λ b. got ++ decoded m b)
                  (sym (append-nil p) ∙ ap (λ b. p ++ b) (sym (i.sending.complete last)));
        },
      )

  puts :
      (fuel : ℕ) (m : TransferMode) (s : Putting) (w : WriteSession) (p got : Bytes)
      → InStep (as_reader m s) w p got
      → rounds (as_reader m s) ≤ fuel
      → Puts
          (got ++ decoded m (p ++ to_send (as_reader m s)))
          (putting m fuel (writer w) (more s (some (data_message s.curr_block_number p))))
  unfolding talk
  puts zero m s w p got i h = absurd (ground arith)
  puts (suc fuel) m s w p got i h = elim (Bool-cases s.complete) [
    | inl last ↦ Puts-last fuel m s w p got i last
    | inr next ↦
        let (t, d) = send_block_of_data (as_reader m s) in
        let k = send_block-Sends (as_reader m s) i.sending in
        let s' = behind_block m (acknowledge s.curr_block_number) s in
        let o = after_block_full p got w (ltb→le _ _ (sym i.last ∙ next)) i.file in
        let j : InStep t (after_block p w) k.payload (got ++ decoded w.mode p) = record {
          sending = k.sending;
          counters = k.counter_is ∙ ap (λ (c : ℕ). (c + 1) % 65536) (i.counters ∙ sym o.counters);
          modes = o.modes ∙ i.modes ∙ sym k.mode_kept;
          last = Sends-last (as_reader m s) t d k next;
          file = o.file;
        } in
        let same = as_reader-behind_block m (acknowledge s.curr_block_number) s in
        let fewer : rounds t ≤ fuel = omega (arith, rounds-Sends (as_reader m s) t d k next) in
        let (v, e, r, f) =
          puts fuel m s' (after_block p w) k.payload (got ++ decoded w.mode p)
            (subst (λ x. InStep x (after_block p w) k.payload (got ++ decoded w.mode p)) (sym same)
              j)
            (subst (λ x. rounds x ≤ fuel) (sym same) fewer) in
        (
          v,
          e,
          exchange fuel m s w p i.counters
              ∙ ap
                  (λ (b : Bool).
                    putting m fuel (writer (after_block p w))
                      (if b then ended succeeded none else more s' (some d)))
                  next
              ∙ ap (λ x. putting m fuel (writer (after_block p w)) (more s' (some x))) k.datagram_is
              ∙ r,
          subst (λ x. HasPut x v e)
              (ap (λ x. (got ++ decoded w.mode p) ++ decoded m (k.payload ++ to_send x)) same
                ∙ ap (λ x. (got ++ decoded x p) ++ decoded m (k.payload ++ to_send t)) i.modes
                ∙ ap (λ b. (got ++ decoded m p) ++ decoded m b) k.next
                ∙ append_assoc got (decoded m p) (decoded m (to_send (as_reader m s)))
                ∙ ap (λ b. got ++ b) (sym (decoded-append m p (to_send (as_reader m s)))))
              f,
        )
  ]

  -- `putFile` of a file that exists, by a name of at most 78 bytes, to a session of the server
  -- whose checks pass and which can send: it returns true; the session has finished, and its file
  -- is closed and holds the bytes of the local file, in binary mode all of them and in netascii
  -- mode all but the carriage returns. What stood in the two receive buffers does not matter, and
  -- at most four rounds more are needed than there are bytes on the wire.
  pub put_file_uploads :
      (name contents buffer : Bytes) (m : TransferMode) (fuel : ℕ)
      → NoNul name
      → name ≢ []
      → length name ≤ 78
      → Allows sys.folder name
      → length (on_wire m contents) + 4 ≤ fuel
      → Puts
          (decoded m contents)
          (putting m fuel (writer new_writer) (put_file m (some contents) true name buffer))
  unfolding put_file talk open_in
  put_file_uploads name contents buffer m zero h ne fits a enough = absurd (omega arith)
  put_file_uploads name contents buffer m (suc fuel) h ne fits a enough =
      let o = opened_session m contents in
      let s : Putting = record {
        curr_block_number = 0;
        complete = false;
        line_feed = false;
        in_file = record { opened = true; good = true; rest = contents };
        recv_buffer = buffer;
      } in
      let i : IsSending o = record { counter_fits = omega arith; complete = λ e. cc } in
      let k = send_block-Sends o i in
      let (t, d) = send_block_of_data o in
      let w = receiving_session m in
      let s' = behind_block m (acknowledge 0) s in
      let step = put_turn m true in
      let go = λ (q : Option (Turn Putting PutEnd)). (q >>= talk step session fuel (writer w) []) in
      let j : InStep t w k.payload [] = record {
        sending = k.sending;
        counters = k.counter_is;
        modes = sym k.mode_kept;
        last = Sends-last o t d k refl;
        file = record { opened = refl; good = refl; holds = refl };
      } in
      let same = as_reader-behind_block m (acknowledge 0) s in
      let wire = ap length (to_send-opened_session m contents) in
      let (v, e, r, f) =
        puts fuel m s' w k.payload [] (subst (λ x. InStep x w k.payload []) (sym same) j) (
          subst (λ x. rounds x ≤ fuel) (sym same)
            (omega (arith, rounds-Sends o t d k refl, wire))) in
      (
        v,
        e,
        ap (λ q. q >>= λ a. hear step session (talk step session fuel a.0) a.1 s)
              (requested name m h ne fits a)
            ∙ ap go (put_turn-acknowledge m s (omega arith))
            ∙ ap (talk step session fuel (writer w) []) (put_block-send_block m (acknowledge 0) s)
            ∙ ap (λ x. putting m fuel (writer w) (more s' (some x))) k.datagram_is
            ∙ r,
        subst (λ x. HasPut x v e)
            (ap (λ x. decoded m (k.payload ++ to_send x)) same
              ∙ ap (decoded m) (k.next ∙ to_send-opened_session m contents)
              ∙ decoded-on_wire m contents)
            f,
      )
