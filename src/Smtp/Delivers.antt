-- ===== src/Smtp/Delivers.antt =====
-- The message of an SMTP session, from DATA to the line with the dot, and what comes behind it.
use network_protocols.Common.{
  ◌≡◌, refl, sym, ◌∙◌, ap, Bool, true, false, ◌&&◌, inl, inr, List, [], ◌∷◌, ◌++◌, append_assoc,
  append-nil, Option, none, some, Bytes, length, drop, take, take-length_append, bytes_eq,
  bytes_eq_iff, ◌==◌, ==_iff, if◌then◌else◌, Bool-cases,
}
use network_protocols.Smtp.Session.{
  MessageFile, Recipient, Session, Disk, Event, reply, copy, Next, Step, replied, written,
  close_file, write_file,
}
use network_protocols.Smtp.Message.{
  process_message, finish_message, deliver_message, deliver_all, deliver_one, end_of_message,
  message_source,
}
use network_protocols.Smtp.Receive.{received, receive_as, receive, on_received, continue, run}

-- The same file system at each of the reads.
abbrev pub reads : Disk → List Bytes → List (Disk × Option Bytes)
reads disk [] = []
reads disk (b ∷ bs) = (disk, some b) ∷ reads disk bs

-- A piece of the message, and not its end.
abbrev pub IsPiece : Bytes → Type 0
IsPiece b = bytes_eq b end_of_message ≡ false

abbrev pub ArePieces : List Bytes → Type 0
ArePieces [] = Unit
ArePieces (b ∷ bs) = IsPiece b × ArePieces bs

abbrev pub concat : List Bytes → Bytes
concat [] = []
concat (b ∷ bs) = b ++ concat bs

-- The file of a message that is being written.
abbrev pub writing : Bytes → MessageFile
writing contents = record {
  is_open = true;
  failed = false;
  path_set = true;
  contents = some contents;
}

not_end : (b : Bytes) → (length b == 3) ≡ false → bytes_eq b end_of_message ≡ false
not_end b e = elim (Bool-cases (bytes_eq b end_of_message)) [
  | inl t ↦
      let three : (length b == 3) ≡ true =
        ap (λ x. length x == 3) ((bytes_eq_iff b end_of_message).0 t) in
      absurd (cc (e, three))
  | inr f ↦ f
]

-- The test for the end, on the buffer, is the test on the bytes received.
end_test :
    (b rest : Bytes)
    → (length b == 3 && bytes_eq (take 3 (b ++ rest)) end_of_message) ≡ bytes_eq b end_of_message
end_test b rest = elim (Bool-cases (length b == 3)) [
  | inl e ↦
      let n : length b ≡ 3 = (==_iff (length b) 3).0 e in
      rw e (
        ap (λ k. bytes_eq (take k (b ++ rest)) end_of_message) (sym n)
        ∙ ap (λ x. bytes_eq x end_of_message) (take-length_append b rest))
  | inr e ↦ rw e (sym (not_end b e))
]

-- Where nothing is written, the end of a write changes nothing; it changes no event.
written_silent : (b : Bool) (st : Step) → replied st.events ≡ false → written b st ≡ st
written_silent true st e = refl
written_silent false st e = rw e refl

pub written-events : (b : Bool) (st : Step) → (written b st).events ≡ st.events
written-events true st = refl
written-events false st = elim (Bool-cases (replied st.events)) [
  | inl e ↦ rw e refl
  | inr e ↦ rw e refl
]

module _ (disk : Disk) (s : Session) (b : Bytes) (in_message : s.receive_message ≡ true) where
  abbrev here : Session
  here = received b s

  abbrev pub with_piece : Session
  with_piece = record here { message = write_file b s.message }

  -- A piece is written, whatever it holds.
  pub receive-piece :
      IsPiece b
      → receive disk b s ≡ record { session = with_piece; events = []; next = Next.listening }
  unfolding receive process_message
  receive-piece p =
      let rest = drop (length b) s.recv_buffer in
      let ends = end_test b rest ∙ p in
      ap (λ m. written disk.sends (receive_as m disk here)) in_message
      ∙ rw ends (
          written_silent disk.sends _ refl
          ∙ ap
              (λ x. (record {
                session = record here { message = write_file x s.message };
                events = [];
                next = Next.listening;
              }))
              (take-length_append b rest))

  pub receive-end :
      bytes_eq b end_of_message ≡ true
      → receive disk b s ≡ written disk.sends (finish_message disk here)
  unfolding receive process_message
  receive-end p =
      let ends = end_test b (drop (length b) s.recv_buffer) ∙ p in
      ap (λ m. written disk.sends (receive_as m disk here)) in_message ∙ rw ends refl

-- The mailboxes that exist, of the recipients in order, and a copy of the message to each.
abbrev pub found : Option Bool → Bool
found none = false
found (some b) = b

abbrev pub mailboxes : (Bytes → Option Bool) → List Recipient → List Bytes
mailboxes exists [] = []
mailboxes exists (r ∷ rs) =
    let rest = mailboxes exists rs in if found (exists r.mailbox) then r.mailbox ∷ rest else rest

abbrev pub copies : Bytes → List Bytes → List Event
copies contents [] = []
copies contents (path ∷ paths) = copy (some contents) path ∷ copies contents paths

-- The copies of a message of these contents, and the reply behind them.
abbrev pub delivery : Disk → Session → Bytes → List Event
delivery disk s contents =
    copies contents (mailboxes disk.exists (take s.rcpt_count s.recipients)) ++ reply 250 ∷ []

deliver_one-copies :
    (o : Option Bool) (contents : Bytes) (r : Recipient) (es : List Event) (paths : List Bytes)
    → es ≡ copies contents paths
    → (deliver_one o (some contents) r).0 ++ es
      ≡ copies contents (if found o then r.mailbox ∷ paths else paths)
deliver_one-copies none contents r es paths e = e
deliver_one-copies (some true) contents r es paths e =
    ap (λ x. copy (some contents) r.mailbox ∷ x) e
deliver_one-copies (some false) contents r es paths e = e

deliver_all-copies :
    (disk : Disk) (contents : Bytes) (rs : List Recipient)
    → (deliver_all disk (some contents) rs).0 ≡ copies contents (mailboxes disk.exists rs)
unfolding deliver_all
deliver_all-copies disk contents [] = refl
deliver_all-copies disk contents (r ∷ rs) =
    deliver_one-copies (disk.exists r.mailbox) contents r _ (mailboxes disk.exists rs)
      (deliver_all-copies disk contents rs)

run_listening :
    (disk : Disk) (b : Bytes) (rs : List (Disk × Option Bytes)) (s t : Session)
    → receive disk b s ≡ record { session = t; events = []; next = Next.listening }
    → run ((disk, some b) ∷ rs) s ≡ run rs t
unfolding run on_received
run_listening disk b rs s t e = ap (λ f. continue f.next f (run rs f.session)) e

-- A run of one read has the events of that read.
continue-nil : (n : Next) (st : Step) → (continue n st (run [] st.session)).events ≡ st.events
unfolding run
continue-nil Next.listening st = append-nil st.events
continue-nil Next.closing st = refl
continue-nil Next.stalled st = refl
continue-nil Next.overrun st = refl

run_end :
    (disk : Disk) (s : Session) (contents : Bytes)
    → s.receive_message ≡ true
    → s.message ≡ writing contents
    → (run (reads disk (end_of_message ∷ [])) s).events ≡ delivery disk s contents
unfolding run on_received finish_message deliver_message bytes_eq
run_end disk s contents m w =
    let here = received end_of_message s in
    continue-nil _ (receive disk end_of_message s)
    ∙ ap (λ st. st.events) (receive-end disk s end_of_message m refl)
    ∙ written-events disk.sends (finish_message disk here)
    ∙ ap
        (λ f.
          (deliver_all disk (message_source (close_file f)) (take s.rcpt_count s.recipients)).0
          ++ reply 250 ∷ [])
        w
    ∙ ap (λ es. es ++ reply 250 ∷ [])
        (deliver_all-copies disk contents (take s.rcpt_count s.recipients))

-- Behind DATA, the pieces that are received up to the line with the dot are put together, in order,
-- and the message they make is copied to the mailbox of each recipient whose mailbox exists, in their
-- order, and to nothing else; then the session replies 250, and does not reply before.
pub delivers :
    (disk : Disk) (bs : List Bytes) (s : Session) (contents : Bytes)
    → s.receive_message ≡ true
    → s.message ≡ writing contents
    → ArePieces bs
    → (run (reads disk (bs ++ end_of_message ∷ [])) s).events
      ≡ delivery disk s (contents ++ concat bs)
delivers disk [] s contents m w p =
    run_end disk s contents m w ∙ ap (delivery disk s) (sym (append-nil contents))
delivers disk (b ∷ bs) s contents m w p =
    ap (λ st. st.events)
      (run_listening disk b (reads disk (bs ++ end_of_message ∷ [])) s _
        (receive-piece disk s b m p.0))
    ∙ delivers disk bs (with_piece disk s b m) (contents ++ b) m (ap (write_file b) w) p.1
    ∙ ap (delivery disk s) (append_assoc contents b (concat bs))
