-- ===== src/Smtp/Kept.antt =====
-- Every command of an SMTP session keeps the session well formed.
use network_protocols.Common.{
  ℕ, zero, suc, ◌+◌, ◌≤◌, ◌<◌, ◌≡◌, refl, ◌∙◌, ap, false, inl, inr, List, [], ◌∷◌, Option, none,
  some, Bytes, length, codes, leb, ◌==◌, Bool-cases, arith,
}
use network_protocols.Smtp.Session.{
  max_rcpt_allowed, Command, Recipient, MessageFile, Session, Folder, Disk, respond, create_message,
}
use network_protocols.Smtp.Commands.{
  process_helo, process_data, process_rset, process_vrfy, process_mail_from, process_rcpt_to,
  is_data, may_mail, may_rcpt, mail_from_address, rcpt_to_address, rcpt_to_parts, add_recipient,
  set_at, get_address, cut_at,
}
use network_protocols.Smtp.Receive.{
  strncmp_eq, cut_word, dispatch_parameter, dispatch_plain, dispatch, process_command,
}
use network_protocols.Smtp.WellFormed.{
  IsSession, IsStep, HasText, answers, text_221, text_250, text_354, text_451, text_500, text_501,
  text_502, text_503, text_523, text_551,
}

leb→lt : (a b : ℕ) → leb a b ≡ false → b < a
leb→lt a b e = ground arith

length-set_at : (rs : List Recipient) (i : ℕ) (r : Recipient) → length (set_at rs i r) ≡ length rs
length-set_at [] i r = refl
length-set_at (x ∷ xs) zero r = refl
length-set_at (x ∷ xs) (suc i) r = ap suc (length-set_at xs i r)

module _ (s : Session) (h : IsSession s) where
  kept : (code : ℕ) → HasText code → IsStep (respond code s)
  kept code t = answers code s t h

  -- A command other than DATA, when the session does not receive a message.
  changed :
      (code : ℕ) (rcpts : List Recipient) (count : ℕ) (address : Bytes) (file : MessageFile)
      (command : Command)
      → HasText code
      → length rcpts ≡ max_rcpt_allowed
      → count ≤ max_rcpt_allowed
      → s.receive_message ≡ is_data command
      → IsStep (
          respond code (record s {
            recipients = rcpts;
            rcpt_count = count;
            return_address = address;
            message = file;
            last_command = command;
          }))
  changed code rcpts count address file command t a c m =
      answers code _ t
        (record { buffer_size = h.buffer_size; array_size = a; count_fits = c; in_message = m })

  process_helo-IsStep : (disk : Disk) → s.receive_message ≡ false → IsStep (process_helo disk s)
  unfolding process_helo
  process_helo-IsStep disk m = elim (Bool-cases (create_message disk s.message).1) [
    | inl e ↦ rw e (
        changed 250 s.recipients 0 [] (create_message disk s.message).0 Command.helo text_250
          h.array_size (omega arith) m)
    | inr e ↦ rw e (
        changed 451 s.recipients 0 [] (create_message disk s.message).0 s.last_command text_451
          h.array_size (omega arith) h.in_message)
  ]

  process_data-IsStep : IsStep (process_data s)
  unfolding process_data
  process_data-IsStep = elim (Bool-cases (is_data s.last_command)) [
    | inl e ↦ rw e (record { is_session = h; answered = tt })
    | inr e ↦ rw e (
        answers 354 _ text_354 (record {
          buffer_size = h.buffer_size;
          array_size = h.array_size;
          count_fits = h.count_fits;
          in_message = refl;
        }))
  ]

  process_rset-IsStep : IsStep (process_rset s)
  unfolding process_rset
  process_rset-IsStep = answers 250 _ text_250 (record {
    buffer_size = h.buffer_size;
    array_size = h.array_size;
    count_fits = omega arith;
    in_message = refl;
  })

  mail_from_address-IsStep :
      (a : Option Bytes) → s.receive_message ≡ false → IsStep (mail_from_address a s)
  mail_from_address-IsStep none m = record { is_session = h; answered = tt }
  mail_from_address-IsStep (some []) m = kept 501 text_501
  mail_from_address-IsStep (some (c ∷ cs)) m =
      changed 250 s.recipients s.rcpt_count (c ∷ cs) s.message Command.mail_from text_250
        h.array_size h.count_fits m

  process_mail_from-IsStep : s.receive_message ≡ false → IsStep (process_mail_from s)
  unfolding process_mail_from
  process_mail_from-IsStep m = elim (Bool-cases (may_mail s.last_command)) [
    | inl e ↦ rw e (mail_from_address-IsStep (get_address s.recv_buffer) m)
    | inr e ↦ rw e (kept 503 text_503)
  ]

  add_recipient-IsStep :
      (f : Folder) (r : Recipient) → s.rcpt_count < max_rcpt_allowed → IsStep (add_recipient f r s)
  add_recipient-IsStep Folder.missing r b = kept 551 text_551
  add_recipient-IsStep Folder.not_a_folder r b = kept 551 text_551
  add_recipient-IsStep Folder.broken r b = kept 451 text_451
  add_recipient-IsStep Folder.folder r b =
      changed 250 (set_at s.recipients s.rcpt_count r) (s.rcpt_count + 1) s.return_address s.message
        s.last_command text_250 (length-set_at s.recipients s.rcpt_count r ∙ h.array_size)
        (omega arith) h.in_message

  process_vrfy-IsStep : IsStep (process_vrfy s)
  unfolding process_vrfy
  process_vrfy-IsStep = record { is_session = h; answered = tt }

  rcpt_to_parts-IsStep :
      (disk : Disk) (address : Bytes) (parts : Option (Bytes × Bytes))
      → s.rcpt_count < max_rcpt_allowed
      → IsStep (rcpt_to_parts disk address parts s)
  rcpt_to_parts-IsStep disk address none b = kept 501 text_501
  rcpt_to_parts-IsStep disk address (some (user, domain)) b =
      add_recipient-IsStep (disk.domain_folder domain) _ b

  rcpt_to_address-IsStep :
      (disk : Disk) (a : Option Bytes)
      → s.rcpt_count < max_rcpt_allowed
      → IsStep (rcpt_to_address disk a s)
  rcpt_to_address-IsStep disk none b = record { is_session = h; answered = tt }
  rcpt_to_address-IsStep disk (some []) b = kept 501 text_501
  rcpt_to_address-IsStep disk (some (c ∷ cs)) b =
      rcpt_to_parts-IsStep disk (c ∷ cs) (cut_at (c ∷ cs)) b

  process_rcpt_to-IsStep : (disk : Disk) → IsStep (process_rcpt_to disk s)
  unfolding process_rcpt_to
  process_rcpt_to-IsStep disk = elim (Bool-cases (may_rcpt s.last_command)) [
    | inl e ↦ elim (Bool-cases (leb max_rcpt_allowed s.rcpt_count)) [
      | inl f ↦ rw (e, f) (kept 523 text_523)
      | inr f ↦ rw (e, f) (rcpt_to_address-IsStep disk (get_address s.recv_buffer) (leb→lt _ _ f))
    ]
    | inr e ↦ rw e (kept 501 text_501)
  ]

  module _ (disk : Disk) (m : s.receive_message ≡ false) where
    dispatch_parameter-IsStep : (word : Bytes) → IsStep (dispatch_parameter disk word s)
    dispatch_parameter-IsStep word = elim (Bool-cases (strncmp_eq word (codes "MAIL FROM"))) [
      | inl e ↦ rw e (process_mail_from-IsStep m)
      | inr e ↦ elim (Bool-cases (strncmp_eq word (codes "RCPT TO"))) [
        | inl f ↦ rw (e, f) (process_rcpt_to-IsStep disk)
        | inr f ↦ rw (e, f) (kept 502 text_502)
      ]
    ]

    dispatch_plain-IsStep : (word : Bytes) → IsStep (dispatch_plain disk word s)
    dispatch_plain-IsStep word = elim (Bool-cases (strncmp_eq word (codes "HELO"))) [
      | inl e ↦ rw e (process_helo-IsStep disk m)
      | inr e1 ↦ elim (Bool-cases (strncmp_eq word (codes "DATA"))) [
        | inl e ↦ rw (e1, e) process_data-IsStep
        | inr e2 ↦ elim (Bool-cases (strncmp_eq word (codes "RSET"))) [
          | inl e ↦ rw (e1, e2, e) process_rset-IsStep
          | inr e3 ↦ elim (Bool-cases (strncmp_eq word (codes "VRFY"))) [
            | inl e ↦ rw (e1, e2, e3, e) process_vrfy-IsStep
            | inr e4 ↦ elim (Bool-cases (strncmp_eq word (codes "NOOP"))) [
              | inl e ↦ rw (e1, e2, e3, e4, e) (kept 250 text_250)
              | inr e5 ↦ elim (Bool-cases (strncmp_eq word (codes "QUIT"))) [
                | inl e ↦ rw (e1, e2, e3, e4, e5, e) (kept 221 text_221)
                | inr e6 ↦ rw (e1, e2, e3, e4, e5, e6) (kept 502 text_502)
              ]
            ]
          ]
        ]
      ]
    ]

    dispatch-IsStep : (word : Option (Bytes × ℕ)) → IsStep (dispatch disk word s)
    dispatch-IsStep none = kept 500 text_500
    dispatch-IsStep (some (word, stop)) = elim (Bool-cases (stop == b' ')) [
      | inl e ↦ rw e (dispatch_parameter-IsStep word)
      | inr e ↦ elim (Bool-cases (length word == 4)) [
        | inl f ↦ rw (e, f) (dispatch_plain-IsStep word)
        | inr f ↦ rw (e, f) (kept 500 text_500)
      ]
    ]

    -- Whatever stands in the buffer.
    pub process_command-IsStep : IsStep (process_command disk s)
    unfolding process_command
    process_command-IsStep = dispatch-IsStep (cut_word s.recv_buffer)
