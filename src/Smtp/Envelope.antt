-- ===== src/Smtp/Envelope.antt =====
-- The lines of the envelope of a message: MAIL and RCPT.
use network_protocols.Common.{
  ℕ, ◌≡◌, ◌≢◌, refl, ◌∙◌, ap, true, false, [], ◌∷◌, ◌++◌, append_assoc, Option, some, Bytes, length,
  drop, codes, leb, ◌==◌, if◌then◌else◌, ◌>>=◌, arith,
}
use network_protocols.Smtp.Session.{max_rcpt_allowed, Session, Disk, Step, respond, written}
use network_protocols.Smtp.Commands.{
  is_line_end, address_end, has_end, get_address, may_mail, may_rcpt, mail_from_address,
  process_mail_from, cut_at, rcpt_to_parts, rcpt_to_address, process_rcpt_to,
}
use network_protocols.Smtp.Receive.{
  strncmp_eq, cut_word, process_command, received, receive_as, receive,
}
use network_protocols.Smtp.Outcomes.{
  mail_outcome, rcpt_outcome, written-mail_outcome, written-rcpt_outcome,
}
use network_protocols.Smtp.WellFormed.{IsSession}

-- The bytes of an address: none is an angle bracket, or CR, or LF.
abbrev pub IsPath : Bytes → Type 0
IsPath [] = Unit
IsPath (c ∷ cs) = (c ≢ b'<') × (c ≢ b'>') × (c ≢ b'\r') × (c ≢ b'\n') × IsPath cs

address_end-path : (a rest : Bytes) → IsPath a → address_end (a ++ b'>' ∷ rest) ≡ some a
unfolding address_end
address_end-path [] rest h = refl
address_end-path (c ∷ cs) rest h =
    let e : (c == b'>') ≡ false = ground arith in
    let f : is_line_end c ≡ false = ground arith in
    rw (e, f) (ap (λ o. o >>= λ a. some (c ∷ a)) (address_end-path cs rest h.4))

has_end-path : (a rest : Bytes) → IsPath a → has_end (a ++ b'>' ∷ rest) ≡ true
unfolding has_end
has_end-path [] rest h = refl
has_end-path (c ∷ cs) rest h =
    let e : (c == b'>') ≡ false = ground arith in
    let f : is_line_end c ≡ false = ground arith in rw (e, f) (has_end-path cs rest h.4)

-- The address between the angle brackets, whatever the verb before it and the bytes behind it.
get_address-path :
    (verb a rest : Bytes)
    → IsPath verb
    → IsPath a
    → get_address (verb ++ b'<' ∷ (a ++ b'>' ∷ rest)) ≡ some a
unfolding get_address
get_address-path [] a rest v h = rw (address_end-path a rest h) (rw (has_end-path a rest h))
get_address-path (c ∷ cs) a rest v h =
    let e : (c == b'<') ≡ false = ground arith in
    let f : is_line_end c ≡ false = ground arith in rw (e, f) (get_address-path cs a rest v.4 h)

abbrev pub mail_line : Bytes → Bytes
mail_line a = codes "MAIL FROM:" ++ b'<' ∷ (a ++ codes ">\r\n")

abbrev pub rcpt_line : Bytes → Bytes
rcpt_line a = codes "RCPT TO:" ++ b'<' ∷ (a ++ codes ">\r\n")

verb_mail : IsPath (codes "MAIL FROM:")
verb_mail = ground arith

verb_rcpt : IsPath (codes "RCPT TO:")
verb_rcpt = ground arith

address_in_line :
    (verb a old : Bytes)
    → IsPath verb
    → IsPath a
    → get_address ((verb ++ b'<' ∷ (a ++ codes ">\r\n")) ++ old) ≡ some a
address_in_line verb a old v h =
    let moved : (verb ++ b'<' ∷ (a ++ codes ">\r\n")) ++ old
        ≡ verb ++ b'<' ∷ (a ++ b'>' ∷ (b'\r' ∷ b'\n' ∷ old)) =
      append_assoc verb (b'<' ∷ (a ++ codes ">\r\n")) old
      ∙ ap (λ x. verb ++ b'<' ∷ x) (append_assoc a (codes ">\r\n") old) in
    ap get_address moved ∙ get_address-path verb a (b'\r' ∷ b'\n' ∷ old) v h

abbrev pub NoAt : Bytes → Type 0
NoAt [] = Unit
NoAt (c ∷ cs) = (c ≢ b'@') × NoAt cs

cut_at-append :
    (user domain : Bytes) → NoAt user → cut_at (user ++ b'@' ∷ domain) ≡ some (user, domain)
unfolding cut_at
cut_at-append [] domain n = refl
cut_at-append (c ∷ cs) domain n =
    let e : (c == b'@') ≡ false = ground arith in
    rw e (ap (λ o. o >>= λ r. some (c ∷ r.0, r.1)) (cut_at-append cs domain n.1))

IsPath-append : (user domain : Bytes) → IsPath user → IsPath domain → IsPath (user ++ b'@' ∷ domain)
IsPath-append [] domain u d = (omega arith, omega arith, omega arith, omega arith, d)
IsPath-append (c ∷ cs) domain u d = (u.0, u.1, u.2, u.3, IsPath-append cs domain u.4 d)

rcpt_to_address_parts :
    (disk : Disk) (a : Bytes) (s : Session)
    → rcpt_to_address disk (some a) s ≡ rcpt_to_parts disk a (cut_at a) s
unfolding cut_at
rcpt_to_address_parts disk [] s = refl
rcpt_to_address_parts disk (c ∷ cs) s = refl

module _ (disk : Disk) (s : Session) (commands : s.receive_message ≡ false) where
  -- A line MAIL with an address, in a session that waits for a command: behind HELO and RSET the
  -- address is kept and the reply is 250, and behind any other command nothing changes and it is
  -- 503. Then the session receives again, or is closed if the reply cannot be written.
  pub receive-mail_line :
      (c : ℕ) (cs : Bytes)
      → IsPath (c ∷ cs)
      → let r = received (mail_line (c ∷ cs)) s in
        receive disk (mail_line (c ∷ cs)) s ≡ mail_outcome disk.sends s.last_command (c ∷ cs) r
  unfolding receive process_command process_mail_from cut_word strncmp_eq
  receive-mail_line c cs h =
      let a = c ∷ cs in
      let r = received (mail_line a) s in
      ap (λ m. written disk.sends (receive_as m disk r)) commands
      ∙ ap
          (λ o.
            written disk.sends
              (if may_mail s.last_command then mail_from_address o r else respond 503 r))
          (address_in_line (codes "MAIL FROM:") a (drop (length (mail_line a)) s.recv_buffer)
            verb_mail h)
      ∙ written-mail_outcome disk.sends s.last_command a r

  -- A line RCPT with an address `user@domain`, in a well formed session that waits for a command:
  -- behind anything but an accepted MAIL it is refused with 501, and with 100 recipients with 523.
  -- Otherwise the recipient is put behind those there are and the reply is 250 if the domain has a
  -- directory; else nothing changes, with 551, or 451 if the test for it throws. Then the session
  -- receives again, or is closed if the reply cannot be written.
  pub receive-rcpt_line :
      (user domain : Bytes)
      → IsSession s
      → IsPath user
      → NoAt user
      → IsPath domain
      → let a = user ++ b'@' ∷ domain in
        let r = received (rcpt_line a) s in
        receive disk (rcpt_line a) s
        ≡ rcpt_outcome disk.sends s.last_command
            (disk.domain_folder domain)
            (record { address = a; mailbox = disk.mailbox_path user domain })
            r
  unfolding receive process_command process_rcpt_to cut_word strncmp_eq
  receive-rcpt_line user domain k u n d =
      let a = user ++ b'@' ∷ domain in
      let r = received (rcpt_line a) s in
      let with_address : Option Bytes → Step = λ o. written disk.sends (
        if may_rcpt s.last_command
        then (if leb max_rcpt_allowed s.rcpt_count then respond 523 r else rcpt_to_address disk o r)
        else respond 501 r) in
      let with_step : Step → Step = λ st. written disk.sends (
        if may_rcpt s.last_command
        then (if leb max_rcpt_allowed s.rcpt_count then respond 523 r else st)
        else respond 501 r) in
      ap (λ m. written disk.sends (receive_as m disk r)) commands
      ∙ ap with_address (
          address_in_line (codes "RCPT TO:") a (drop (length (rcpt_line a)) s.recv_buffer) verb_rcpt
            (IsPath-append user domain u d))
      ∙ ap with_step (
          rcpt_to_address_parts disk a r
          ∙ ap (λ o. rcpt_to_parts disk a o r) (cut_at-append user domain n))
      ∙ written-rcpt_outcome disk.sends s.last_command (disk.domain_folder domain)
          (record { address = a; mailbox = disk.mailbox_path user domain }) r k.array_size
