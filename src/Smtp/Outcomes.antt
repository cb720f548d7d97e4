-- ===== src/Smtp/Outcomes.antt =====
-- What comes of the commands MAIL and RCPT with an address (smtp/server/smtp_session.cpp), written
-- out.
use network_protocols.Common.{
  ℕ, zero, suc, ◌<◌, ◌≡◌, refl, ◌∙◌, ap, ap₂, Bool, true, false, inl, inr, List, [], ◌∷◌, ◌++◌,
  Bytes, length, take, drop, leb, ◌==◌, if◌then◌else◌, Bool-cases, arith,
}
use network_protocols.Smtp.Session.{
  max_rcpt_allowed, Command, Recipient, Session, Folder, reply, Next, Step, respond, written,
}
use network_protocols.Smtp.Commands.{may_mail, may_rcpt, set_at, add_recipient}

-- One reply, and the session receives again if it can be written.
abbrev pub answered : Bool → ℕ → Session → Step
answered sends code s = record {
  session = s;
  events = reply code ∷ [];
  next = if sends then Next.listening else Next.closing;
}

written-respond :
    (b : Bool) (code : ℕ) (s : Session)
    → (code == 221) ≡ false
    → written b (respond code s) ≡ answered b code s
written-respond true code s e = rw e refl
written-respond false code s e = refl

-- What MAIL with an address makes of a session, by its last command.
abbrev pub mail_outcome : Bool → Command → Bytes → Session → Step
mail_outcome sends Command.helo a s =
    answered sends 250 (record s { return_address = a; last_command = Command.mail_from })
mail_outcome sends Command.rset a s =
    answered sends 250 (record s { return_address = a; last_command = Command.mail_from })
mail_outcome sends _ a s = answered sends 503 s

pub written-mail_outcome :
    (b : Bool) (last : Command) (a : Bytes) (s : Session)
    → written b (
        if may_mail last
        then respond 250 (record s { return_address = a; last_command = Command.mail_from })
        else respond 503 s)
      ≡ mail_outcome b last a s
written-mail_outcome b Command.undefined a s = written-respond b 503 _ refl
written-mail_outcome b Command.helo a s = written-respond b 250 _ refl
written-mail_outcome b Command.mail_from a s = written-respond b 503 _ refl
written-mail_outcome b Command.rcpt_to a s = written-respond b 503 _ refl
written-mail_outcome b Command.command_data a s = written-respond b 503 _ refl
written-mail_outcome b Command.rset a s = written-respond b 250 _ refl
written-mail_outcome b Command.vrfy a s = written-respond b 503 _ refl
written-mail_outcome b Command.noop a s = written-respond b 503 _ refl
written-mail_outcome b Command.quit a s = written-respond b 503 _ refl

-- What RCPT with an address makes of a session, by its last command and by what the directory of the
-- domain is.
abbrev pub recipient_outcome : Bool → Folder → Recipient → Session → Step
recipient_outcome sends Folder.missing r s = answered sends 551 s
recipient_outcome sends Folder.not_a_folder r s = answered sends 551 s
recipient_outcome sends Folder.broken r s = answered sends 451 s
recipient_outcome sends Folder.folder r s = answered sends 250 (record s {
  recipients = take s.rcpt_count s.recipients ++ r ∷ drop (suc s.rcpt_count) s.recipients;
  rcpt_count = suc s.rcpt_count;
})

abbrev pub rcpt_outcome : Bool → Command → Folder → Recipient → Session → Step
rcpt_outcome sends Command.mail_from f r s =
    if leb 100 s.rcpt_count then answered sends 523 s else recipient_outcome sends f r s
rcpt_outcome sends _ f r s = answered sends 501 s

set_at-take-drop :
    (rs : List Recipient) (i : ℕ) (r : Recipient)
    → i < length rs
    → set_at rs i r ≡ take i rs ++ r ∷ drop (suc i) rs
set_at-take-drop [] i r h = absurd (omega (arith, h))
set_at-take-drop (x ∷ rs) zero r h = refl
set_at-take-drop (x ∷ rs) (suc i) r h = ap (λ xs. x ∷ xs) (set_at-take-drop rs i r (omega arith))

written-recipient_outcome :
    (b : Bool) (f : Folder) (r : Recipient) (s : Session)
    → s.rcpt_count < length s.recipients
    → written b (add_recipient f r s) ≡ recipient_outcome b f r s
written-recipient_outcome b Folder.missing r s h = written-respond b 551 s refl
written-recipient_outcome b Folder.not_a_folder r s h = written-respond b 551 s refl
written-recipient_outcome b Folder.broken r s h = written-respond b 451 s refl
written-recipient_outcome b Folder.folder r s h =
    written-respond b 250 _ refl
    ∙ ap₂ (λ rs n. answered b 250 (record s { recipients = rs; rcpt_count = n }))
        (set_at-take-drop s.recipients s.rcpt_count r h) (omega arith)

pub written-rcpt_outcome :
    (b : Bool) (last : Command) (f : Folder) (r : Recipient) (s : Session)
    → length s.recipients ≡ max_rcpt_allowed
    → written b (
        if may_rcpt last
        then (if leb max_rcpt_allowed s.rcpt_count then respond 523 s else add_recipient f r s)
        else respond 501 s)
      ≡ rcpt_outcome b last f r s
written-rcpt_outcome b Command.undefined f r s h = written-respond b 501 _ refl
written-rcpt_outcome b Command.helo f r s h = written-respond b 501 _ refl
written-rcpt_outcome b Command.rcpt_to f r s h = written-respond b 501 _ refl
written-rcpt_outcome b Command.command_data f r s h = written-respond b 501 _ refl
written-rcpt_outcome b Command.rset f r s h = written-respond b 501 _ refl
written-rcpt_outcome b Command.vrfy f r s h = written-respond b 501 _ refl
written-rcpt_outcome b Command.noop f r s h = written-respond b 501 _ refl
written-rcpt_outcome b Command.quit f r s h = written-respond b 501 _ refl
written-rcpt_outcome b Command.mail_from f r s h =
    elim (Bool-cases (leb max_rcpt_allowed s.rcpt_count)) [
      | inl e ↦ rw e (written-respond b 523 s refl)
      | inr e ↦ rw e (written-recipient_outcome b f r s (ground (arith, e, h)))
    ]
