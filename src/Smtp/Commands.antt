-- ===== src/Smtp/Commands.antt =====
-- The commands of an SMTP session (smtp/server/smtp_session.cpp).
use network_protocols.Common.{
  ℕ, zero, suc, ◌+◌, Bool, true, false, ◌||◌, List, [], ◌∷◌, Option, none, some, Bytes, leb, ◌==◌,
  if◌then◌else◌, ◌>>=◌,
}
use network_protocols.Smtp.Session.{
  max_rcpt_allowed, Command, Recipient, Session, Folder, Disk, Next, Step, respond, create_message,
  delete_message,
}

abbrev pub is_line_end : ℕ → Bool
is_line_end c = c == b'\r' || c == b'\n'

-- The second loop of `getAddress`, on the bytes behind `<`. Its counter is one behind its pointer,
-- so that without an end it reads past the buffer: `none`.
unfoldable pub address_end : Bytes → Option Bytes
address_end [] = none
address_end (c ∷ cs) =
    let rest = address_end cs in
    if c == b'>' then some [] else if is_line_end c then some [] else (rest >>= λ a. some (c ∷ a))

-- Whether the second loop ends at `>`.
unfoldable pub has_end : Bytes → Bool
has_end [] = false
has_end (c ∷ cs) =
    let rest = has_end cs in if c == b'>' then true else if is_line_end c then false else rest

-- `getAddress`, on the whole buffer; an empty address stands for none.
unfoldable pub get_address : Bytes → Option Bytes
get_address [] = some []
get_address (c ∷ cs) =
    let rest = get_address cs in
    if c == b'<'
    then (address_end cs >>= λ a. some (if has_end cs then a else []))
    else if is_line_end c
    then some []
    else rest

unfoldable pub process_helo : Disk → Session → Step
process_helo disk s =
    let m = create_message disk s.message in
    let cleared : Session = record s { rcpt_count = 0; return_address = []; message = m.0 } in
    if m.1
    then respond 250 (record cleared { last_command = Command.helo })
    else respond 451 cleared

abbrev pub is_data : Command → Bool
is_data Command.command_data = true
is_data _ = false

-- A second DATA is not answered, and nothing more is received.
unfoldable pub process_data : Session → Step
process_data s =
    if is_data s.last_command
    then record { session = s; events = []; next = Next.stalled }
    else respond 354 (record s { receive_message = true; last_command = Command.command_data })

unfoldable pub process_rset : Session → Step
process_rset s = respond 250 (record s {
  rcpt_count = 0;
  return_address = [];
  receive_message = false;
  message = delete_message s.message;
  last_command = Command.rset;
})

-- `processVrfy` is empty.
unfoldable pub process_vrfy : Session → Step
process_vrfy s = record { session = s; events = []; next = Next.stalled }

abbrev pub may_mail : Command → Bool
may_mail Command.helo = true
may_mail Command.rset = true
may_mail _ = false

abbrev pub mail_from_address : Option Bytes → Session → Step
mail_from_address none s = record { session = s; events = []; next = Next.overrun }
mail_from_address (some []) s = respond 501 s
mail_from_address (some (c ∷ cs)) s =
    respond 250 (record s { return_address = c ∷ cs; last_command = Command.mail_from })

unfoldable pub process_mail_from : Session → Step
process_mail_from s =
    if may_mail s.last_command
    then mail_from_address (get_address s.recv_buffer) s
    else respond 503 s

abbrev pub may_rcpt : Command → Bool
may_rcpt Command.mail_from = true
may_rcpt _ = false

-- `find_first_of('@')`: the user and the domain.
unfoldable pub cut_at : Bytes → Option (Bytes × Bytes)
cut_at [] = none
cut_at (c ∷ cs) =
    let rest = cut_at cs in if c == b'@' then some ([], cs) else (rest >>= λ r. some (c ∷ r.0, r.1))

-- The array of recipients with one put at an index.
abbrev pub set_at : List Recipient → ℕ → Recipient → List Recipient
set_at [] i r = []
set_at (x ∷ xs) zero r = r ∷ xs
set_at (x ∷ xs) (suc i) r = x ∷ set_at xs i r

-- The `try` block, and what is behind it. The test of the mailbox is on the directory of the domain
-- again, so that it does not fail; the comparison with RCPT TO changes nothing.
abbrev pub add_recipient : Folder → Recipient → Session → Step
add_recipient Folder.missing r s = respond 551 s
add_recipient Folder.not_a_folder r s = respond 551 s
add_recipient Folder.broken r s = respond 451 s
add_recipient Folder.folder r s =
    respond 250
      (record s { recipients = set_at s.recipients s.rcpt_count r; rcpt_count = s.rcpt_count + 1 })

abbrev pub rcpt_to_parts : Disk → Bytes → Option (Bytes × Bytes) → Session → Step
rcpt_to_parts disk address none s = respond 501 s
rcpt_to_parts disk address (some (user, domain)) s =
    add_recipient (disk.domain_folder domain)
      (record { address = address; mailbox = disk.mailbox_path user domain }) s

abbrev pub rcpt_to_address : Disk → Option Bytes → Session → Step
rcpt_to_address disk none s = record { session = s; events = []; next = Next.overrun }
rcpt_to_address disk (some []) s = respond 501 s
rcpt_to_address disk (some (c ∷ cs)) s = rcpt_to_parts disk (c ∷ cs) (cut_at (c ∷ cs)) s

unfoldable pub process_rcpt_to : Disk → Session → Step
process_rcpt_to disk s =
    if may_rcpt s.last_command
    then (if leb max_rcpt_allowed s.rcpt_count
        then respond 523 s
        else rcpt_to_address disk (get_address s.recv_buffer) s)
    else respond 501 s
