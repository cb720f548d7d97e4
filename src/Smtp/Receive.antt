-- ===== src/Smtp/Receive.antt =====
-- `processCommand` and the handler of `SMTPSession::receive` (smtp/server/smtp_session.cpp).
use network_protocols.Common.{
  ℕ, Bool, true, false, ◌&&◌, ◌||◌, List, [], ◌∷◌, ◌++◌, Option, none, some, Bytes, length, drop,
  codes, ◌==◌, if◌then◌else◌, ◌>>=◌,
}
use network_protocols.Smtp.Session.{Session, Disk, Next, Step, respond, written}
use network_protocols.Smtp.Commands.{
  is_line_end, process_helo, process_data, process_rset, process_vrfy, process_mail_from,
  process_rcpt_to,
}
use network_protocols.Smtp.Message.{process_message}

-- `std::strncmp` with as many bytes as the first argument has, where it is zero.
unfoldable pub strncmp_eq : Bytes → Bytes → Bool
strncmp_eq [] literal = true
strncmp_eq (c ∷ cs) [] = c == 0
strncmp_eq (c ∷ cs) (d ∷ ds) = c == d && strncmp_eq cs ds

-- The first loop: the word in front of a space or of the end of the line, and the byte that ends it.
unfoldable pub cut_word : Bytes → Option (Bytes × ℕ)
cut_word [] = none
cut_word (c ∷ cs) =
    let rest = cut_word cs in
    if c == b' ' || is_line_end c then some ([], c) else (rest >>= λ r. some (c ∷ r.0, r.1))

-- The commands with a parameter. The second loop stops where it starts, so that only the word in
-- front of the first space is compared.
abbrev pub dispatch_parameter : Disk → Bytes → Session → Step
dispatch_parameter disk word s =
    if strncmp_eq word (codes "MAIL FROM")
    then process_mail_from s
    else if strncmp_eq word (codes "RCPT TO")
    then process_rcpt_to disk s
    else respond 502 s

abbrev pub dispatch_plain : Disk → Bytes → Session → Step
dispatch_plain disk word s =
    if strncmp_eq word (codes "HELO")
    then process_helo disk s
    else if strncmp_eq word (codes "DATA")
    then process_data s
    else if strncmp_eq word (codes "RSET")
    then process_rset s
    else if strncmp_eq word (codes "VRFY")
    then process_vrfy s
    else if strncmp_eq word (codes "NOOP")
    then respond 250 s
    else if strncmp_eq word (codes "QUIT")
    then respond 221 s
    else respond 502 s

abbrev pub dispatch : Disk → Option (Bytes × ℕ) → Session → Step
dispatch disk none s = respond 500 s
dispatch disk (some (word, stop)) s =
    if stop == b' '
    then dispatch_parameter disk word s
    else if length word == 4
    then dispatch_plain disk word s
    else respond 500 s

-- `processCommand`, on the whole buffer.
unfoldable pub process_command : Disk → Session → Step
process_command disk s = dispatch disk (cut_word s.recv_buffer) s

-- The bytes received, in front of what the buffer held.
abbrev pub received : Bytes → Session → Session
received bytes s = record s {
  recv_buffer = bytes ++ drop (length bytes) s.recv_buffer;
  recv_length = length bytes;
}

abbrev pub receive_as : Bool → Disk → Session → Step
receive_as true disk s = process_message disk s
receive_as false disk s = process_command disk s

-- The handler of `receive`.
unfoldable pub receive : Disk → Bytes → Session → Step
receive disk bytes s = written disk.sends (receive_as s.receive_message disk (received bytes s))

-- The end of a read; on an error the session closes.
unfoldable pub on_received : Disk → Option Bytes → Session → Step
on_received disk none s = record { session = s; events = []; next = Next.closing }
on_received disk (some bytes) s = receive disk bytes s

abbrev pub continue : Next → Step → Step → Step
continue Next.listening first rest = record rest { events = first.events ++ rest.events }
continue Next.closing first rest = first
continue Next.stalled first rest = first
continue Next.overrun first rest = first

-- The session behind a sequence of reads, each with what it finds: it ends with the first that the
-- session does not receive behind.
unfoldable pub run : List (Disk × Option Bytes) → Session → Step
run [] s = record { session = s; events = []; next = Next.listening }
run ((disk, read) ∷ rs) s =
    let first = on_received disk read s in
    let rest = run rs first.session in continue first.next first rest
