-- ===== src/Smtp/Tests.antt =====
-- The theorems on smtp/server/ at concrete sessions and lines.
use network_protocols.Common.{
  ℕ, suc, zero, ◌≡◌, refl, true, List, [], ◌∷◌, ◌++◌, Option, none, some, Bytes, length, codes,
  bytes_eq, arith,
}
use network_protocols.Smtp.Session.{Command, Recipient, Session, Folder, Disk}
use network_protocols.Smtp.Message.{end_of_message}
use network_protocols.Smtp.Receive.{received, receive, run}
use network_protocols.Smtp.WellFormed.{IsSession}
use network_protocols.Smtp.Reached.{new_session}
use network_protocols.Smtp.Server.{
  Entry, started, Happening, accepted, read, new_server, run_server,
}
use network_protocols.Smtp.Interleaved.{run_entry, run_server_each}
use network_protocols.Smtp.Served.{IsEntry, run_server-IsEntry}
use network_protocols.Smtp.Delivers.{ArePieces, reads, writing, delivery, delivers}
use network_protocols.Smtp.Stays.{Stays, breaks, run-Stays}
use network_protocols.Smtp.Outcomes.{answered, rcpt_outcome}
use network_protocols.Smtp.Envelope.{mail_line, rcpt_line, receive-mail_line, receive-rcpt_line}

abbrev fill {ℓ} : {A : Type ℓ} → ℕ → A → List A
fill zero a = []
fill (suc n) a = a ∷ fill n a

length-fill {ℓ} : {A : Type ℓ} (n : ℕ) (a : A) → length (fill n a) ≡ n
length-fill zero a = refl
length-fill (suc n) a = omega (arith, length-fill n a)

abbrev nobody : Recipient
nobody = record { address = []; mailbox = [] }

abbrev disk : Disk
disk = record {
  can_open = true;
  domain_folder = λ d. Folder.folder;
  mailbox_path = λ u d. d ++ b'/' ∷ u;
  exists = λ p. some true;
  sends = true;
}

-- A session behind DATA, with one recipient.
abbrev in_message : Session
in_message = record (new_session (fill 512 0) (fill 100 nobody)) {
  receive_message = true;
  last_command = Command.command_data;
  rcpt_count = 1;
  message = writing (codes "a");
}

pieces : ArePieces (codes "b" ∷ codes "QUIT\r\n" ∷ [])
unfolding bytes_eq
pieces = (refl, (refl, tt))

delivers_example :
    (run
      (reads disk ((codes "b" ∷ codes "QUIT\r\n" ∷ []) ++ end_of_message ∷ []))
      in_message).events
    ≡ delivery disk in_message (codes "abQUIT\r\n")
delivers_example =
    delivers disk (codes "b" ∷ codes "QUIT\r\n" ∷ []) in_message (codes "a") refl refl pieces

-- The end of the message, with a reply that can be written, QUIT, and an error.
abbrev three_reads : List (Disk × Option Bytes)
three_reads = (disk, some end_of_message) ∷ (disk, some (codes "QUIT\r\n")) ∷ (disk, none) ∷ []

run-Stays_example : Stays (breaks three_reads) (run three_reads in_message)
run-Stays_example = run-Stays three_reads in_message refl

-- Sessions behind HELO and behind MAIL.
abbrev greeted : Session
greeted = record (new_session (fill 512 0) (fill 100 nobody)) { last_command = Command.helo }

abbrev mailing : Session
mailing = record greeted { last_command = Command.mail_from }

receive-mail_line_example :
    receive disk (mail_line (codes "a@b")) greeted
    ≡ answered true 250 (record (received (mail_line (codes "a@b")) greeted) {
      return_address = codes "a@b";
      last_command = Command.mail_from;
    })
receive-mail_line_example = receive-mail_line disk greeted refl 97 (codes "@b") (omega arith)

mailing-IsSession : IsSession mailing
mailing-IsSession = record {
  buffer_size = length-fill {A = ℕ} 512 0;
  array_size = length-fill 100 nobody;
  count_fits = omega arith;
  in_message = refl;
}

receive-rcpt_line_example :
    receive disk (rcpt_line (codes "a@b")) mailing
    ≡ rcpt_outcome true Command.mail_from Folder.folder
        (record { address = codes "a@b"; mailbox = codes "b/a" })
        (received (rcpt_line (codes "a@b")) mailing)
receive-rcpt_line_example =
    receive-rcpt_line disk mailing refl (codes "a") (codes "b") mailing-IsSession (omega arith)
      (omega arith) (omega arith)

abbrev arrays : Happening
arrays = accepted true (fill 512 0) (fill 100 nobody)

-- Two clients at once.
run_server_each_example :
    (run_server
        ((arrays ∷ read 1 disk (some (codes "HELO\r\n")) ∷ [])
          ++ arrays
            ∷ read 1 disk (some (codes "DATA\r\n"))
            ∷ read 2 disk (some (codes "QUIT\r\n"))
            ∷ [])
        new_server).sessions
      2
    ≡ some (
        run_entry
          ((disk, some (codes "QUIT\r\n")) ∷ [])
          (started true (fill 512 0) (fill 100 nobody)))
run_server_each_example =
    run_server_each (arrays ∷ read 1 disk (some (codes "HELO\r\n")) ∷ [])
      (read 1 disk (some (codes "DATA\r\n")) ∷ read 2 disk (some (codes "QUIT\r\n")) ∷ []) true
      (fill 512 0) (fill 100 nobody) (omega arith)

abbrev helo_there : Entry
helo_there =
    run_entry ((disk, some (codes "HELO\r\n")) ∷ []) (started true (fill 512 0) (fill 100 nobody))

helo_at :
    (run_server (arrays ∷ read 1 disk (some (codes "HELO\r\n")) ∷ []) new_server).sessions 1
    ≡ some helo_there
helo_at =
    run_server_each [] (read 1 disk (some (codes "HELO\r\n")) ∷ []) true (fill 512 0)
      (fill 100 nobody) (omega arith)

run_server-IsEntry_example : IsEntry helo_there
run_server-IsEntry_example =
    run_server-IsEntry (arrays ∷ read 1 disk (some (codes "HELO\r\n")) ∷ []) 1 helo_there
      ((length-fill {A = ℕ} 512 0, length-fill 100 nobody), (omega arith, tt)) helo_at
