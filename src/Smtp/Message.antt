-- ===== src/Smtp/Message.antt =====
-- The message of an SMTP session: `processMessage` and `deliverMessage` of
-- smtp/server/smtp_session.cpp.
use network_protocols.Common.{
  Bool, true, false, ◌&&◌, List, [], ◌∷◌, ◌++◌, Option, none, some, Bytes, take, codes, bytes_eq,
  ◌==◌, if◌then◌else◌,
}
use network_protocols.Smtp.Session.{
  Recipient, MessageFile, Session, Disk, Event, reply, copy, Next, Step, close_file, write_file,
  delete_message,
}

-- What `_messagePath` leads to.
abbrev pub message_source : MessageFile → Option Bytes
message_source f = if f.path_set then f.contents else none

-- One round of the loop of `deliverMessage`, on what `fs::exists` says.
abbrev pub deliver_one : Option Bool → Option Bytes → Recipient → List Event × List Bytes
deliver_one none source r = ([], [])
deliver_one (some true) source r = (copy source r.mailbox ∷ [], [])
deliver_one (some false) source r = ([], r.address ∷ [])

-- The loop: the copies, and the recipients that are unknown.
unfoldable pub deliver_all : Disk → Option Bytes → List Recipient → List Event × List Bytes
deliver_all disk source [] = ([], [])
deliver_all disk source (r ∷ rs) =
    let first = deliver_one (disk.exists r.mailbox) source r in
    let rest = deliver_all disk source rs in (first.0 ++ rest.0, first.1 ++ rest.1)

-- `deliverMessage`
unfoldable pub deliver_message : Disk → Session → Session × List Event
deliver_message disk s =
    let d = deliver_all disk (message_source s.message) (take s.rcpt_count s.recipients) in
    (record s { unknown_recipients = d.1 }, d.0)

abbrev pub end_of_message : Bytes
end_of_message = codes ".\r\n"

-- The end of the message: it is closed, delivered and deleted.
unfoldable pub finish_message : Disk → Session → Step
finish_message disk s =
    let d = deliver_message disk (record s { message = close_file s.message }) in
    record {
      session = record (d.0) { message = delete_message (d.0).message };
      events = d.1 ++ reply 250 ∷ [];
      next = Next.listening;
    }

-- `processMessage`
unfoldable pub process_message : Disk → Session → Step
process_message disk s =
    if s.recv_length == 3 && bytes_eq (take 3 s.recv_buffer) end_of_message
    then finish_message disk s
    else record {
      session = record s { message = write_file (take s.recv_length s.recv_buffer) s.message };
      events = [];
      next = Next.listening;
    }
