-- ===== src/Smtp/Session.antt =====
-- The state of `SMTPSession` (smtp/server/smtp_session.h), its replies, and the stream of its
-- message.
use network_protocols.Common.{
  ℕ, Bool, true, false, ◌&&◌, not, List, [], ◌∷◌, ◌++◌, Option, none, some, Bytes, codes, ◌==◌,
  if◌then◌else◌,
}

abbrev pub recv_buffer_size : ℕ
recv_buffer_size = 512

abbrev pub max_rcpt_allowed : ℕ
max_rcpt_allowed = 100

pub data Command : Type 0 where
  undefined helo mail_from rcpt_to command_data rset vrfy noop quit : Command

pub record Recipient : Type 0 where
  pub address : Bytes
  pub mailbox : Bytes

-- `_messageOut` and the file that it writes, which is at `_messagePath` if that is set.
pub record MessageFile : Type 0 where
  pub is_open : Bool
  -- the failbit of the stream
  pub failed : Bool
  pub path_set : Bool
  pub contents : Option Bytes

pub record Session : Type 0 where
  pub recv_buffer : Bytes
  pub recv_length : ℕ
  pub receive_message : Bool
  pub return_address : Bytes
  pub recipients : List Recipient
  pub rcpt_count : ℕ
  pub last_command : Command
  pub message : MessageFile
  pub unknown_recipients : List Bytes

-- What a directory of a domain is: the two tests of `processRcptTo`, or an exception of one of them.
pub data Folder : Type 0 where
  missing not_a_folder folder broken : Folder

-- What the session finds: the file system, and whether the reply of a handler can be written.
pub record Disk : Type 0 where
  -- whether `open` makes the file of the message
  pub can_open : Bool
  pub domain_folder : Bytes → Folder
  -- the path of the mailbox of a user of a domain
  pub mailbox_path : Bytes → Bytes → Bytes
  -- `fs::exists`; `none` is an exception
  pub exists : Bytes → Option Bool
  pub sends : Bool

pub data Event : Type 0 where
  reply : ℕ → Event
  -- `fs::copy` of the message, if there is one, to a path
  copy : Option Bytes → Bytes → Event

-- What the session does next: it receives, or closes, or neither, or has read past its buffer.
pub data Next : Type 0 where
  listening closing stalled overrun : Next

pub record Step : Type 0 where
  pub session : Session
  pub events : List Event
  pub next : Next

-- `sendResponse`, when the reply can be written: the session closes on 221, and receives again
-- otherwise.
abbrev pub respond : ℕ → Session → Step
respond code s = record {
  session = s;
  events = reply code ∷ [];
  next = if code == 221 then Next.closing else Next.listening;
}

abbrev pub replied : List Event → Bool
replied [] = false
replied (reply code ∷ es) = true
replied (copy source path ∷ es) = replied es

-- The handler of `async_write`, behind a handler that ends with a reply: an error closes the session.
abbrev pub written : Bool → Step → Step
written true st = st
written false st = if replied st.events then record st { next = Next.closing } else st

-- The text of the reply, behind the three digits; `none` is the assertion.
unfoldable pub response_text : ℕ → Option Bytes
response_text code =
    if code == 220
    then some (codes " smtp.localhost.localdomain Simple Mail Transfer Service ready\r\n")
    else if code == 221
    then some (codes " The server closes the transmission channel\r\n")
    else if code == 250
    then some (codes " OK\r\n")
    else if code == 354
    then some (codes " Start mail input; end with <CRLF>.<CRLF>\r\n")
    else if code == 451
    then some (codes " The server aborted the command due to a local error\r\n")
    else if code == 500
    then some (codes " Syntax error, can not recognize command or command too long\r\n")
    else if code == 501
    then some (codes " Syntax error in parameters or arguments\r\n")
    else if code == 502
    then some (codes " The server has not implemented the command\r\n")
    else if code == 503
    then some (codes " Improper sequence of commands\r\n")
    else if code == 504
    then some (codes " The server has not implemented a command parameter\r\n")
    else if code == 510
    then some (codes " Invalid email address\r\n")
    else if code == 523
    then some (codes " The total size of your mailing exceeds the recipient server limits\r\n")
    else if code == 550
    then some (
        codes
          " Mailbox is unavailable. Server aborted the command because the mailbox was not found or for policy reason\r\n")
    else if code == 551
    then some (codes " User not local. The <forward-path> will be specified\r\n")
    else if code == 552
    then some (codes " The server aborted the command because mailbox is full\r\n")
    else none

-- `std::ofstream::open`, `close` and `write`.
abbrev pub open_file : Bool → MessageFile → MessageFile
open_file can f =
    if not f.is_open && can
    then record { is_open = true; failed = false; path_set = f.path_set; contents = some [] }
    else record f { failed = true }

abbrev pub close_file : MessageFile → MessageFile
close_file f = if f.is_open then record f { is_open = false } else record f { failed = true }

abbrev pub append_to : Option Bytes → Bytes → Option Bytes
append_to none bytes = none
append_to (some c) bytes = some (c ++ bytes)

abbrev pub write_file : Bytes → MessageFile → MessageFile
write_file bytes f =
    if f.is_open && not f.failed
    then record f { contents = append_to f.contents bytes }
    else record f { failed = true }

-- `createMessage`: the file, and whether it could be opened.
unfoldable pub create_message : Disk → MessageFile → MessageFile × Bool
create_message disk f =
    let opened = open_file disk.can_open (record f { path_set = true }) in
    if opened.failed then (record opened { path_set = false }, false) else (opened, true)

-- `deleteMessage`
unfoldable pub delete_message : MessageFile → MessageFile
delete_message f =
    let closed = close_file f in
    if closed.path_set then record closed { contents = none } else closed
