-- ===== src/Ftp/Handlers.antt =====
-- The handlers of USER, PASS, TYPE, QUIT, RETR and STOR of ftp/server/ftp_session.cpp, and the
-- users of ftp/server/users_db.cpp.
use network_protocols.Common.{
  ℕ, zero, suc, Bool, true, false, List, [], ◌∷◌, ◌++◌, Option, none, some, Bytes, length, codes,
  is_empty, bytes_eq, ◌==◌, if◌then◌else◌, ◌>>=◌,
}
use network_protocols.Ftp.Commands.{to_upper}

pub data TransferType : Type 0 where
  ascii binary : TransferType

-- The session's fields, but for the root directory, which is only read to set the current one.
pub record Session : Type 0 where
  pub data_port : ℕ
  pub curr_dir : Bytes
  pub username : Bytes
  pub quit_cmd_loop : Bool
  pub transfer_type : TransferType
  -- whether the data socket is open, and whether the acceptor is
  pub data_open : Bool
  pub acceptor_open : Bool

-- A message to the client, on the control connection; data, on the data connection; and what is
-- done to the file system: a directory made, a file or a directory removed, a file written.
pub data Event : Type 0 where
  message : Bytes → Event
  data_sent : Bytes → Event
  created : Bytes → Event
  removed : Bytes → Event
  wrote : Bytes → Bytes → Event

-- `UsersDB`: the names and their passwords.
abbrev pub UsersDb : Type 0
UsersDb = List (Bytes × Bytes)

unfoldable pub password_of : UsersDb → Bytes → Option Bytes
password_of [] username = none
password_of (u ∷ us) username =
    let rest = password_of us username in if bytes_eq u.0 username then some u.1 else rest

-- `usernameIsKnown`
abbrev pub username_is_known : UsersDb → Bytes → Bool
username_is_known db username = elim (password_of db username) [ none ↦ false | some p ↦ true ]

-- `loadFromFile`, which reads no file.
abbrev pub loaded_users : UsersDb
loaded_users = (codes "testuser", codes "testpassword") ∷ []

abbrev pub ask_password : Bool → Bytes → Session → Session × List Event
ask_password true username s = (
  record s { username = username },
  message (codes "331 Password required for " ++ username) ∷ [],
)
ask_password false username s = (s, [])

-- `handleUser`: an unknown name is not answered.
unfoldable pub handle_user : UsersDb → Bytes → Session → Session × List Event
handle_user db username s = ask_password (username_is_known db username) username s

-- The comparison of `passwordIsValid`; an unknown name is an exception, which ends the session:
-- `none`.
abbrev pub check_password : Option Bytes → Bytes → Session → Option (Session × List Event)
check_password none password s = none
check_password (some p) password s = some (
  s,
  (if bytes_eq p password
        then message (codes "230 User " ++ (s.username ++ codes " logged in"))
        else message (codes "530 login authentication failed"))
      ∷ [],
)

-- `handlePass`: without a user name it is not answered.
unfoldable pub handle_pass : UsersDb → Bytes → Session → Option (Session × List Event)
handle_pass db password s =
    if is_empty s.username
    then some (s, [])
    else check_password (password_of db s.username) password s

-- `handleType`
unfoldable pub handle_type : Bytes → Session → Session × List Event
handle_type [] s = (s, message (codes "504 Invalid argument") ∷ [])
handle_type (c ∷ []) s =
    if to_upper c == b'A'
    then (record s { transfer_type = ascii }, message (codes "200 Switched to ASCII mode") ∷ [])
    else if to_upper c == b'I'
    then (record s { transfer_type = binary }, message (codes "200 Switched to Binary mode") ∷ [])
    else (s, message (codes "504 Invalid argument") ∷ [])
handle_type (c ∷ d ∷ cs) s = (s, message (codes "504 Invalid argument") ∷ [])

-- `handleQuit`
unfoldable pub handle_quit : Session → Session × List Event
handle_quit s = (record s { quit_cmd_loop = true }, message (codes "221 Goodbye.") ∷ [])

-- `std::getline`: what stands behind the last line feed is a line, if there is something.
unfoldable pub get_lines : Bytes → Bytes → List Bytes
get_lines line [] = if is_empty line then [] else line ∷ []
get_lines line (c ∷ cs) =
    let ended = line ∷ get_lines [] cs in
    let longer = get_lines (line ++ c ∷ []) cs in if c == b'\n' then ended else longer

-- The loop of `handleRetr` in ASCII mode, when every line can be sent: a write for each line.
unfoldable pub line_writes : List Bytes → List Bytes
line_writes [] = []
line_writes (l ∷ ls) = (l ++ codes "\r\n") ∷ line_writes ls

-- The loop that drops every CR.
unfoldable pub without_cr : Bytes → Bytes
without_cr [] = []
without_cr (c ∷ cs) = (if c == b'\r' then [] else c ∷ []) ++ without_cr cs

abbrev pub decoded : TransferType → Bytes → Bytes
decoded ascii bytes = without_cr bytes
decoded binary bytes = bytes

-- The loop of `handleStor` on the results of `read_some`, where `none` is an error, the end of the
-- file among them: the bytes written, and `transferSuccess`. The result is `none` while it waits
-- for more.
unfoldable pub store_reads : TransferType → List (Option Bytes) → Option (Bytes × Bool)
store_reads t [] = none
store_reads t (none ∷ rs) = some ([], false)
store_reads t (some b ∷ rs) =
    let rest = store_reads t rs in
    if length b == 512
    then (rest >>= λ r. some (decoded t b ++ r.0, r.1))
    else some (decoded t b, true)

-- `closeDataConnection`
abbrev pub close_data : Session → Session
close_data s = record s { data_open = false; acceptor_open = false }

-- What a transfer did: the session, the messages and data sent, and the file written, if one was.
pub record Transfer : Type 0 where
  pub session : Session
  pub events : List Event
  pub file : Option Bytes

abbrev pub data_ready : TransferType → Bytes
data_ready binary = codes "150 Data connection (binary mode) is ready to transfer file"
data_ready ascii = codes "150 Data connection (ASCII mode) is ready to transfer file"

abbrev pub transferred : Bytes
transferred = codes "226 The file transferred successfully, closing data connection"

-- The end of `handleStor`, on what its loop gave; `can_open` says whether the file could be opened,
-- which the code does not test.
abbrev pub end_stor : Bool → Session → Bytes × Bool → Transfer
end_stor can_open s (bytes, success) = record {
  session = close_data s;
  events =
      message (data_ready s.transfer_type)
      ∷ message (if success then transferred else codes "446 Transfer failed")
      ∷ [];
  file = if can_open then some bytes else none;
}

-- `handleStor`; the result is `none` while it waits for more.
unfoldable pub handle_stor : Bool → List (Option Bytes) → Session → Option Transfer
handle_stor can_open results s =
    if s.data_open
    then (store_reads s.transfer_type results >>= λ r. some (end_stor can_open s r))
    else some (record {
      session = s;
      events = message (codes "425 No data connection") ∷ [];
      file = none;
    })

-- The writes on the data connection: as many as the number succeed, and the first that fails ends the
-- loop. The flag is `transferSuccess`.
unfoldable pub send_writes : ℕ → List Bytes → List Event × Bool
send_writes n [] = ([], true)
send_writes zero (w ∷ ws) = ([], false)
send_writes (suc n) (w ∷ ws) = let rest = send_writes n ws in (data_sent w ∷ rest.0, rest.1)

-- The writes of the two loops of `handleRetr`; in binary mode they are the pieces that `readsome`
-- gives.
abbrev pub writes_of : TransferType → List Bytes → Bytes → List Bytes
writes_of binary pieces contents = pieces
writes_of ascii pieces contents = line_writes (get_lines [] contents)

-- The first message of `handleRetr`, which has a dot at its end in ASCII mode.
abbrev pub retr_ready : TransferType → Bytes
retr_ready binary = data_ready binary
retr_ready ascii = data_ready ascii ++ codes "."

-- `handleRetr`, on the contents of the file if it exists; a missing file leaves the connection open.
unfoldable pub handle_retr : ℕ → List Bytes → Option Bytes → Session → Session × List Event
handle_retr n pieces none s =
    if s.data_open
    then (s, message (codes "550 File does not exist") ∷ [])
    else (s, message (codes "425 No data connection") ∷ [])
handle_retr n pieces (some contents) s =
    let writes = send_writes n (writes_of s.transfer_type pieces contents) in
    if s.data_open
    then (
      close_data s,
      message (retr_ready s.transfer_type)
          ∷ (writes.0 ++ (if writes.1 then message transferred ∷ [] else [])),
    )
    else (s, message (codes "425 No data connection") ∷ [])

-- `handleRetr`, on what `fs::exists` says, where `none` is an exception: the question is only asked
-- with an open data connection.
abbrev pub ask_retr :
    ℕ → List Bytes → Option (Option Bytes) → Session → Option (Session × List Event)
ask_retr n pieces none s = if s.data_open then none else some (handle_retr n pieces none s)
ask_retr n pieces (some file) s = some (handle_retr n pieces file s)
