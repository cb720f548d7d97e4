-- ===== src/Ftp/Execute.antt =====
-- `executeCommand` and `worker` of ftp/server/ftp_session.cpp.
use network_protocols.Common.{
  ℕ, Bool, true, false, List, [], ◌∷◌, ◌++◌, Option, none, some, Bytes, codes, ◌==◌, if◌then◌else◌,
}
use network_protocols.Ftp.Commands.{Command, parse_command}
use network_protocols.Ftp.Paths.{join}
use network_protocols.Ftp.Handlers.{
  Session, binary, Event, message, wrote, UsersDb, handle_user, handle_pass, handle_type,
  handle_quit, Transfer, handle_stor, ask_retr,
}
use network_protocols.Ftp.Files.{
  FileSystem, handle_cwd, handle_dele, handle_mkd, handle_rmd, handle_pwd, handle_nlst,
}
use network_protocols.Ftp.Connections.{Network, handle_port, handle_epsv, handle_pasv}

-- What a command meets: the users, the file system, the network, the contents of files, where `some
-- none` is a file that does not exist and `none` an exception of the question, the pieces that
-- `readsome` gives of one, how many writes on the data connection succeed, what its reads give, and
-- whether a file can be opened to be written.
pub record Surroundings : Type 0 where
  pub users : UsersDb
  pub fs : FileSystem
  pub net : Network
  pub contents : Bytes → Option (Option Bytes)
  pub pieces : List Bytes
  pub writes : ℕ
  pub reads : List (Option Bytes)
  pub can_open : Bool

-- A command is done; or it is left by an exception, or reads past the end of a vector; or it waits
-- for data, or for a connection, for ever.
pub data Outcome : Type 0 where
  done : Session → List Event → Outcome
  thrown waits : Outcome

abbrev pub finish : Session × List Event → Outcome
finish r = done r.0 r.1

abbrev pub finish_or_throw : Option (Session × List Event) → Outcome
finish_or_throw none = thrown
finish_or_throw (some r) = done r.0 r.1

abbrev pub finish_or_wait : Option (Session × List Event) → Outcome
finish_or_wait none = waits
finish_or_wait (some r) = done r.0 r.1

abbrev file_event : Bytes → Option Bytes → List Event
file_event path none = []
file_event path (some bytes) = wrote path bytes ∷ []

-- A STOR that has ended, with the file that it wrote.
abbrev pub stored : Bytes → Option Transfer → Outcome
stored path none = waits
stored path (some t) = done t.session (t.events ++ file_event path t.file)

-- The arguments of PORT: what stands behind the first `(`, if there is one, and in front of the first
-- `)`.
unfoldable pub behind_byte : ℕ → Bytes → Option Bytes
behind_byte x [] = none
behind_byte x (c ∷ cs) = let rest = behind_byte x cs in if c == x then some cs else rest

unfoldable pub before_byte : ℕ → Bytes → Bytes
before_byte x [] = []
before_byte x (c ∷ cs) = let rest = before_byte x cs in if c == x then [] else c ∷ rest

abbrev pub port_arguments : Bytes → Bytes
port_arguments args =
    before_byte b')' (elim (behind_byte b'(' args) [ none ↦ args | some rest ↦ rest ])

-- `handleFeat`
abbrev pub features : List Event
features =
    message (codes "211-Features supported:")
    ∷ message (codes " nothing essential now ")
    ∷ message (codes "211 End")
    ∷ []

-- The handler of a command.
unfoldable pub dispatch : Surroundings → Command → Bytes → Session → Outcome
dispatch env Command.cwd args s = finish_or_throw (handle_cwd env.fs args s)
dispatch env Command.dele args s = finish_or_throw (handle_dele env.fs args s)
dispatch env Command.eprt args s = finish_or_throw (handle_port env.net args s)
dispatch env Command.epsv args s = finish_or_wait (handle_epsv env.net s)
dispatch env Command.feat args s = done s features
dispatch env Command.nlst args s = finish (handle_nlst env.fs env.writes args s)
dispatch env Command.mkd args s = finish (handle_mkd env.fs args s)
dispatch env Command.pass args s = finish_or_throw (handle_pass env.users args s)
dispatch env Command.pasv args s = finish_or_wait (handle_pasv env.net s)
dispatch env Command.port args s = finish_or_throw (handle_port env.net (port_arguments args) s)
dispatch env Command.pwd args s = finish (handle_pwd s)
dispatch env Command.quit args s = finish (handle_quit s)
dispatch env Command.retr args s =
    finish_or_throw (ask_retr env.writes env.pieces (env.contents (join s.curr_dir args)) s)
dispatch env Command.rmd args s = finish (handle_rmd env.fs args s)
dispatch env Command.syst args s = done s (message (codes "215 UNIX Type: L8") ∷ [])
dispatch env Command.stor args s =
    stored (join s.curr_dir args) (handle_stor env.can_open env.reads s)
dispatch env Command.type args s = finish (handle_type args s)
dispatch env Command.user args s = finish (handle_user env.users args s)
dispatch env Command.unknown args s = done s (message (codes "500 Unknown command") ∷ [])

unfoldable pub execute_command : Surroundings → Bytes → Session → Outcome
execute_command env line s = let parsed = parse_command line in dispatch env parsed.0 parsed.1 s

-- A session as it is constructed.
abbrev pub new_session : ℕ → Bytes → Session
new_session data_port root_dir = record {
  data_port = data_port;
  curr_dir = root_dir;
  username = [];
  quit_cmd_loop = false;
  transfer_type = binary;
  data_open = false;
  acceptor_open = false;
}

-- What `read_until` gives: all the bytes that have come, or an error, the end of the connection or
-- another.
pub data Read : Type 0 where
  got : Bytes → Read
  end_of_file failed : Read

-- The command of what was read: up to the first CR LF, if there is one.
unfoldable pub first_line : Bytes → Bytes
first_line [] = []
first_line (c ∷ []) = c ∷ []
first_line (c ∷ d ∷ cs) =
    let rest = first_line (d ∷ cs) in
    elim (c == b'\r') [
      | true ↦ elim (d == b'\n') [ true ↦ [] | false ↦ c ∷ rest ]
      | false ↦ c ∷ rest
    ]

-- The worker has closed the control connection, or it waits for more, or for the data of a command.
pub data Status : Type 0 where
  closed reading busy : Status

pub record Run : Type 0 where
  pub status : Status
  pub session : Session
  pub events : List Event

abbrev pub behind : List Event → Run → Run
behind es r = record r { events = es ++ r.events }

abbrev pub ends_as : Status → Session → Run
ends_as status s = record { status = status; session = s; events = [] }

abbrev pub after_outcome : (Session → Run) → Session → Outcome → Run
after_outcome next s (done t es) = behind es (next t)
after_outcome next s thrown = ends_as closed s
after_outcome next s waits = ends_as busy s

-- A turn of the loop; any error but the end of the connection is only logged.
abbrev pub after_read : (Session → Run) → Surroundings → Session → Read → Run
after_read next env s (got bytes) = after_outcome next s (execute_command env (first_line bytes) s)
after_read next env s end_of_file = ends_as closed s
after_read next env s failed = next s

-- The loop of `worker`, on the results of its reads and what the commands meet. What is read behind
-- the first line is dropped with the buffer of the turn.
unfoldable pub work : List (Surroundings × Read) → Session → Run
work [] s = if s.quit_cmd_loop then ends_as closed s else ends_as reading s
work ((env, r) ∷ rs) s =
    let turn = after_read (work rs) env s r in if s.quit_cmd_loop then ends_as closed s else turn

-- `worker`
unfoldable pub worker : List (Surroundings × Read) → Session → Run
worker rs s =
    behind (message (codes "220 myhost.mydomain FTP-server (version 1.0) ready") ∷ []) (work rs s)
