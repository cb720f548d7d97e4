-- ===== src/Ftp/SessionTests.antt =====
-- The theorems on whole commands of ftp/server/ at concrete lines and surroundings, and tests of
-- paths.
use network_protocols.Common.{
  get_elem?, ◌≤◌, ◌≡◌, ◌≢◌, refl, true, false, List, [], ◌∷◌, ◌++◌, none, some, codes, bytes_eq,
  arith,
}
use network_protocols.Common.Decimal.{to_string, read_digits}
use network_protocols.Ftp.Commands.{Command, cut_first_space, command_of, parse_command}
use network_protocols.Ftp.Paths.{parent_path, join, matches_file_name, matches_dir_name}
use network_protocols.Ftp.Handlers.{
  ascii, password_of, line_writes, get_lines, Session, loaded_users,
}
use network_protocols.Ftp.Files.{FileSystem}
use network_protocols.Ftp.Connections.{Network, pasv_address, stoi, handle_pasv}
use network_protocols.Ftp.Execute.{
  Surroundings, closed, finish_or_wait, after_outcome, dispatch, execute_command, end_of_file, Read,
  got, first_line, work, worker, new_session,
}
use network_protocols.Ftp.Addresses.{port_outcome, port-pasv}
use network_protocols.Ftp.Reached.{KnownUser}
use network_protocols.Ftp.Users.{worker-KnownUser}
use network_protocols.Ftp.Anonymous.{renamed, execute_command_any_user}
use network_protocols.Ftp.Stuck.{NoPort, work_behind_pasv}
use network_protocols.Ftp.Acceptor.{NoTransfer}
use network_protocols.Ftp.Server.{
  ftp_data_connection_port, new_server, accepted, stopped, turned, run_server,
}
use network_protocols.Ftp.Served.{run_server-worker}
use network_protocols.Ftp.Lines.{count}
use network_protocols.Ftp.Visits.{Connects, visit, replies, worker-visit}

-- Every directory is there, and empty; a port cannot be bound.
abbrev file_system : FileSystem
file_system = record {
  exists = λ p. some true;
  is_directory = λ p. some true;
  is_regular_file = λ p. some true;
  removes = λ p. true;
  creates = λ p. true;
  listing = λ p. some [];
}

abbrev network : Network
network = record {
  connects = λ host port. some true;
  opens_data = true;
  opens = true;
  sets_option = true;
  binds = false;
  listens = true;
  accepts = some true;
}

abbrev surroundings : Surroundings
surroundings = record {
  users = loaded_users;
  fs = file_system;
  net = network;
  contents = λ p. some (some (codes "text"));
  pieces = codes "text" ∷ [];
  writes = 1;
  reads = none ∷ [];
  can_open = true;
}

abbrev session : Session
session = new_session 5000 (codes "/srv")

port-pasv_example :
    dispatch surroundings Command.port
      (codes "Entering Passive Mode (" ++ (pasv_address 5000 ++ codes ")."))
      session
    ≡ port_outcome network session (some true)
port-pasv_example = port-pasv surroundings 5000 session (omega arith)

abbrev user_line : List (Surroundings × Read)
user_line = (surroundings, got (codes "USER testuser\r\n")) ∷ []

worker-KnownUser_example :
    KnownUser loaded_users (worker user_line (new_session 5000 (codes "/srv"))).session.username
worker-KnownUser_example = worker-KnownUser loaded_users user_line 5000 (codes "/srv") (refl, tt)

is_dele : (parse_command (codes "DELE a.txt")).0 ≡ Command.dele
unfolding parse_command cut_first_space command_of bytes_eq
is_dele = refl

not_user : (parse_command (codes "DELE a.txt")).0 ≢ Command.user
not_user e = cc is_dele

not_pass : (parse_command (codes "DELE a.txt")).0 ≢ Command.pass
not_pass e = cc is_dele

execute_command_any_user_example :
    execute_command surroundings
      (codes "DELE a.txt")
      (record session { username = codes "testuser" })
    ≡ renamed (codes "testuser") (execute_command surroundings (codes "DELE a.txt") session)
execute_command_any_user_example =
    execute_command_any_user surroundings (codes "DELE a.txt") (codes "testuser") session not_user
      not_pass

abbrev retr_line : List (Surroundings × Read)
retr_line = (surroundings, got (codes "RETR a\r\n")) ∷ []

is_retr : (parse_command (first_line (codes "RETR a\r\n"))).0 ≡ Command.retr
unfolding parse_command cut_first_space command_of bytes_eq first_line
is_retr = refl

retr_line-NoPort : NoPort retr_line
retr_line-NoPort = (λ e. cc is_retr, λ e. cc is_retr, tt)

work_behind_pasv_example :
    NoTransfer
      (after_outcome (work retr_line) session (finish_or_wait (handle_pasv network session))).events
work_behind_pasv_example =
    work_behind_pasv network retr_line session refl refl (record { opens = refl; fails = refl })
      retr_line-NoPort

parents :
    (parent_path (codes "/a/b") ≡ codes "/a")
    × (parent_path (codes "/a") ≡ codes "/")
    × (parent_path (codes "a") ≡ [])
    × (join (codes "/a") (codes "b") ≡ codes "/a/b")
unfolding parent_path join
parents = (refl, refl, refl, refl)

names :
    (matches_file_name (codes "a.txt") ≡ true)
    × (matches_file_name [] ≡ false)
    × (matches_dir_name (codes "../x") ≡ false)
unfolding matches_file_name matches_dir_name
names = (refl, refl, refl)

numbers :
    (stoi (codes " +42x") ≡ some 42) × (stoi (codes "x") ≡ none) × (to_string 207 ≡ codes "207")
unfolding stoi to_string read_digits
numbers = (refl, refl, refl)

-- A text of two lines, and a network that connects.
abbrev visited : Surroundings
visited = record surroundings {
  net = record network { binds = true };
  contents = λ p. some (some (codes "x\ny"));
  writes = 2;
}

connects : Connects visited.net
connects = record { opens = refl; sets_option = refl; binds = refl; listens = refl; accepts = refl }

password_kept : password_of visited.users (codes "testuser") ≡ some (codes "testpassword")
unfolding bytes_eq password_of
password_kept = refl

lines_fit : count (line_writes (get_lines [] (codes "x\ny"))) ≤ 2
unfolding line_writes get_lines
lines_fit = omega arith

worker-visit_example :
    worker
      (visit visited (codes "testuser") (codes "testpassword") (codes "a"))
      (new_session 10020 (codes "/srv"))
    ≡ record {
      status = closed;
      session = record (new_session 10020 (codes "/srv")) {
        username = codes "testuser";
        transfer_type = ascii;
        quit_cmd_loop = true;
      };
      events = replies 10020 (codes "testuser") (codes "x\ny");
    }
worker-visit_example =
    worker-visit visited (codes "testuser") (codes "testpassword") (codes "a") (codes "/srv")
      (codes "x\ny") 10020 password_kept refl (ground arith) (ground arith) (ground arith) connects
      refl lines_fit

-- Two connections; the second one's thread takes a line behind the stop.
abbrev named : Surroundings × Read
named = (surroundings, got (codes "USER testuser\r\n"))

run_server-worker_example :
    get_elem?
      (run_server
        ((accepted (some (codes "/a")) ∷ turned 0 named ∷ [])
          ++ accepted (some (codes "/b"))
            ∷ turned 0 (surroundings, end_of_file)
            ∷ stopped
            ∷ turned 1 named
            ∷ [])
        new_server).sessions
      1
    ≡ some (worker (named ∷ []) (new_session ftp_data_connection_port (codes "/b")))
run_server-worker_example =
    run_server-worker (accepted (some (codes "/a")) ∷ turned 0 named ∷ [])
      (turned 0 (surroundings, end_of_file) ∷ stopped ∷ turned 1 named ∷ []) (codes "/b") tt
