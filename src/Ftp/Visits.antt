-- ===== src/Ftp/Visits.antt =====
-- A whole visit to the FTP server, from the greeting to QUIT.
use network_protocols.Common.{
  ℕ, zero, suc, ◌≤◌, ◌≡◌, refl, ◌∙◌, ap, Bool, true, false, List, [], ◌∷◌, ◌++◌, Option, none, some,
  Bytes, codes, is_empty, bytes_eq, bytes_eq_iff, if◌then◌else◌, arith,
}
use network_protocols.Ftp.Commands.{Command, cut_first_space, command_of, parse_command}
use network_protocols.Ftp.Paths.{join}
use network_protocols.Ftp.Handlers.{
  Session, ascii, Event, message, data_sent, password_of, ask_password, handle_user, check_password,
  handle_pass, handle_type, handle_quit, get_lines, line_writes, close_data, send_writes,
  retr_ready, transferred, handle_retr, ask_retr,
}
use network_protocols.Ftp.Connections.{Network, open_passive, pasv_address, handle_pasv}
use network_protocols.Ftp.Execute.{
  Surroundings, done, finish, finish_or_throw, dispatch, new_session, Read, closed, behind, ends_as,
  work, worker,
}
use network_protocols.Ftp.Lines.{count}
use network_protocols.Ftp.Addresses.{Without, Without-append}
use network_protocols.Ftp.OneLine.{line_of, turn}

-- The passive connection succeeds.
pub record Connects (net : Network) : Type 0 where
  pub opens : net.opens ≡ true
  pub sets_option : net.sets_option ≡ true
  pub binds : net.binds ≡ true
  pub listens : net.listens ≡ true
  pub accepts : net.accepts ≡ some true

abbrev pub sent_all : List Bytes → List Event
sent_all [] = []
sent_all (w ∷ ws) = data_sent w ∷ sent_all ws

send_writes-sent_all :
    (n : ℕ) (ws : List Bytes) → count ws ≤ n → send_writes n ws ≡ (sent_all ws, true)
unfolding send_writes
send_writes-sent_all n [] h = refl
send_writes-sent_all zero (w ∷ ws) h = absurd (omega arith)
send_writes-sent_all (suc n) (w ∷ ws) h =
    ap (λ r. (data_sent w ∷ r.0, r.1)) (send_writes-sent_all n ws (omega arith))

known : Option Bytes → Bool
known none = false
known (some p) = true

parse_user : (args : Bytes) → parse_command (codes "USER " ++ args) ≡ (Command.user, args)
unfolding parse_command cut_first_space command_of bytes_eq
parse_user args = refl

parse_pass : (args : Bytes) → parse_command (codes "PASS " ++ args) ≡ (Command.pass, args)
unfolding parse_command cut_first_space command_of bytes_eq
parse_pass args = refl

parse_retr : (args : Bytes) → parse_command (codes "RETR " ++ args) ≡ (Command.retr, args)
unfolding parse_command cut_first_space command_of bytes_eq
parse_retr args = refl

parse_type : parse_command (codes "TYPE A") ≡ (Command.type, codes "A")
unfolding parse_command cut_first_space command_of bytes_eq
parse_type = refl

parse_pasv : parse_command (codes "PASV") ≡ (Command.pasv, [])
unfolding parse_command cut_first_space command_of bytes_eq
parse_pasv = refl

parse_quit : parse_command (codes "QUIT") ≡ (Command.quit, [])
unfolding parse_command cut_first_space command_of bytes_eq
parse_quit = refl

module _ (env : Surroundings) (user password : Bytes) (s : Session)
    (is_user : password_of env.users user ≡ some password) where
  dispatch-user :
      dispatch env Command.user user s
      ≡ done
          (record s { username = user })
          (message (codes "331 Password required for " ++ user) ∷ [])
  unfolding dispatch handle_user known
  dispatch-user = ap (λ b. finish (ask_password b user s)) (ap known is_user)

  dispatch-pass :
      is_empty user ≡ false
      → let t = record s { username = user } in
        dispatch env Command.pass password t
        ≡ done t (message (codes "230 User " ++ (user ++ codes " logged in")) ∷ [])
  unfolding dispatch handle_pass
  dispatch-pass n =
      let same : bytes_eq password password ≡ true = (bytes_eq_iff password password).1 refl in
      rw n (
        ap (λ o. finish_or_throw (check_password o password (record s { username = user }))) is_user
        ∙ rw same)

dispatch-pasv :
    (env : Surroundings) (s : Session)
    → Connects env.net
    → let t = record s { data_open = false; acceptor_open = false } in
      dispatch env Command.pasv [] t
      ≡ done
          (record s { data_open = true; acceptor_open = true })
          (message (codes "227 Entering Passive Mode (" ++ (pasv_address s.data_port ++ codes ")."))
            ∷ [])
unfolding dispatch handle_pasv open_passive
dispatch-pasv env s c = ground arith

dispatch-retr :
    (env : Surroundings) (s : Session) (name contents : Bytes)
    → env.contents (join s.curr_dir name) ≡ some (some contents)
    → count (line_writes (get_lines [] contents)) ≤ env.writes
    → let t = record s { data_open = true; acceptor_open = true; transfer_type = ascii } in
      dispatch env Command.retr name t
      ≡ done (close_data t) (
          message (retr_ready ascii)
          ∷ (sent_all (line_writes (get_lines [] contents)) ++ message transferred ∷ []))
unfolding dispatch handle_retr
dispatch-retr env s name contents f h =
    let t : Session = record s { data_open = true; acceptor_open = true; transfer_type = ascii } in
    ap (λ o. finish_or_throw (ask_retr env.writes env.pieces o t)) f
    ∙ ap
        (λ r.
          done (close_data t)
            (message (retr_ready ascii) ∷ (r.0 ++ (if r.1 then message transferred ∷ [] else []))))
        (send_writes-sent_all env.writes (line_writes (get_lines [] contents)) h)

-- The lines of a visit.
abbrev pub visit : Surroundings → Bytes → Bytes → Bytes → List (Surroundings × Read)
visit env user password name =
    (env, line_of (codes "USER " ++ user))
    ∷ (env, line_of (codes "PASS " ++ password))
    ∷ (env, line_of (codes "TYPE A"))
    ∷ (env, line_of (codes "PASV"))
    ∷ (env, line_of (codes "RETR " ++ name))
    ∷ (env, line_of (codes "QUIT"))
    ∷ []

-- What the server does in a visit: its replies, and between them the lines of the file.
abbrev pub replies : ℕ → Bytes → Bytes → List Event
replies port user contents =
    message (codes "220 myhost.mydomain FTP-server (version 1.0) ready")
    ∷ message (codes "331 Password required for " ++ user)
    ∷ message (codes "230 User " ++ (user ++ codes " logged in"))
    ∷ message (codes "200 Switched to ASCII mode")
    ∷ message (codes "227 Entering Passive Mode (" ++ (pasv_address port ++ codes ")."))
    ∷ message (retr_ready ascii)
    ∷ ((sent_all (line_writes (get_lines [] contents)) ++ message transferred ∷ [])
        ++ message (codes "221 Goodbye.") ∷ [])

-- A user who gives name and password, asks for text and a passive connection, and fetches a file: the
-- server replies to each line, sends the lines of the file with CR LF behind each, and closes both
-- connections. The user is to be known and the password the one kept; the lines hold no CR; the
-- passive connection and the writes are to succeed, and the file to exist in the root directory.
pub worker-visit :
    (env : Surroundings) (user password name root_dir contents : Bytes) (port : ℕ)
    → password_of env.users user ≡ some password
    → is_empty user ≡ false
    → Without b'\r' user
    → Without b'\r' password
    → Without b'\r' name
    → Connects env.net
    → env.contents (join root_dir name) ≡ some (some contents)
    → count (line_writes (get_lines [] contents)) ≤ env.writes
    → worker (visit env user password name) (new_session port root_dir) ≡ record {
      status = closed;
      session = record (new_session port root_dir) {
        username = user;
        transfer_type = ascii;
        quit_cmd_loop = true;
      };
      events = replies port user contents;
    }
unfolding worker work dispatch handle_type handle_quit
worker-visit env user password name root_dir contents port u n cu cp cn c f h =
    let s0 = new_session port root_dir in
    let s1 : Session = record s0 { username = user } in
    let s2 : Session = record s1 { transfer_type = ascii } in
    let s3 : Session = record s2 { data_open = true; acceptor_open = true } in
    let s4 : Session = record s2 { quit_cmd_loop = true } in
    let l6 : List (Surroundings × Read) = (env, line_of (codes "QUIT")) ∷ [] in
    let l5 : List (Surroundings × Read) = (env, line_of (codes "RETR " ++ name)) ∷ l6 in
    let l4 : List (Surroundings × Read) = (env, line_of (codes "PASV")) ∷ l5 in
    let l3 : List (Surroundings × Read) = (env, line_of (codes "TYPE A")) ∷ l4 in
    let l2 : List (Surroundings × Read) = (env, line_of (codes "PASS " ++ password)) ∷ l3 in
    let quit =
      turn env (codes "QUIT") [] Command.quit [] s2 s4 _ (ends_as closed s4) parse_quit
        (ground arith) refl refl refl in
    let retr =
      turn env (codes "RETR " ++ name) name Command.retr l6 s3 s2 _ _ (parse_retr name)
        (Without-append b'\r' (codes "RETR ") name (ground arith) cn) refl
        (dispatch-retr env s2 name contents f h) quit in
    let pasv =
      turn env (codes "PASV") [] Command.pasv l5 s2 s3 _ _ parse_pasv (ground arith) refl
        (dispatch-pasv env s2 c) retr in
    let type =
      turn env (codes "TYPE A") (codes "A") Command.type l4 s1 s2 _ _ parse_type (ground arith) refl
        refl pasv in
    let pass =
      turn env (codes "PASS " ++ password) password Command.pass l3 s1 s1 _ _ (parse_pass password)
        (Without-append b'\r' (codes "PASS ") password (ground arith) cp) refl
        (dispatch-pass env user password s0 u n) type in
    ap (behind (message (codes "220 myhost.mydomain FTP-server (version 1.0) ready") ∷ [])) (
      turn env (codes "USER " ++ user) user Command.user l2 s0 s1 _ _ (parse_user user)
        (Without-append b'\r' (codes "USER ") user (ground arith) cu) refl
        (dispatch-user env user password s0 u) pass)
