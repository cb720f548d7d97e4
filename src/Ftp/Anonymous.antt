-- ===== src/Ftp/Anonymous.antt =====
-- No command of the FTP server but PASS looks at who has logged in.
use network_protocols.Common.{
  ℕ, ◌≡◌, ◌≢◌, refl, Bool, List, [], ◌∷◌, Option, none, some, Bytes, arith,
}
use network_protocols.Ftp.Paths.{join}
use network_protocols.Ftp.Commands.{Command, parse_command}
use network_protocols.Ftp.Handlers.{
  Session, handle_type, handle_quit, handle_stor, handle_retr, ask_retr,
}
use network_protocols.Ftp.Files.{
  FileSystem, handle_cwd, handle_dele, handle_mkd, handle_rmd, handle_pwd, handle_nlst,
}
use network_protocols.Ftp.Connections.{Network, handle_port, open_passive, handle_epsv, handle_pasv}
use network_protocols.Ftp.Execute.{
  Surroundings, Outcome, done, thrown, waits, finish, finish_or_throw, finish_or_wait, stored,
  port_arguments, dispatch, execute_command,
}

abbrev pub named : Bytes → Session → Session
named u s = record s { username = u }

abbrev pub renamed : Bytes → Outcome → Outcome
renamed u (done t es) = done (named u t) es
renamed u thrown = thrown
renamed u waits = waits

module _ (u : Bytes) (s : Session) where
  handle_cwd-named :
      (fs : FileSystem) (args : Bytes)
      → finish_or_throw (handle_cwd fs args (named u s))
        ≡ renamed u (finish_or_throw (handle_cwd fs args s))
  unfolding handle_cwd
  handle_cwd-named fs args = ground arith

  handle_dele-named :
      (fs : FileSystem) (args : Bytes)
      → finish_or_throw (handle_dele fs args (named u s))
        ≡ renamed u (finish_or_throw (handle_dele fs args s))
  unfolding handle_dele
  handle_dele-named fs args = ground arith

  handle_mkd-named :
      (fs : FileSystem) (args : Bytes)
      → finish (handle_mkd fs args (named u s)) ≡ renamed u (finish (handle_mkd fs args s))
  unfolding handle_mkd
  handle_mkd-named fs args = ground arith

  handle_rmd-named :
      (fs : FileSystem) (args : Bytes)
      → finish (handle_rmd fs args (named u s)) ≡ renamed u (finish (handle_rmd fs args s))
  unfolding handle_rmd
  handle_rmd-named fs args = ground arith

  handle_nlst-named :
      (fs : FileSystem) (n : ℕ) (args : Bytes)
      → finish (handle_nlst fs n args (named u s)) ≡ renamed u (finish (handle_nlst fs n args s))
  unfolding handle_nlst
  handle_nlst-named fs n args = ground arith

  handle_type-named :
      (args : Bytes)
      → finish (handle_type args (named u s)) ≡ renamed u (finish (handle_type args s))
  unfolding handle_type
  handle_type-named [] = refl
  handle_type-named (c ∷ []) = ground arith
  handle_type-named (c ∷ d ∷ cs) = refl

  handle_epsv-named :
      (net : Network)
      → finish_or_wait (handle_epsv net (named u s))
        ≡ renamed u (finish_or_wait (handle_epsv net s))
  unfolding handle_epsv open_passive
  handle_epsv-named net = ground arith

  handle_pasv-named :
      (net : Network)
      → finish_or_wait (handle_pasv net (named u s))
        ≡ renamed u (finish_or_wait (handle_pasv net s))
  unfolding handle_pasv open_passive
  handle_pasv-named net = ground arith

  ask_retr-named :
      (n : ℕ) (pieces : List Bytes) (contents : Option (Option Bytes))
      → finish_or_throw (ask_retr n pieces contents (named u s))
        ≡ renamed u (finish_or_throw (ask_retr n pieces contents s))
  unfolding handle_retr
  ask_retr-named n pieces none = ground arith
  ask_retr-named n pieces (some none) = ground arith
  ask_retr-named n pieces (some (some c)) = ground arith

  handle_port-named :
      (net : Network) (args : Bytes)
      → finish_or_throw (handle_port net args (named u s))
        ≡ renamed u (finish_or_throw (handle_port net args s))
  unfolding handle_port
  handle_port-named net args = ground arith

  handle_stor-named :
      (path : Bytes) (can_open : Bool) (results : List (Option Bytes))
      → stored path (handle_stor can_open results (named u s))
        ≡ renamed u (stored path (handle_stor can_open results s))
  unfolding handle_stor
  handle_stor-named path can_open results = ground arith

  dispatch-named :
      (env : Surroundings) (c : Command) (args : Bytes)
      → c ≢ Command.user
      → c ≢ Command.pass
      → dispatch env c args (named u s) ≡ renamed u (dispatch env c args s)
  unfolding dispatch handle_pwd handle_quit
  dispatch-named env Command.cwd args nu np = handle_cwd-named env.fs args
  dispatch-named env Command.dele args nu np = handle_dele-named env.fs args
  dispatch-named env Command.eprt args nu np = handle_port-named env.net args
  dispatch-named env Command.epsv args nu np = handle_epsv-named env.net
  dispatch-named env Command.feat args nu np = refl
  dispatch-named env Command.nlst args nu np = handle_nlst-named env.fs env.writes args
  dispatch-named env Command.mkd args nu np = handle_mkd-named env.fs args
  dispatch-named env Command.pass args nu np = absurd (np refl)
  dispatch-named env Command.pasv args nu np = handle_pasv-named env.net
  dispatch-named env Command.port args nu np = handle_port-named env.net (port_arguments args)
  dispatch-named env Command.pwd args nu np = refl
  dispatch-named env Command.quit args nu np = refl
  dispatch-named env Command.retr args nu np =
      ask_retr-named env.writes env.pieces (env.contents (join s.curr_dir args))
  dispatch-named env Command.rmd args nu np = handle_rmd-named env.fs args
  dispatch-named env Command.syst args nu np = refl
  dispatch-named env Command.stor args nu np =
      handle_stor-named (join s.curr_dir args) env.can_open env.reads
  dispatch-named env Command.type args nu np = handle_type-named args
  dispatch-named env Command.user args nu np = absurd (nu refl)
  dispatch-named env Command.unknown args nu np = refl

-- Any command line but those of USER and PASS has the same effect and the same replies whoever has
-- given a name, and if nobody has: files are read, written and removed with no login.
pub execute_command_any_user :
    (env : Surroundings) (line u : Bytes) (s : Session)
    → (parse_command line).0 ≢ Command.user
    → (parse_command line).0 ≢ Command.pass
    → execute_command env line (record s { username = u }) ≡ renamed u (execute_command env line s)
unfolding execute_command
execute_command_any_user env line u s nu np =
    dispatch-named u s env (parse_command line).0 (parse_command line).1 nu np
