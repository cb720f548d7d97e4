-- ===== src/Ftp/Acceptor.antt =====
-- What a passive connection that fails leaves behind.
use network_protocols.Common.{
  ℕ, ◌≡◌, ◌≢◌, refl, Bool, true, false, List, [], ◌∷◌, Option, none, some, Bytes, arith,
}
use network_protocols.Ftp.Paths.{join}
use network_protocols.Ftp.Commands.{Command}
use network_protocols.Ftp.Handlers.{
  Session, Event, message, data_sent, created, removed, wrote, UsersDb, handle_user, handle_pass,
  handle_type, handle_quit, handle_stor, handle_retr, ask_retr,
}
use network_protocols.Ftp.Files.{
  FileSystem, handle_cwd, handle_dele, handle_mkd, handle_rmd, handle_pwd, handle_nlst,
}
use network_protocols.Ftp.Connections.{Network, open_passive, handle_epsv, handle_pasv}
use network_protocols.Ftp.Execute.{
  Surroundings, Outcome, done, thrown, waits, finish, finish_or_throw, finish_or_wait, stored,
  dispatch,
}

-- The acceptor is open, and no data connection.
pub record IsStuck (s : Session) : Type 0 where
  pub acceptor : s.acceptor_open ≡ true
  pub no_data : s.data_open ≡ false

-- No data was sent, and no file written.
abbrev pub NoTransfer : List Event → Type 0
NoTransfer [] = Unit
NoTransfer (message m ∷ es) = NoTransfer es
NoTransfer (data_sent d ∷ es) = ⊥
NoTransfer (created p ∷ es) = NoTransfer es
NoTransfer (removed p ∷ es) = NoTransfer es
NoTransfer (wrote p b ∷ es) = ⊥

abbrev pub StaysStuck : Outcome → Type 0
StaysStuck (done t es) = IsStuck t × NoTransfer es
StaysStuck thrown = Unit
StaysStuck waits = ⊥

module _ (s : Session) (k : IsStuck s) where
  handle_cwd-StaysStuck :
      (fs : FileSystem) (args : Bytes) → StaysStuck (finish_or_throw (handle_cwd fs args s))
  unfolding handle_cwd
  handle_cwd-StaysStuck fs args = ground arith

  handle_dele-StaysStuck :
      (fs : FileSystem) (args : Bytes) → StaysStuck (finish_or_throw (handle_dele fs args s))
  unfolding handle_dele
  handle_dele-StaysStuck fs args = ground arith

  handle_mkd-StaysStuck :
      (fs : FileSystem) (args : Bytes) → StaysStuck (finish (handle_mkd fs args s))
  unfolding handle_mkd
  handle_mkd-StaysStuck fs args = ground arith

  handle_rmd-StaysStuck :
      (fs : FileSystem) (args : Bytes) → StaysStuck (finish (handle_rmd fs args s))
  unfolding handle_rmd
  handle_rmd-StaysStuck fs args = ground arith

  handle_nlst-StaysStuck :
      (fs : FileSystem) (n : ℕ) (args : Bytes) → StaysStuck (finish (handle_nlst fs n args s))
  unfolding handle_nlst
  handle_nlst-StaysStuck fs n args =
      rw k.no_data (record { acceptor = k.acceptor; no_data = refl }, tt)

  handle_type-StaysStuck : (args : Bytes) → StaysStuck (finish (handle_type args s))
  unfolding handle_type
  handle_type-StaysStuck [] = (k, tt)
  handle_type-StaysStuck (c ∷ []) = ground arith
  handle_type-StaysStuck (c ∷ d ∷ cs) = (k, tt)

  handle_user-StaysStuck :
      (db : UsersDb) (args : Bytes) → StaysStuck (finish (handle_user db args s))
  unfolding handle_user
  handle_user-StaysStuck db args = ground arith

  handle_pass-StaysStuck :
      (db : UsersDb) (args : Bytes) → StaysStuck (finish_or_throw (handle_pass db args s))
  unfolding handle_pass
  handle_pass-StaysStuck db args = ground arith

  handle_epsv-StaysStuck : (net : Network) → StaysStuck (finish_or_wait (handle_epsv net s))
  unfolding handle_epsv open_passive
  handle_epsv-StaysStuck net = ground arith

  handle_pasv-StaysStuck : (net : Network) → StaysStuck (finish_or_wait (handle_pasv net s))
  unfolding handle_pasv open_passive
  handle_pasv-StaysStuck net = ground arith

  ask_retr-StaysStuck :
      (n : ℕ) (pieces : List Bytes) (contents : Option (Option Bytes))
      → StaysStuck (finish_or_throw (ask_retr n pieces contents s))
  unfolding handle_retr
  ask_retr-StaysStuck n pieces none = ground arith
  ask_retr-StaysStuck n pieces (some none) = ground arith
  ask_retr-StaysStuck n pieces (some (some c)) = ground arith

  handle_stor-StaysStuck :
      (path : Bytes) (can_open : Bool) (results : List (Option Bytes))
      → StaysStuck (stored path (handle_stor can_open results s))
  unfolding handle_stor
  handle_stor-StaysStuck path can_open results = ground arith

  pub dispatch-StaysStuck :
      (env : Surroundings) (c : Command) (args : Bytes)
      → c ≢ Command.port
      → c ≢ Command.eprt
      → StaysStuck (dispatch env c args s)
  unfolding dispatch handle_pwd handle_quit
  dispatch-StaysStuck env Command.cwd args np ne = handle_cwd-StaysStuck env.fs args
  dispatch-StaysStuck env Command.dele args np ne = handle_dele-StaysStuck env.fs args
  dispatch-StaysStuck env Command.eprt args np ne = absurd (ne refl)
  dispatch-StaysStuck env Command.epsv args np ne = handle_epsv-StaysStuck env.net
  dispatch-StaysStuck env Command.feat args np ne = (k, tt)
  dispatch-StaysStuck env Command.nlst args np ne = handle_nlst-StaysStuck env.fs env.writes args
  dispatch-StaysStuck env Command.mkd args np ne = handle_mkd-StaysStuck env.fs args
  dispatch-StaysStuck env Command.pass args np ne = handle_pass-StaysStuck env.users args
  dispatch-StaysStuck env Command.pasv args np ne = handle_pasv-StaysStuck env.net
  dispatch-StaysStuck env Command.port args np ne = absurd (np refl)
  dispatch-StaysStuck env Command.pwd args np ne = (k, tt)
  dispatch-StaysStuck env Command.quit args np ne =
      (record { acceptor = k.acceptor; no_data = k.no_data }, tt)
  dispatch-StaysStuck env Command.retr args np ne =
      ask_retr-StaysStuck env.writes env.pieces (env.contents (join s.curr_dir args))
  dispatch-StaysStuck env Command.rmd args np ne = handle_rmd-StaysStuck env.fs args
  dispatch-StaysStuck env Command.syst args np ne = (k, tt)
  dispatch-StaysStuck env Command.stor args np ne =
      handle_stor-StaysStuck (join s.curr_dir args) env.can_open env.reads
  dispatch-StaysStuck env Command.type args np ne = handle_type-StaysStuck args
  dispatch-StaysStuck env Command.user args np ne = handle_user-StaysStuck env.users args
  dispatch-StaysStuck env Command.unknown args np ne = (k, tt)
