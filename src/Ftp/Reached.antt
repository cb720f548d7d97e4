-- ===== src/Ftp/Reached.antt =====
-- What a command of the FTP server leaves: a known user name, and a directory that is there; and
-- which commands end by an exception.
use mathlib.Core.Path.{subst}
use network_protocols.Common.{
  ◌≡◌, ◌≢◌, refl, sym, ap, Bool, true, false, ◌⊎◌, inl, inr, List, [], ◌>>=◌, Option, none, some,
  Bytes, is_empty, Bool-cases,
}
use network_protocols.Ftp.Commands.{Command, parse_command}
use network_protocols.Ftp.Handlers.{
  Session, Event, UsersDb, password_of, username_is_known, ask_password, handle_user,
  check_password, handle_pass, handle_quit, Transfer, handle_stor, ask_retr,
}
use network_protocols.Ftp.Paths.{join}
use network_protocols.Ftp.Files.{
  cwd_target, both_hold, change_directory, handle_cwd, handle_dele, handle_pwd,
}
use network_protocols.Ftp.Connections.{handle_port, handle_epsv, handle_pasv}
use network_protocols.Ftp.Execute.{
  Surroundings, Outcome, done, thrown, waits, finish_or_throw, finish_or_wait, dispatch,
  execute_command, stored, port_arguments,
}
use network_protocols.Ftp.Keeps.{
  Same, Leaves, handle_dele-Leaves, handle_mkd-Leaves, handle_rmd-Leaves, handle_type-Leaves,
  handle_nlst-Leaves, ask_retr-Leaves, handle_epsv-Leaves, handle_pasv-Leaves, handle_port-Leaves,
  handle_stor-Leaves,
}

-- The user name is that of a user, if one was given.
abbrev pub KnownUser : UsersDb → Bytes → Type 0
KnownUser db u = (u ≡ []) ⊎ (username_is_known db u ≡ true)

-- A command ends with a known user name, in the same directory or in one that is there.
pub record Goes (env : Surroundings) (s t : Session) : Type 0 where
  pub known : KnownUser env.users t.username
  pub directory :
      (t.curr_dir ≡ s.curr_dir)
      ⊎ ((env.fs.exists t.curr_dir ≡ some true) × (env.fs.is_directory t.curr_dir ≡ some true))

-- The commands that may be left by an exception, and those that may wait for ever.
abbrev pub MayThrow : Command → Type 0
MayThrow c =
    (c ≡ Command.port)
    ⊎ ((c ≡ Command.eprt) ⊎ ((c ≡ Command.cwd) ⊎ ((c ≡ Command.dele) ⊎ (c ≡ Command.retr))))

abbrev pub MayWait : Command → Type 0
MayWait c = (c ≡ Command.stor) ⊎ ((c ≡ Command.pasv) ⊎ (c ≡ Command.epsv))

-- What may come of a command.
abbrev pub Ends : Surroundings → Command → Session → Outcome → Type 0
Ends env c s (done t es) = Goes env s t
Ends env c s thrown = MayThrow c
Ends env c s waits = MayWait c

goes :
    (env : Surroundings) (s t : Session) → KnownUser env.users s.username → Same s t → Goes env s t
goes env s t k h = record { known = subst (KnownUser env.users) (sym h.0) k; directory = inl h.1 }

throws-Ends :
    (env : Surroundings) (c : Command) (s : Session) (o : Option (Session × List Event))
    → KnownUser env.users s.username
    → Leaves s (finish_or_throw o)
    → MayThrow c
    → Ends env c s (finish_or_throw o)
throws-Ends env c s none k l p = p
throws-Ends env c s (some r) k l p = goes env s r.0 k l

waits-Ends :
    (env : Surroundings) (c : Command) (s : Session) (o : Option (Session × List Event))
    → KnownUser env.users s.username
    → Leaves s (finish_or_wait o)
    → MayWait c
    → Ends env c s (finish_or_wait o)
waits-Ends env c s none k l p = p
waits-Ends env c s (some r) k l p = goes env s r.0 k l

both_hold-some : (a b : Option Bool) → both_hold a b ≡ some true → (a ≡ some true) × (b ≡ some true)
both_hold-some none b h = absurd (cc (h))
both_hold-some (some false) b h = absurd (cc (h))
both_hold-some (some true) b h = (refl, h)

handle_cwd-Ends :
    (env : Surroundings) (args : Bytes) (s : Session)
    → KnownUser env.users s.username
    → Ends env Command.cwd s (finish_or_throw (handle_cwd env.fs args s))
unfolding handle_cwd
handle_cwd-Ends env args s k =
    let dir = cwd_target args s.curr_dir in
    go (both_hold (env.fs.exists dir) (env.fs.is_directory dir)) refl
  where
    go :
        (o : Option Bool)
        → both_hold
            (env.fs.exists (cwd_target args s.curr_dir))
            (env.fs.is_directory (cwd_target args s.curr_dir))
          ≡ o
        → Ends env Command.cwd s (
            finish_or_throw
              (o >>= λ there. some (change_directory (cwd_target args s.curr_dir) there s)))
    go none e = inr (inr (inl refl))
    go (some true) e = record { known = k; directory = inr (both_hold-some _ _ e) }
    go (some false) e = record { known = k; directory = inl refl }

ask_password-Goes :
    (env : Surroundings) (args : Bytes) (s : Session) (b : Bool)
    → KnownUser env.users s.username
    → username_is_known env.users args ≡ b
    → Goes env s (ask_password b args s).0
ask_password-Goes env args s true k e = record { known = inr e; directory = inl refl }
ask_password-Goes env args s false k e = record { known = k; directory = inl refl }

handle_user-Goes :
    (env : Surroundings) (args : Bytes) (s : Session)
    → KnownUser env.users s.username
    → Goes env s (handle_user env.users args s).0
unfolding handle_user
handle_user-Goes env args s k = ask_password-Goes env args s _ k refl

check_password-Ends :
    (env : Surroundings) (args : Bytes) (s : Session) (o : Option Bytes)
    → KnownUser env.users s.username
    → o ≢ none
    → Ends env Command.pass s (finish_or_throw (check_password o args s))
check_password-Ends env args s none k n = absurd (n refl)
check_password-Ends env args s (some p) k n = goes env s s k (refl, refl)

has_password :
    (db : UsersDb) (u : Bytes) → KnownUser db u → is_empty u ≡ false → password_of db u ≢ none
has_password db u (inl e) n o = cc (ap is_empty e)
has_password db u (inr e) n o = cc (rw (o, username_is_known) at e)

handle_pass-Ends :
    (env : Surroundings) (args : Bytes) (s : Session)
    → KnownUser env.users s.username
    → Ends env Command.pass s (finish_or_throw (handle_pass env.users args s))
unfolding handle_pass
handle_pass-Ends env args s k = elim (Bool-cases (is_empty s.username)) [
  | inl e ↦ rw e (goes env s s k (refl, refl))
  | inr e ↦ rw e (
      check_password-Ends env args s (password_of env.users s.username) k
        (has_password env.users s.username k e))
]

stor-Ends :
    (env : Surroundings) (s : Session) (o : Outcome)
    → KnownUser env.users s.username
    → Leaves s o
    → o ≢ thrown
    → Ends env Command.stor s o
stor-Ends env s (done t es) k l n = goes env s t k l
stor-Ends env s thrown k l n = absurd (n refl)
stor-Ends env s waits k l n = inl refl

stored_ends : (path : Bytes) (o : Option Transfer) → stored path o ≢ thrown
stored_ends path none e = cc
stored_ends path (some t) e = cc

dispatch-Ends :
    (env : Surroundings) (c : Command) (args : Bytes) (s : Session)
    → KnownUser env.users s.username
    → Ends env c s (dispatch env c args s)
unfolding dispatch handle_pwd handle_quit
dispatch-Ends env Command.cwd args s k = handle_cwd-Ends env args s k
dispatch-Ends env Command.dele args s k =
    throws-Ends env Command.dele s (handle_dele env.fs args s) k (handle_dele-Leaves env.fs args s)
      (inr (inr (inr (inl refl))))
dispatch-Ends env Command.eprt args s k =
    throws-Ends env Command.eprt s (handle_port env.net args s) k
      (handle_port-Leaves env.net args s) (inr (inl refl))
dispatch-Ends env Command.epsv args s k =
    waits-Ends env Command.epsv s (handle_epsv env.net s) k (handle_epsv-Leaves env.net s)
      (inr (inr refl))
dispatch-Ends env Command.feat args s k = goes env s s k (refl, refl)
dispatch-Ends env Command.nlst args s k =
    goes env s _ k (handle_nlst-Leaves env.fs env.writes args s)
dispatch-Ends env Command.mkd args s k = goes env s _ k (handle_mkd-Leaves env.fs args s)
dispatch-Ends env Command.pass args s k = handle_pass-Ends env args s k
dispatch-Ends env Command.pasv args s k =
    waits-Ends env Command.pasv s (handle_pasv env.net s) k (handle_pasv-Leaves env.net s)
      (inr (inl refl))
dispatch-Ends env Command.port args s k =
    throws-Ends env Command.port s (handle_port env.net (port_arguments args) s) k
      (handle_port-Leaves env.net (port_arguments args) s) (inl refl)
dispatch-Ends env Command.pwd args s k = goes env s s k (refl, refl)
dispatch-Ends env Command.quit args s k = goes env s _ k (refl, refl)
dispatch-Ends env Command.retr args s k =
    let file = env.contents (join s.curr_dir args) in
    throws-Ends env Command.retr s (ask_retr env.writes env.pieces file s) k
      (ask_retr-Leaves env.writes env.pieces file s) (inr (inr (inr (inr refl))))
dispatch-Ends env Command.rmd args s k = goes env s _ k (handle_rmd-Leaves env.fs args s)
dispatch-Ends env Command.syst args s k = goes env s s k (refl, refl)
dispatch-Ends env Command.stor args s k =
    stor-Ends env s _ k (handle_stor-Leaves (join s.curr_dir args) env.can_open env.reads s)
      (stored_ends (join s.curr_dir args) (handle_stor env.can_open env.reads s))
dispatch-Ends env Command.type args s k = goes env s _ k (handle_type-Leaves args s)
dispatch-Ends env Command.user args s k = handle_user-Goes env args s k
dispatch-Ends env Command.unknown args s k = goes env s s k (refl, refl)

pub execute_command-Ends :
    (env : Surroundings) (line : Bytes) (s : Session)
    → KnownUser env.users s.username
    → Ends env (parse_command line).0 s (execute_command env line s)
unfolding execute_command
execute_command-Ends env line s k =
    dispatch-Ends env (parse_command line).0 (parse_command line).1 s k
