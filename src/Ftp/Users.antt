-- ===== src/Ftp/Users.antt =====
-- The user name of an FTP session, over a whole run of `worker`.
use mathlib.Core.Path.{subst}
use network_protocols.Common.{
  ℕ, ◌≡◌, refl, sym, Bool, true, false, inl, List, [], ◌∷◌, Bytes, if◌then◌else◌,
}
use network_protocols.Ftp.Commands.{Command}
use network_protocols.Ftp.Handlers.{Session, UsersDb}
use network_protocols.Ftp.Execute.{
  Surroundings, Outcome, done, thrown, waits, Read, got, end_of_file, failed, first_line, closed,
  reading, Run, ends_as, after_outcome, after_read, work, worker, new_session,
}
use network_protocols.Ftp.Reached.{KnownUser, Ends, execute_command-Ends}

abbrev pub ServesUsers : UsersDb → List (Surroundings × Read) → Type 0
ServesUsers db [] = Unit
ServesUsers db ((env, r) ∷ rs) = (env.users ≡ db) × ServesUsers db rs

after_outcome-KnownUser :
    (env : Surroundings) (db : UsersDb) (next : Session → Run) (c : Command) (s : Session)
    (o : Outcome)
    → env.users ≡ db
    → KnownUser db s.username
    → Ends env c s o
    → ((t : Session) → KnownUser db t.username → KnownUser db (next t).session.username)
    → KnownUser db (after_outcome next s o).session.username
after_outcome-KnownUser env db next c s (done t es) d k e go =
    go t (subst (λ x. KnownUser x t.username) d e.known)
after_outcome-KnownUser env db next c s thrown d k e go = k
after_outcome-KnownUser env db next c s waits d k e go = k

after_read-KnownUser :
    (env : Surroundings) (db : UsersDb) (next : Session → Run) (s : Session) (r : Read)
    → env.users ≡ db
    → KnownUser db s.username
    → ((t : Session) → KnownUser db t.username → KnownUser db (next t).session.username)
    → KnownUser db (after_read next env s r).session.username
after_read-KnownUser env db next s (got bytes) d k go =
    let here = subst (λ x. KnownUser x s.username) (sym d) k in
    after_outcome-KnownUser env db next _ s _ d k
      (execute_command-Ends env (first_line bytes) s here) go
after_read-KnownUser env db next s end_of_file d k go = k
after_read-KnownUser env db next s failed d k go = go s k

by_test :
    (db : UsersDb) (b : Bool) (q r : Run)
    → KnownUser db q.session.username
    → KnownUser db r.session.username
    → KnownUser db (if b then q else r).session.username
by_test db true q r hq hr = hq
by_test db false q r hq hr = hr

work-KnownUser :
    (db : UsersDb) (rs : List (Surroundings × Read)) (s : Session)
    → ServesUsers db rs
    → KnownUser db s.username
    → KnownUser db (work rs s).session.username
unfolding work
work-KnownUser db [] s h k = by_test db s.quit_cmd_loop (ends_as closed s) (ends_as reading s) k k
work-KnownUser db ((env, r) ∷ rs) s h k =
    by_test db s.quit_cmd_loop (ends_as closed s) (after_read (work rs) env s r) k
      (after_read-KnownUser env db (work rs) s r h.0 k (λ t u. work-KnownUser db rs t h.1 u))

-- Whatever a new session is sent, in however many pieces, its user name is empty or that of a user:
-- PASS finds the password that it compares with.
pub worker-KnownUser :
    (db : UsersDb) (rs : List (Surroundings × Read)) (data_port : ℕ) (root_dir : Bytes)
    → ServesUsers db rs
    → KnownUser db (worker rs (new_session data_port root_dir)).session.username
unfolding worker
worker-KnownUser db rs data_port root_dir h =
    work-KnownUser db rs (new_session data_port root_dir) h (inl refl)
