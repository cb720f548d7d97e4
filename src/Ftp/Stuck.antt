-- ===== src/Ftp/Stuck.antt =====
-- A run of the FTP server behind a passive connection that failed.
use network_protocols.Common.{
  ◌≡◌, ◌≢◌, refl, Bool, true, false, ◌&&◌, inl, inr, Option, none, some, List, [], ◌∷◌, ◌++◌,
  if◌then◌else◌, ◌>>=◌, Bytes, Bool-cases, arith,
}
use network_protocols.Ftp.Commands.{Command, parse_command}
use network_protocols.Ftp.Handlers.{Session, Event, message, data_sent, created, removed, wrote}
use network_protocols.Ftp.Files.{is_yes}
use network_protocols.Ftp.Connections.{Network, open_passive, handle_pasv}
use network_protocols.Ftp.Execute.{
  Surroundings, Outcome, done, thrown, waits, finish_or_wait, execute_command, Read, got,
  end_of_file, failed, first_line, closed, reading, Run, ends_as, after_outcome, after_read, work,
}
use network_protocols.Ftp.Acceptor.{IsStuck, NoTransfer, StaysStuck, dispatch-StaysStuck}

-- A step of the passive connection fails behind the opening of the acceptor.
pub record Fails (net : Network) : Type 0 where
  pub opens : net.opens ≡ true
  pub fails : (net.sets_option && net.binds && net.listens && is_yes net.accepts) ≡ false

-- No line among the reads is of PORT or EPRT.
abbrev pub NoPort : List (Surroundings × Read) → Type 0
NoPort [] = Unit
NoPort ((env, got bytes) ∷ rs) =
    ((parse_command (first_line bytes)).0 ≢ Command.port)
    × ((parse_command (first_line bytes)).0 ≢ Command.eprt)
    × NoPort rs
NoPort ((env, end_of_file) ∷ rs) = NoPort rs
NoPort ((env, failed) ∷ rs) = NoPort rs

NoTransfer-append : (es fs : List Event) → NoTransfer es → NoTransfer fs → NoTransfer (es ++ fs)
NoTransfer-append [] fs h k = k
NoTransfer-append (message m ∷ es) fs h k = NoTransfer-append es fs h k
NoTransfer-append (data_sent d ∷ es) fs h k = absurd h
NoTransfer-append (created p ∷ es) fs h k = NoTransfer-append es fs h k
NoTransfer-append (removed p ∷ es) fs h k = NoTransfer-append es fs h k
NoTransfer-append (wrote p b ∷ es) fs h k = absurd h

after_outcome-NoTransfer :
    (next : Session → Run) (s : Session) (o : Outcome)
    → StaysStuck o
    → ((t : Session) → IsStuck t → NoTransfer (next t).events)
    → NoTransfer (after_outcome next s o).events
after_outcome-NoTransfer next s (done t es) h go = NoTransfer-append es _ h.1 (go t h.0)
after_outcome-NoTransfer next s thrown h go = tt
after_outcome-NoTransfer next s waits h go = tt

by_test :
    (b : Bool) (s : Session) (r : Run)
    → NoTransfer r.events
    → NoTransfer (if b then ends_as closed s else r).events
by_test true s r h = tt
by_test false s r h = h

work-NoTransfer :
    (rs : List (Surroundings × Read)) (s : Session)
    → NoPort rs
    → IsStuck s
    → NoTransfer (work rs s).events
unfolding work execute_command
work-NoTransfer [] s n k = by_test s.quit_cmd_loop s (ends_as reading s) tt
work-NoTransfer ((env, got bytes) ∷ rs) s n k =
    by_test s.quit_cmd_loop s (after_read (work rs) env s (got bytes)) (
      after_outcome-NoTransfer (work rs) s (execute_command env (first_line bytes) s)
        (dispatch-StaysStuck s k env _ _ n.0 n.1) (λ t u. work-NoTransfer rs t n.2 u))
work-NoTransfer ((env, end_of_file) ∷ rs) s n k = by_test s.quit_cmd_loop s (ends_as closed s) tt
work-NoTransfer ((env, failed) ∷ rs) s n k =
    by_test s.quit_cmd_loop s (work rs s) (work-NoTransfer rs s n k)

-- Behind such a PASV the session is stuck, or waits for ever.
abbrev LeavesStuck : Outcome → Type 0
LeavesStuck (done t es) = IsStuck t × NoTransfer es
LeavesStuck thrown = ⊥
LeavesStuck waits = Unit

accepted_stuck :
    (a : Option Bool) (s : Session) (m : Bytes)
    → is_yes a ≡ false
    → LeavesStuck (
        finish_or_wait (
          (a >>= λ b. some (record s { acceptor_open = true; data_open = b })) >>= λ t.
          some (t, message m ∷ [])))
accepted_stuck none s m e = tt
accepted_stuck (some true) s m e = absurd (cc (e))
accepted_stuck (some false) s m e = (record { acceptor = refl; no_data = refl }, tt)

handle_pasv-LeavesStuck :
    (net : Network) (s : Session)
    → s.data_open ≡ false
    → s.acceptor_open ≡ false
    → Fails net
    → LeavesStuck (finish_or_wait (handle_pasv net s))
unfolding handle_pasv open_passive
handle_pasv-LeavesStuck net s d a f =
    elim (Bool-cases (net.sets_option && net.binds && net.listens)) [
      | inl e ↦ rw (d, a, f.opens, e) (accepted_stuck net.accepts s _ (ground (arith, f.fails, e)))
      | inr e ↦ rw (d, a, f.opens, e) (record { acceptor = refl; no_data = refl }, tt)
    ]

run-LeavesStuck :
    (rs : List (Surroundings × Read)) (s : Session) (o : Outcome)
    → NoPort rs
    → LeavesStuck o
    → NoTransfer (after_outcome (work rs) s o).events
run-LeavesStuck rs s (done t es) n h = NoTransfer-append es _ h.1 (work-NoTransfer rs t n h.0)
run-LeavesStuck rs s thrown n h = absurd h
run-LeavesStuck rs s waits n h = tt

-- Once PASV has opened its acceptor and a later step has failed, for whatever reason, no later
-- command sends data or writes a file, PASV and EPSV among them, however long the session goes on,
-- as long as no PORT or EPRT comes; nor does the session if that PASV waits for a connection for
-- ever.
pub work_behind_pasv :
    (net : Network) (rs : List (Surroundings × Read)) (s : Session)
    → s.data_open ≡ false
    → s.acceptor_open ≡ false
    → Fails net
    → NoPort rs
    → NoTransfer (after_outcome (work rs) s (finish_or_wait (handle_pasv net s))).events
work_behind_pasv net rs s d a f n =
    run-LeavesStuck rs s (finish_or_wait (handle_pasv net s)) n
      (handle_pasv-LeavesStuck net s d a f)
