-- ===== src/Ftp/Served.antt =====
-- The sessions of `FTPServer` among each other.
use network_protocols.Common.{
  ℕ, suc, ◌+◌, ◌≡◌, refl, sym, ◌∙◌, ap, Bool, true, false, inl, inr, List, [], ◌∷◌, ◌++◌, Option,
  none, some, Bytes, codes, length, length-append, get_elem?, ◌==◌, ==_iff, Bool-cases,
  if◌then◌else◌, arith,
}
use network_protocols.Common.Places.{
  update_at, update_at_here, update_at_elsewhere, get_elem?-before, get_elem?-last,
  length-update_at,
}
use network_protocols.Ftp.Execute.{Surroundings, new_session, Read, Run, worker}
use network_protocols.Ftp.Handlers.{message}
use network_protocols.Ftp.Server.{
  ftp_data_connection_port, Server, new_server, started, accept_connection, on_turn, Happening,
  accepted, refused, stopped, turned, handle, run_server,
}
use network_protocols.Ftp.Threads.{run_turns, run_turns-work}

-- The turns of the thread at a place, and the number of sessions that connections make.
abbrev pub turns_of : ℕ → List Happening → List (Surroundings × Read)
turns_of i [] = []
turns_of i (accepted home ∷ hs) = turns_of i hs
turns_of i (refused ∷ hs) = turns_of i hs
turns_of i (stopped ∷ hs) = turns_of i hs
turns_of i (turned k x ∷ hs) = let rest = turns_of i hs in if i == k then x ∷ rest else rest

abbrev pub connections : List Happening → ℕ
connections [] = 0
connections (accepted none ∷ hs) = connections hs
connections (accepted (some home_dir) ∷ hs) = suc (connections hs)
connections (refused ∷ hs) = connections hs
connections (stopped ∷ hs) = connections hs
connections (turned k x ∷ hs) = connections hs

abbrev pub NoStop : List Happening → Type 0
NoStop [] = Unit
NoStop (accepted home ∷ hs) = NoStop hs
NoStop (refused ∷ hs) = NoStop hs
NoStop (stopped ∷ hs) = ⊥
NoStop (turned k x ∷ hs) = NoStop hs

accept_keeps :
    (b : Bool) (i : ℕ) (home : Option Bytes) (s : Server) (r : Run)
    → get_elem? s.sessions i ≡ some r
    → get_elem? (if b then accept_connection home s else s).sessions i ≡ some r
unfolding accept_connection
accept_keeps true i none s r h = h
accept_keeps true i (some home_dir) s r h =
    get_elem?-before i s.sessions (started home_dir ∷ []) r h
accept_keeps false i home s r h = h

-- What happens does to a session that is there what its own turns do.
find-run_server :
    (i : ℕ) (hs : List Happening) (s : Server) (r : Run)
    → get_elem? s.sessions i ≡ some r
    → get_elem? (run_server hs s).sessions i ≡ some (run_turns (turns_of i hs) r)
unfolding run_server handle run_turns
find-run_server i [] s r h = h
find-run_server i (accepted home ∷ hs) s r h =
    find-run_server i hs (handle (accepted home) s) r (accept_keeps s.acceptor_open i home s r h)
find-run_server i (refused ∷ hs) s r h = find-run_server i hs s r h
find-run_server i (stopped ∷ hs) s r h = find-run_server i hs (handle stopped s) r h
find-run_server i (turned k x ∷ hs) s r h =
    let after = handle (turned k x) s in
    elim (Bool-cases (i == k)) [
      | inl t ↦
          let same = (==_iff i k).0 t in
          let here : get_elem? s.sessions k ≡ some r = ap (get_elem? s.sessions) (sym same) ∙ h in
          rw t (
            find-run_server i hs after (on_turn x r)
              (ap (get_elem? after.sessions) same ∙ update_at_here (on_turn x) k s.sessions r here))
      | inr f ↦
          rw f (find-run_server i hs after r (update_at_elsewhere (on_turn x) i k s.sessions f ∙ h))
    ]

run_server-append :
    (hs ks : List Happening) (s : Server)
    → run_server (hs ++ ks) s ≡ run_server ks (run_server hs s)
unfolding run_server
run_server-append [] ks s = refl
run_server-append (h ∷ hs) ks s = run_server-append hs ks (handle h s)

-- An open acceptor.
abbrev open_server : List Run → Server
open_server rs = record { acceptor_open = true; sessions = rs }

-- Until it is stopped the acceptor stays open, and each connection makes a session.
goes_on :
    (hs : List Happening) (rs : List Run)
    → NoStop hs
    → (ts : List Run) × (run_server hs (open_server rs) ≡ open_server ts)
      × (length ts ≡ length rs + connections hs)
unfolding run_server handle accept_connection
goes_on [] rs n = (rs, refl, omega arith)
goes_on (accepted none ∷ hs) rs n = goes_on hs rs n
goes_on (accepted (some home_dir) ∷ hs) rs n =
    let (ts, e, c) = goes_on hs (rs ++ started home_dir ∷ []) n in
    (ts, e, omega (arith, c, length-append rs (started home_dir ∷ [])))
goes_on (refused ∷ hs) rs n = goes_on hs rs n
goes_on (stopped ∷ hs) rs n = absurd n
goes_on (turned k x ∷ hs) rs n =
    let (ts, e, c) = goes_on hs (update_at (on_turn x) k rs) n in
    (ts, e, omega (arith, c, length-update_at (on_turn x) k rs))

at_place : ℕ → Server → Option Run
at_place i s = get_elem? s.sessions i

-- Connections, turns of any threads, errors and a stop, in any order: behind all of them the
-- session of a connection that came before any stop has done what `worker` does on the turns of its
-- own thread, in the directory that `HOME` was and with the data port 10020. No other thread has
-- touched it.
pub run_server-worker :
    (hs ks : List Happening) (home_dir : Bytes)
    → NoStop hs
    → get_elem?
        (run_server (hs ++ accepted (some home_dir) ∷ ks) new_server).sessions
        (connections hs)
      ≡ some (worker (turns_of (connections hs) ks) (new_session ftp_data_connection_port home_dir))
unfolding run_server handle accept_connection worker at_place
run_server-worker hs ks home_dir n =
    let (ts, e, c) = goes_on hs [] n in
    let i = connections hs in
    let place : length ts ≡ i = omega (arith, c) in
    let whole : List Run = ts ++ started home_dir ∷ [] in
    let last : get_elem? whole i ≡ some (started home_dir) =
      ap (get_elem? whole) (sym place) ∙ get_elem?-last ts (started home_dir) in
    ap (at_place i) (
      run_server-append hs (accepted (some home_dir) ∷ ks) new_server
      ∙ ap (run_server (accepted (some home_dir) ∷ ks)) e)
    ∙ find-run_server i ks (open_server whole) (started home_dir) last
    ∙ ap some (
        run_turns-work (turns_of i ks) (new_session ftp_data_connection_port home_dir)
          (message (codes "220 myhost.mydomain FTP-server (version 1.0) ready") ∷ []))
