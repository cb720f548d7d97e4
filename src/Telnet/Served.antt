-- ===== src/Telnet/Served.antt =====
-- The sessions of `TelnetServer`, each by itself and among each other.
use mathlib.Core.Path.{subst}
use network_protocols.Common.{
  ℕ, suc, ◌+◌, ◌≡◌, refl, sym, ◌∙◌, ap, Bool, true, false, inl, inr, List, [], ◌∷◌, ◌++◌, Option,
  none, some, Bytes, length, length-append, get_elem?, ◌==◌, ==_iff, Bool-cases, if◌then◌else◌,
  arith,
}
use network_protocols.Telnet.Reached.{IsSession, start-IsSession, receive-IsSession}
use network_protocols.Telnet.Server.{
  Entry, Server, new_server, Writes, started, on_received, on_read, Happening, accepted, refused,
  signal, read, accept_connection, shutdown, handle, run_server,
}
use network_protocols.Common.Places.{
  update_at_here, update_at_elsewhere, get_elem?-before, get_elem?-last, length-update_at,
}

-- The reads of the session at a place, up to a signal.
abbrev pub reads_of : ℕ → List Happening → List (Option Bytes)
reads_of i [] = []
reads_of i (accepted w ∷ hs) = reads_of i hs
reads_of i (refused ∷ hs) = reads_of i hs
reads_of i (signal ∷ hs) = []
reads_of i (read k bytes ∷ hs) = let rest = reads_of i hs in if i == k then bytes ∷ rest else rest

abbrev pub connections : List Happening → ℕ
connections [] = 0
connections (accepted w ∷ hs) = suc (connections hs)
connections (refused ∷ hs) = connections hs
connections (signal ∷ hs) = 0
connections (read k bytes ∷ hs) = connections hs

abbrev pub NoSignal : List Happening → Type 0
NoSignal [] = Unit
NoSignal (accepted w ∷ hs) = NoSignal hs
NoSignal (refused ∷ hs) = NoSignal hs
NoSignal (signal ∷ hs) = ⊥
NoSignal (read k bytes ∷ hs) = NoSignal hs

-- A session alone.
unfoldable pub run_entry : List (Option Bytes) → Entry → Entry
run_entry [] e = e
run_entry (bytes ∷ rs) e = run_entry rs (on_read bytes e)

-- One turn of a loop that runs.
if_running : (b : Bool) (x y : Server) → b ≡ true → (if b then x else y) ≡ x
if_running true x y h = refl
if_running false x y h = cc

if_stopped : (b : Bool) (x y : Server) → b ≡ false → (if b then x else y) ≡ y
if_stopped true x y h = cc
if_stopped false x y h = refl

run_server-next :
    (h : Happening) (hs : List Happening) (s : Server)
    → s.running ≡ true
    → run_server (h ∷ hs) s ≡ run_server hs (handle h s)
unfolding run_server
run_server-next h hs s r = if_running s.running (run_server hs (handle h s)) s r

at_place : ℕ → Server → Option Entry
at_place i s = get_elem? s.sessions i

-- What happens does to a session that is there what its own reads do.
find-run_server :
    (i : ℕ) (hs : List Happening) (s : Server) (e : Entry)
    → s.running ≡ true
    → get_elem? s.sessions i ≡ some e
    → get_elem? (run_server hs s).sessions i ≡ some (run_entry (reads_of i hs) e)
unfolding run_server handle accept_connection run_entry at_place
find-run_server i [] s e r h = h
find-run_server i (accepted w ∷ hs) s e r h =
    ap (at_place i) (run_server-next (accepted w) hs s r)
    ∙ find-run_server i hs (accept_connection w s) e r
        (get_elem?-before i s.sessions (started s.notifies w ∷ []) e h)
find-run_server i (refused ∷ hs) s e r h =
    ap (at_place i) (run_server-next refused hs s r) ∙ find-run_server i hs s e r h
find-run_server i (signal ∷ hs) s e r h =
    ap (at_place i) (run_server-next signal hs s r) ∙ stopped hs (shutdown s) refl h
  where
    stopped :
        (hs : List Happening) (t : Server)
        → t.running ≡ false
        → get_elem? t.sessions i ≡ some e
        → get_elem? (run_server hs t).sessions i ≡ some e
    stopped [] t f g = g
    stopped (x ∷ hs) t f g =
        ap (at_place i) (if_stopped t.running (run_server hs (handle x t)) t f) ∙ g
find-run_server i (read k bytes ∷ hs) s e r h =
    let after = handle (read k bytes) s in
    ap (at_place i) (run_server-next (read k bytes) hs s r) ∙ elim (Bool-cases (i == k)) [
      | inl t ↦
          let here : get_elem? s.sessions k ≡ some e =
            ap (get_elem? s.sessions) (sym ((==_iff i k).0 t)) ∙ h in
          let there : get_elem? after.sessions i ≡ some (on_read bytes e) =
            ap (get_elem? after.sessions) ((==_iff i k).0 t)
            ∙ update_at_here (on_read bytes) k s.sessions e here in
          rw t (find-run_server i hs after (on_read bytes e) r there)
      | inr f ↦ rw f (
          find-run_server i hs after e r (update_at_elsewhere (on_read bytes) i k s.sessions f ∙ h))
    ]

-- Without a signal the server goes on, and every connection is one session more.
pub record Goes (hs : List Happening) (s t : Server) : Type 0 where
  pub goes_on : t.running ≡ true
  pub callback_kept : t.notifies ≡ s.notifies
  pub count : length t.sessions ≡ length s.sessions + connections hs

run_server-Goes :
    (hs : List Happening) (s : Server)
    → NoSignal hs
    → s.running ≡ true
    → Goes hs s (run_server hs s)
unfolding run_server handle accept_connection
run_server-Goes [] s n r = record { goes_on = r; callback_kept = refl; count = omega arith }
run_server-Goes (accepted w ∷ hs) s n r =
    let k = run_server-Goes hs (accept_connection w s) n r in
    subst (Goes (accepted w ∷ hs) s) (sym (run_server-next (accepted w) hs s r)) (record {
      goes_on = k.goes_on;
      callback_kept = k.callback_kept;
      count = omega (arith, k.count, length-append s.sessions (started s.notifies w ∷ []));
    })
run_server-Goes (refused ∷ hs) s n r =
    let k = run_server-Goes hs s n r in
    subst (Goes (refused ∷ hs) s) (sym (run_server-next refused hs s r))
      (record { goes_on = k.goes_on; callback_kept = k.callback_kept; count = k.count })
run_server-Goes (signal ∷ hs) s n r = absurd n
run_server-Goes (read i bytes ∷ hs) s n r =
    let k = run_server-Goes hs (handle (read i bytes) s) n r in
    subst (Goes (read i bytes ∷ hs) s) (sym (run_server-next (read i bytes) hs s r)) (record {
      goes_on = k.goes_on;
      callback_kept = k.callback_kept;
      count = omega (arith, k.count, length-update_at (on_read bytes) i s.sessions);
    })

run_server-append :
    (hs ks : List Happening) (s : Server)
    → NoSignal hs
    → s.running ≡ true
    → run_server (hs ++ ks) s ≡ run_server ks (run_server hs s)
unfolding run_server handle accept_connection
run_server-append [] ks s n r = refl
run_server-append (accepted w ∷ hs) ks s n r =
    run_server-next (accepted w) (hs ++ ks) s r
    ∙ run_server-append hs ks (accept_connection w s) n r
    ∙ ap (run_server ks) (sym (run_server-next (accepted w) hs s r))
run_server-append (refused ∷ hs) ks s n r =
    run_server-next refused (hs ++ ks) s r
    ∙ run_server-append hs ks s n r
    ∙ ap (run_server ks) (sym (run_server-next refused hs s r))
run_server-append (signal ∷ hs) ks s n r = absurd n
run_server-append (read i bytes ∷ hs) ks s n r =
    run_server-next (read i bytes) (hs ++ ks) s r
    ∙ run_server-append hs ks (handle (read i bytes) s) n r
    ∙ ap (run_server ks) (sym (run_server-next (read i bytes) hs s r))

on_read-IsSession :
    (b : Bool) (bytes : Option Bytes) (e : Entry)
    → IsSession e.session
    → IsSession (if b then on_received bytes e else e).session
unfolding on_received
on_read-IsSession true none e h = h
on_read-IsSession true (some bytes) e h = receive-IsSession bytes e.session h
on_read-IsSession false bytes e h = h

run_entry-IsSession :
    (rs : List (Option Bytes)) (e : Entry)
    → IsSession e.session
    → IsSession (run_entry rs e).session
unfolding run_entry
run_entry-IsSession [] e h = h
run_entry-IsSession (bytes ∷ rs) e h =
    run_entry-IsSession rs (on_read bytes e) (on_read-IsSession e.receives bytes e h)

-- Connections, reads of any session, and errors of both, in any order: behind all of them the
-- session of a connection that came before any signal stands at its place, and is, with what it
-- sent, what its own reads make of a new session, up to the first signal. No other connection has
-- touched it; and it is well formed, as `IsSession` says.
pub run_server_alone :
    (notifies : Bool) (hs ks : List Happening) (w : Writes)
    → NoSignal hs
    → (get_elem?
          (run_server (hs ++ accepted w ∷ ks) (new_server notifies)).sessions
          (connections hs)
        ≡ some (run_entry (reads_of (connections hs) ks) (started notifies w)))
      × IsSession (run_entry (reads_of (connections hs) ks) (started notifies w)).session
unfolding handle accept_connection at_place
run_server_alone notifies hs ks w n =
    let before = run_server hs (new_server notifies) in
    let k = run_server-Goes hs (new_server notifies) n refl in
    let entry = started notifies w in
    let place : length before.sessions ≡ connections hs = omega (arith, k.count) in
    let last : get_elem? (before.sessions ++ started before.notifies w ∷ []) (connections hs)
        ≡ some entry =
      ap (get_elem? (before.sessions ++ started before.notifies w ∷ [])) (sym place)
      ∙ get_elem?-last before.sessions (started before.notifies w)
      ∙ ap (λ b. some (started b w)) k.callback_kept in
    (
      ap (at_place (connections hs)) (
            run_server-append hs (accepted w ∷ ks) (new_server notifies) n refl
            ∙ run_server-next (accepted w) ks before k.goes_on)
          ∙ find-run_server (connections hs) ks (accept_connection w before) entry k.goes_on last,
      run_entry-IsSession (reads_of (connections hs) ks) entry (start-IsSession notifies),
    )
