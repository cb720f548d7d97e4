-- ===== src/Smtp/Interleaved.antt =====
-- The sessions of `SMTPServer` among each other.
use network_protocols.Common.{
  ℕ, suc, Bool, ◌+◌, ◌%◌, ◌<◌, ◌≤◌, ◌≡◌, refl, sym, ◌∙◌, ap, true, false, inl, inr, List, [], ◌∷◌,
  ◌++◌, Option, some, Bytes, ◌==◌, ==_iff, if◌then◌else◌, Bool-cases, arith,
}
use network_protocols.Smtp.Session.{Recipient, Disk}
use network_protocols.Smtp.Server.{
  Entry, Table, Server, new_server, update, started, accept_connection, on_read, read_entry,
  Happening, accepted, refused, read, serve, run_server,
}

-- The reads of a session, and the number of connections.
abbrev pub reads_of : ℕ → List Happening → List (Disk × Option Bytes)
reads_of id [] = []
reads_of id (accepted sends buffer recipients ∷ hs) = reads_of id hs
reads_of id (refused ∷ hs) = reads_of id hs
reads_of id (read k disk bytes ∷ hs) =
    let rest = reads_of id hs in if id == k then (disk, bytes) ∷ rest else rest

abbrev pub connections : List Happening → ℕ
connections [] = 0
connections (accepted sends buffer recipients ∷ hs) = suc (connections hs)
connections (refused ∷ hs) = connections hs
connections (read k disk bytes ∷ hs) = connections hs

-- A session alone.
unfoldable pub run_entry : List (Disk × Option Bytes) → Entry → Entry
run_entry [] e = e
run_entry ((disk, bytes) ∷ rs) e = run_entry rs (on_read disk bytes e)

==_refl : (n : ℕ) → (n == n) ≡ true
==_refl n = ground arith

update_here : (t : Table) (id : ℕ) (v : Option Entry) → update t id v id ≡ v
update_here t id v = rw (==_refl id)

update_elsewhere :
    (t : Table) (id k : ℕ) (v : Option Entry) → (k == id) ≡ false → update t id v k ≡ t k
update_elsewhere t id k v e = rw e

-- What happens does to an entry that is there, as long as the identifiers do not wrap round.
module _ (id : ℕ) where
  find-run_server :
      (hs : List Happening) (s : Server) (e : Entry)
      → s.sessions id ≡ some e
      → id ≤ s.next_session_id
      → s.next_session_id + connections hs < 4294967296
      → (run_server hs s).sessions id ≡ some (run_entry (reads_of id hs) e)
  unfolding run_server serve run_entry accept_connection
  find-run_server [] s e h l b = h
  find-run_server (accepted sends buffer recipients ∷ hs) s e h l b =
      let k = (s.next_session_id + 1) % 4294967296 in
      let same : k ≡ s.next_session_id + 1 = omega arith in
      let other : (id == k) ≡ false = ground (arith, same, l) in
      find-run_server hs (accept_connection sends buffer recipients s) e
        (update_elsewhere s.sessions k id (some (started sends buffer recipients)) other ∙ h)
        (omega (arith, same)) (omega (arith, same))
  find-run_server (refused ∷ hs) s e h l b = find-run_server hs s e h l b
  find-run_server (read k disk bytes ∷ hs) s e h l b =
      let after = serve (read k disk bytes) s in
      elim (Bool-cases (id == k)) [
        | inl t ↦
            let here : s.sessions k ≡ some e = ap s.sessions (sym ((==_iff id k).0 t)) ∙ h in
            rw t (
              find-run_server hs after (on_read disk bytes e)
                (rw t (ap (read_entry disk bytes) here)) l b)
        | inr f ↦ rw f (find-run_server hs after e (rw f h) l b)
      ]

run_server-append :
    (hs ks : List Happening) (s : Server)
    → run_server (hs ++ ks) s ≡ run_server ks (run_server hs s)
unfolding run_server
run_server-append [] ks s = refl
run_server-append (h ∷ hs) ks s = run_server-append hs ks (serve h s)

next_session_id-run_server :
    (hs : List Happening) (s : Server)
    → s.next_session_id + connections hs < 4294967296
    → (run_server hs s).next_session_id ≡ s.next_session_id + connections hs
unfolding run_server serve accept_connection
next_session_id-run_server [] s b = omega arith
next_session_id-run_server (accepted sends buffer recipients ∷ hs) s b =
    let k = (s.next_session_id + 1) % 4294967296 in
    let same : k ≡ s.next_session_id + 1 = omega arith in
    omega (
      arith,
      same,
      next_session_id-run_server hs (accept_connection sends buffer recipients s)
          (omega (arith, same)),
    )
next_session_id-run_server (refused ∷ hs) s b = next_session_id-run_server hs s b
next_session_id-run_server (read k disk bytes ∷ hs) s b =
    next_session_id-run_server hs (serve (read k disk bytes) s) b

-- Connections and reads in any order, fewer than 2^32 connections in all: behind all of them the
-- session of a connection, with its replies, is what the reads on that connection make of a new
-- session. No other connection has touched it, and it is still in the table.
pub run_server_each :
    (hs ks : List Happening) (sends : Bool) (buffer : Bytes) (recipients : List Recipient)
    → connections hs + suc (connections ks) < 4294967296
    → (run_server (hs ++ accepted sends buffer recipients ∷ ks) new_server).sessions
        (connections hs + 1)
      ≡ some (run_entry (reads_of (connections hs + 1) ks) (started sends buffer recipients))
unfolding run_server serve accept_connection
run_server_each hs ks sends buffer recipients b =
    let id = connections hs + 1 in
    let before = run_server hs new_server in
    let after = accept_connection sends buffer recipients before in
    let count : before.next_session_id ≡ connections hs =
      omega (arith, next_session_id-run_server hs new_server (omega arith)) in
    let same : (before.next_session_id + 1) % 4294967296 ≡ id = omega (arith, count) in
    ap (λ (s : Server). s.sessions id)
      (run_server-append hs (accepted sends buffer recipients ∷ ks) new_server)
    ∙ find-run_server id ks after (started sends buffer recipients)
        (rw same (update_here before.sessions id (some (started sends buffer recipients))))
        (omega (arith, same)) (omega (arith, same))
