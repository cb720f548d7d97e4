-- ===== src/Tftp/Changes.antt =====
-- What one datagram does to the table of sessions.
use network_protocols.Common.{
  ℕ, ◌≡◌, inl, inr, List, [], ◌∷◌, Option, none, some, Bytes, u16_at, ◌==◌, if◌then◌else◌,
  Bool-cases, Option-cases, ==_iff, arith,
}
use network_protocols.Tftp.Protocol.{rrq, wrq, opcode, illegal_operation, error_message}
use network_protocols.Tftp.Reader.Requests.{new_reader}
use network_protocols.Tftp.Writer.Blocks.{new_writer}
use network_protocols.Tftp.Server.{
  Session, reader, writer, state_of, is_finished, System, on_data_received, Table, update, store,
  store_or_erase, first_datagram, receive,
}

-- What one datagram of a client may do to the table of sessions.
module _ {E : Type 0} (E-discrete : Discrete E) (sys : System) (ep : E) (buffer : Bytes) (n : ℕ)
    (table : Table E-discrete) where
  pub data Change (after : Table E-discrete) (out : List Bytes) : Type 0 where
    -- neither a session nor a request: an error message
    refused :
        table ep ≡ none
        → after ≡ table
        → out ≡ error_message illegal_operation [] ∷ []
        → Change after out
    -- a new read session
    reads :
        (s : Session)
        → table ep ≡ none
        → u16_at buffer 0 ≡ opcode rrq
        → on_data_received sys buffer n (reader new_reader) ≡ some (s, out)
        → after ≡ update E-discrete table ep (some s)
        → Change after out
    -- a new write session
    writes :
        (s : Session)
        → table ep ≡ none
        → u16_at buffer 0 ≡ opcode wrq
        → on_data_received sys buffer n (writer new_writer) ≡ some (s, out)
        → after ≡ update E-discrete table ep (some s)
        → Change after out
    -- a datagram for the session
    goes_on :
        (s t : Session)
        → table ep ≡ some s
        → on_data_received sys buffer n s ≡ some (t, out)
        → after ≡ update E-discrete table ep (if is_finished (state_of t) then none else some t)
        → Change after out

  pub store_cases :
      (r : Option (Session × List Bytes)) {after : Table E-discrete} {out : List Bytes}
      → store E-discrete table ep r ≡ some (after, out)
      → (s : Session) × (r ≡ some (s, out)) × (after ≡ update E-discrete table ep (some s))
  store_cases none h = cc
  store_cases (some (s, o)) h = (s, ground arith, ground arith)

  pub store_or_erase_cases :
      (r : Option (Session × List Bytes)) {after : Table E-discrete} {out : List Bytes}
      → store_or_erase E-discrete table ep r ≡ some (after, out)
      → (s : Session) × (r ≡ some (s, out))
        × (after ≡ update E-discrete table ep (if is_finished (state_of s) then none else some s))
  store_or_erase_cases none h = cc
  store_or_erase_cases (some (s, o)) h = (s, ground arith, ground arith)

  pub refused_parts :
      {after : Table E-discrete} {o out : List Bytes}
      → ◌≡◌ {A = Option (Table E-discrete × List Bytes)} (some (table, o)) (some (after, out))
      → (after ≡ table) × (out ≡ o)
  refused_parts h = (ground arith, ground arith)

  first_datagram-Change :
      {after : Table E-discrete} {out : List Bytes}
      → table ep ≡ none
      → first_datagram E-discrete sys ep buffer n table ≡ some (after, out)
      → Change after out
  unfolding first_datagram
  first_datagram-Change e h = elim (Bool-cases (u16_at buffer 0 == opcode rrq)) [
    | inl r ↦ let (s, d, u) = store_cases _ (rw r at h) in reads s e ((==_iff _ _).0 r) d u
    | inr r ↦ elim (Bool-cases (u16_at buffer 0 == opcode wrq)) [
      | inl w ↦ let (s, d, u) = store_cases _ (rw (r, w) at h) in writes s e ((==_iff _ _).0 w) d u
      | inr w ↦ let (u, o) = refused_parts (rw (r, w) at h) in refused e u o
    ]
  ]

  pub receive-Change :
      {after : Table E-discrete} {out : List Bytes}
      → receive E-discrete sys ep buffer n table ≡ some (after, out)
      → Change after out
  unfolding receive
  receive-Change h = elim (Option-cases (table ep)) [
    | inl e ↦ first_datagram-Change e (rw (e, receive) at h)
    | inr (s, e) ↦
        let (t, d, u) = store_or_erase_cases _ (rw (e, receive) at h) in goes_on s t e d u
  ]
