-- ===== src/Tftp/Alone.antt =====
-- `TFTPServer::receive` as the client of one endpoint sees it, whatever other clients send in
-- between.
use mathlib.Core.Logic.{ite, if_pos, if_neg}
use network_protocols.Common.{
  ℕ, ◌≡◌, ◌≢◌, sym, ◌∙◌, ap, inl, inr, List, [], ◌∷◌, Option, none, some, Bytes, u16_at, ◌==◌,
  if◌then◌else◌, Bool-cases, Option-cases, ◌>>=◌,
}
use network_protocols.Tftp.Protocol.{rrq, wrq, opcode, illegal_operation, error_message}
use network_protocols.Tftp.Reader.Requests.{new_reader}
use network_protocols.Tftp.Writer.Blocks.{new_writer}
use network_protocols.Tftp.Server.{
  Session, reader, writer, state_of, is_finished, System, on_data_received, Table, first_datagram,
  receive,
}
use network_protocols.Tftp.Changes.{store_cases, store_or_erase_cases, refused_parts}
use network_protocols.Tftp.Table.{update_here, receive_elsewhere}

-- A server for one endpoint: it has a session, or none.
abbrev pub kept : Option (Session × List Bytes) → Option (Option Session × List Bytes)
kept none = none
kept (some (s, out)) = some (some s, out)

abbrev pub kept_or_erased : Option (Session × List Bytes) → Option (Option Session × List Bytes)
kept_or_erased none = none
kept_or_erased (some (s, out)) = some (if is_finished (state_of s) then none else some s, out)

unfoldable pub answer : System → Bytes → ℕ → Option Session → Option (Option Session × List Bytes)
answer sys buffer n none =
    if u16_at buffer 0 == opcode rrq
    then kept (on_data_received sys buffer n (reader new_reader))
    else if u16_at buffer 0 == opcode wrq
    then kept (on_data_received sys buffer n (writer new_writer))
    else some (none, error_message illegal_operation [] ∷ [])
answer sys buffer n (some s) = kept_or_erased (on_data_received sys buffer n s)

-- A datagram of `n` bytes in the buffer, and what the system answers while it is handled.
pub record Arrival : Type 0 where
  pub sys : System
  pub buffer : Bytes
  pub n : ℕ

unfoldable pub alone : List Arrival → Option Session → Option (Option Session × List (List Bytes))
alone [] o = some (o, [])
alone (a ∷ rest) o = do
  first ← answer a.sys a.buffer a.n o
  others ← alone rest first.0
  some (others.0, first.1 ∷ others.1)

module _ {E : Type 0} (E-discrete : Discrete E) where
  first_answers :
      (sys : System) (ep : E) (buffer : Bytes) (n : ℕ) (table after : Table E-discrete)
      (out : List Bytes)
      → table ep ≡ none
      → first_datagram E-discrete sys ep buffer n table ≡ some (after, out)
      → answer sys buffer n none ≡ some (after ep, out)
  unfolding first_datagram answer
  first_answers sys ep buffer n table after out e h =
      elim (Bool-cases (u16_at buffer 0 == opcode rrq)) [
        | inl r ↦
            let (s, d, u) = store_cases E-discrete sys ep buffer n table _ (rw r at h) in
            rw (r, d) (ap (λ x. some (x, out)) (sym (update_here E-discrete table after ep _ u)))
        | inr r ↦ elim (Bool-cases (u16_at buffer 0 == opcode wrq)) [
          | inl w ↦
              let (s, d, u) = store_cases E-discrete sys ep buffer n table _ (rw (r, w) at h) in
              rw (r, w, d)
                (ap (λ x. some (x, out)) (sym (update_here E-discrete table after ep _ u)))
          | inr w ↦
              let (u, o) = refused_parts E-discrete sys ep buffer n table (rw (r, w) at h) in
              rw (r, w)
                (ap (λ (x : Option Session). some (x, error_message illegal_operation [] ∷ []))
                    (sym e ∙ ap (λ (t : Table E-discrete). t ep) (sym u))
                  ∙ ap (λ y. some (after ep, y)) (sym o))
        ]
      ]

  receive_answers :
      (sys : System) (ep : E) (buffer : Bytes) (n : ℕ) (table after : Table E-discrete)
      (out : List Bytes)
      → receive E-discrete sys ep buffer n table ≡ some (after, out)
      → answer sys buffer n (table ep) ≡ some (after ep, out)
  unfolding receive answer
  receive_answers sys ep buffer n table after out h = elim (Option-cases (table ep)) [
    | inl e ↦ rw e (first_answers sys ep buffer n table after out e (rw (e, receive) at h))
    | inr (s, e) ↦
        let (t, d, u) =
          store_or_erase_cases E-discrete sys ep buffer n table _ (rw (e, receive) at h) in
        rw e (rw d (ap (λ x. some (x, out)) (sym (update_here E-discrete table after ep _ u))))
  ]

  -- The datagrams of all clients, in the order in which they come: the table behind them, and what
  -- was sent to whom.
  unfoldable pub run_all :
      List (E × Arrival) → Table E-discrete → Option (Table E-discrete × List (E × List Bytes))
  run_all [] table = some (table, [])
  run_all ((ep, a) ∷ rest) table = do
    first ← receive E-discrete a.sys ep a.buffer a.n table
    others ← run_all rest first.0
    some (others.0, (ep, first.1) ∷ others.1)

  -- What is there of one endpoint.
  abbrev pub only : {A : Type 0} → E → List (E × A) → List A
  only ep [] = []
  only ep ((k, x) ∷ rest) = ite (E-discrete ep k) (x ∷ only ep rest) (only ep rest)

  only_here :
      {A : Type 0} (ep k : E) (x : A) (rest : List (E × A))
      → ep ≡ k
      → only ep ((k, x) ∷ rest) ≡ x ∷ only ep rest
  only_here ep k x rest e = if_pos (E-discrete ep k) e (x ∷ only ep rest) (only ep rest)

  only_elsewhere :
      {A : Type 0} (ep k : E) (x : A) (rest : List (E × A))
      → ep ≢ k
      → only ep ((k, x) ∷ rest) ≡ only ep rest
  only_elsewhere ep k x rest ne = if_neg (E-discrete ep k) ne (x ∷ only ep rest) (only ep rest)

  -- What an endpoint sees of a run.
  abbrev view :
      E
      → Option (Table E-discrete × List (E × List Bytes))
      → Option (Option Session × List (List Bytes))
  view ep none = none
  view ep (some (table, outs)) = some (table ep, only ep outs)

  alone_next :
      (a : Arrival) (rest : List Arrival) (o p q : Option Session) (out : List Bytes)
      (outs : List (List Bytes))
      → answer a.sys a.buffer a.n o ≡ some (p, out)
      → alone rest p ≡ some (q, outs)
      → alone (a ∷ rest) o ≡ some (q, out ∷ outs)
  unfolding alone
  alone_next a rest o p q out outs e f = rw (e, f)

  run_all_next :
      (ep k : E) (a : Arrival) (ds : List (E × Arrival)) (table mid end : Table E-discrete)
      (out : List Bytes) (outs : List (E × List Bytes))
      → receive E-discrete a.sys k a.buffer a.n table ≡ some (mid, out)
      → alone (only ep ds) (mid ep) ≡ some (end ep, only ep outs)
      → alone (only ep ((k, a) ∷ ds)) (table ep) ≡ some (end ep, only ep ((k, out) ∷ outs))
  run_all_next ep k a ds table mid end out outs e f = elim (E-discrete ep k) [
    | yes same ↦
        ap (λ ls. alone ls (table ep)) (only_here ep k a ds same)
        ∙ alone_next a (only ep ds) (table ep) (mid ep) (end ep) out (only ep outs)
            (ap (λ j. answer a.sys a.buffer a.n (table j)) same
              ∙ receive_answers a.sys k a.buffer a.n table mid out e
              ∙ ap (λ j. some (mid j, out)) (sym same))
            f
        ∙ ap (λ ls. some (end ep, ls)) (sym (only_here ep k out outs same))
    | no ne ↦
        ap (λ ls. alone ls (table ep)) (only_elsewhere ep k a ds ne)
        ∙ ap (alone (only ep ds))
            (sym (receive_elsewhere E-discrete a.sys k ep a.buffer a.n table mid e ne))
        ∙ f
        ∙ ap (λ ls. some (end ep, ls)) (sym (only_elsewhere ep k out outs ne))
  ]

  -- Datagrams of any clients in any order, as long as none is read past its end: every client finds
  -- its session, and gets its datagrams, as if the server were there for it alone.
  pub run_all-alone :
      (ep : E) (ds : List (E × Arrival)) (table after : Table E-discrete)
      (outs : List (E × List Bytes))
      → run_all ds table ≡ some (after, outs)
      → alone (only ep ds) (table ep) ≡ some (after ep, only ep outs)
  unfolding run_all alone
  run_all-alone ep [] table after outs h = ap (view ep) h
  run_all-alone ep ((k, a) ∷ ds) table after outs h =
      elim (Option-cases (receive E-discrete a.sys k a.buffer a.n table)) [
        | inl e ↦ cc (rw (e, run_all) at h)
        | inr ((mid, out), e) ↦ elim (Option-cases (run_all ds mid)) [
          | inl f ↦ cc (rw (e, f, run_all) at h)
          | inr ((end, others), f) ↦
              run_all_next ep k a ds table mid end out others e
                (run_all-alone ep ds mid end others f)
              ∙ ap (view ep) (rw (e, f, run_all) at h)
        ]
      ]
