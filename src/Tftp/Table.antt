-- ===== src/Tftp/Table.antt =====
-- Invariants of the server's table of sessions.
use mathlib.Core.Logic.{if_pos, if_neg}
use network_protocols.Common.{
  ℕ, ◌≡◌, refl, sym, ◌∙◌, ap, ◌≢◌, inl, inr, List, [], Option, none, some, Bytes, if◌then◌else◌,
  Bool-cases,
}
use network_protocols.Tftp.Protocol.{active, finished, illegal_operation}
use network_protocols.Tftp.Server.{Session, state_of, is_finished, System, Table, update, receive}
use network_protocols.Tftp.Limits.{IsAnswer, error_message-fits, on_data_received-IsAnswer}
use network_protocols.Tftp.Requested.{read_request_active, write_request_active}
use network_protocols.Tftp.Changes.{refused, reads, writes, goes_on, receive-Change}

same_state : (t s : Session) → some t ≡ some s → state_of t ≡ state_of s
same_state t s e = cc

not_erased :
    (t s : Session)
    → (if is_finished (state_of t) then none else some t) ≡ some s
    → state_of s ≢ finished
not_erased t s e z = elim (Bool-cases (is_finished (state_of t))) [
  | inl f ↦ cc (rw f at e)
  | inr f ↦ cc (ap is_finished (same_state t s (rw f at e) ∙ z))
]

active_live : (t s : Session) → state_of t ≡ active → some t ≡ some s → state_of s ≢ finished
active_live t s a e z = cc (same_state t s e)

module _ {E : Type 0} (E-discrete : Discrete E) where
  pub update_elsewhere :
      (table after : Table E-discrete) (ep k : E) (v : Option Session)
      → k ≢ ep
      → after ≡ update E-discrete table ep v
      → after k ≡ table k
  update_elsewhere table after ep k v ne u =
      ap (λ (t : Table E-discrete). t k) u ∙ if_neg (E-discrete k ep) ne v (table k)

  pub update_here :
      (table after : Table E-discrete) (ep : E) (v : Option Session)
      → after ≡ update E-discrete table ep v
      → after ep ≡ v
  update_here table after ep v u =
      ap (λ (t : Table E-discrete). t ep) u ∙ if_pos (E-discrete ep ep) refl v (table ep)

  -- A datagram changes no session but that of the endpoint that it came from.
  pub receive_elsewhere :
      (sys : System) (ep k : E) (buffer : Bytes) (n : ℕ) (table after : Table E-discrete)
      {out : List Bytes}
      → receive E-discrete sys ep buffer n table ≡ some (after, out)
      → k ≢ ep
      → after k ≡ table k
  receive_elsewhere sys ep k buffer n table after h ne =
      elim (receive-Change E-discrete sys ep buffer n table h) [
        | refused e u o ↦ ap (λ (t : Table E-discrete). t k) u
        | reads s e r d u ↦ update_elsewhere table after ep k _ ne u
        | writes s e r d u ↦ update_elsewhere table after ep k _ ne u
        | goes_on s t e d u ↦ update_elsewhere table after ep k _ ne u
      ]

  -- The server answers a datagram by one datagram at most, which fits the buffer.
  pub receive-IsAnswer :
      (sys : System) (ep : E) (buffer : Bytes) (n : ℕ) (table after : Table E-discrete)
      {out : List Bytes}
      → receive E-discrete sys ep buffer n table ≡ some (after, out)
      → IsAnswer out
  receive-IsAnswer sys ep buffer n table after h =
      elim (receive-Change E-discrete sys ep buffer n table h) [
        | refused e u o ↦ rw o (error_message-fits illegal_operation [])
        | reads s e r d u ↦ on_data_received-IsAnswer sys buffer n _ d
        | writes s e r d u ↦ on_data_received-IsAnswer sys buffer n _ d
        | goes_on s t e d u ↦ on_data_received-IsAnswer sys buffer n _ d
      ]

  -- No session in the table has finished.
  abbrev pub AllLive : Table E-discrete → Type 0
  AllLive table = (k : E) (s : Session) → table k ≡ some s → state_of s ≢ finished

  -- Every datagram leaves only sessions in the table that have not finished.
  pub receive-AllLive :
      (sys : System) (ep : E) (buffer : Bytes) (n : ℕ) (table after : Table E-discrete)
      {out : List Bytes}
      → AllLive table
      → receive E-discrete sys ep buffer n table ≡ some (after, out)
      → AllLive after
  receive-AllLive sys ep buffer n table after live h k s at_k = elim (E-discrete k ep) [
    | no ne ↦ live k s (sym (receive_elsewhere sys ep k buffer n table after h ne) ∙ at_k)
    | yes same ↦
        let here : after ep ≡ some s = ap after (sym same) ∙ at_k in
        elim (receive-Change E-discrete sys ep buffer n table h) [
          | refused e u o ↦ cc (ap (λ (t : Table E-discrete). t ep) u)
          | reads t e r d u ↦
              active_live t s (read_request_active sys buffer n _ r d)
                (sym (update_here table after ep _ u) ∙ here)
          | writes t e r d u ↦
              active_live t s (write_request_active sys buffer n _ r d)
                (sym (update_here table after ep _ u) ∙ here)
          | goes_on t v e d u ↦ not_erased v s (sym (update_here table after ep _ u) ∙ here)
        ]
  ]
