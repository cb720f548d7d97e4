-- ===== src/Tftp/Reader/Transfer.antt =====
-- A whole transfer: a client that acknowledges each block it gets, until the session has finished.
use network_protocols.Common.{
  ℕ, zero, suc, ◌+◌, ◌%◌, ◌≤◌, ◌<◌, ◌≡◌, refl, ◌∙◌, ap, true, false, inl, inr, [], ◌∷◌, ◌++◌,
  append-nil, append_assoc, append-eq-nil, Option, none, some, Bytes, length, drop, length-append,
  put_u16, u16_at, u16_at-put_u16, ltb, if◌then◌else◌, Bool-cases, ==_iff, ltb→lt, ltb→le, arith,
}
use network_protocols.Tftp.Protocol.{finished, data_block, ack, opcode, buffer_size}
use network_protocols.Tftp.Streams.{close_in}
use network_protocols.Tftp.Reader.Blocks.{Fill, ReadSession, next_block, send_block_of_data}
use network_protocols.Tftp.Reader.Requests.{Outcome, on_ack, on_read_request}
use network_protocols.Tftp.Reader.Turns.{pending}
use network_protocols.Tftp.Reader.Netascii.{Takes, next_block-Takes}

abbrev pub to_send : ReadSession → Bytes
to_send s = pending s.mode s.line_feed s.in_file

-- A `DATA` datagram behind its header.
abbrev pub data_message : ℕ → Bytes → Bytes
data_message counter payload = put_u16 (opcode data_block) ++ (put_u16 counter ++ payload)

-- What a session between two messages promises: no byte is left once the last block is sent, and
-- the counter is a `std::uint16_t`.
pub record IsSending (s : ReadSession) : Type 0 where
  pub counter_fits : s.block_counter < 65536
  pub complete : s.read_complete ≡ true → to_send s ≡ []

-- What `send_block_of_data` does to a session.
pub record Sends (s t : ReadSession) (datagram : Bytes) : Type 0 where
  pub payload : Bytes
  pub datagram_is : datagram ≡ data_message t.block_counter payload
  pub counter_is : t.block_counter ≡ (s.block_counter + 1) % 65536
  pub fits : length datagram ≤ buffer_size
  pub mode_kept : t.mode ≡ s.mode
  pub state_kept : t.state ≡ s.state
  pub next : payload ++ to_send t ≡ to_send s
  pub short : length payload < 512 → t.read_complete ≡ true
  pub full : 512 ≤ length payload → t.read_complete ≡ s.read_complete
  pub sending : IsSending t

block_complete :
    (s : ReadSession)
    → IsSending s
    → (b : Fill) → Takes s.mode s.line_feed s.in_file b
    → (if ltb b.n 512 then true else s.read_complete) ≡ true
    → pending s.mode b.line_feed b.file ≡ []
block_complete s i b k h = elim (Bool-cases (ltb b.n 512)) [
  | inl short ↦ k.last (ltb→lt _ _ short)
  | inr full ↦ append-eq-nil b.payload _ (k.next ∙ i.complete (rw full at h))
]

-- Every block that a session sends is a `DATA` datagram that fits the buffer, carries the next
-- number modulo 2^16 and the next part of what is still to be sent, and is the last one exactly if
-- it is not full.
pub send_block-Sends :
    (s : ReadSession) → IsSending s → Sends s (send_block_of_data s).0 (send_block_of_data s).1
unfolding send_block_of_data
send_block-Sends s i =
    let b = next_block s.mode s.in_file s.line_feed in
    let k = next_block-Takes s.mode s.in_file s.line_feed in
    record {
      payload = b.payload;
      datagram_is = refl;
      counter_is = refl;
      fits = omega (arith, k.counted, k.fits);
      mode_kept = refl;
      state_kept = refl;
      next = k.next;
      short = λ h. ground (arith, k.counted);
      full = λ h. ground (arith, k.counted);
      sending = record { counter_fits = omega arith; complete = block_complete s i b k };
    }

-- The acknowledgement of a block.
abbrev pub ack_message : ℕ → Bytes
ack_message counter = put_u16 (opcode ack) ++ put_u16 counter

pub on_read_request-ack_message :
    (files : Bytes → Option Bytes) (counter : ℕ) (s : ReadSession)
    → counter < 65536
    → on_read_request files (ack_message counter) s ≡ some (on_ack counter s)
unfolding on_read_request
on_read_request-ack_message files counter s h =
    ap (λ c. some (on_ack c s)) (u16_at-put_u16 counter [] h)

-- What the client makes of the session's answer: go on with the next block, or end.
abbrev pub hear :
    (ReadSession → Bytes → Bytes → Option (ReadSession × Bytes))
    → Bytes
    → Option Outcome
    → Option (ReadSession × Bytes)
hear go got none = none
hear go got (some (t, [])) = some (t, got)
hear go got (some (t, next ∷ _)) = go t next got

-- The client acknowledges the datagram that it has, with the number in it, until the session
-- answers with none: the session then, and the data of all datagrams. `none` is a read past the
-- buffer, or the end of the fuel.
unfoldable pub converse :
    ℕ → (Bytes → Option Bytes) → ReadSession → Bytes → Bytes → Option (ReadSession × Bytes)
converse zero files s datagram got = none
converse (suc fuel) files s datagram got =
    hear (converse fuel files) (got ++ drop 4 datagram)
      (on_read_request files (ack_message (u16_at datagram 2)) s)

converse_step :
    (fuel : ℕ) (files : Bytes → Option Bytes) (s : ReadSession) (p got : Bytes)
    → s.block_counter < 65536
    → converse (suc fuel) files s (data_message s.block_counter p) got
      ≡ hear (converse fuel files) (got ++ p) (some (on_ack s.block_counter s))
unfolding converse
converse_step fuel files s p got h =
    ap (λ c. hear (converse fuel files) (got ++ p) (on_read_request files (ack_message c) s))
      (u16_at-put_u16 s.block_counter p h)
    ∙ ap (hear (converse fuel files) (got ++ p))
        (on_read_request-ack_message files s.block_counter s h)

pub on_ack_last :
    (s : ReadSession)
    → s.read_complete ≡ true
    → on_ack s.block_counter s ≡ (record s { in_file = close_in s.in_file; state = finished }, [])
unfolding on_ack
on_ack_last s h = rw ((==_iff s.block_counter s.block_counter).1 refl, h)

pub on_ack_next :
    (s : ReadSession)
    → s.read_complete ≡ false
    → on_ack s.block_counter s ≡ ((send_block_of_data s).0, (send_block_of_data s).1 ∷ [])
unfolding on_ack
on_ack_next s h = rw ((==_iff s.block_counter s.block_counter).1 refl, h)

-- How many acknowledgements are at most needed.
abbrev pub rounds : ReadSession → ℕ
rounds s = if s.read_complete then 1 else length (to_send s) + 2

pub rounds-Sends :
    (s t : ReadSession) (d : Bytes) → Sends s t d → s.read_complete ≡ false → rounds t < rounds s
rounds-Sends s t d k h = elim (Bool-cases t.read_complete) [
  | inl last ↦ rw (h, last) (omega arith)
  | inr more ↦ elim (Bool-cases (ltb (length k.payload) 512)) [
    | inl short ↦ cc (k.short (ltb→lt _ _ short))
    | inr full ↦
        rw (h, more)
          (omega (
            arith,
            ltb→le (length k.payload) 512 full,
            length-append k.payload (to_send t),
            ap length k.next,
          ))
  ]
]

-- From a session that has sent one block: the client gets all that was still to be sent, and the
-- session finishes.
pub converse-to_send :
    (fuel : ℕ) (files : Bytes → Option Bytes) (s : ReadSession) (p got : Bytes)
    → IsSending s
    → rounds s ≤ fuel
    → (t : ReadSession) × (converse fuel files s (data_message s.block_counter p) got
        ≡ some (t, got ++ (p ++ to_send s)))
      × (t.state ≡ finished)
converse-to_send zero files s p got i h = absurd (ground arith)
converse-to_send (suc fuel) files s p got i h = elim (Bool-cases s.read_complete) [
  | inl last ↦ (
    record s { in_file = close_in s.in_file; state = finished },
    converse_step fuel files s p got i.counter_fits
        ∙ rw (on_ack_last s last) (rw (i.complete last) (rw append-nil)),
    refl,
  )
  | inr more ↦
      let (t, d) = send_block_of_data s in
      let k = send_block-Sends s i in
      let (u, e, f) =
        converse-to_send fuel files t k.payload (got ++ p) k.sending
          (omega (arith, rounds-Sends s t d k more)) in
      (
        u,
        converse_step fuel files s p got i.counter_fits
            ∙ ap (λ o. hear (converse fuel files) (got ++ p) (some o)) (on_ack_next s more)
            ∙ ap (λ x. converse fuel files t x (got ++ p)) k.datagram_is
            ∙ e
            ∙ ap (λ x. some (u, x))
                (ap (λ y. (got ++ p) ++ y) k.next ∙ append_assoc got p (to_send s)),
        f,
      )
]
