-- ===== src/Tftp/Limits.antt =====
-- What holds of every datagram that a session may get: the size of the answers, and the state that
-- a request leaves.
use network_protocols.Common.{
  ℕ, ◌+◌, ◌%◌, ◌≤◌, ◌≡◌, Bool, inl, inr, List, [], ◌∷◌, Option, none, some, Bytes, length,
  length-take, take, u16_at, ltb, ◌==◌, if◌then◌else◌, Bool-cases, Option-cases, arith,
  length-append,
}
use network_protocols.Tftp.Protocol.{
  rrq, wrq, ack, data_block, opcode, ErrorCode, error_message, buffer_size, file_not_found,
  unknown_transfer_id,
}
use network_protocols.Tftp.Streams.{open_in, open_out}
use network_protocols.Tftp.Reader.Blocks.{ReadSession, send_block_of_data}
use network_protocols.Tftp.Reader.Requests.{
  Request, no_filename, bad_mode, request, parse_request, start_reading, on_ack, on_read_request,
  answer_request as answer_read,
}
use network_protocols.Tftp.Reader.Netascii.{next_block-Takes}
use network_protocols.Tftp.Writer.Checks.{Folder, Verdict, silent, refuse, create, check_folder}
use network_protocols.Tftp.Writer.Blocks.{
  WriteSession, acknowledge, accept_block, on_block, start_writing, on_write_request,
  answer_request as answer_write, Outcome,
}
use network_protocols.Tftp.Server.{Session, reader, writer, System, on_data_received}

-- At most one datagram, no larger than the buffer that it is put together in.
abbrev pub IsAnswer : List Bytes → Type 0
IsAnswer [] = Unit {0}
IsAnswer (d ∷ []) = length d ≤ buffer_size
IsAnswer (d ∷ _) = ⊥

short_text : (text : Bytes) → (if ltb (length text) 512 then length text else 511) ≤ 511
short_text text = ground arith

pub error_message-fits :
    (code : ErrorCode) (text : Bytes) → length (error_message code text) ≤ buffer_size
unfolding error_message
error_message-fits code text =
    let n = if ltb (length text) 512 then length text else 511 in
    omega (arith, length-append (take n text) (0 ∷ []), length-take n text, short_text text)

send_block_fits : (s : ReadSession) → length (send_block_of_data s).1 ≤ buffer_size
unfolding send_block_of_data
send_block_fits s =
    let k = next_block-Takes s.mode s.in_file s.line_feed in omega (arith, k.counted, k.fits)

start_reading-IsAnswer :
    (files : Bytes → Option Bytes) (name : Bytes) (s : ReadSession)
    → IsAnswer (start_reading files name s).1
unfolding start_reading
start_reading-IsAnswer files name s = elim (Bool-cases (open_in (files name) s.in_file).1) [
  | inl e ↦ rw e (send_block_fits _)
  | inr e ↦ rw e (error_message-fits file_not_found [])
]

on_ack-IsAnswer : (c : ℕ) (s : ReadSession) → IsAnswer (on_ack c s).1
unfolding on_ack
on_ack-IsAnswer c s = elim (Bool-cases (c == s.block_counter)) [
  | inl e ↦ elim (Bool-cases s.read_complete) [
    | inl r ↦ rw (e, r) tt
    | inr r ↦ rw (e, r) (send_block_fits _)
  ]
  | inr e ↦ rw e (error_message-fits unknown_transfer_id [])
]

start_writing-IsAnswer :
    (folder : Folder) (name : Bytes) (s : WriteSession) → IsAnswer (start_writing folder name s).1
unfolding start_writing
start_writing-IsAnswer folder name s = go (check_folder folder name)
  where
    go :
        (v : Verdict)
        → let o : Outcome = elim v [
          | silent ↦ (s, [])
          | refuse code ↦ (s, error_message code [] ∷ [])
          | create allowed ↦ (
            record s { out_file = open_out allowed s.out_file },
            acknowledge s.block_counter ∷ [],
          )
        ] in
          IsAnswer o.1
    go silent = tt
    go (refuse code) = error_message-fits code []
    go (create allowed) = omega arith

abbrev Answers {ℓ} : {S : Type ℓ} → Option (S × List Bytes) → Type 0
Answers none = Unit
Answers (some (t, out)) = IsAnswer out

on_block-Answers :
    (sent : Bool) (buffer : Bytes) (amount : ℕ) (s : WriteSession)
    → Answers (on_block sent buffer amount s)
unfolding on_block accept_block
on_block-Answers sent buffer amount s =
    elim (Bool-cases (u16_at buffer 2 == (s.block_counter + 1) % 65536)) [
      | inl e ↦ elim (Bool-cases (ltb amount 4)) [
        | inl r ↦ rw (e, r) tt
        | inr r ↦ rw (e, r) (omega arith)
      ]
      | inr e ↦ rw e (error_message-fits unknown_transfer_id [])
    ]

read-IsAnswer :
    (files : Bytes → Option Bytes) (s : ReadSession) (r : Request)
    → IsAnswer (answer_read files s r).1
read-IsAnswer files s no_filename = tt
read-IsAnswer files s bad_mode = tt
read-IsAnswer files s (request name m) = start_reading-IsAnswer files name _

write-IsAnswer :
    (folder : Folder) (s : WriteSession) (r : Request) → IsAnswer (answer_write folder s r).1
write-IsAnswer folder s no_filename = tt
write-IsAnswer folder s bad_mode = tt
write-IsAnswer folder s (request name m) = start_writing-IsAnswer folder name _

on_read_request-Answers :
    (files : Bytes → Option Bytes) (buffer : Bytes) (s : ReadSession)
    → Answers (on_read_request files buffer s)
unfolding on_read_request
on_read_request-Answers files buffer s = elim (Bool-cases (u16_at buffer 0 == opcode rrq)) [
  | inl e ↦ elim (Option-cases (parse_request buffer)) [
    | inl r ↦ rw (e, r, on_read_request) tt
    | inr (q, r) ↦ rw (e, r, on_read_request) (read-IsAnswer files _ q)
  ]
  | inr e ↦ elim (Bool-cases (u16_at buffer 0 == opcode ack)) [
    | inl a ↦ rw (e, a) (on_ack-IsAnswer _ s)
    | inr a ↦ rw (e, a) tt
  ]
]

on_write_request-Answers :
    (folder : Folder) (sent : Bool) (buffer : Bytes) (n : ℕ) (s : WriteSession)
    → Answers (on_write_request folder sent buffer n s)
unfolding on_write_request
on_write_request-Answers folder sent buffer n s =
    elim (Bool-cases (u16_at buffer 0 == opcode wrq)) [
      | inl e ↦ elim (Option-cases (parse_request buffer)) [
        | inl r ↦ rw (e, r, on_write_request) tt
        | inr (q, r) ↦ rw (e, r, on_write_request) (write-IsAnswer folder _ q)
      ]
      | inr e ↦ elim (Bool-cases (u16_at buffer 0 == opcode data_block)) [
        | inl a ↦ rw (e, a) (on_block-Answers sent buffer n s)
        | inr a ↦ rw (e, a) tt
      ]
    ]

on_data_received-Answers :
    (sys : System) (buffer : Bytes) (n : ℕ) (s : Session)
    → Answers (on_data_received sys buffer n s)
unfolding on_data_received
on_data_received-Answers sys buffer n (reader s) =
    elim (Option-cases (on_read_request sys.files buffer s)) [
      | inl e ↦ rw (e, on_data_received) tt
      | inr (r, e) ↦ rw (e, on_data_received) (rw e at (on_read_request-Answers sys.files buffer s))
    ]
on_data_received-Answers sys buffer n (writer s) =
    elim (Option-cases (on_write_request sys.folder sys.sent buffer n s)) [
      | inl e ↦ rw (e, on_data_received) tt
      | inr (r, e) ↦
          rw (e, on_data_received)
            (rw e at (on_write_request-Answers sys.folder sys.sent buffer n s))
    ]

-- A session answers a datagram by one datagram at most, which fits the buffer.
pub on_data_received-IsAnswer :
    (sys : System) (buffer : Bytes) (n : ℕ) (s : Session) {t : Session} {out : List Bytes}
    → on_data_received sys buffer n s ≡ some (t, out)
    → IsAnswer out
on_data_received-IsAnswer sys buffer n s e = rw e at (on_data_received-Answers sys buffer n s)
