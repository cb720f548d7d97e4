-- ===== src/Tftp/Requested.antt =====
-- A request leaves its session active, whatever comes of it.
use network_protocols.Common.{
  ℕ, ◌≡◌, refl, inl, inr, List, [], ◌∷◌, Option, none, some, Bytes, u16_at, Bool-cases,
  Option-cases, ==_iff,
}
use network_protocols.Tftp.Protocol.{active, rrq, wrq, opcode, error_message}
use network_protocols.Tftp.Streams.{open_in, open_out}
use network_protocols.Tftp.Reader.Blocks.{ReadSession, send_block_of_data}
use network_protocols.Tftp.Reader.Requests.{
  Request, no_filename, bad_mode, request, parse_request, start_reading, on_read_request,
  answer_request as answer_read,
}
use network_protocols.Tftp.Writer.Checks.{Folder, Verdict, silent, refuse, create, check_folder}
use network_protocols.Tftp.Writer.Blocks.{
  WriteSession, acknowledge, start_writing, on_write_request, answer_request as answer_write,
  Outcome,
}
use network_protocols.Tftp.Server.{Session, reader, writer, System, on_data_received, state_of}

start_reading-state :
    (files : Bytes → Option Bytes) (name : Bytes) (s : ReadSession)
    → (start_reading files name s).0.state ≡ s.state
unfolding start_reading send_block_of_data
start_reading-state files name s = elim (Bool-cases (open_in (files name) s.in_file).1) [
  | inl e ↦ rw e
  | inr e ↦ rw e
]

start_writing-state :
    (folder : Folder) (name : Bytes) (s : WriteSession)
    → (start_writing folder name s).0.state ≡ s.state
unfolding start_writing
start_writing-state folder name s = go (check_folder folder name)
  where
    go :
        (v : Verdict)
        → let o : Outcome = elim v [
          | silent ↦ (s, [])
          | refuse code ↦ (s, error_message code [] ∷ [])
          | create allowed ↦ (
            record s { out_file = open_out allowed s.out_file },
            acknowledge s.block_counter ∷ [],
          )
        ] in
          o.0.state ≡ s.state
    go silent = refl
    go (refuse code) = refl
    go (create allowed) = refl

answer_read-state :
    (files : Bytes → Option Bytes) (s : ReadSession) (r : Request)
    → (answer_read files s r).0.state ≡ s.state
answer_read-state files s no_filename = refl
answer_read-state files s bad_mode = refl
answer_read-state files s (request name m) = start_reading-state files name _

answer_write-state :
    (folder : Folder) (s : WriteSession) (r : Request) → (answer_write folder s r).0.state ≡ s.state
answer_write-state folder s no_filename = refl
answer_write-state folder s bad_mode = refl
answer_write-state folder s (request name m) = start_writing-state folder name _

abbrev ActiveSession : Option (Session × List Bytes) → Type 0
ActiveSession none = Unit
ActiveSession (some (t, out)) = state_of t ≡ active

read_request-active :
    (sys : System) (buffer : Bytes) (n : ℕ) (s : ReadSession)
    → u16_at buffer 0 ≡ opcode rrq
    → ActiveSession (on_data_received sys buffer n (reader s))
unfolding on_data_received on_read_request
read_request-active sys buffer n s h = elim (Option-cases (parse_request buffer)) [
  | inl r ↦ rw ((==_iff (u16_at buffer 0) 1).1 h, r, on_data_received, on_read_request) tt
  | inr (q, r) ↦
      rw ((==_iff (u16_at buffer 0) 1).1 h, r, on_data_received, on_read_request)
        (answer_read-state sys.files _ q)
]

write_request-active :
    (sys : System) (buffer : Bytes) (n : ℕ) (s : WriteSession)
    → u16_at buffer 0 ≡ opcode wrq
    → ActiveSession (on_data_received sys buffer n (writer s))
unfolding on_data_received on_write_request
write_request-active sys buffer n s h = elim (Option-cases (parse_request buffer)) [
  | inl r ↦ rw ((==_iff (u16_at buffer 0) 2).1 h, r, on_data_received, on_write_request) tt
  | inr (q, r) ↦
      rw ((==_iff (u16_at buffer 0) 2).1 h, r, on_data_received, on_write_request)
        (answer_write-state sys.folder _ q)
]

pub read_request_active :
    (sys : System) (buffer : Bytes) (n : ℕ) (s : ReadSession) {t : Session} {out : List Bytes}
    → u16_at buffer 0 ≡ opcode rrq
    → on_data_received sys buffer n (reader s) ≡ some (t, out)
    → state_of t ≡ active
read_request_active sys buffer n s h e = rw e at (read_request-active sys buffer n s h)

pub write_request_active :
    (sys : System) (buffer : Bytes) (n : ℕ) (s : WriteSession) {t : Session} {out : List Bytes}
    → u16_at buffer 0 ≡ opcode wrq
    → on_data_received sys buffer n (writer s) ≡ some (t, out)
    → state_of t ≡ active
write_request_active sys buffer n s h e = rw e at (write_request-active sys buffer n s h)
