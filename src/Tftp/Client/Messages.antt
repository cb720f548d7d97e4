-- ===== src/Tftp/Client/Messages.antt =====
-- The messages that `TFTPClient` writes and reads, and a conversation of it with a server.
use network_protocols.Common.{
  ℕ, zero, suc, ◌+◌, List, [], ◌∷◌, ◌++◌, Option, none, some, Bytes, length, take, drop, codes,
  is_empty, u16_at, put_u16, ◌==◌, if◌then◌else◌, ◌>>=◌,
}
use network_protocols.Tftp.Protocol.{
  TransferMode, MessageType, opcode, error_code, buffer_size, no_error, file_not_found,
  access_violation, disk_full, illegal_operation, unknown_transfer_id, file_already_exists,
  no_such_user, terminate_transfer,
}
use network_protocols.Tftp.Strings.{mode_text}

-- The request that `getFile` and `putFile` send; a file name is cut behind 78 bytes.
abbrev pub request_datagram : MessageType → Bytes → TransferMode → Bytes
request_datagram t name m = put_u16 (opcode t) ++ (take 78 name ++ 0 ∷ (mode_text m ++ 0 ∷ []))

-- `recv`: a datagram goes to the front of the buffer, which keeps what stands behind it; a longer one
-- is cut.
abbrev pub received : Bytes → Bytes → Bytes
received d buffer = take buffer_size d ++ drop (length (take buffer_size d)) buffer

-- `_recvBytesCount`.
abbrev pub received_count : Bytes → ℕ
received_count d = length (take buffer_size d)

-- The `switch` of `writeErrorMessage`; any other code fails the assertion there: `none`.
unfoldable pub error_text : ℕ → Option Bytes
error_text code =
    if code == error_code no_error
    then some (codes " No Error")
    else if code == error_code file_not_found
    then some (codes " File not found")
    else if code == error_code access_violation
    then some (codes " Access violation")
    else if code == error_code disk_full
    then some (codes " Disk full or allocation exceeded")
    else if code == error_code illegal_operation
    then some (codes " Illegal TFTP operation")
    else if code == error_code unknown_transfer_id
    then some (codes " Unknown transfer ID")
    else if code == error_code file_already_exists
    then some (codes " File already exists")
    else if code == error_code no_such_user
    then some (codes " No such user")
    else if code == error_code terminate_transfer
    then some (codes " Terminate transfer due to option negotiation")
    else none

-- The loop for the details: up to a NUL, or the end of the buffer.
unfoldable pub message_text : Bytes → Bytes
message_text [] = []
message_text (c ∷ cs) = let rest = message_text cs in if c == 0 then [] else c ∷ rest

-- `writeErrorMessage`; a code that passes the `switch` has one digit.
unfoldable pub write_error_message : Bytes → Option Bytes
write_error_message buffer =
    let code = u16_at buffer 2 in
    let details = message_text (drop 4 buffer) in
    error_text code >>= λ text. some (
      codes "Error message was sent by server:"
      ++ (text
          ++ (codes " ("
              ++ ((b'0' + code)
                  ∷ (codes ") "
                      ++ ((if is_empty details then [] else codes " details: " ++ details)
                          ++ codes "\n"))))))

-- What a loop does until it waits for a datagram, or returns: its variables or its result, and the
-- datagram that it sent, if it did.
pub data Turn (A B : Type 0) : Type 0 where
  more : A → Option Bytes → Turn A B
  ended : B → Option Bytes → Turn A B

-- A conversation of a loop with a server, both given by what they do with a datagram. Every answer
-- of the server arrives, in order. The result is `none` when the client waits for ever, when an
-- assertion fails or a buffer is read past its end, or at the end of the fuel.
module _ {A B S : Type 0} (step : Option Bytes → A → Option (Turn A B))
    (peer : S → Bytes → Option (S × List Bytes)) where
  abbrev pub tell : S → Option Bytes → Option (S × List Bytes)
  tell s none = some (s, [])
  tell s (some d) = peer s d

  abbrev pub hear : (List Bytes → Turn A B → Option (S × B)) → List Bytes → A → Option (S × B)
  hear go [] a = none
  hear go (d ∷ ds) a = step (some d) a >>= go ds

  unfoldable pub talk : ℕ → S → List Bytes → Turn A B → Option (S × B)
  talk fuel s inbox (ended b out) = tell s out >>= λ r. some (r.0, b)
  talk zero s inbox (more a out) = none
  talk (suc fuel) s inbox (more a out) = tell s out >>= λ r. hear (talk fuel r.0) (inbox ++ r.1) a
