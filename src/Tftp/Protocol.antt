-- ===== src/Tftp/Protocol.antt =====
-- The constants, enumerations and buffers of tftp/tftp-server.cpp (namespace `TFTP`), and the
-- messages that both the sessions and the server build.
use network_protocols.Common.{
  ℕ, [], ◌∷◌, ◌++◌, Option, none, some, Bytes, length, take, put_u16, ltb, ◌==◌, if◌then◌else◌,
}

abbrev pub buffer_size : ℕ
buffer_size = 516

pub data TransferMode : Type 0 where
  binary ascii : TransferMode

pub data MessageType : Type 0 where
  rrq wrq data_block ack error oack : MessageType

abbrev pub opcode : MessageType → ℕ
opcode rrq = 1
opcode wrq = 2
opcode data_block = 3
opcode ack = 4
opcode error = 5
opcode oack = 6

pub data ErrorCode : Type 0 where
  no_error file_not_found access_violation disk_full illegal_operation : ErrorCode
  unknown_transfer_id file_already_exists no_such_user terminate_transfer : ErrorCode

abbrev pub error_code : ErrorCode → ℕ
error_code no_error = 0
error_code file_not_found = 1
error_code access_violation = 2
error_code disk_full = 3
error_code illegal_operation = 4
error_code unknown_transfer_id = 5
error_code file_already_exists = 6
error_code no_such_user = 7
error_code terminate_transfer = 8

pub data State : Type 0 where
  undefined active failed finished : State

-- `std::string(data.cbegin() + offset)`: the bytes up to the next NUL. `none` is a read past the
-- end of the array, which C++ leaves undefined.
unfoldable pub c_string : Bytes → Option Bytes
c_string [] = none
c_string (x ∷ xs) =
    let rest = c_string xs in
    if x == 0 then some [] else elim rest [ none ↦ none | some s ↦ some (x ∷ s) ]

-- The bytes that `sendErrorMessage` hands to `send`.
unfoldable pub error_message : ErrorCode → Bytes → Bytes
error_message code text =
    let n = if ltb (length text) 512 then length text else 511 in
    put_u16 (opcode error) ++ (put_u16 (error_code code) ++ (take n text ++ 0 ∷ []))
