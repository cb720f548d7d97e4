-- ===== src/Tftp/Tests.antt =====
-- The theorems on tftp/tftp-server.cpp at concrete files, datagrams and sessions.
use mathlib.Core.Bool.{Bool-discrete}
use network_protocols.Common.{
  ◌+◌, ◌≤◌, ◌≡◌, refl, true, false, [], ◌∷◌, Option, none, some, Bytes, length, codes, bytes_eq,
  arith,
}
use network_protocols.Tftp.Protocol.{
  binary, ascii, active, rrq, file_not_found, unknown_transfer_id, error_message, c_string,
}
use network_protocols.Tftp.Streams.{closed_in, open_in}
use network_protocols.Tftp.Reader.Blocks.{Fill, fill, ReadSession, send_block_of_data}
use network_protocols.Tftp.Reader.Ends.{fill_ends}
use network_protocols.Tftp.Reader.Requests.{
  new_reader, mode_of, parse_mode, parse_request, start_reading, on_read_request,
}
use network_protocols.Tftp.Reader.Turns.{netascii}
use network_protocols.Tftp.Reader.Transfer.{data_message, Sends, send_block-Sends}
use network_protocols.Tftp.Writer.Checks.{Folder}
use network_protocols.Tftp.Writer.Blocks.{WriteSession, on_write_request}
use network_protocols.Tftp.Server.{
  Session, reader, System, Table, update, first_datagram, on_data_received, receive,
}
use network_protocols.Tftp.Strings.{request_message}
use network_protocols.Tftp.Serves.{on_wire}
use network_protocols.Tftp.Repeats.{repeated_block}
use network_protocols.Tftp.Limits.{IsAnswer}
use network_protocols.Tftp.Table.{receive-IsAnswer, AllLive, receive-AllLive}

-- One file of two lines, under every name.
abbrev text : Bytes
text = 97 ∷ 10 ∷ 98 ∷ []

abbrev files : Bytes → Option Bytes
files name = some text

abbrev folder : Folder
folder = record {
  current_path = true;
  file_exists = λ n. some false;
  others_write = some true;
  can_create = λ n. true;
}

text_fits : length (on_wire ascii text) + 2 ≤ 6
unfolding netascii
text_fits = omega arith

-- A reader in the middle of a file.
abbrev sending : ReadSession
sending = record {
  mode = binary;
  block_counter = 65535;
  state = active;
  in_file = record { opened = true; good = true; rest = text };
  read_complete = false;
  line_feed = false;
}

send_block-Sends_example :
    Sends sending (send_block_of_data sending).0 (send_block_of_data sending).1
send_block-Sends_example =
    send_block-Sends sending (record { counter_fits = omega arith; complete = λ e. cc })

-- A writer in the middle of a file.
abbrev receiving : WriteSession
receiving = record {
  mode = binary;
  block_counter = 7;
  state = active;
  out_file = record { opened = true; good = true; written = text };
}

repeated_block_example :
    (on_write_request folder true (data_message 7 text) 7 receiving
      ≡ some (record receiving { block_counter = 8 }, error_message unknown_transfer_id [] ∷ []))
    × (on_write_request folder true (data_message 8 text) 7 (record receiving { block_counter = 8 })
        ≡ some (record receiving { block_counter = 9 }, error_message unknown_transfer_id [] ∷ []))
repeated_block_example = repeated_block folder true text text 7 7 receiving (omega arith)

-- A server that has no files, and the request of a client for one; clients are known by a Boolean.
abbrev system : System
system = record { files = λ n. none; folder = folder; sent = true }

abbrev empty_table : Table Bool-discrete
empty_table k = none

abbrev refused_reader : Session
refused_reader = reader (record new_reader {
  state = active;
  mode = binary;
  in_file = record closed_in { good = false };
})

abbrev refused_table : Table Bool-discrete
refused_table = update Bool-discrete empty_table true (some refused_reader)

received_example :
    receive Bool-discrete system true (request_message rrq (codes "a") binary []) 10 empty_table
    ≡ some (refused_table, error_message file_not_found [] ∷ [])
unfolding receive first_datagram on_data_received on_read_request parse_request parse_mode mode_of
    c_string start_reading open_in bytes_eq
received_example = refl

receive-IsAnswer_example : IsAnswer (error_message file_not_found [] ∷ [])
receive-IsAnswer_example =
    receive-IsAnswer Bool-discrete system true (request_message rrq (codes "a") binary []) 10
      empty_table refused_table received_example

empty_table-AllLive : AllLive Bool-discrete empty_table
empty_table-AllLive k s e = absurd (cc)

receive-AllLive_example : AllLive Bool-discrete refused_table
receive-AllLive_example =
    receive-AllLive Bool-discrete system true (request_message rrq (codes "a") binary []) 10
      empty_table refused_table empty_table-AllLive received_example

-- A block that is begun with a line feed left over.
abbrev begun : Fill
begun = record { payload = []; n = 0; line_feed = true; file = closed_in }

fill_ends_example : fill 1000 begun ≡ fill 512 begun
fill_ends_example =
    fill_ends 512 1000 begun (record { counted = refl; fits = omega arith; fresh = λ e. refl })
      (omega arith) (omega arith)
