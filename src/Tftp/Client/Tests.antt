-- ===== src/Tftp/Client/Tests.antt =====
-- The theorems on tftp/tftp-client.cpp at concrete files, tables and buffers.
use mathlib.Core.Bool.{Bool-discrete}
use network_protocols.Common.{
  ◌+◌, ◌≤◌, ◌≡◌, refl, Bool, true, false, List, [], ◌∷◌, Option, none, some, Bytes, length, codes,
  arith,
}
use network_protocols.Tftp.Protocol.{c_string, rrq, ascii, binary}
use network_protocols.Tftp.Reader.Turns.{netascii}
use network_protocols.Tftp.Writer.Checks.{Folder}
use network_protocols.Tftp.Writer.Blocks.{acknowledge, new_writer, decoded}
use network_protocols.Tftp.Reader.Requests.{on_read_request, parse_request, parse_mode, mode_of}
use network_protocols.Tftp.Serves.{on_wire}
use network_protocols.Tftp.Server.{
  receive, first_datagram, on_data_received, reader, writer, System, Table, update,
}
use network_protocols.Tftp.Alone.{Arrival, alone, only, run_all, run_all-alone}
use network_protocols.Tftp.Client.Messages.{request_datagram, talk}
use network_protocols.Tftp.Client.Get.{get_turn, get_file}
use network_protocols.Tftp.Client.Put.{put_file}
use network_protocols.Tftp.Client.Peer.{server, missing_session}
use network_protocols.Tftp.Client.Downloads.{Gets, get_file_downloads}
use network_protocols.Tftp.Client.Uploads.{Puts, putting, put_file_uploads}
use network_protocols.Tftp.Client.Failures.{get_file_missing}

-- A text of two lines, and the name `a` for it.
abbrev text : Bytes
text = codes "x\ny"

abbrev folder : Folder
folder = record {
  current_path = true;
  file_exists = λ n. some false;
  others_write = some true;
  can_create = λ n. true;
}

abbrev serving : Option Bytes → System
serving contents = record { files = λ n. contents; folder = folder; sent = true }

abbrev empty_table : Table Bool-discrete
empty_table e = none

-- What an earlier, longer datagram left in the buffer.
abbrev stale : Bytes → Bytes
stale d = codes "left over"

text_fits : length (on_wire ascii text) + 3 ≤ 7
unfolding netascii
text_fits = omega arith

text_fits_too : length (on_wire ascii text) + 4 ≤ 8
unfolding netascii
text_fits_too = omega arith

get_file_downloads_example :
    Gets Bool-discrete (serving (some text)) true stale empty_table (decoded ascii text) (
      talk
        (get_turn ascii true)
        (server Bool-discrete (serving (some text)) true stale)
        7
        empty_table
        []
        (get_file ascii true true (codes "a") []))
get_file_downloads_example =
    get_file_downloads Bool-discrete (serving (some text)) true stale empty_table (codes "a") text
      [] ascii 7 refl (omega arith) (λ e. cc) (omega arith) refl text_fits

put_file_uploads_example : Puts (serving none) stale refl (decoded ascii text) (
    putting
      (serving none)
      stale
      refl
      ascii
      8
      (writer new_writer)
      (put_file ascii (some text) true (codes "a") []))
put_file_uploads_example =
    put_file_uploads (serving none) stale refl (codes "a") text [] ascii 8 (omega arith) (λ e. cc)
      (omega arith) (record { path_ok = refl; is_new = refl; may_write = refl; creates = refl })
      text_fits_too

get_file_missing_example :
    talk
      (get_turn binary true)
      (server Bool-discrete (serving none) true stale)
      1
      empty_table
      []
      (get_file binary true true (codes "a") [])
    ≡ some (
      update Bool-discrete empty_table true (some (reader (missing_session binary))),
      record {
        result = false;
        out_file = record { opened = false; good = true; written = [] };
        removed = true;
        report = codes "Error message was sent by server: File not found (1) \n";
      },
    )
get_file_missing_example =
    get_file_missing Bool-discrete (serving none) true stale empty_table (codes "a") [] binary 0
      refl (omega arith) (λ e. cc) (omega arith) refl

-- One client asks for a file and acknowledges it; another sends neither in between.
abbrev arrivals : List (Bool × Arrival)
arrivals =
    (
      true,
      record {
        sys = serving (some text);
        buffer = request_datagram rrq (codes "a") binary;
        n = 10;
      },
    )
    ∷ (false, record { sys = serving none; buffer = acknowledge 1; n = 4 })
    ∷ (true, record { sys = serving none; buffer = acknowledge 1; n = 4 })
    ∷ []

abbrev or_empty :
    Option (Table Bool-discrete × List (Bool × List Bytes))
    → Table Bool-discrete × List (Bool × List Bytes)
or_empty none = (empty_table, [])
or_empty (some r) = r

abbrev behind_all : Table Bool-discrete × List (Bool × List Bytes)
behind_all = or_empty (run_all Bool-discrete arrivals empty_table)

arrivals_run : run_all Bool-discrete arrivals empty_table ≡ some (behind_all.0, behind_all.1)
unfolding run_all receive first_datagram on_data_received on_read_request parse_request c_string
    parse_mode mode_of
arrivals_run = refl

run_all-alone_example :
    alone (only Bool-discrete true arrivals) none
    ≡ some (behind_all.0 true, only Bool-discrete true behind_all.1)
run_all-alone_example =
    run_all-alone Bool-discrete true arrivals empty_table behind_all.0 behind_all.1 arrivals_run
