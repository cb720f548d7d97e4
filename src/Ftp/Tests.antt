-- ===== src/Ftp/Tests.antt =====
-- The theorems on ftp/server/ at concrete files, users and lines.
use network_protocols.Common.{
  ◌≤◌, ℕ, zero, suc, ◌≡◌, refl, true, false, [], ◌∷◌, ◌++◌, some, Bytes, length, codes, arith,
}
use network_protocols.Ftp.Handlers.{
  close_data, data_ready, transferred, handle_stor, handle_retr, send_writes, ascii, Session,
  binary, message, get_lines, line_writes, without_cr,
}
use network_protocols.Ftp.Lines.{count, concat, ended}
use network_protocols.Ftp.Transfers.{reads, data_of, handle_stor-handle_retr}

-- Two lines, the second without its end.
abbrev contents : Bytes
contents = codes "a\nb"

abbrev session : Session
session = record {
  data_port = 5000;
  curr_dir = codes "/srv";
  username = [];
  quit_cmd_loop = false;
  transfer_type = binary;
  data_open = false;
  acceptor_open = false;
}

abbrev connected : Session
connected = record session { transfer_type = ascii; data_open = true }

two_lines : concat [] ++ codes "a\r\nb\r\n" ≡ data_of (handle_retr 2 [] (some contents) connected).1
unfolding get_lines line_writes handle_retr send_writes
two_lines = refl

line_count : count (line_writes (get_lines [] contents)) ≤ 2
unfolding get_lines line_writes
line_count = omega arith

handle_stor-handle_retr_example :
    handle_stor true (reads [] (some (codes "a\r\nb\r\n") ∷ [])) connected
    ≡ some (record {
      session = close_data connected;
      events = message (data_ready ascii) ∷ message transferred ∷ [];
      file = some (without_cr (ended contents));
    })
handle_stor-handle_retr_example =
    handle_stor-handle_retr 2 [] [] contents (codes "a\r\nb\r\n") [] connected connected refl refl
      refl refl line_count tt (omega arith) two_lines

abbrev fill : ℕ → Bytes
fill zero = []
fill (suc n) = 120 ∷ fill n

length-fill : (n : ℕ) → length (fill n) ≡ n
length-fill zero = refl
length-fill (suc n) = omega (arith, length-fill n)
