-- ===== src/Tftp/Client/Failures.antt =====
-- What `getFile` does when the server refuses, and when a message of another type comes in between.
use network_protocols.Common.{
  ℕ, suc, ◌+◌, ◌%◌, ◌*◌, ◌/◌, ◌≤◌, ◌≡◌, refl, ap, ◌≢◌, Bool, true, false, [], ◌∷◌, some, none,
  Bytes, length, codes, u16_at, ◌==◌, ◌>>=◌, arith,
}
use network_protocols.Tftp.Protocol.{TransferMode, error, data_block, opcode, error_message}
use network_protocols.Tftp.Streams.{open_out, close_out}
use network_protocols.Tftp.Reader.Transfer.{data_message}
use network_protocols.Tftp.Strings.{NoNul}
use network_protocols.Tftp.Server.{reader, System, Table, update}
use network_protocols.Tftp.Client.Messages.{
  error_text, message_text, write_error_message, more, ended, hear, talk,
}
use network_protocols.Tftp.Client.Get.{
  Getting, remove_out_file, get_data, get_message, get_turn, get_file,
}
use network_protocols.Tftp.Client.Receives.{next_expected, counted}
use network_protocols.Tftp.Client.Peer.{server, missing_session, reader_missing}

-- A message that is neither an error nor data.
pub record IsOther (d : Bytes) : Type 0 where
  pub no_error : u16_at d 0 ≢ opcode error
  pub no_data : u16_at d 0 ≢ opcode data_block
  pub size : 2 ≤ length d

module _ {E : Type 0} (E-discrete : Discrete E) (sys : System) (ep : E)
    (behind : Bytes → Bytes) where
  -- `getFile` for a file that the server does not have: it returns false and reports that the file
  -- was not found, and the local file, which was emptied before the request was sent, is removed;
  -- the session stays in the server's table.
  pub get_file_missing :
      (table : Table E-discrete) (name buffer : Bytes) (m : TransferMode) (fuel : ℕ)
      → table ep ≡ none
      → NoNul name
      → name ≢ []
      → length name ≤ 78
      → sys.files name ≡ none
      → talk
          (get_turn m true)
          (server E-discrete sys ep behind)
          (suc fuel)
          table
          []
          (get_file m true true name buffer)
        ≡ some (
          update E-discrete table ep (some (reader (missing_session m))),
          record {
            result = false;
            out_file = record { opened = false; good = true; written = [] };
            removed = true;
            report = codes "Error message was sent by server: File not found (1) \n";
          },
        )
  unfolding get_file talk open_out close_out get_turn get_message write_error_message error_text
      message_text error_message
  get_file_missing table name buffer m fuel at h ne fits missing =
      let step = get_turn m true in
      let peer = server E-discrete sys ep behind in
      let g : Getting = record {
        expected_block_number = 0;
        out_file = record { opened = true; good = true; written = [] };
        recv_buffer = buffer;
      } in
      ap (λ o. o >>= λ r. hear step peer (talk step peer fuel r.0) r.1 g)
        (reader_missing E-discrete sys ep behind table name m at h ne fits missing)

-- A message of another type is passed over, but counted: the block behind it, which has the number
-- that was expected, is refused, and the local file is removed.
pub get_turn_other :
    (m : TransferMode) (d p : Bytes) (sent : Bool) (g : Getting)
    → IsOther d
    → length p ≤ 512
    → (get_turn m sent (some d) g ≡ some (more (counted d g) none))
      × (get_turn m sent (some (data_message (next_expected g) p)) (counted d g)
          ≡ some (ended (remove_out_file [] g.out_file) none))
unfolding get_turn get_message get_data
get_turn_other m [] p sent g o fits = absurd (omega (arith, o.size))
get_turn_other m (x ∷ []) p sent g o fits = absurd (omega (arith, o.size))
get_turn_other m (x ∷ y ∷ d) p sent g o fits =
    let no_error : (u16_at (x ∷ y ∷ d) 0 == 5) ≡ false = ground (arith, o.no_error) in
    let no_data : (u16_at (x ∷ y ∷ d) 0 == 3) ≡ false = ground (arith, o.no_data) in
    let n = next_expected g in
    let number : n % 256 + 256 * (n / 256 % 256) ≡ n = omega arith in
    let later : (n == (n + 1) % 65536) ≡ false = ground arith in
    (rw (no_error, no_data) refl, rw (number, later) refl)
