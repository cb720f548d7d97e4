-- ===== src/Tftp/Client/Receives.antt =====
-- What the loop of `getFile` does with a block in sequence.
use network_protocols.Common.{
  take_of_short, ℕ, ◌+◌, ◌-◌, ◌%◌, ◌≤◌, ◌<◌, ◌≡◌, refl, ◌∙◌, ap, true, false, [], ◌++◌, some, Bytes,
  length, take, drop, take-length_append, u16_at, u16_at-put_u16, ltb, ==_iff, arith,
}
use network_protocols.Tftp.Protocol.{TransferMode}
use network_protocols.Tftp.Streams.{OutFile, write_out, close_out}
use network_protocols.Tftp.Reader.Transfer.{data_message}
use network_protocols.Tftp.Writer.Blocks.{acknowledge, decoded}
use network_protocols.Tftp.Client.Messages.{received, more, ended}
use network_protocols.Tftp.Client.Get.{Getting, GetEnd, get_block, get_data, get_message, get_turn}

abbrev pub next_expected : Getting → ℕ
next_expected g = (g.expected_block_number + 1) % 65536

-- The variables behind a block in sequence, before it is written.
abbrev pub counted : Bytes → Getting → Getting
counted d g = record g {
  expected_block_number = next_expected g;
  recv_buffer = received d g.recv_buffer;
}

get_data-data_message :
    (m : TransferMode) (p rest : Bytes) (n : ℕ) (g : Getting)
    → n ≡ 4 + length p
    → g.recv_buffer ≡ data_message g.expected_block_number p ++ rest
    → g.expected_block_number < 65536
    → get_data m true n g ≡ some (get_block m true (length p) p g)
unfolding get_data
get_data-data_message m p rest n g e b h =
    let number : u16_at g.recv_buffer 2 ≡ g.expected_block_number =
      ap (λ (x : Bytes). u16_at x 2) b ∙ u16_at-put_u16 g.expected_block_number (p ++ rest) h in
    let size : n - 4 ≡ length p = omega arith in
    let payload : take (n - 4) (drop 4 g.recv_buffer) ≡ p =
      ap (λ (k : ℕ). take k (drop 4 g.recv_buffer)) size
      ∙ ap (λ (x : Bytes). take (length p) (drop 4 x)) b
      ∙ take-length_append p rest in
    let big : ltb n 4 ≡ false = ground arith in
    rw ((==_iff (u16_at g.recv_buffer 2) g.expected_block_number).1 number, big, payload, size) refl

-- A block in sequence.
pub get_turn-data_message :
    (m : TransferMode) (p : Bytes) (g : Getting)
    → length p ≤ 512
    → let d = data_message (next_expected g) p in
      get_turn m true (some d) g ≡ some (get_block m true (length p) p (counted d g))
unfolding get_turn get_message
get_turn-data_message m p g fits =
    let d = data_message (next_expected g) p in
    let whole : take 516 d ≡ d = take_of_short 516 d (omega arith) in
    get_data-data_message m p (drop (length (take 516 d)) g.recv_buffer) (length (take 516 d))
      (counted d g) (ap length whole ∙ (omega arith))
      (ap (λ (x : Bytes). x ++ drop (length (take 516 d)) g.recv_buffer) whole) (omega arith)

pub record Holds (bytes : Bytes) (f : OutFile) : Type 0 where
  pub opened : f.opened ≡ true
  pub good : f.good ≡ true
  pub holds : f.written ≡ bytes

-- The function returns true, and its file is closed, there, and holds the bytes.
pub record HasGot (bytes : Bytes) (e : GetEnd) : Type 0 where
  pub result : e.result ≡ true
  pub kept : e.removed ≡ false
  pub closed : e.out_file.opened ≡ false
  pub good : e.out_file.good ≡ true
  pub holds : e.out_file.written ≡ bytes

pub write_out-Holds :
    (bytes got : Bytes) (f : OutFile) → Holds got f → Holds (got ++ bytes) (write_out bytes f)
unfolding write_out
write_out-Holds bytes got f h =
    rw (h.opened, h.good)
      (record { opened = refl; good = refl; holds = ap (λ b. b ++ bytes) h.holds })

pub leaves :
    (bytes : Bytes) (f : OutFile)
    → Holds bytes f
    → HasGot bytes (record { result = true; out_file = close_out f; removed = false; report = [] })
unfolding close_out
leaves bytes f h = record {
  result = refl;
  kept = refl;
  closed = refl;
  good = rw (h.opened, h.good) refl;
  holds = h.holds;
}

pub get_block_last :
    (m : TransferMode) (p : Bytes) (g : Getting)
    → length p < 512
    → get_block m true (length p) p g
      ≡ ended
          (record {
            result = true;
            out_file = close_out (write_out (decoded m p) g.out_file);
            removed = false;
            report = [];
          })
          (some (acknowledge g.expected_block_number))
unfolding get_block
get_block_last m p g h = let short : ltb (length p) 512 ≡ true = ground arith in rw short refl

pub get_block_full :
    (m : TransferMode) (p : Bytes) (g : Getting)
    → 512 ≤ length p
    → get_block m true (length p) p g
      ≡ more
          (record g { out_file = write_out (decoded m p) g.out_file })
          (some (acknowledge g.expected_block_number))
unfolding get_block
get_block_full m p g h = let full : ltb (length p) 512 ≡ false = ground arith in rw full refl
