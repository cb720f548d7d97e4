-- ===== src/Tftp/Streams.antt =====
-- The file streams that the TFTP sessions hold. The contents of files are the environment's; what
-- `std::ifstream` and `std::ofstream` do with them is the language's.
use network_protocols.Common.{
  ℕ, Bool, true, false, [], ◌∷◌, ◌++◌, Option, none, some, Bytes, length, take, drop, ltb,
  if◌then◌else◌, not, ◌&&◌,
}

-- `std::ifstream`: whether a file is attached, whether `good()`, and the bytes not yet read.
pub record InFile : Type 0 where
  pub opened : Bool
  pub good : Bool
  pub rest : Bytes

abbrev pub closed_in : InFile
closed_in = record { opened = false; good = true; rest = [] }

-- `open`: it fails on a stream with a file attached, or when there is no such file. The flag is
-- `!stream` afterwards, negated.
unfoldable pub open_in : Option Bytes → InFile → InFile × Bool
open_in none f = (record f { good = false }, false)
open_in (some contents) f =
    if f.opened
    then (record f { good = false }, false)
    else (record { opened = true; good = true; rest = contents }, true)

unfoldable pub close_in : InFile → InFile
close_in f = record { opened = false; good = f.good && f.opened; rest = [] }

-- What a read can still deliver.
abbrev pub unread : InFile → Bytes
unread f = if f.good then f.rest else []

-- `peek`; `none` is EOF.
abbrev pub head_of : Bytes → Option ℕ
head_of [] = none
head_of (x ∷ xs) = some x

unfoldable pub peek : InFile → Option ℕ
peek f = head_of (unread f)

-- The stream after a `peek` that met EOF.
abbrev pub at_eof : InFile → InFile
at_eof f = record f { good = false }

-- The stream after a `get` that delivered a byte.
abbrev pub skip : InFile → InFile
skip f = record f { rest = drop 1 f.rest }

-- `read(p, n)`: the bytes delivered (`gcount` is their number), and the stream afterwards.
unfoldable pub read_block : ℕ → InFile → Bytes × InFile
read_block n f = (
  take n (unread f),
  record f {
    good = f.good && not (ltb (length f.rest) n);
    rest = if f.good then drop n f.rest else f.rest;
  },
)

-- `std::ofstream`: whether a file is attached and writable, and the bytes written to it.
pub record OutFile : Type 0 where
  pub opened : Bool
  pub good : Bool
  pub written : Bytes

abbrev pub closed_out : OutFile
closed_out = record { opened = false; good = true; written = [] }

-- `open`, where the flag says whether the system let the file be created; it is then truncated.
unfoldable pub open_out : Bool → OutFile → OutFile
open_out allowed f =
    if allowed && not f.opened
    then record { opened = true; good = true; written = [] }
    else record f { good = false }

-- `write` and `put` on a stream that is not good change nothing; with no file attached they set
-- the stream's bad bit.
unfoldable pub write_out : Bytes → OutFile → OutFile
write_out bytes f =
    if f.good && f.opened
    then record f { written = f.written ++ bytes }
    else record f { good = false }

unfoldable pub close_out : OutFile → OutFile
close_out f = record f { opened = false; good = f.good && f.opened }
