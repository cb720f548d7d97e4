-- ===== src/Ftp/Paths.antt =====
-- Paths and names: what ftp/server/ftp_session.cpp uses of `std::experimental::filesystem::path` and
-- of its regular expressions. A path is its text.
use network_protocols.Common.{
  ℕ, Bool, true, false, not, ◌&&◌, ◌||◌, [], ◌∷◌, ◌++◌, Bytes, is_empty, leb, ◌==◌, if◌then◌else◌,
}
use mathlib.Core.List.{reverse}

abbrev is_slash : ℕ → Bool
is_slash c = c == b'/'

abbrev starts_with_slash : Bytes → Bool
starts_with_slash [] = false
starts_with_slash (c ∷ cs) = is_slash c

ends_with_slash : Bytes → Bool
ends_with_slash p = starts_with_slash (reverse p)

-- `operator/`: a separator comes in between, unless one is there, or a part is empty.
unfoldable pub join : Bytes → Bytes → Bytes
unfolding ends_with_slash
join p q =
    if is_empty p || is_empty q || ends_with_slash p || starts_with_slash q
    then p ++ q
    else p ++ b'/' ∷ q

drop_slashes : Bytes → Bytes
drop_slashes [] = []
drop_slashes (c ∷ cs) = let rest = drop_slashes cs in if is_slash c then rest else c ∷ cs

up_to_slash : Bytes → Bytes
up_to_slash [] = []
up_to_slash (c ∷ cs) = let rest = up_to_slash cs in if is_slash c then [] else c ∷ rest

from_slash : Bytes → Bytes
from_slash [] = []
from_slash (c ∷ cs) = let rest = from_slash cs in if is_slash c then c ∷ cs else rest

-- `parent_path`, on the path backwards: without its last part and the separators in front of that.
parent_backwards : Bytes → Bytes
unfolding from_slash up_to_slash drop_slashes
parent_backwards r =
    let dir = drop_slashes (from_slash r) in
    if is_empty (from_slash r)
    then []
    else if is_empty dir
    then (if is_empty (up_to_slash r) then [] else b'/' ∷ [])
    else reverse dir

unfoldable pub parent_path : Bytes → Bytes
unfolding parent_backwards
parent_path p = parent_backwards (reverse p)

-- What `.` of a regular expression does not match.
abbrev is_line_end : ℕ → Bool
is_line_end c = c == b'\n' || c == b'\r'

has_dot : Bytes → Bool
has_dot [] = false
has_dot (c ∷ cs) = c == b'.' || has_dot cs

-- Whether `(.+?)(\.[^.]*$|$)` matches a text; the flag says that something stands in front.
matches_behind : Bool → Bytes → Bool
unfolding has_dot
matches_behind started [] = started
matches_behind started (c ∷ cs) =
    (started && c == b'.' && not (has_dot cs)) || (not (is_line_end c) && matches_behind true cs)

unfoldable pub matches_file_name : Bytes → Bool
unfolding matches_behind
matches_file_name = matches_behind false

abbrev is_alnum : ℕ → Bool
is_alnum c = (leb b'a' c && leb c b'z') || (leb b'A' c && leb c b'Z') || (leb b'0' c && leb c b'9')

all_alnum : Bytes → Bool
all_alnum [] = true
all_alnum (c ∷ cs) = is_alnum c && all_alnum cs

-- Whether `^[a-zA-Z0-9]+$` matches a text.
unfoldable pub matches_dir_name : Bytes → Bool
unfolding all_alnum
matches_dir_name w = not (is_empty w) && all_alnum w
