-- ===== src/Common/Octets.antt =====
-- Byte strings: `std::string` and `std::vector<std::uint8_t>` are lists of byte values.
use Prim.Native.Char.{code}
use Prim.Native.String.{String}
use Prim.Native.Nat.{ℕ, suc, ◌+◌, ◌*◌, ◌/◌, ◌%◌, ◌<◌}
use mathlib.Core.Path.{◌≡◌}
use mathlib.Core.Logic.{◌↔◌}
use mathlib.Core.Bool.{Bool, true, false, ◌&&◌}
use mathlib.Core.List.{List, [], ◌∷◌, ◌++◌}
use native.Mathlib.Omega.{arith}
use network_protocols.Common.Tests.{◌==◌}
use network_protocols.Common.Lists.{get_or}

abbrev pub Bytes : Type 0
Bytes = List ℕ

-- The bytes of a text; every literal of the source is ASCII.
abbrev pub codes : String → Bytes
codes String.[] = []
codes (String.◌∷◌ c s) = code c ∷ codes s

-- `std::string::operator==`.
unfoldable pub bytes_eq : Bytes → Bytes → Bool
bytes_eq [] [] = true
bytes_eq (x ∷ xs) (y ∷ ys) = x == y && bytes_eq xs ys
bytes_eq _ _ = false

pub bytes_eq_iff : (a b : Bytes) → (bytes_eq a b ≡ true) ↔ (a ≡ b)
unfolding bytes_eq
bytes_eq_iff (x ∷ a) (y ∷ b) = ground (arith, bytes_eq_iff a b)
bytes_eq_iff _ _ = ground arith

abbrev pub is_empty : Bytes → Bool
is_empty [] = true
is_empty (x ∷ xs) = false

-- The number in the two bytes at an index, low byte first (`memcpy` on a little-endian host).
abbrev pub u16_at : Bytes → ℕ → ℕ
u16_at buf i = get_or buf i 0 + 256 * get_or buf (suc i) 0

-- The two bytes of a `std::uint16_t` in that order.
abbrev pub put_u16 : ℕ → Bytes
put_u16 n = (n % 256) ∷ (n / 256 % 256) ∷ []

pub u16_at-put_u16 : (n : ℕ) (rest : Bytes) → n < 65536 → u16_at (put_u16 n ++ rest) 0 ≡ n
u16_at-put_u16 n rest h = omega arith
