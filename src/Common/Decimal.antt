-- ===== src/Common/Decimal.antt =====
-- `std::to_string` and the digits that `std::stoi` reads.
use Prim.Native.Nat.{ℕ, zero, suc, ◌+◌, ◌-◌, ◌*◌, ◌/◌, ◌%◌, ◌≤◌, ◌<◌}
use mathlib.Core.Path.{◌≡◌, refl, ◌∙◌, ap}
use mathlib.Core.Logic.{inl, inr, ◌≢◌}
use mathlib.Core.Bool.{Bool, true, ◌&&◌}
use mathlib.Core.List.{[], ◌∷◌}
use native.Mathlib.Omega.{arith}
use network_protocols.Common.Tests.{ltb, leb, if◌then◌else◌, Bool-cases, ltb→lt, ltb→le}
use network_protocols.Common.Octets.{Bytes}

-- Digit by digit from the lowest; a number has fewer digits than it has units.
digits : ℕ → ℕ → Bytes → Bytes
digits zero n out = out
digits (suc fuel) n out =
    let rest = digits fuel (n / 10) ((b'0' + n % 10) ∷ out) in
    if ltb n 10 then (b'0' + n) ∷ out else rest

unfoldable pub to_string : ℕ → Bytes
unfolding digits
to_string n = digits (suc n) n []

abbrev pub is_digit : ℕ → Bool
is_digit c = leb b'0' c && leb c b'9'

-- The number of the digits in front, behind those already read.
unfoldable pub read_digits : ℕ → Bytes → ℕ
read_digits n [] = n
read_digits n (c ∷ cs) =
    let rest = read_digits (n * 10 + (c - b'0')) cs in if is_digit c then rest else n

read_digit :
    (n d : ℕ) (cs : Bytes) → d < 10 → read_digits n ((b'0' + d) ∷ cs) ≡ read_digits (n * 10 + d) cs
unfolding read_digits
read_digit n d cs h =
    let e : b'0' + d - b'0' ≡ d = omega arith in
    let digit : is_digit (b'0' + d) ≡ true = ground arith in rw (digit, e) refl

read_digits-digits :
    (fuel n : ℕ) (out : Bytes) → n < fuel → read_digits 0 (digits fuel n out) ≡ read_digits n out
unfolding digits
read_digits-digits zero n out h = absurd (omega arith)
read_digits-digits (suc fuel) n out h = elim (Bool-cases (ltb n 10)) [
  | inl small ↦
      let below = ltb→lt n 10 small in
      rw small (read_digit 0 n out below ∙ ap (λ k. read_digits k out) (omega arith))
  | inr large ↦
      let above = ltb→le n 10 large in
      rw large (
        read_digits-digits fuel (n / 10) ((b'0' + n % 10) ∷ out) (omega arith)
        ∙ read_digit (n / 10) (n % 10) out (omega arith)
        ∙ ap (λ k. read_digits k out) (omega arith))
]

pub read_digits-to_string : (n : ℕ) → read_digits 0 (to_string n) ≡ n
unfolding to_string read_digits
read_digits-to_string n = read_digits-digits (suc n) n [] (omega arith)

-- All of it are digits, and there is one at least.
abbrev pub AllDigits : Bytes → Type 0
AllDigits [] = Unit
AllDigits (c ∷ cs) = (b'0' ≤ c) × (c ≤ b'9') × AllDigits cs

digits-AllDigits : (fuel n : ℕ) (out : Bytes) → AllDigits out → AllDigits (digits fuel n out)
unfolding digits
digits-AllDigits zero n out h = h
digits-AllDigits (suc fuel) n out h = elim (Bool-cases (ltb n 10)) [
  | inl small ↦ rw small (omega arith, omega (arith, ltb→lt n 10 small), h)
  | inr large ↦ rw large (digits-AllDigits fuel (n / 10) _ (omega arith, omega arith, h))
]

pub to_string-AllDigits : (n : ℕ) → AllDigits (to_string n)
unfolding to_string
to_string-AllDigits n = digits-AllDigits (suc n) n [] tt

digits-ne-nil : (fuel n : ℕ) (out : Bytes) → out ≢ [] → digits fuel n out ≢ []
unfolding digits
digits-ne-nil zero n out h = h
digits-ne-nil (suc fuel) n out h = elim (Bool-cases (ltb n 10)) [
  | inl small ↦ rw small (λ e. cc)
  | inr large ↦ rw large (digits-ne-nil fuel (n / 10) _ (λ e. cc))
]

pub to_string-ne-nil : (n : ℕ) → to_string n ≢ []
unfolding to_string digits
to_string-ne-nil n = elim (Bool-cases (ltb n 10)) [
  | inl small ↦ rw small (λ e. cc)
  | inr large ↦ rw large (digits-ne-nil n (n / 10) _ (λ e. cc))
]
