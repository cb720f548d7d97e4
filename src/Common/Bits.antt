-- ===== src/Common/Bits.antt =====
-- The binary digits of a number, and of `|` and `&`.
use Prim.Native.Nat.{
  ℕ, zero, suc, ◌+◌, ◌*◌, ◌/◌, ◌%◌, ◌≤◌, ◌<◌, min, max, digits, bit_and, bit_or, bit_and-bitwise,
  bit_or-bitwise,
}
use mathlib.Core.Path.{◌≡◌, refl, ap, ◌∙◌, sym, ap₂}
use native.Mathlib.Omega.{arith}

-- The digit of weight 2 ^ k.
unfoldable pub bit : ℕ → ℕ → ℕ
bit zero x = x % 2
bit (suc k) x = bit k (x / 2)

bit-zero : (k : ℕ) → bit k 0 ≡ 0
unfolding bit
bit-zero zero = refl
bit-zero (suc k) = bit-zero k

pub bit-le : (k x : ℕ) → bit k x ≤ 1
unfolding bit
bit-le zero x = omega arith
bit-le (suc k) x = bit-le k (x / 2)

-- Digit by digit, for an operation on digits and what it does once the first number has run out.
module _ (z : ℕ → ℕ) (f : ℕ → ℕ → ℕ) (f_digit : (x y : ℕ) → x ≤ 1 → y ≤ 1 → f x y ≤ 1)
    (z_digit : (k y : ℕ) → bit k (z y) ≡ f 0 (bit k y)) where
  bit-run_out : (k y : ℕ) → bit k (z y) ≡ f (bit k 0) (bit k y)
  bit-run_out k y = z_digit k y ∙ ap (λ d. f d (bit k y)) (sym (bit-zero k))

  bit-digits : (k n x y : ℕ) → x ≤ n → bit k (digits z f n x y) ≡ f (bit k x) (bit k y)
  unfolding bit
  bit-digits k zero zero y h = bit-run_out k y
  bit-digits k zero (suc x) y h = absurd (omega arith)
  bit-digits k (suc n) zero y h = bit-run_out k y
  bit-digits zero (suc n) (suc x) y h =
      omega (arith, f_digit (suc x % 2) (y % 2) (omega arith) (omega arith))
  bit-digits (suc k) (suc n) (suc x) y h =
      let rest = digits z f n (suc x / 2) (y / 2) in
      let e = f (suc x % 2) (y % 2) in
      let shifted : (rest * 2 + e) / 2 ≡ rest =
        omega (arith, f_digit (suc x % 2) (y % 2) (omega arith) (omega arith)) in
      ap (bit k) shifted ∙ bit-digits k n (suc x / 2) (y / 2) (omega arith)

pub bit-bit_or : (k x y : ℕ) → bit k (bit_or x y) ≡ max (bit k x) (bit k y)
bit-bit_or k x y =
    ap (bit k) (bit_or-bitwise x y)
    ∙ bit-digits (λ b. b) max (λ a b h g. omega arith) (λ j b. omega arith) k x x y (omega arith)

pub bit-bit_and : (k x y : ℕ) → bit k (bit_and x y) ≡ min (bit k x) (bit k y)
bit-bit_and k x y =
    ap (bit k) (bit_and-bitwise x y)
    ∙ bit-digits (λ b. 0) min (λ a b h g. omega arith) (λ j b. omega (arith, bit-zero j)) k x x y
        (omega arith)

-- Numbers with the same digits are equal.
bits_ext_below : (n x y : ℕ) → x ≤ n → y ≤ n → ((k : ℕ) → bit k x ≡ bit k y) → x ≡ y
unfolding bit
bits_ext_below zero x y hx hy h = omega arith
bits_ext_below (suc n) x y hx hy h =
    omega
      (arith, h 0, bits_ext_below n (x / 2) (y / 2) (omega arith) (omega arith) (λ k. h (suc k)))

bits_ext : (x y : ℕ) → ((k : ℕ) → bit k x ≡ bit k y) → x ≡ y
bits_ext x y h = bits_ext_below (x + y) x y (omega arith) (omega arith) h

bit_and-one_digit : (a k : ℕ) → bit k (bit_and a 1) ≡ bit k (a % 2)
unfolding bit
bit_and-one_digit a zero = omega (arith, bit-bit_and 0 a 1)
bit_and-one_digit a (suc k) =
    let low : a % 2 / 2 ≡ 0 = omega arith in
    bit-bit_and (suc k) a 1 ∙ (omega (arith, bit-zero k, ap (bit k) low))

pub bit_and-one : (a : ℕ) → bit_and a 1 ≡ a % 2
bit_and-one a = bits_ext _ _ (bit_and-one_digit a)

bit_and-fifteen_digit : (a k : ℕ) → bit k (bit_and a 15) ≡ bit k (a % 16)
unfolding bit
bit_and-fifteen_digit a zero = omega (arith, bit-bit_and 0 a 15)
bit_and-fifteen_digit a (suc zero) = omega (arith, bit-bit_and 1 a 15)
bit_and-fifteen_digit a (suc (suc zero)) = omega (arith, bit-bit_and 2 a 15)
bit_and-fifteen_digit a (suc (suc (suc zero))) = omega (arith, bit-bit_and 3 a 15)
bit_and-fifteen_digit a (suc (suc (suc (suc k)))) =
    let low : a % 16 / 2 / 2 / 2 / 2 ≡ 0 = omega arith in
    bit-bit_and (suc (suc (suc (suc k)))) a 15 ∙ (omega (arith, bit-zero k, ap (bit k) low))

pub bit_and-fifteen : (a : ℕ) → bit_and a 15 ≡ a % 16
bit_and-fifteen a = bits_ext _ _ (bit_and-fifteen_digit a)

-- The number above the lowest sixteen digits.
bit-div : (k x : ℕ) → bit k (x / 16) ≡ bit (suc (suc (suc (suc k)))) x
unfolding bit
bit-div k x = let e : x / 16 ≡ x / 2 / 2 / 2 / 2 = omega arith in ap (bit k) e

abbrev above : ℕ → ℕ
above x = x / 16 / 16 / 16 / 16

abbrev up : ℕ → ℕ
up k = suc (suc (suc (suc k)))

bit-above : (k x : ℕ) → bit k (above x) ≡ bit (up (up (up (up k)))) x
bit-above k x =
    bit-div k (x / 16 / 16 / 16)
    ∙ bit-div (up k) (x / 16 / 16)
    ∙ bit-div (up (up k)) (x / 16)
    ∙ bit-div (up (up (up k))) x

pub bit_or_fits : (x y : ℕ) → x < 65536 → y < 65536 → bit_or x y < 65536
bit_or_fits x y hx hy =
    let zx : above x ≡ 0 = omega arith in
    let zy : above y ≡ 0 = omega arith in
    let none_above : above (bit_or x y) ≡ 0 = bits_ext _ _ (λ k.
      bit-above k (bit_or x y)
      ∙ bit-bit_or _ x y
      ∙ ap₂ max (sym (bit-above k x) ∙ ap (bit k) zx ∙ bit-zero k)
          (sym (bit-above k y) ∙ ap (bit k) zy ∙ bit-zero k)
      ∙ sym (bit-zero k)) in
    omega arith

pub bit_and_fits : (x y : ℕ) → x < 65536 → bit_and x y < 65536
bit_and_fits x y hx =
    let zx : above x ≡ 0 = omega arith in
    let none_above : above (bit_and x y) ≡ 0 = bits_ext _ _ (λ k.
      bit-above k (bit_and x y)
      ∙ bit-bit_and _ x y
      ∙ ap (λ d. min d (bit (up (up (up (up k)))) y))
          (sym (bit-above k x) ∙ ap (bit k) zx ∙ bit-zero k)
      ∙ (omega (arith, bit-zero k))) in
    omega arith
