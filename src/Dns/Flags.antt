-- ===== src/Dns/Flags.antt =====
-- The laws of the flags: each setter changes its own bits and no others.
use network_protocols.Common.{
  ℕ, zero, suc, ◌+◌, ◌-◌, ◌<◌, ◌≡◌, refl, sym, ◌∙◌, ap, Bool, true, false, ◌==◌, if◌then◌else◌,
  ==_iff, arith,
}
use network_protocols.Common.Bits.{
  bit, bit-le, bit-bit_or, bit-bit_and, bit_and-one, bit_or_fits, bit_and_fits,
}
use network_protocols.Dns.Header.{Header, Flag, qr, aa, tc, rd, ra, weight, get_flag, set_flag}

-- The flags word is a `std::uint16_t`.
abbrev pub Fits : Header → Type 0
Fits h = h.flags < 65536

abbrev pub position : Flag → ℕ
position qr = 15
position aa = 10
position tc = 9
position rd = 8
position ra = 7

-- The test passes at every number from a first one on, for so many numbers.
unfoldable pub passes : (ℕ → Bool) → ℕ → ℕ → Bool
passes test first zero = true
passes test first (suc count) = if test first then passes test (suc first) count else false

passes_tail : (b c : Bool) → (if b then c else false) ≡ true → (b ≡ true) × (c ≡ true)
passes_tail true c e = (refl, e)
passes_tail false c e = absurd (cc)

passes_at :
    (test : ℕ → Bool) (first count i : ℕ)
    → passes test first count ≡ true
    → i < count
    → test (first + i) ≡ true
unfolding passes
passes_at test first zero i e lt = absurd (omega arith)
passes_at test first (suc count) zero e lt =
    let same : first + 0 ≡ first = omega arith in
    ap test same ∙ (passes_tail (test first) (passes test (suc first) count) e).0
passes_at test first (suc count) (suc i) e lt =
    let same : first + suc i ≡ suc first + i = omega arith in
    ap test same
    ∙ passes_at test (suc first) count i
        (passes_tail (test first) (passes test (suc first) count) e).1 (omega arith)

pub passes_below :
    (test : ℕ → Bool) (count x : ℕ) → passes test 0 count ≡ true → x < count → test x ≡ true
passes_below test count x e lt =
    let same : x ≡ 0 + x = omega arith in ap test same ∙ passes_at test 0 count x e lt

abbrev at : ℕ → ℕ → ℕ
at p k = if k == p then 1 else 0

on_table : (f : Flag) → passes (λ k. bit k (weight f) == at (position f) k) 0 16 ≡ true
unfolding passes bit
on_table qr = refl
on_table aa = refl
on_table tc = refl
on_table rd = refl
on_table ra = refl

off_table : (f : Flag) → passes (λ k. bit k (65535 - weight f) == 1 - at (position f) k) 0 16 ≡ true
unfolding passes bit
off_table qr = refl
off_table aa = refl
off_table tc = refl
off_table rd = refl
off_table ra = refl

bit-weight : (f : Flag) (k : ℕ) → k < 16 → bit k (weight f) ≡ at (position f) k
bit-weight f k h = (==_iff _ _).0 (passes_below _ 16 k (on_table f) h)

bit-complement : (f : Flag) (k : ℕ) → k < 16 → bit k (65535 - weight f) ≡ 1 - at (position f) k
bit-complement f k h = (==_iff _ _).0 (passes_below _ 16 k (off_table f) h)

-- A setter gives its bit the value, and leaves the other fifteen.
bit-set_flag :
    (f : Flag) (on : Bool) (h : Header) (k : ℕ)
    → k < 16
    → bit k (set_flag f on h).flags
      ≡ (if k == position f then (if on then 1 else 0) else bit k h.flags)
unfolding set_flag
bit-set_flag f true h k lt =
    ground (arith, bit-bit_or k h.flags (weight f), bit-weight f k lt, bit-le k h.flags)
bit-set_flag f false h k lt =
    ground
      (arith, bit-bit_and k h.flags (65535 - weight f), bit-complement f k lt, bit-le k h.flags)

set_flag-Fits : (f : Flag) (on : Bool) (h : Header) → Fits h → Fits (set_flag f on h)
unfolding set_flag
set_flag-Fits qr true h i = bit_or_fits h.flags (weight qr) i (omega arith)
set_flag-Fits aa true h i = bit_or_fits h.flags (weight aa) i (omega arith)
set_flag-Fits tc true h i = bit_or_fits h.flags (weight tc) i (omega arith)
set_flag-Fits rd true h i = bit_or_fits h.flags (weight rd) i (omega arith)
set_flag-Fits ra true h i = bit_or_fits h.flags (weight ra) i (omega arith)
set_flag-Fits f false h i = bit_and_fits h.flags (65535 - weight f) i

-- A getter reads its bit.
pub get_flag-bit : (f : Flag) (h : Header) → Fits h → get_flag f h ≡ (bit (position f) h.flags == 1)
unfolding get_flag bit
get_flag-bit qr h i = ap (λ b. b == 1) (omega arith)
get_flag-bit aa h i = rw bit_and-one (ap (λ b. b == 1) (omega arith))
get_flag-bit tc h i = rw bit_and-one (ap (λ b. b == 1) (omega arith))
get_flag-bit rd h i = rw bit_and-one (ap (λ b. b == 1) (omega arith))
get_flag-bit ra h i = rw bit_and-one (ap (λ b. b == 1) (omega arith))

position-lt : (f : Flag) → position f < 16
position-lt qr = omega arith
position-lt aa = omega arith
position-lt tc = omega arith
position-lt rd = omega arith
position-lt ra = omega arith

-- After a setter, the getter of the same flag gives the value set, and the getter of any other flag
-- what it gave before.
pub get_flag-set_flag :
    (f g : Flag) (on : Bool) (h : Header)
    → Fits h
    → get_flag f (set_flag g on h) ≡ (if position f == position g then on else get_flag f h)
get_flag-set_flag f g on h i =
    let lt : position f < 16 = position-lt f in
    let e = bit-set_flag g on h (position f) lt in
    get_flag-bit f (set_flag g on h) (set_flag-Fits g on h i)
    ∙ split on (position f == position g) (bit (position f) h.flags) e (get_flag-bit f h i)
  where
    split :
        (on c : Bool) {x : ℕ} (y : ℕ) {old : Bool}
        → x ≡ (if c then (if on then 1 else 0) else y)
        → old ≡ (y == 1)
        → (x == 1) ≡ (if c then on else old)
    split true true y e o = rw e
    split false true y e o = rw e
    split on false y e o = rw e (sym o)
