-- ===== src/Smtp/Lines.antt =====
-- A line of a command among the bytes received: `getAddress` and the word of `processCommand` of
-- smtp/server/smtp_session.cpp on it.
use network_protocols.Common.{
  ℕ, ◌≡◌, refl, ap, Bool, true, false, ◌||◌, inl, inr, [], ◌∷◌, ◌++◌, Option, none, some, Bytes,
  ◌==◌, if◌then◌else◌, ◌>>=◌, Bool-cases, arith,
}
use network_protocols.Smtp.Commands.{is_line_end, address_end, has_end, get_address}
use network_protocols.Smtp.Receive.{cut_word}

-- The bytes hold the end of a line.
abbrev pub has_line : Bytes → Bool
has_line [] = false
has_line (c ∷ cs) = (c == 13 || c == 10) || has_line cs

-- With a line end the address is found without reading past the buffer, and the word of the line is
-- not in what the buffer held before.
abbrev pub IsFound : Option Bytes → Type 0
IsFound none = ⊥
IsFound (some a) = Unit

IsFound-cons : (c : ℕ) (o : Option Bytes) → IsFound o → IsFound (o >>= λ a. some (c ∷ a))
IsFound-cons c none h = absurd h
IsFound-cons c (some a) h = tt

has_line-tail :
    (c : ℕ) (cs : Bytes) → is_line_end c ≡ false → has_line (c ∷ cs) ≡ true → has_line cs ≡ true
has_line-tail c cs e h = ground (arith, e, h)

address_end-IsFound : (b : Bytes) → has_line b ≡ true → IsFound (address_end b)
unfolding address_end
address_end-IsFound [] h = absurd (cc (h))
address_end-IsFound (c ∷ cs) h = elim (Bool-cases (c == b'>')) [
  | inl e ↦ rw e tt
  | inr e ↦ elim (Bool-cases (is_line_end c)) [
    | inl f ↦ rw (e, f) tt
    | inr f ↦
        rw (e, f)
          (IsFound-cons c (address_end cs) (address_end-IsFound cs (has_line-tail c cs f h)))
  ]
]

IsFound-bind : (o : Option Bytes) (f : Bytes → Bytes) → IsFound o → IsFound (o >>= λ a. some (f a))
IsFound-bind none f h = absurd h
IsFound-bind (some a) f h = tt

pub get_address-IsFound : (b : Bytes) → has_line b ≡ true → IsFound (get_address b)
unfolding get_address
get_address-IsFound [] h = tt
get_address-IsFound (c ∷ cs) h = elim (Bool-cases (is_line_end c)) [
  | inl f ↦ elim (Bool-cases (c == b'<')) [
    | inl e ↦ absurd (ground (arith, e, f))
    | inr e ↦ rw (e, f) tt
  ]
  | inr f ↦ elim (Bool-cases (c == b'<')) [
    | inl e ↦ rw e (
        IsFound-bind (address_end cs) (λ a. if has_end cs then a else [])
          (address_end-IsFound cs (has_line-tail c cs f h)))
    | inr e ↦ rw (e, f) (get_address-IsFound cs (has_line-tail c cs f h))
  ]
]

pub cut_word-append : (b rest : Bytes) → has_line b ≡ true → cut_word (b ++ rest) ≡ cut_word b
unfolding cut_word
cut_word-append [] rest h = absurd (cc (h))
cut_word-append (c ∷ cs) rest h = elim (Bool-cases (is_line_end c)) [
  | inl f ↦ let t : (c == b' ' || is_line_end c) ≡ true = ground (arith, f) in rw t refl
  | inr f ↦
      ap
        (λ o. if c == b' ' || is_line_end c then some ([], c) else (o >>= λ r. some (c ∷ r.0, r.1)))
        (cut_word-append cs rest (has_line-tail c cs f h))
]

pub has_line-append : (b rest : Bytes) → has_line b ≡ true → has_line (b ++ rest) ≡ true
has_line-append [] rest h = absurd (cc (h))
has_line-append (c ∷ cs) rest h = elim (Bool-cases (is_line_end c)) [
  | inl f ↦ rw f refl
  | inr f ↦ rw f (has_line-append cs rest (has_line-tail c cs f h))
]

-- A line has a word.
abbrev pub IsWord : Option (Bytes × ℕ) → Type 0
IsWord none = ⊥
IsWord (some w) = Unit

IsWord-cons : (c : ℕ) (o : Option (Bytes × ℕ)) → IsWord o → IsWord (o >>= λ r. some (c ∷ r.0, r.1))
IsWord-cons c none h = absurd h
IsWord-cons c (some r) h = tt

pub cut_word-IsWord : (b : Bytes) → has_line b ≡ true → IsWord (cut_word b)
unfolding cut_word
cut_word-IsWord [] h = absurd (cc (h))
cut_word-IsWord (c ∷ cs) h = elim (Bool-cases (c == b' ' || is_line_end c)) [
  | inl e ↦ rw e tt
  | inr e ↦
      rw e (
        IsWord-cons c (cut_word cs) (cut_word-IsWord cs (has_line-tail c cs (ground (arith, e)) h)))
]
