-- ===== src/Tftp/Strings.antt =====
-- The NUL-terminated strings of a request.
use network_protocols.Common.{
  ℕ, suc, ◌+◌, ◌≡◌, refl, ◌∙◌, ap, ◌≢◌, [], ◌∷◌, ◌++◌, none, some, Bytes, length, drop, put_u16,
  codes, arith,
}
use network_protocols.Tftp.Protocol.{TransferMode, binary, ascii, MessageType, opcode, c_string}
use network_protocols.Tftp.Reader.Requests.{mode_of, request, parse_mode, parse_request}

-- No byte is NUL.
abbrev pub NoNul : Bytes → Type 0
NoNul [] = Unit
NoNul (x ∷ xs) = (x ≢ 0) × NoNul xs

c_string_step :
    (x : ℕ) (xs : Bytes)
    → x ≢ 0
    → {s : Bytes} → c_string xs ≡ some s
    → c_string (x ∷ xs) ≡ some (x ∷ s)
unfolding c_string
c_string_step x xs h e = ground arith

c_string-NoNul : (s rest : Bytes) → NoNul s → c_string (s ++ 0 ∷ rest) ≡ some s
unfolding c_string
c_string-NoNul [] rest h = refl
c_string-NoNul (x ∷ s) rest h = c_string_step x (s ++ 0 ∷ rest) h.0 (c_string-NoNul s rest h.1)

-- A string with no terminator in the buffer is read past the end.
pub c_string_unterminated : (s : Bytes) → NoNul s → c_string s ≡ none
unfolding c_string
c_string_unterminated [] h = refl
c_string_unterminated (x ∷ s) h = ground (arith, c_string_unterminated s)

abbrev pub mode_text : TransferMode → Bytes
mode_text binary = codes "octet"
mode_text ascii = codes "netascii"

-- A request as a client writes it, in a buffer with anything behind it.
abbrev pub request_message : MessageType → Bytes → TransferMode → Bytes → Bytes
request_message t name m rest = put_u16 (opcode t) ++ (name ++ 0 ∷ (mode_text m ++ 0 ∷ rest))

mode_text-NoNul : (m : TransferMode) → NoNul (mode_text m)
mode_text-NoNul binary = omega arith
mode_text-NoNul ascii = omega arith

mode_of-mode_text : (m : TransferMode) → mode_of (mode_text m) ≡ some m
unfolding mode_of
mode_of-mode_text binary = refl
mode_of-mode_text ascii = refl

parse_mode-mode_text :
    (name : Bytes) (m : TransferMode) (rest : Bytes)
    → parse_mode name (mode_text m ++ 0 ∷ rest) ≡ some (request name m)
unfolding parse_mode
parse_mode-mode_text name m rest =
    rw (c_string-NoNul (mode_text m) rest (mode_text-NoNul m), parse_mode)
      (rw (mode_of-mode_text m, parse_mode) refl)

drop_terminated : (s rest : Bytes) → drop (suc (length s)) (s ++ 0 ∷ rest) ≡ rest
drop_terminated [] rest = refl
drop_terminated (x ∷ s) rest = drop_terminated s rest

-- Both strings of a well-formed request are read back.
pub parse_request-request_message :
    (t : MessageType) (name : Bytes) (m : TransferMode) (rest : Bytes)
    → NoNul name
    → name ≢ []
    → parse_request (request_message t name m rest) ≡ some (request name m)
unfolding parse_request
parse_request-request_message t [] m rest h ne = absurd (ne refl)
parse_request-request_message t (x ∷ xs) m rest h ne =
    let after = mode_text m ++ 0 ∷ rest in
    let n : 2 + (length (x ∷ xs) + 1) ≡ suc (suc (suc (length (x ∷ xs)))) = omega arith in
    rw (c_string-NoNul (x ∷ xs) after h, parse_request)
      (ap (λ k. parse_mode (x ∷ xs) (drop k (request_message t (x ∷ xs) m rest))) n
        ∙ ap (parse_mode (x ∷ xs)) (drop_terminated (x ∷ xs) after)
        ∙ parse_mode-mode_text (x ∷ xs) m rest)
