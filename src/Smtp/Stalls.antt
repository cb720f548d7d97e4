-- ===== src/Smtp/Stalls.antt =====
-- How an SMTP session answers a line, and the command that it does not answer (smtp/server/smtp_session.cpp).
use network_protocols.Common.{
  ℕ, ◌≡◌, ◌∙◌, ap, Bool, true, false, not, ◌||◌, List, [], ◌∷◌, Option, none, some, Bytes, length,
  codes, ◌==◌, if◌then◌else◌,
}
use network_protocols.Smtp.Session.{Session, Disk, reply, Next, Step}
use network_protocols.Smtp.Commands.{process_vrfy}
use network_protocols.Smtp.Receive.{strncmp_eq, cut_word, dispatch, process_command}

abbrev pub is_in : ℕ → List ℕ → Bool
is_in code [] = false
is_in code (c ∷ cs) = code == c || is_in code cs

-- The step is one reply, with one of the codes, behind which the session receives, or is closed: on
-- 221, and if the reply cannot be written.
pub record GoesOn (sends : Bool) (allowed : List ℕ) (st : Step) : Type 0 where
  pub code : ℕ
  pub one_reply : st.events ≡ reply code ∷ []
  pub code_allowed : is_in code allowed ≡ true
  pub goes_on : st.next ≡ (if not sends || code == 221 then Next.closing else Next.listening)

-- The codes that a line may be answered with, by its first word.
abbrev mail_codes : List ℕ
mail_codes = 250 ∷ 501 ∷ 503 ∷ []

abbrev rcpt_codes : List ℕ
rcpt_codes = 250 ∷ 451 ∷ 501 ∷ 523 ∷ 551 ∷ []

abbrev helo_codes : List ℕ
helo_codes = 250 ∷ 451 ∷ []

abbrev pub parameter_codes : Bytes → List ℕ
parameter_codes word =
    if strncmp_eq word (codes "MAIL FROM")
    then mail_codes
    else if strncmp_eq word (codes "RCPT TO")
    then rcpt_codes
    else 502 ∷ []

abbrev pub plain_codes : Bytes → List ℕ
plain_codes word =
    if strncmp_eq word (codes "HELO")
    then helo_codes
    else if strncmp_eq word (codes "DATA")
    then 354 ∷ []
    else if strncmp_eq word (codes "RSET")
    then 250 ∷ []
    else if strncmp_eq word (codes "NOOP")
    then 250 ∷ []
    else if strncmp_eq word (codes "QUIT")
    then 221 ∷ []
    else 502 ∷ []

abbrev pub line_codes : Option (Bytes × ℕ) → List ℕ
line_codes none = []
line_codes (some (word, stop)) =
    if stop == 32
    then parameter_codes word
    else if length word == 4
    then plain_codes word
    else 500 ∷ []

-- Whether the word of a line is the one of the command VRFY.
abbrev pub is_vrfy : Option (Bytes × ℕ) → Bool
is_vrfy none = false
is_vrfy (some (word, stop)) = strncmp_eq word (codes "VRFY")

-- The command VRFY, behind which the session neither replies nor receives.
process_command-vrfy :
    (disk : Disk) (s : Session) (stop : ℕ)
    → cut_word s.recv_buffer ≡ some (codes "VRFY", stop)
    → (stop == b' ') ≡ false
    → process_command disk s ≡ record { session = s; events = []; next = Next.stalled }
unfolding process_command process_vrfy strncmp_eq
process_command-vrfy disk s stop w e = ap (λ o. dispatch disk o s) w ∙ rw e
