-- ===== src/Ftp/Connections.antt =====
-- The data connection of ftp/server/ftp_session.cpp: PORT, EPRT, PASV and EPSV, and `split` of
-- ftp/common/src/string_utils.cpp.
use network_protocols.Common.{
  ℕ, ◌+◌, ◌-◌, ◌*◌, ◌/◌, ◌%◌, Bool, true, false, not, ◌&&◌, ◌||◌, List, [], ◌∷◌, ◌++◌, Option, none,
  some, Bytes, codes, is_empty, ltb, leb, ◌==◌, if◌then◌else◌, ◌>>=◌,
}
use network_protocols.Common.Decimal.{to_string, is_digit, read_digits}
use network_protocols.Ftp.Handlers.{Session, Event, message}

-- `string_utils::split`, with the bytes since the last separator: `getline` gives no item behind a
-- separator at the end.
unfoldable pub split_from : ℕ → Bytes → Bytes → List Bytes
split_from delim item [] = if is_empty item then [] else item ∷ []
split_from delim item (c ∷ cs) =
    let ended = item ∷ split_from delim [] cs in
    let longer = split_from delim (item ++ c ∷ []) cs in if c == delim then ended else longer

abbrev pub split : Bytes → ℕ → List Bytes
split s delim = split_from delim [] s

-- `std::isspace` in the C locale.
abbrev pub is_space : ℕ → Bool
is_space c = c == b' ' || (leb 9 c && leb c 13)

unfoldable pub skip_spaces : Bytes → Bytes
skip_spaces [] = []
skip_spaces (c ∷ cs) = let rest = skip_spaces cs in if is_space c then rest else c ∷ cs

abbrev starts_with_digit : Bytes → Bool
starts_with_digit [] = false
starts_with_digit (c ∷ cs) = is_digit c

-- The number that digits give, modulo 2^32 and negative if the flag says so; `none` is an exception:
-- no digits, or an `int` out of range.
signed : Bool → Bytes → Option ℕ
signed negative ds =
    let n = read_digits 0 ds in
    if not (starts_with_digit ds)
    then none
    else if ltb (if negative then 2147483648 else 2147483647) n
    then none
    else some (if negative then (4294967296 - n) % 4294967296 else n)

after_sign : Bytes → Option ℕ
unfolding signed
after_sign [] = none
after_sign (c ∷ cs) =
    if c == b'-'
    then signed true cs
    else if c == b'+'
    then signed false cs
    else signed false (c ∷ cs)

-- `std::stoi`, as an `int` modulo 2^32.
unfoldable pub stoi : Bytes → Option ℕ
unfolding after_sign skip_spaces
stoi s = after_sign (skip_spaces s)

-- The address and the port of PORT. Fewer than six elements are read past the end of the vector,
-- which is `none`, as an exception of `stoi` is. The port is cut to 16 bits.
unfoldable pub host_port : List Bytes → Option (Bytes × ℕ)
host_port (h₀ ∷ h₁ ∷ h₂ ∷ h₃ ∷ p₀ ∷ p₁ ∷ _) = do
  high ← stoi p₀
  low ← stoi p₁
  some (h₀ ++ (b'.' ∷ (h₁ ++ (b'.' ∷ (h₂ ++ (b'.' ∷ h₃))))), (high * 256 + low) % 65536)
host_port _ = none

-- What the network answers: `connects` whether a connection could be made, where `none` is an
-- address that is refused by an exception; `opens_data` whether the data socket can be opened to
-- connect it; and how far a passive connection comes, where `accepts` is `none` if no connection
-- ever comes.
pub record Network : Type 0 where
  pub connects : Bytes → ℕ → Option Bool
  pub opens_data : Bool
  pub opens : Bool
  pub sets_option : Bool
  pub binds : Bool
  pub listens : Bool
  pub accepts : Option Bool

-- `openDataConnectionActive`, and the reply of `handlePort`. asio opens the socket to connect it,
-- if it is not open, and leaves it open when the connection fails.
abbrev pub connected : Network → Session → Bool → Session × List Event
connected net s success =
    let is_open = s.data_open || net.opens_data in
    (
      record s { data_open = is_open },
      if is_open && success then message (codes "200 PORT command successful") ∷ [] else [],
    )

-- `handlePort`; `none` is an exception, or a read past the end of the vector.
unfoldable pub handle_port : Network → Bytes → Session → Option (Session × List Event)
handle_port net args s = do
  to ← host_port (split args b',')
  success ← net.connects to.0 to.1
  some (connected net s success)

-- `openDataConnectionPassive`: the session afterwards; `none` while `accept` waits. The acceptor
-- stays open when a later step fails.
unfoldable pub open_passive : Network → Session → Option Session
open_passive net s =
    let opened : Session = record s { acceptor_open = true } in
    if s.data_open
    then some s
    else if s.acceptor_open || not net.opens
    then some s
    else if not (net.sets_option && net.binds && net.listens)
    then some opened
    else (net.accepts >>= λ accepted. some (record opened { data_open = accepted }))

-- `handleEpsv`
unfoldable pub handle_epsv : Network → Session → Option (Session × List Event)
handle_epsv net s = open_passive net s >>= λ t. some (
  t,
  message (codes "229 Entering Extended Passive Mode (|||" ++ (to_string s.data_port ++ codes "|)"))
      ∷ [],
)

-- The address and the port as PASV writes them.
unfoldable pub pasv_address : ℕ → Bytes
pasv_address port =
    codes "127,0,0,1," ++ (to_string (port / 256) ++ (b',' ∷ to_string (port % 256)))

-- `handlePasv`
unfoldable pub handle_pasv : Network → Session → Option (Session × List Event)
handle_pasv net s = open_passive net s >>= λ t. some (
  t,
  message (codes "227 Entering Passive Mode (" ++ (pasv_address s.data_port ++ codes ").")) ∷ [],
)
