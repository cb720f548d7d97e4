-- ===== src/Ftp/Addresses.antt =====
-- The address that PASV gives, read by PORT.
use network_protocols.Common.{
  ℕ, ◌+◌, ◌*◌, ◌/◌, ◌%◌, ◌<◌, ◌≡◌, refl, sym, ◌∙◌, ap, ◌≢◌, Bool, true, false, ◌||◌, ◌&&◌,
  if◌then◌else◌, Option, none, [], ◌∷◌, ◌++◌, append_assoc, append-nil, some, Bytes, codes,
  is_empty, ltb, leb, ◌==◌, ◌>>=◌, arith,
}
use network_protocols.Common.Decimal.{
  to_string, is_digit, read_digits, read_digits-to_string, AllDigits, to_string-AllDigits,
  to_string-ne-nil,
}
use network_protocols.Ftp.Commands.{Command}
use network_protocols.Ftp.Handlers.{Session, message}
use network_protocols.Ftp.Connections.{
  split_from, split, skip_spaces, stoi, host_port, Network, connected, handle_port, pasv_address,
}
use network_protocols.Ftp.Execute.{
  Surroundings, Outcome, done, thrown, finish_or_throw, behind_byte, before_byte, dispatch,
}

abbrev pub Without : ℕ → Bytes → Type 0
Without x [] = Unit
Without x (c ∷ cs) = (c ≢ x) × Without x cs

pub Without-append : (x : ℕ) (v w : Bytes) → Without x v → Without x w → Without x (v ++ w)
Without-append x [] w hv hw = hw
Without-append x (c ∷ v) w hv hw = (hv.0, Without-append x v w hv.1 hw)

-- Digits are no separators.
AllDigits-Without : (x : ℕ) (ds : Bytes) → x < b'0' → AllDigits ds → Without x ds
AllDigits-Without x [] h d = tt
AllDigits-Without x (c ∷ ds) h d = (λ e. absurd (omega arith), AllDigits-Without x ds h d.2)

split_from-item :
    (x : ℕ) (item w rest : Bytes)
    → Without x w
    → split_from x item (w ++ x ∷ rest) ≡ (item ++ w) ∷ split_from x [] rest
unfolding split_from
split_from-item x item [] rest h =
    let here : (x == x) ≡ true = ground arith in
    rw here (ap (λ i. i ∷ split_from x [] rest) (sym (append-nil item)))
split_from-item x item (c ∷ w) rest h =
    let no : (c == x) ≡ false = ground (arith, h.0) in
    rw no (
      split_from-item x (item ++ c ∷ []) w rest h.1
      ∙ ap (λ i. i ∷ split_from x [] rest) (append_assoc item (c ∷ []) w))

pub split_from_last :
    (x : ℕ) (item w : Bytes)
    → Without x w
    → is_empty (item ++ w) ≡ false
    → split_from x item w ≡ (item ++ w) ∷ []
unfolding split_from
split_from_last x item [] h n = rw append-nil (rw (ap is_empty (sym (append-nil item)) ∙ n) refl)
split_from_last x item (c ∷ w) h n =
    let no : (c == x) ≡ false = ground (arith, h.0) in
    let same = append_assoc item (c ∷ []) w in
    rw no (split_from_last x (item ++ c ∷ []) w h.1 (ap is_empty same ∙ n) ∙ ap (λ i. i ∷ []) same)

skip_spaces_digits : (c : ℕ) (ds : Bytes) → AllDigits (c ∷ ds) → skip_spaces (c ∷ ds) ≡ c ∷ ds
unfolding skip_spaces
skip_spaces_digits c ds d =
    let space : (c == b' ') ≡ false = ground arith in
    let low : leb c 13 ≡ false = ground arith in
    let late : leb 9 c ≡ true = ground arith in rw (space, late, low) refl

-- `std::stoi` reads digits back.
stoi_digits :
    (ds : Bytes) (n : ℕ)
    → AllDigits ds
    → ds ≢ []
    → read_digits 0 ds ≡ n
    → n < 65536
    → stoi ds ≡ some n
unfolding stoi
stoi_digits [] n d ne e h = absurd (ne refl)
stoi_digits (c ∷ ds) n d ne e h =
    let minus : (c == b'-') ≡ false = ground arith in
    let plus : (c == b'+') ≡ false = ground arith in
    let digit : is_digit c ≡ true = ground arith in
    let fits : ltb 2147483647 n ≡ false = ground arith in
    rw (skip_spaces_digits c ds d, stoi) (rw (minus, plus, digit, e, fits) refl)

stoi-to_string : (n : ℕ) → n < 65536 → stoi (to_string n) ≡ some n
stoi-to_string n h =
    stoi_digits (to_string n) n (to_string-AllDigits n) (to_string-ne-nil n)
      (read_digits-to_string n) h

not_empty : (xs : Bytes) → xs ≢ [] → is_empty xs ≡ false
not_empty [] h = absurd (h refl)
not_empty (x ∷ xs) h = refl

pasv_items :
    (port : ℕ)
    → split (pasv_address port) b','
      ≡ codes "127"
        ∷ codes "0"
        ∷ codes "0"
        ∷ codes "1"
        ∷ to_string (port / 256)
        ∷ to_string (port % 256)
        ∷ []
unfolding split_from pasv_address
pasv_items port =
    let high = AllDigits-Without b',' _ (omega arith) (to_string-AllDigits (port / 256)) in
    let low = AllDigits-Without b',' _ (omega arith) (to_string-AllDigits (port % 256)) in
    let items =
      split_from-item b',' [] (to_string (port / 256)) (to_string (port % 256)) high
      ∙ ap (λ l. to_string (port / 256) ∷ l)
          (split_from_last b',' [] (to_string (port % 256)) low
            (not_empty _ (to_string-ne-nil (port % 256)))) in
    ap (λ l. codes "127" ∷ codes "0" ∷ codes "0" ∷ codes "1" ∷ l) items

-- What PORT makes of the answer of the network: a refused address is an exception.
abbrev pub port_outcome : Network → Session → Option Bool → Outcome
port_outcome net s none = thrown
port_outcome net s (some success) =
    done (record s { data_open = s.data_open || net.opens_data })
      (if (s.data_open || net.opens_data) && success
        then message (codes "200 PORT command successful") ∷ []
        else [])

connected-port_outcome :
    (net : Network) (s : Session) (o : Option Bool)
    → finish_or_throw (o >>= λ success. some (connected net s success)) ≡ port_outcome net s o
connected-port_outcome net s none = refl
connected-port_outcome net s (some success) = refl

-- The text of PASV's address leads PORT to it.
handle_port-pasv_address :
    (net : Network) (port : ℕ) (s : Session)
    → port < 65536
    → handle_port net (pasv_address port) s
      ≡ (net.connects (codes "127.0.0.1") port >>= λ success. some (connected net s success))
unfolding handle_port host_port
handle_port-pasv_address net port s h =
    let high = stoi-to_string (port / 256) (omega arith) in
    let low = stoi-to_string (port % 256) (omega arith) in
    let whole : (port / 256 * 256 + port % 256) % 65536 ≡ port = omega arith in
    rw (pasv_items port) (rw (high, low, whole) refl)

before_byte-append : (x : ℕ) (w rest : Bytes) → Without x w → before_byte x (w ++ x ∷ rest) ≡ w
unfolding before_byte
before_byte-append x [] rest h = let here : (x == x) ≡ true = ground arith in rw here refl
before_byte-append x (c ∷ w) rest h =
    let no : (c == x) ≡ false = ground (arith, h.0) in
    rw no (ap (◌∷◌ c) (before_byte-append x w rest h.1))

pasv_address-Without : (port : ℕ) → Without b')' (pasv_address port)
unfolding pasv_address
pasv_address-Without port =
    let high = AllDigits-Without b')' _ (omega arith) (to_string-AllDigits (port / 256)) in
    let low = AllDigits-Without b')' _ (omega arith) (to_string-AllDigits (port % 256)) in
    let prefix : Without b')' (codes "127,0,0,1,") = omega arith in
    Without-append b')' (codes "127,0,0,1,") _ prefix
      (Without-append b')' (to_string (port / 256)) _ high (λ e. absurd (omega arith), low))

-- A client that copies the text of PASV's reply into PORT, words and brackets and all, makes the
-- server connect to the address 127.0.0.1 and the port that PASV told of. An address that is
-- refused is an exception; otherwise the data socket is open if it was open or could be opened,
-- whether the connection succeeds or not, and the reply 200 is sent if it is open and the
-- connection succeeds, and else none.
pub port-pasv :
    (env : Surroundings) (port : ℕ) (s : Session)
    → port < 65536
    → dispatch env Command.port
        (codes "Entering Passive Mode (" ++ (pasv_address port ++ codes ")."))
        s
      ≡ port_outcome env.net s (env.net.connects (codes "127.0.0.1") port)
unfolding dispatch behind_byte
port-pasv env port s h =
    ap (λ args. finish_or_throw (handle_port env.net args s))
      (before_byte-append b')' (pasv_address port) (codes ".") (pasv_address-Without port))
    ∙ ap finish_or_throw (handle_port-pasv_address env.net port s h)
    ∙ connected-port_outcome env.net s (env.net.connects (codes "127.0.0.1") port)
