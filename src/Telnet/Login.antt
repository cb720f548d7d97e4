-- ===== src/Telnet/Login.antt =====
-- The negotiation and the login of a Telnet client, key by key.
use network_protocols.Common.{
  ℕ, ◌≡◌, refl, ◌∙◌, ap, true, false, ◌&&◌, inl, inr, List, [], ◌∷◌, ◌++◌, append-nil, append_assoc,
  Bytes, is_empty, codes, bytes_eq, if◌then◌else◌, Bool-cases,
}
use network_protocols.Telnet.Session.{
  nul, carriage_return, State, Session, sent, start_authentication, start_interaction, authorize,
}
use network_protocols.Telnet.Receive.{is_print, enter_credential, authenticate, receive, run}

-- A text as the keyboard sends it: each byte on its own, and CR NUL at the end of the line.
abbrev pub keys : Bytes → List Bytes
keys [] = (carriage_return ∷ nul ∷ []) ∷ []
keys (c ∷ cs) = (c ∷ []) ∷ keys cs

abbrev pub Printable : Bytes → Type 0
Printable [] = Unit
Printable (c ∷ cs) = (is_print c ≡ true) × Printable cs

run-append : (xs ys : List Bytes) (s : Session) → run (xs ++ ys) s ≡ run ys (run xs s)
run-append [] ys s = refl
run-append (x ∷ xs) ys s = run-append xs ys (receive x s).0

-- A session that asks for the user name or the password, with what was entered so far.
abbrev asking : Session → Bytes → Bytes → Session
asking s username buffer = record s {
  state = State.authentication;
  username = username;
  buffer = buffer;
}

receive-type :
    (s : Session) (username buffer : Bytes) (c : ℕ)
    → is_print c ≡ true
    → (receive (c ∷ []) (asking s username buffer)).0 ≡ asking s username (buffer ++ c ∷ [])
unfolding receive authenticate
receive-type s username buffer c e = rw e

run-keys :
    (text : Bytes) (s : Session) (username buffer : Bytes)
    → Printable text
    → run (keys text) (asking s username buffer)
      ≡ (enter_credential (asking s username (buffer ++ text))).0
unfolding receive authenticate
run-keys [] s username buffer p = rw append-nil
run-keys (c ∷ cs) s username buffer p =
    ap (run (keys cs)) (receive-type s username buffer c p.0)
    ∙ run-keys cs s username (buffer ++ c ∷ []) p.1
    ∙ ap (λ b. (enter_credential (asking s username b)).0) (append_assoc buffer (c ∷ []) cs)

-- The session behind the test of the credentials.
abbrev pub logged_in : Bytes → Bytes → Session → Session
logged_in user password s = record s {
  username = user;
  password = password;
  state = State.interaction;
  buffer = [];
}

abbrev pub asked_again : Session → Session
asked_again s = record s { username = []; password = []; state = State.authentication; buffer = [] }

enter_credential_password :
    (s : Session) (user password : Bytes)
    → is_empty user ≡ false
    → (enter_credential (asking s user password)).0 ≡ (
        if bytes_eq user (codes "testuser") && bytes_eq password (codes "testpassword")
        then logged_in user password s
        else asked_again s)
unfolding enter_credential authorize start_interaction start_authentication
enter_credential_password s user password e =
    elim (Bool-cases
      (bytes_eq user (codes "testuser") && bytes_eq password (codes "testpassword"))) [
        | inl t ↦ rw (e, t)
        | inr f ↦ rw (e, f)
      ]

-- A client that is asked for the user name, and types one that is not empty and a password, key by
-- key, is in the interaction if they are `testuser` and `testpassword`, and is asked for both again
-- otherwise.
pub run-login :
    (s : Session) (user password : Bytes)
    → Printable user
    → Printable password
    → is_empty user ≡ false
    → run (keys user ++ keys password) (start_authentication s).0 ≡ (
        if bytes_eq user (codes "testuser") && bytes_eq password (codes "testpassword")
        then logged_in user password s
        else asked_again s)
unfolding start_authentication enter_credential
run-login s user password pu pp e =
    let t : Session = record s { password = [] } in
    run-append (keys user) (keys password) (start_authentication s).0
    ∙ ap (run (keys password)) (run-keys user t [] [] pu)
    ∙ run-keys password t user [] pp
    ∙ enter_credential_password t user password e

-- With an empty user name the client is sent the end of the line and asked for the password, and the
-- line that it types then is taken for the user name.
pub run_empty_username :
    (s : Session) (line : Bytes)
    → Printable line
    → ((receive (carriage_return ∷ nul ∷ []) (start_authentication s).0).1
        ≡ sent (codes "\r\n") ∷ sent (codes "Password: ") ∷ [])
      × (run (keys [] ++ keys line) (start_authentication s).0
          ≡ record (asked_again s) { username = line })
unfolding start_authentication enter_credential receive authenticate
run_empty_username s line p = (refl, run-keys line (record s { password = [] }) [] [] p)
