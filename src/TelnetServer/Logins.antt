-- ===== src/TelnetServer/Logins.antt =====
-- No client of telnet-server/ ever logs in.
use network_protocols.Common.{
  ℕ, zero, suc, ◌≡◌, ◌≢◌, refl, ap, ◌∙◌, Bool, true, false, not, ◌⊎◌, inl, inr, [], ◌∷◌, ◌++◌,
  Bytes, take, get_or, codes, bytes_eq, ◌==◌, ==_iff, List, if◌then◌else◌, Bool-cases, ◌-◌, arith,
}
use network_protocols.TelnetServer.Client.{
  AuthStatus, Client, remove_client, log_in, message_in, on_message_received, below_f0, ends_line,
  line_ended, edit, received, receive_async, Step, reads_ok, reads_error, writes_ok, writes_error,
  Reach, here, next, new_client,
}

abbrev Without : ℕ → Bytes → Type 0
Without x [] = Unit
Without x (c ∷ cs) = (c ≢ x) × Without x cs

-- A text with a byte that a word does not have is another.
bytes_eq-Without : (x : ℕ) (v rest w : Bytes) → Without x w → bytes_eq (v ++ x ∷ rest) w ≡ false
unfolding bytes_eq
bytes_eq-Without x [] rest [] h = refl
bytes_eq-Without x [] rest (d ∷ w) h = ground (arith, h.0)
bytes_eq-Without x (c ∷ v) rest [] h = refl
bytes_eq-Without x (c ∷ v) rest (d ∷ w) h = ground (arith, bytes_eq-Without x v rest w h.1)

-- The bytes that end a line are in the message, and in no word of the log in.
not_testuser :
    (x : ℕ) (v rest : Bytes)
    → (x ≡ 46) ⊎ (x ≡ 13)
    → bytes_eq (v ++ x ∷ rest) (codes "testuser") ≡ false
not_testuser x v rest (inl e) = rw e (bytes_eq-Without 46 v rest (codes "testuser") (omega arith))
not_testuser x v rest (inr e) = rw e (bytes_eq-Without 13 v rest (codes "testuser") (omega arith))

line_end_bytes : (x y : ℕ) (received : Bytes) → ends_line x y received ≡ true → (x ≡ 46) ⊎ (x ≡ 13)
line_end_bytes x y received h = elim (Bool-cases (x == 46)) [
  | inl e ↦ inl (ground arith)
  | inr e ↦ inr (ground arith)
]

message_in_guest :
    (status : AuthStatus) (message : Bytes) (c : Client)
    → status ≡ AuthStatus.guest
    → bytes_eq message (codes "testuser") ≡ false
    → message_in status message c ≡ remove_client c
unfolding message_in log_in
message_in_guest AuthStatus.guest message c e b = rw b refl
message_in_guest AuthStatus.authenticating message c e b = cc
message_in_guest AuthStatus.logged_in message c e b = cc

ended_line :
    (buffer : Bytes) (n : ℕ) (c : Client)
    → c.auth_status ≡ AuthStatus.guest
    → n ≢ 0
    → ends_line (get_or buffer 0 0) (get_or buffer 1 0) c.received_data ≡ true
    → (line_ended (c.received_data ++ take n buffer) c).0
      ≡ record (remove_client c) { received_data = [] }
unfolding on_message_received
ended_line [] n c g ne h = cc
ended_line (x ∷ xs) zero c g ne h = absurd (ne refl)
ended_line (x ∷ xs) (suc n) c g ne h =
    let refused =
      not_testuser x c.received_data (take n xs) (line_end_bytes x _ c.received_data h) in
    ap (λ (d : Client). record d { received_data = [] })
      (message_in_guest c.auth_status _ c g refused)

edit_guest : (x : ℕ) (bytes : Bytes) (c : Client) → (edit x bytes c).0.auth_status ≡ c.auth_status
edit_guest x bytes c = ground arith

IsGuest : Client × List Bytes → Type 0
IsGuest r = r.0.auth_status ≡ AuthStatus.guest

by_test :
    (b : Bool) (q r : Client × List Bytes)
    → (b ≡ true → IsGuest q)
    → (b ≡ false → IsGuest r)
    → IsGuest (if b then q else r)
by_test true q r hq hr = hq refl
by_test false q r hq hr = hr refl

received_guest :
    (buffer : Bytes) (n : ℕ) (c : Client)
    → c.auth_status ≡ AuthStatus.guest
    → (received buffer n c).0.auth_status ≡ AuthStatus.guest
unfolding received IsGuest
received_guest buffer n c g =
    let x = get_or buffer 0 0 in
    let message = c.received_data ++ take n buffer in
    by_test (n == 0) (remove_client c, []) _ (λ z. g)
      (λ ne.
        by_test (not (below_f0 x)) (receive_async c, []) _ (λ b. g)
          (λ b.
            by_test (ends_line x (get_or buffer 1 0) c.received_data) (line_ended message c)
              (edit x (take n buffer) c)
              (λ e.
                ap (λ (d : Client). d.auth_status)
                  (ended_line buffer n c g (λ z. cc (ne, (==_iff n 0).1 z)) e)
                ∙ g)
              (λ e. edit_guest x (take n buffer) c ∙ g)))

step_guest :
    {c d : Client} → Step c d → c.auth_status ≡ AuthStatus.guest → d.auth_status ≡ AuthStatus.guest
step_guest (reads_ok buffer n c r h) g =
    received_guest buffer n (record c { reads = c.reads - 1 }) g
step_guest (reads_error c r) g = g
step_guest (writes_ok c w) g = g
step_guest (writes_error c w) g = g

-- Whatever a client sends, in whatever order its reads and writes end, it never gets further than a
-- guest: the bytes that end a line are part of the message, which is so never equal to the user name.
pub never_logs_in :
    (id : ℕ) {c : Client} → Reach (new_client id) c → c.auth_status ≡ AuthStatus.guest
never_logs_in id here = refl
never_logs_in id (next r s) = step_guest s (never_logs_in id r)

received_line :
    (buffer : Bytes) (n : ℕ) (c : Client)
    → c.auth_status ≡ AuthStatus.guest
    → n ≢ 0
    → ends_line (get_or buffer 0 0) (get_or buffer 1 0) c.received_data ≡ true
    → (received buffer n c).0 ≡ record (remove_client c) { received_data = [] }
unfolding received
received_line buffer n c g ne e =
    let some_bytes : (n == 0) ≡ false = ground arith in
    let low : not (below_f0 (get_or buffer 0 0)) ≡ false =
      elim (line_end_bytes (get_or buffer 0 0) (get_or buffer 1 0) c.received_data e) [
        | inl p ↦ ground arith
        | inr p ↦ ground arith
      ] in
    rw (some_bytes, low, e) (ended_line buffer n c g ne e)

-- The first line that a client ends, in any state that it can reach, removes it from the server: its
-- session is forgotten, and no read or write of its socket goes on.
pub line_removes :
    (id : ℕ) (c : Client) (buffer : Bytes) (n : ℕ)
    → Reach (new_client id) c
    → n ≢ 0
    → ends_line (get_or buffer 0 0) (get_or buffer 1 0) c.received_data ≡ true
    → (received buffer n c).0 ≡ record (remove_client c) { received_data = [] }
line_removes id c buffer n r ne e = received_line buffer n c (never_logs_in id r) ne e
