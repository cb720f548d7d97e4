-- ===== src/Telnet/Edits.antt =====
-- What the keys of the interaction change in a Telnet session: the line, and the place in the
-- history.
use network_protocols.Common.{
  ℕ, ◌≡◌, refl, ◌∙◌, ap, true, ◌&&◌, inl, inr, [], ◌∷◌, ◌++◌, Option, none, some, Bytes, length,
  length-append, take, take-length_append, bytes_eq, ltb, codes, ◌==◌, Bool-cases, arith,
}
use network_protocols.Telnet.Session.{
  nul, back_space, carriage_return, Session, index_of, add_found, add_to_history, show_history,
  arrow_down, arrow_up, process_escape_sequence,
}
use network_protocols.Telnet.History.{IsHistory, add_to_history-IsHistory}
use network_protocols.Telnet.Arrows.{arrow_down-IsHistory, arrow_up-IsHistory}
use network_protocols.Telnet.Receive.{is_print, complete_line, drop_last, interact}

-- The second session has the state, the options, the user and the password of the first, and a well
-- formed history.
pub record Edited (s t : Session) : Type 0 where
  pub state_kept : t.state ≡ s.state
  pub options_kept : t.options_to_confirm ≡ s.options_to_confirm
  pub username_kept : t.username ≡ s.username
  pub password_kept : t.password ≡ s.password
  pub is_history : IsHistory t

take-append-one : (xs : Bytes) (a n : ℕ) → n ≡ length xs → take n (xs ++ a ∷ []) ≡ xs
take-append-one xs a n e = ap (λ n. take n (xs ++ a ∷ [])) e ∙ take-length_append xs (a ∷ [])

drop_last-append : (xs : Bytes) (a : ℕ) → drop_last (xs ++ a ∷ []) ≡ xs
drop_last-append xs a = take-append-one xs a _ (omega (arith, length-append xs (a ∷ [])))

add_found-fields :
    (o : Option ℕ) (line : Bytes) (s : Session)
    → let t = add_found o line s in
      (t.state ≡ s.state)
      × (t.options_to_confirm ≡ s.options_to_confirm)
      × (t.username ≡ s.username)
      × (t.password ≡ s.password)
unfolding add_found
add_found-fields none line s = (refl, refl, refl, refl)
add_found-fields (some i) line s = (refl, refl, refl, refl)

module _ (s : Session) (h : IsHistory s) where
  Edited-refl : Edited s s
  Edited-refl = record {
    state_kept = refl;
    options_kept = refl;
    username_kept = refl;
    password_kept = refl;
    is_history = h;
  }

  arrow_down-Edited : Edited s (arrow_down s).0
  unfolding arrow_down show_history
  arrow_down-Edited =
      let hd = arrow_down-IsHistory s h in
      elim (Bool-cases (ltb 1 (length s.history))) [
        | inl e ↦ record {
          state_kept = rw e refl;
          options_kept = rw e refl;
          username_kept = rw e refl;
          password_kept = rw e refl;
          is_history = hd;
        }
        | inr e ↦ record {
          state_kept = rw e refl;
          options_kept = rw e refl;
          username_kept = rw e refl;
          password_kept = rw e refl;
          is_history = hd;
        }
      ]

  arrow_up-Edited : Edited s (arrow_up s).0
  unfolding arrow_up show_history
  arrow_up-Edited =
      let hu = arrow_up-IsHistory s h in
      elim (Bool-cases (ltb 1 (length s.history))) [
        | inl e ↦ record {
          state_kept = rw e refl;
          options_kept = rw e refl;
          username_kept = rw e refl;
          password_kept = rw e refl;
          is_history = hu;
        }
        | inr e ↦ record {
          state_kept = rw e refl;
          options_kept = rw e refl;
          username_kept = rw e refl;
          password_kept = rw e refl;
          is_history = hu;
        }
      ]

  process_escape_sequence-Edited : (seq : Bytes) → Edited s (process_escape_sequence seq s).0
  unfolding process_escape_sequence
  process_escape_sequence-Edited seq = elim (Bool-cases (bytes_eq seq (0x1B ∷ codes "[D"))) [
    | inl e ↦ rw e Edited-refl
    | inr e1 ↦ elim (Bool-cases (bytes_eq seq (0x1B ∷ codes "[C"))) [
      | inl e ↦ rw (e1, e) Edited-refl
      | inr e2 ↦ elim (Bool-cases (bytes_eq seq (0x1B ∷ codes "[B"))) [
        | inl e ↦ rw (e1, e2, e) arrow_down-Edited
        | inr e3 ↦ elim (Bool-cases (bytes_eq seq (0x1B ∷ codes "[A"))) [
          | inl e ↦ rw (e1, e2, e3, e) arrow_up-Edited
          | inr e4 ↦ rw (e1, e2, e3, e4) Edited-refl
        ]
      ]
    ]
  ]

  complete_line-Edited : Edited s (complete_line s).0
  unfolding complete_line add_to_history
  complete_line-Edited =
      let f = add_found-fields (index_of s.buffer s.history) s.buffer s in
      record {
        state_kept = f.0;
        options_kept = f.1;
        username_kept = f.2;
        password_kept = f.3;
        is_history = add_to_history-IsHistory s.buffer s h;
      }

  typed-Edited : (line : Bytes) → Edited s (record s { buffer = line })
  typed-Edited line = record {
    state_kept = refl;
    options_kept = refl;
    username_kept = refl;
    password_kept = refl;
    is_history = h;
  }

  -- Whatever is received in the interaction.
  pub interact-Edited : (r : Bytes) → Edited s (interact r s).0
  unfolding interact
  interact-Edited [] = Edited-refl
  interact-Edited (a ∷ []) = elim (Bool-cases (is_print a)) [
    | inl e ↦ rw e (typed-Edited (s.buffer ++ a ∷ []))
    | inr e1 ↦ elim (Bool-cases (a == back_space)) [
      | inl e ↦ rw (e1, e) (typed-Edited (drop_last s.buffer))
      | inr e2 ↦ rw (e1, e2) Edited-refl
    ]
  ]
  interact-Edited (a ∷ b ∷ []) = elim (Bool-cases (a == carriage_return && b == nul)) [
    | inl e ↦ rw e complete_line-Edited
    | inr e ↦ rw e Edited-refl
  ]
  interact-Edited (a ∷ b ∷ c ∷ []) = elim (Bool-cases (a == 0x1B)) [
    | inl e ↦ rw e (process_escape_sequence-Edited (a ∷ b ∷ c ∷ []))
    | inr e ↦ rw e Edited-refl
  ]
  interact-Edited (a ∷ b ∷ c ∷ d ∷ r) = Edited-refl

-- Typing a printable key and then the back space leaves the session as it was.
pub back_space-type :
    (a : ℕ) (s : Session)
    → is_print a ≡ true
    → (interact (back_space ∷ []) (interact (a ∷ []) s).0).0 ≡ s
unfolding interact
back_space-type a s e = rw e (ap (λ b. record s { buffer = b }) (drop_last-append s.buffer a))
