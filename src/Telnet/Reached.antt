-- ===== src/Telnet/Reached.antt =====
-- What holds of a Telnet session in every state that it reaches.
use network_protocols.Common.{
  ℕ, ◌≡◌, refl, ◌∙◌, ap, Bool, true, false, ◌&&◌, inl, inr, List, [], ◌∷◌, ◌++◌, Bytes, is_empty,
  codes, bytes_eq, ◌==◌, Bool-cases, arith,
}
use network_protocols.Telnet.Session.{
  nul, carriage_return, State, Session, start, start_authentication, start_interaction, authorize,
}
use network_protocols.Telnet.History.{IsHistory}
use network_protocols.Telnet.Edits.{Edited, interact-Edited}
use network_protocols.Telnet.Receive.{
  receive_in, is_print, confirm_options, negotiate_end, negotiate, enter_credential, authenticate,
  interact, receive, run,
}

-- What the state says of the options that are not confirmed and of the test of the credentials.
abbrev pub Allowed : State → List ℕ → Bool → Type 0
Allowed State.negotiation options authorized = Unit
Allowed State.authentication options authorized = options ≡ []
Allowed State.interaction options authorized = (options ≡ []) × (authorized ≡ true)

-- The history is well formed; behind the negotiation every option is confirmed; in the interaction
-- the user name and the password are the right ones.
pub record IsSession (s : Session) : Type 0 where
  pub is_history : IsHistory s
  pub allowed : Allowed s.state s.options_to_confirm (authorize s)

-- A session as it is constructed.
abbrev pub new_session : Bool → Session
new_session notifies = record {
  username = [];
  password = [];
  state = State.negotiation;
  options_to_confirm = [];
  buffer = [];
  history = [];
  history_pos = 0;
  notifies = notifies;
}

pub start-IsSession : (notifies : Bool) → IsSession (start (new_session notifies)).0
unfolding start
start-IsSession notifies = record {
  is_history = record { bounded = omega arith; distinct = tt; position = inr refl };
  allowed = tt;
}

in_negotiation : (s : Session) → IsHistory s → s.state ≡ State.negotiation → IsSession s
in_negotiation s h e = record { is_history = h; allowed = rw e tt }

in_authentication :
    (s : Session)
    → IsHistory s
    → s.state ≡ State.authentication
    → s.options_to_confirm ≡ []
    → IsSession s
in_authentication s h e o = record { is_history = h; allowed = rw e o }

in_interaction :
    (s : Session)
    → IsHistory s
    → s.state ≡ State.interaction
    → s.options_to_confirm ≡ []
    → authorize s ≡ true
    → IsSession s
unfolding authorize
in_interaction s h e o a = record { is_history = h; allowed = rw e (o, a) }

negotiate_end-IsSession :
    (options : List ℕ) (s : Session)
    → IsHistory s
    → s.state ≡ State.negotiation
    → s.options_to_confirm ≡ options
    → IsSession (negotiate_end options s).0
unfolding start_authentication
negotiate_end-IsSession [] s h e o = in_authentication _ h refl o
negotiate_end-IsSession (x ∷ xs) s h e o = in_negotiation s h e

authorize_started : (s : Session) → authorize s ≡ true → authorize (start_interaction s) ≡ true
unfolding authorize start_interaction
authorize_started s e = e

module _ (s : Session) (h : IsHistory s) where
  negotiate-IsSession : (r : Bytes) → s.state ≡ State.negotiation → IsSession (negotiate r s).0
  unfolding negotiate
  negotiate-IsSession r e =
      let options = confirm_options false r s.options_to_confirm in
      negotiate_end-IsSession options (record s { options_to_confirm = options }) h e refl

  module _ (o : s.options_to_confirm ≡ []) where
    enter_credential-IsSession : s.state ≡ State.authentication → IsSession (enter_credential s).0
    unfolding enter_credential start_authentication start_interaction
    enter_credential-IsSession e =
        let entered : Session = record s { password = s.buffer; buffer = [] } in
        elim (Bool-cases (is_empty s.username)) [
          | inl t ↦ rw t (in_authentication (record s { username = s.buffer; buffer = [] }) h e o)
          | inr f ↦ elim (Bool-cases (authorize entered)) [
            | inl t ↦
                rw (f, t)
                  (in_interaction (start_interaction entered) h refl o
                    (authorize_started entered t))
            | inr g ↦ rw (f, g) (in_authentication (start_authentication entered).0 h refl o)
          ]
        ]

    authenticate-IsSession :
        (r : Bytes) → s.state ≡ State.authentication → IsSession (authenticate r s).0
    unfolding authenticate
    authenticate-IsSession [] e = in_authentication s h e o
    authenticate-IsSession (a ∷ []) e = elim (Bool-cases (is_print a)) [
      | inl t ↦ rw t (in_authentication (record s { buffer = s.buffer ++ a ∷ [] }) h e o)
      | inr f ↦ rw f (in_authentication s h e o)
    ]
    authenticate-IsSession (a ∷ b ∷ []) e = elim (Bool-cases (a == carriage_return && b == nul)) [
      | inl t ↦ rw t (enter_credential-IsSession e)
      | inr f ↦ rw f (in_authentication s h e o)
    ]
    authenticate-IsSession (a ∷ b ∷ c ∷ r) e = in_authentication s h e o

interact-IsSession :
    (r : Bytes) (s : Session)
    → IsHistory s
    → s.state ≡ State.interaction
    → s.options_to_confirm ≡ []
    → authorize s ≡ true
    → IsSession (interact r s).0
unfolding authorize
interact-IsSession r s h e o a =
    let t = (interact r s).0 in
    let k : Edited s t = interact-Edited s h r in
    in_interaction t k.is_history (k.state_kept ∙ e) (k.options_kept ∙ o) (
      ap (λ u. bytes_eq u (codes "testuser") && bytes_eq t.password (codes "testpassword"))
        k.username_kept
      ∙ ap (λ p. bytes_eq s.username (codes "testuser") && bytes_eq p (codes "testpassword"))
          k.password_kept
      ∙ a)

receive_in-IsSession :
    (state : State) (r : Bytes) (s : Session)
    → IsHistory s
    → s.state ≡ state
    → Allowed state s.options_to_confirm (authorize s)
    → IsSession (receive_in state r s).0
receive_in-IsSession State.negotiation r s h e a = negotiate-IsSession s h r e
receive_in-IsSession State.authentication r s h e a = authenticate-IsSession s h a r e
receive_in-IsSession State.interaction r s h e a = interact-IsSession r s h e a.0 a.1

-- Whatever is received, a session that is well formed stays so: its history holds at most 80 lines,
-- without repetitions and with the position on one of them, behind the negotiation no option is
-- left to confirm, and in the interaction the user name and the password are those that `authorize`
-- accepts.
pub receive-IsSession : (r : Bytes) (s : Session) → IsSession s → IsSession (receive r s).0
unfolding receive
receive-IsSession [] s h = h
receive-IsSession (x ∷ xs) s h = receive_in-IsSession s.state (x ∷ xs) s h.is_history refl h.allowed

-- Every session that is started and then receives anything whatever, in any pieces, keeps the
-- invariant `IsSession`: the history has at most 80 lines, each once, with its position on one of
-- them unless it is empty; behind the negotiation no option is left to confirm; and in the
-- interaction the user name and the password are ones that `authorize` accepts.
pub run-IsSession :
    (rs : List Bytes) (notifies : Bool) → IsSession (run rs (start (new_session notifies)).0)
run-IsSession rs notifies = run_kept rs (start (new_session notifies)).0 (start-IsSession notifies)
  where
    run_kept : (rs : List Bytes) (s : Session) → IsSession s → IsSession (run rs s)
    run_kept [] s h = h
    run_kept (r ∷ rs) s h = run_kept rs (receive r s).0 (receive-IsSession r s h)
