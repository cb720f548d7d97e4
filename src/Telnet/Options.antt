-- ===== src/Telnet/Options.antt =====
-- The negotiation of a Telnet session, on the commands that a client sends.
use network_protocols.Common.{
  ℕ, ◌≡◌, ◌≢◌, refl, sym, ◌∙◌, ap, Bool, true, false, ◌&&◌, ◌||◌, inl, inr, List, [], ◌∷◌, Bytes,
  codes, ◌==◌, if◌then◌else◌, Bool-cases, arith,
}
use network_protocols.Telnet.Session.{
  do_option, iac, State, Session, Event, sent, start_authentication,
}
use network_protocols.Telnet.Receive.{remove_option, confirm_options, negotiate_end, negotiate}

-- A command of three bytes: IAC, the command and the option.
pub record Command : Type 0 where
  pub verb : ℕ
  pub option : ℕ

abbrev pub wire : List Command → Bytes
wire [] = []
wire (c ∷ cs) = iac ∷ c.verb ∷ c.option ∷ wire cs

-- No option is the code of DO or of IAC.
abbrev pub AreOptions : List Command → Type 0
AreOptions [] = Unit
AreOptions (c ∷ cs) = (c.option ≢ iac) × (c.option ≢ do_option) × AreOptions cs

-- Whether a command DO is about the option, and the options that none is about.
abbrev pub confirmed : List Command → ℕ → Bool
confirmed [] option = false
confirmed (c ∷ cs) option = (c.verb == 253 && c.option == option) || confirmed cs option

abbrev pub remaining : List Command → List ℕ → List ℕ
remaining commands [] = []
remaining commands (o ∷ os) =
    let rest = remaining commands os in if confirmed commands o then rest else o ∷ rest

-- What the session makes of the options that remain.
abbrev pub outcome : List ℕ → Session → Session × List Event
outcome [] s = (
  record s {
    username = [];
    password = [];
    state = State.authentication;
    options_to_confirm = [];
    buffer = [];
  },
  sent (codes "Username: ") ∷ [],
)
outcome (o ∷ os) s = (record s { options_to_confirm = o ∷ os }, [])

remaining-nil : (options : List ℕ) → remaining [] options ≡ options
remaining-nil [] = refl
remaining-nil (o ∷ os) = ap (λ l. o ∷ l) (remaining-nil os)

remaining_other :
    (c : Command) (cs : List Command) (options : List ℕ)
    → (c.verb == do_option) ≡ false
    → remaining cs options ≡ remaining (c ∷ cs) options
remaining_other c cs [] e = refl
remaining_other c cs (o ∷ os) e =
    rw e (ap (λ l. if confirmed cs o then l else o ∷ l) (remaining_other c cs os e))

remaining_do :
    (c : Command) (cs : List Command) (options : List ℕ)
    → (c.verb == do_option) ≡ true
    → remaining cs (remove_option c.option options) ≡ remaining (c ∷ cs) options
unfolding remove_option
remaining_do c cs [] e = refl
remaining_do c cs (o ∷ os) e = elim (Bool-cases (c.option == o)) [
  | inl f ↦ rw (e, f) (remaining_do c cs os e)
  | inr f ↦ rw (e, f) (ap (λ l. if confirmed cs o then l else o ∷ l) (remaining_do c cs os e))
]

confirm_options-option :
    (after_do : Bool) (option : ℕ) (rest : Bytes) (options : List ℕ)
    → option ≢ iac
    → option ≢ do_option
    → confirm_options after_do (option ∷ rest) options
      ≡ confirm_options false rest (if after_do then remove_option option options else options)
unfolding confirm_options
confirm_options-option true option rest options n d =
    let f : (option == iac) ≡ false = ground arith in rw f
confirm_options-option false option rest options n d =
    let f : (option == do_option) ≡ false = ground arith in rw f

-- The loop over the bytes of a reception finds exactly the options of the commands DO.
confirm_options-wire :
    (commands : List Command) (options : List ℕ)
    → AreOptions commands
    → confirm_options false (wire commands) options ≡ remaining commands options
unfolding confirm_options
confirm_options-wire [] options h = sym (remaining-nil options)
confirm_options-wire (c ∷ cs) options h =
    confirm_options-option (c.verb == do_option) c.option (wire cs) options h.0 h.1
    ∙ confirm_options-wire cs
        (if c.verb == do_option then remove_option c.option options else options) h.2
    ∙ elim (Bool-cases (c.verb == do_option)) [
      | inl e ↦ rw e (remaining_do c cs options e)
      | inr e ↦ rw e (remaining_other c cs options e)
    ]

negotiate_end-outcome :
    (options : List ℕ) (s : Session)
    → negotiate_end options (record s { options_to_confirm = options }) ≡ outcome options s
unfolding start_authentication
negotiate_end-outcome [] s = refl
negotiate_end-outcome (o ∷ os) s = refl

-- The session asks for the user name when the commands received confirm all the options that were
-- left, and only then: otherwise it keeps those that no command DO is about, in their order, and
-- sends nothing.
pub negotiate-wire :
    (commands : List Command) (s : Session)
    → AreOptions commands
    → negotiate (wire commands) s ≡ outcome (remaining commands s.options_to_confirm) s
unfolding negotiate
negotiate-wire commands s h =
    ap (λ o. negotiate_end o (record s { options_to_confirm = o }))
      (confirm_options-wire commands s.options_to_confirm h)
    ∙ negotiate_end-outcome (remaining commands s.options_to_confirm) s
