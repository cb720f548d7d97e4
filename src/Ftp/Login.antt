-- ===== src/Ftp/Login.antt =====
-- The login of an FTP session, and the commands of its lines.
use network_protocols.Common.{
  ◌≡◌, ◌≢◌, refl, sym, ◌∙◌, ap, Bool, true, false, [], ◌∷◌, ◌++◌, Option, none, some, Bytes, codes,
  is_empty, bytes_eq, ◌==◌, if◌then◌else◌, arith,
}
use network_protocols.Ftp.Commands.{upper, cut_first_space, command_of, parse_command}
use network_protocols.Ftp.Handlers.{
  Session, Event, message, UsersDb, password_of, ask_password, handle_user, check_password,
  handle_pass,
}

-- The reply to a password.
abbrev pub login_reply : Bool → Bytes → Event
login_reply accepted username =
    if accepted
    then message (codes "230 User " ++ (username ++ codes " logged in"))
    else message (codes "530 login authentication failed")

-- A known user that gives its name and then a password is asked for the password, and is logged in
-- if it is the one kept for the name, and refused otherwise; the check of the password does not
-- fail.
pub handle_pass-handle_user :
    (db : UsersDb) (username stored password : Bytes) (s : Session)
    → is_empty username ≡ false
    → password_of db username ≡ some stored
    → let asked = handle_user db username s in
      (asked.1 ≡ message (codes "331 Password required for " ++ username) ∷ [])
      × (handle_pass db password asked.0
          ≡ some (
            record s { username = username },
            login_reply (bytes_eq stored password) username ∷ [],
          ))
unfolding handle_user handle_pass
handle_pass-handle_user db username stored password s n e =
    let asked : handle_user db username s ≡ (
      record s { username = username },
      message (codes "331 Password required for " ++ username) ∷ [],
    ) =
      ap (λ b. ask_password b username s) (ap known e) in
    (
      ap (λ a. a.1) asked,
      ap (λ a. handle_pass db password a.0) asked
          ∙ rw n (ap (λ o. check_password o password (record s { username = username })) e),
    )
  where
    known : Option Bytes → Bool
    known none = false
    known (some p) = true

abbrev pub NoSpace : Bytes → Type 0
NoSpace [] = Unit
NoSpace (c ∷ cs) = (c ≢ b' ') × NoSpace cs

cut_first_space-append :
    (w args : Bytes) → NoSpace w → cut_first_space (w ++ b' ' ∷ args) ≡ (w, args)
unfolding cut_first_space
cut_first_space-append [] args n = refl
cut_first_space-append (c ∷ cs) args n =
    let e : (c == b' ') ≡ false = ground arith in
    rw e (ap (λ r. (c ∷ r.0, r.1)) (cut_first_space-append cs args n.1))

-- The word in front of the first space gives the command, in whatever case it is written, and all
-- behind that space is the arguments.
pub parse_command_any_case :
    (v w args : Bytes)
    → NoSpace v
    → NoSpace w
    → upper v ≡ upper w
    → (parse_command (v ++ b' ' ∷ args) ≡ (command_of (upper v), args))
      × (parse_command (v ++ b' ' ∷ args) ≡ parse_command (w ++ b' ' ∷ args))
unfolding parse_command
parse_command_any_case v w args nv nw e =
    let at_v = ap (λ r. (command_of (upper r.0), r.1)) (cut_first_space-append v args nv) in
    let at_w = ap (λ r. (command_of (upper r.0), r.1)) (cut_first_space-append w args nw) in
    (at_v, at_v ∙ ap (λ u. (command_of u, args)) e ∙ sym at_w)
