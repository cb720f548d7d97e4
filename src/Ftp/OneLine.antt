-- ===== src/Ftp/OneLine.antt =====
-- One turn of the loop of ftp/server/ftp_session.cpp, on one line.
use network_protocols.Common.{
  ◌≡◌, refl, ◌∙◌, ap, Bool, true, false, List, [], ◌∷◌, ◌++◌, Bytes, if◌then◌else◌,
}
use network_protocols.Ftp.Commands.{Command, parse_command}
use network_protocols.Ftp.Handlers.{Session, Event}
use network_protocols.Ftp.Execute.{
  Surroundings, done, dispatch, execute_command, Read, got, first_line, closed, Run, behind,
  ends_as, after_outcome, work,
}
use network_protocols.Ftp.Addresses.{Without}
use network_protocols.Ftp.Turns.{first_line-append}

abbrev pub line_of : Bytes → Read
line_of line = got (line ++ b'\r' ∷ b'\n' ∷ [])

if_no : (b : Bool) (x y : Run) → b ≡ false → (if b then x else y) ≡ y
if_no true x y h = cc
if_no false x y h = refl

-- A turn of the loop on one line.
work_line :
    (env : Surroundings) (line : Bytes) (rs : List (Surroundings × Read)) (s t : Session)
    (es : List Event)
    → s.quit_cmd_loop ≡ false
    → Without b'\r' line
    → execute_command env line s ≡ done t es
    → work ((env, line_of line) ∷ rs) s ≡ behind es (work rs t)
unfolding work
work_line env line rs s t es q h e =
    if_no s.quit_cmd_loop (ends_as closed s)
      (after_outcome (work rs) s (execute_command env (first_line (line ++ b'\r' ∷ b'\n' ∷ [])) s))
      q
    ∙ ap (after_outcome (work rs) s)
        (ap (λ b. execute_command env b s) (first_line-append line [] h) ∙ e)

-- A line as a command and its arguments.
execute_parsed :
    (env : Surroundings) (line args : Bytes) (c : Command) (s : Session)
    → parse_command line ≡ (c, args)
    → execute_command env line s ≡ dispatch env c args s
unfolding execute_command
execute_parsed env line args c s e = ap (λ p. dispatch env p.0 p.1 s) e

-- A turn on a line, and what comes of the lines behind it.
pub turn :
    (env : Surroundings) (line args : Bytes) (c : Command) (rs : List (Surroundings × Read))
    (s t : Session) (es : List Event) (r : Run)
    → parse_command line ≡ (c, args)
    → Without b'\r' line
    → s.quit_cmd_loop ≡ false
    → dispatch env c args s ≡ done t es
    → work rs t ≡ r
    → work ((env, line_of line) ∷ rs) s ≡ behind es r
turn env line args c rs s t es r p w q d next =
    work_line env line rs s t es q w (execute_parsed env line args c s p ∙ d) ∙ ap (behind es) next
