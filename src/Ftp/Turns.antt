-- ===== src/Ftp/Turns.antt =====
-- Turns of the FTP server's loop that lose what the client meant: lines sent together, EPRT, and the
-- listing of an empty directory.
use network_protocols.Common.{
  ℕ, ◌≡◌, refl, sym, ◌∙◌, ap, false, List, [], ◌∷◌, ◌++◌, some, Bytes, ◌==◌, if◌then◌else◌, arith,
}
use network_protocols.Ftp.Commands.{Command}
use network_protocols.Ftp.Paths.{join}
use network_protocols.Ftp.Handlers.{Session}
use network_protocols.Ftp.Files.{FileSystem, entry_lines, read_directory, handle_nlst}
use network_protocols.Ftp.Connections.{split_from, host_port, handle_port}
use network_protocols.Ftp.Execute.{
  Surroundings, thrown, dispatch, Read, got, first_line, work, closed, ends_as, after_outcome,
  execute_command,
}
use network_protocols.Ftp.Addresses.{Without, split_from_last}

pub first_line-append :
    (line more : Bytes) → Without b'\r' line → first_line (line ++ b'\r' ∷ b'\n' ∷ more) ≡ line
unfolding first_line
first_line-append [] more h = refl
first_line-append (c ∷ []) more h =
    let no : (c == b'\r') ≡ false = ground (arith, h.0) in rw (no, first_line) refl
first_line-append (c ∷ d ∷ line) more h =
    let no : (c == b'\r') ≡ false = ground (arith, h.0) in
    rw (no, first_line) (ap (◌∷◌ c) (first_line-append (d ∷ line) more h.1))

-- A client that sends several lines at once has the first one carried out, and the others are lost: a
-- read that gives more than a line ends in the same session, with the same replies, as one that gives
-- only the line.
pub work_pipelined :
    (env : Surroundings) (line more : Bytes) (rs : List (Surroundings × Read)) (s : Session)
    → Without b'\r' line
    → work ((env, got (line ++ b'\r' ∷ b'\n' ∷ more)) ∷ rs) s
      ≡ work ((env, got (line ++ b'\r' ∷ b'\n' ∷ [])) ∷ rs) s
unfolding work
work_pipelined env line more rs s h =
    let first = λ (b : Bytes).
      (if s.quit_cmd_loop
        then ends_as closed s
        else after_outcome (work rs) s (execute_command env b s)) in
    ap first (first_line-append line more h ∙ sym (first_line-append line [] h))

-- EPRT with its arguments as RFC 2428 has them, with no comma, reads past the end of a vector.
pub dispatch-eprt :
    (env : Surroundings) (args : Bytes) (s : Session)
    → Without b',' args
    → dispatch env Command.eprt args s ≡ thrown
unfolding dispatch handle_port host_port split_from
dispatch-eprt env [] s h = refl
dispatch-eprt env (c ∷ cs) s h = rw (split_from_last b',' [] (c ∷ cs) h refl, host_port) refl

-- A directory that is there and empty is reported as one that does not exist.
pub handle_nlst_empty :
    (fs gone : FileSystem) (n : ℕ) (args : Bytes) (s : Session)
    → fs.listing (join s.curr_dir args) ≡ some []
    → gone.exists (join s.curr_dir args) ≡ some false
    → handle_nlst fs n args s ≡ handle_nlst gone n args s
unfolding handle_nlst read_directory entry_lines
handle_nlst_empty fs gone n args s e g = ground arith
