-- ===== src/Ftp/Commands.antt =====
-- `FTPSession::executeCommand` of ftp/server/ftp_session.cpp: the command that a line gives.
use network_protocols.Common.{
  ℕ, ◌-◌, ◌&&◌, [], ◌∷◌, Bytes, codes, bytes_eq, leb, ◌==◌, if◌then◌else◌,
}

pub data Command : Type 0 where
  cwd dele eprt epsv feat nlst mkd pass pasv port pwd quit retr rmd syst stor type user unknown :
      Command

-- `std::toupper` in the C locale.
abbrev pub to_upper : ℕ → ℕ
to_upper c = if leb b'a' c && leb c b'z' then c - 32 else c

abbrev pub upper : Bytes → Bytes
upper [] = []
upper (c ∷ cs) = to_upper c ∷ upper cs

-- The word in front of the first space, and what stands behind it; without a space all is the word.
unfoldable pub cut_first_space : Bytes → Bytes × Bytes
cut_first_space [] = ([], [])
cut_first_space (c ∷ cs) =
    let rest = cut_first_space cs in if c == b' ' then ([], cs) else (c ∷ rest.0, rest.1)

-- The comparisons; LIST is handled as NLST is.
unfoldable pub command_of : Bytes → Command
command_of w =
    if bytes_eq w (codes "CWD")
    then Command.cwd
    else if bytes_eq w (codes "DELE")
    then Command.dele
    else if bytes_eq w (codes "EPRT")
    then Command.eprt
    else if bytes_eq w (codes "EPSV")
    then Command.epsv
    else if bytes_eq w (codes "FEAT")
    then Command.feat
    else if bytes_eq w (codes "LIST")
    then Command.nlst
    else if bytes_eq w (codes "NLST")
    then Command.nlst
    else if bytes_eq w (codes "MKD")
    then Command.mkd
    else if bytes_eq w (codes "PASS")
    then Command.pass
    else if bytes_eq w (codes "PASV")
    then Command.pasv
    else if bytes_eq w (codes "PORT")
    then Command.port
    else if bytes_eq w (codes "PWD")
    then Command.pwd
    else if bytes_eq w (codes "QUIT")
    then Command.quit
    else if bytes_eq w (codes "RETR")
    then Command.retr
    else if bytes_eq w (codes "RMD")
    then Command.rmd
    else if bytes_eq w (codes "SYST")
    then Command.syst
    else if bytes_eq w (codes "STOR")
    then Command.stor
    else if bytes_eq w (codes "TYPE")
    then Command.type
    else if bytes_eq w (codes "USER")
    then Command.user
    else Command.unknown

-- The command of a line and its arguments.
unfoldable pub parse_command : Bytes → Command × Bytes
parse_command line = let cut = cut_first_space line in (command_of (upper cut.0), cut.1)
