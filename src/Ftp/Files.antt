-- ===== src/Ftp/Files.antt =====
-- The handlers of ftp/server/ftp_session.cpp that only ask and change the file system: CWD, DELE,
-- MKD, RMD, PWD and NLST.
use network_protocols.Common.{
  ℕ, zero, suc, ◌-◌, Bool, true, false, not, ◌&&◌, ◌||◌, List, [], ◌∷◌, ◌++◌, Option, none, some,
  Bytes, length, codes, is_empty, bytes_eq, if◌then◌else◌, ◌>>=◌,
}
use network_protocols.Common.Decimal.{to_string}
use network_protocols.Ftp.Paths.{join, parent_path, matches_file_name, matches_dir_name}
use network_protocols.Ftp.Handlers.{
  Session, Event, message, created, removed, close_data, send_writes, line_writes,
}

-- An entry of a directory, as `readDirectory` finds it: its name, the text of its time, and what kind
-- of file it is. An error while it is asked about leaves it out.
pub data Kind : Type 0 where
  regular : ℕ → Kind
  directory other broken : Kind

pub record Entry : Type 0 where
  pub name : Bytes
  pub time : Bytes
  pub kind : Kind

-- What the file system answers while a command is handled; `none` is an error, which is an exception
-- where the question is asked without an error code.
pub record FileSystem : Type 0 where
  pub exists : Bytes → Option Bool
  pub is_directory : Bytes → Option Bool
  pub is_regular_file : Bytes → Option Bool
  -- whether `remove` and `create_directory` succeed
  pub removes : Bytes → Bool
  pub creates : Bytes → Bool
  pub listing : Bytes → Option (List Entry)

-- `&&` of two questions, each of which may throw.
abbrev pub both_hold : Option Bool → Option Bool → Option Bool
both_hold none b = none
both_hold (some false) b = some false
both_hold (some true) b = b

-- A question that is asked with an error code: an error is taken for no.
abbrev pub is_yes : Option Bool → Bool
is_yes none = false
is_yes (some b) = b

-- `handleCwd`, with the directory that it makes of the arguments.
abbrev pub cwd_target : Bytes → Bytes → Bytes
cwd_target args dir =
    if bytes_eq args (codes "..")
    then parent_path dir
    else if not (is_empty args) && not (bytes_eq args (codes "."))
    then join dir args
    else dir

abbrev pub change_directory : Bytes → Bool → Session → Session × List Event
change_directory dir there s =
    if there
    then (
      record s { curr_dir = dir },
      message (codes "250 The current directory has been changed to " ++ dir) ∷ [],
    )
    else (s, message (codes "550 Requested action not taken, directory unavailable") ∷ [])

-- `none` is an exception, here and for DELE.
unfoldable pub handle_cwd : FileSystem → Bytes → Session → Option (Session × List Event)
handle_cwd fs args s =
    let dir = cwd_target args s.curr_dir in
    both_hold (fs.exists dir) (fs.is_directory dir) >>= λ there. some (change_directory dir there s)

-- `handleDele`
abbrev pub delete_file : FileSystem → Bytes → Bool → Session → Session × List Event
delete_file fs path there s =
    if not there
    then (s, message (codes "550 File doesn't exist") ∷ [])
    else if fs.removes path
    then (s, removed path ∷ message (codes "250 file successfully deleted") ∷ [])
    else (s, message (codes "550 could not delete file") ∷ [])

unfoldable pub handle_dele : FileSystem → Bytes → Session → Option (Session × List Event)
handle_dele fs args s =
    let path = join s.curr_dir args in
    let there = both_hold (fs.exists path) (fs.is_regular_file path) in
    if not (matches_file_name args)
    then some (s, message (codes "550 Invalid name") ∷ [])
    else (there >>= λ b. some (delete_file fs path b s))

-- `handleMkd`
unfoldable pub handle_mkd : FileSystem → Bytes → Session → Session × List Event
handle_mkd fs args s =
    let path = join s.curr_dir args in
    if not (matches_dir_name args)
    then (s, message (codes "550 Invalid name") ∷ [])
    else if fs.creates path
    then (s, created path ∷ message (codes "250 Directory successfully created") ∷ [])
    else (s, message (codes "550 Could not create directory") ∷ [])

-- `handleRmd`
unfoldable pub handle_rmd : FileSystem → Bytes → Session → Session × List Event
handle_rmd fs args s =
    let path = join s.curr_dir args in
    if not (matches_dir_name args)
    then (s, message (codes "550 Invalid name") ∷ [])
    else if not (is_yes (fs.exists path) && is_yes (fs.is_directory path))
    then (s, message (codes "550 Directory not exist or given name is not directory") ∷ [])
    else if fs.removes path
    then (s, removed path ∷ message (codes "250 Directory successfully removed") ∷ [])
    else (s, message (codes "550 Could not remove directory") ∷ [])

-- `handlePwd`
unfoldable pub handle_pwd : Session → Session × List Event
handle_pwd s = (s, message (codes "257 \"" ++ (s.curr_dir ++ codes "\"")) ∷ [])

abbrev pub zeros : ℕ → Bytes
zeros zero = []
zeros (suc n) = b'0' ∷ zeros n

-- The line of an entry. The size has sixteen digits at least.
unfoldable pub entry_line : Entry → Option Bytes
entry_line e =
    let behind = b'\t' ∷ (e.time ++ b'\t' ∷ e.name) in
    elim e.kind [
      | regular size ↦ some (zeros (16 - length (to_string size)) ++ (to_string size ++ behind))
      | directory ↦ some (codes " -- directory    " ++ behind)
      | other ↦ some (codes "                " ++ behind)
      | broken ↦ none
    ]

unfoldable pub entry_lines : List Entry → List Bytes
entry_lines [] = []
entry_lines (e ∷ es) =
    let rest = entry_lines es in elim (entry_line e) [ none ↦ rest | some l ↦ l ∷ rest ]

-- `readDirectory`; `none` is an exception of the iteration.
unfoldable pub read_directory : FileSystem → Bytes → Option (List Bytes)
read_directory fs path =
    if not (is_yes (fs.exists path)) || not (is_yes (fs.is_directory path))
    then some []
    else (fs.listing path >>= λ es. some (entry_lines es))

-- The lines of a directory that is not empty are sent, as many as the number says; the results of the
-- writes are not looked at.
abbrev pub send_listing : ℕ → Option (List Bytes) → List Event
send_listing n none = []
send_listing n (some []) = message (codes "550 The directory does not exist") ∷ []
send_listing n (some (l ∷ ls)) =
    message (codes "125 Data connection is ready to transfer files list")
    ∷ ((send_writes n (line_writes (l ∷ ls))).0 ++ message (codes "226 Transfer complete") ∷ [])

-- `handleNlst`
unfoldable pub handle_nlst : FileSystem → ℕ → Bytes → Session → Session × List Event
handle_nlst fs n args s =
    if s.data_open
    then (close_data s, send_listing n (read_directory fs (join s.curr_dir args)))
    else (s, message (codes "425 No data connection") ∷ [])
