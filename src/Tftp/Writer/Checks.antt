-- ===== src/Tftp/Writer/Checks.antt =====
-- The checks of a write request: the working directory, whether the file exists, and the
-- permissions. `Folder` is what the file system answers.
use network_protocols.Common.{Bool, true, false, Option, none, some, Bytes, if◌then◌else◌, not}
use network_protocols.Tftp.Protocol.{ErrorCode, file_already_exists, access_violation}

pub record Folder : Type 0 where
  -- `current_path` gave no error
  pub current_path : Bool
  -- `exists`; `none` is an error
  pub file_exists : Bytes → Option Bool
  -- whether `others_write` is among the permissions; `none` is an error of `status`
  pub others_write : Option Bool
  -- whether the stream could create the file
  pub can_create : Bytes → Bool

pub data Verdict : Type 0 where
  silent : Verdict
  refuse : ErrorCode → Verdict
  create : Bool → Verdict

check_permissions : Folder → Bytes → Option Bool → Verdict
check_permissions folder name none = silent
check_permissions folder name (some false) = refuse access_violation
check_permissions folder name (some true) = create (folder.can_create name)

check_exists : Folder → Bytes → Option Bool → Verdict
check_exists folder name none = silent
check_exists folder name (some true) = refuse file_already_exists
check_exists folder name (some false) = check_permissions folder name folder.others_write

unfoldable pub check_folder : Folder → Bytes → Verdict
unfolding check_permissions check_exists
check_folder folder name =
    if not folder.current_path then silent else check_exists folder name (folder.file_exists name)
