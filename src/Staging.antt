-- ===== src/Staging.antt =====
-- tftpos/staging.py: the files under the root of the TFTP daemon. The state is what stands in that
-- directory by name; whether the system makes a link, and a copy, are arguments. A temporary name is
-- free, and gone when a call ends.
pub mod Placed
use tftp_os.Prelude.{
  Bool, true, false, not, ◌||◌, Option, none, some, List, [], ◌∷◌, ◌++◌, codes, text_eq, truthy,
  has_char, ◌==◌, if◌then◌else◌,
}
use tftp_os.Prelude.Sort.{sort, text_le}
use tftp_os.Prelude.Text.{Text}
use tftp_os.Result.{
  Result, ok, raise, value_error, file_not_found, is_a_directory, os_error, ◌>>=◌, ◌>>◌, guard,
}
use tftp_os.Dict
use tftp_os.Dict.{Dict}
use tftp_os.Paths.{FilePath, FileSystem, is_relative_to, parent, last_part}

-- What stands under a name: a link to a file, a copy of one, or a directory.
pub data Staged : Type 0 where
  link_to : FilePath → Staged
  copy_of : FilePath → Staged
  directory : Staged

abbrev pub TftpRoot : Type 0
TftpRoot = Dict Text Staged

unfoldable pub safe_name : Text → Result Text
unfolding has_char
safe_name name = do
  guard (not (has_char b'/' name)) value_error
  guard (not (not (truthy name) || (name == codes "." || name == codes ".."))) value_error
  guard (not (has_char 0 name)) value_error
  ok name

unfoldable pub validate_under_root : FileSystem → FilePath → FilePath → Result (Unit {0})
unfolding is_relative_to parent
validate_under_root fs path root =
    guard (is_relative_to (fs.resolve (parent path)) (fs.resolve root)) value_error

-- os.replace, which does not replace a directory.
abbrev pub replace : Option Staged → Text → Staged → TftpRoot → TftpRoot × Result (Unit {0})
replace (some directory) name new root = (root, raise os_error)
replace _ name new root = (Dict.put name new root, ok tt)

-- A link or a copy that the system makes (`true`), or refuses with an OSError.
unfoldable pub place : Bool → Text → Staged → TftpRoot → TftpRoot × Result (Unit {0})
place true name new root = replace (Dict.get name root) name new root
place false name new root = (root, raise os_error)

-- An OSError of the link is followed by the copy.
abbrev pub or_copy :
    TftpRoot × Result (Unit {0}) → TftpRoot × Result (Unit {0}) → TftpRoot × Result (Unit {0})
or_copy (root, ok u) copied = (root, ok u)
or_copy (root, raise e) copied = copied

unfoldable pub put_under :
    Bool → Bool → Bool → Text → FilePath → TftpRoot → TftpRoot × Result (Unit {0})
unfolding place
put_under symlink links copies name firmware_path root =
    let copied = place copies name (copy_of firmware_path) root in
    if symlink then or_copy (place links name (link_to firmware_path) root) copied else copied

-- The given name, or that of the firmware.
abbrev pub given_name : Text → Option Text → Text
given_name base_name none = base_name
given_name base_name (some name) = name

-- The checks before anything is placed: the name under the root.
unfoldable pub checked_name : FileSystem → FilePath → FilePath → Option Text → Result Text
unfolding safe_name validate_under_root last_part
checked_name fs firmware_path tftp_root name = do
  guard (fs.exists firmware_path) file_not_found
  guard (not (fs.is_dir firmware_path)) is_a_directory
  safe ← safe_name (given_name (last_part firmware_path) name)
  validate_under_root fs (tftp_root ++ safe ∷ []) tftp_root
  ok safe

abbrev pub answer : FilePath → TftpRoot × Result (Unit {0}) → TftpRoot × Result FilePath
answer target (root, ok u) = (root, ok target)
answer target (root, raise e) = (root, raise e)

abbrev pub stage_checked :
    FilePath → Bool → Bool → Bool → FilePath → TftpRoot → Result Text → TftpRoot × Result FilePath
stage_checked tftp_root symlink links copies firmware_path root (raise e) = (root, raise e)
stage_checked tftp_root symlink links copies firmware_path root (ok safe) =
    answer (tftp_root ++ safe ∷ []) (put_under symlink links copies safe firmware_path root)

unfoldable pub stage :
    FileSystem
    → FilePath
    → FilePath
    → Option Text
    → Bool
    → Bool
    → Bool
    → TftpRoot
    → TftpRoot × Result FilePath
unfolding checked_name put_under
stage fs firmware_path tftp_root name symlink links copies root =
    stage_checked tftp_root symlink links copies firmware_path root
      (checked_name fs firmware_path tftp_root name)

-- The removal by what stands under the name.
abbrev pub unstage_found : Option Staged → Text → TftpRoot → TftpRoot × Bool
unstage_found none name root = (root, false)
unstage_found (some directory) name root = (root, false)
unstage_found (some entry) name root = (Dict.remove name root, true)

unfoldable pub unstage : Text → TftpRoot → TftpRoot × Bool
unstage name root = unstage_found (Dict.get name root) name root

-- The names under the root, or none where there is no such directory.
unfoldable pub list_staged : Option TftpRoot → List Text
unfolding sort
list_staged none = []
list_staged (some root) = sort text_le (Dict.keys root)
