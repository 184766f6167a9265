-- ===== src/Mirrors.antt =====
-- tftpos/repo_mirror.py: RepoManager, the mirrors of package repositories with their file mirrors.json.
-- `urlparse`, the file system and what running rsync or wget gives are arguments. The calls of
-- shutil.rmtree are kept in a list.
pub mod Roots
use tftp_os.Prelude.{
  ℕ, zero, suc, Bool, true, false, not, ◌&&◌, Option, none, some, List, [], ◌∷◌, ◌++◌, map, codes,
  text_eq, truthy, contains, nat_beq, starts_with, ◌==◌, if◌then◌else◌,
}
use tftp_os.Prelude.Sort.{sort, text_le}
use tftp_os.Prelude.Text.{Text}
use tftp_os.Result.{Result, ok, raise, value_error, ◌>>=◌, ◌>>◌, guard}
use tftp_os.Dict
use tftp_os.Dict.{Dict}
use tftp_os.Dict.Laws.{among}
use tftp_os.Names.{is_alnum, is_name_char, at_end}
use tftp_os.Paths.{FilePath, FileSystem, is_relative_to}

-- The local path, as it is written: absolute or not.
pub data LocalPath : Type 0 where
  absolute : FilePath → LocalPath
  relative : FilePath → LocalPath

pub record RepoMirror : Type 0 where
  pub name : Text
  pub source_url : Text
  pub local_path : LocalPath
  pub sync_interval : ℕ
  pub last_sync : Option ℕ

-- The file mirrors.json: there is none, it is not what `_save` writes, or it holds mirrors.
pub data MirrorFile : Type 0 where
  missing : MirrorFile
  broken : MirrorFile
  holds : List RepoMirror → MirrorFile

pub record RepoManager : Type 0 where
  pub mirrors : Dict Text RepoMirror
  pub file : MirrorFile
  -- The paths that shutil.rmtree was called on, with ignore_errors. What it removes of them, and
  -- that it removes nothing where the path is a link, is up to the system.
  pub rmtree_calls : List FilePath

-- What the outside code says of a URL and of paths.
pub record Outside : Type 0 where
  -- The scheme and the host, or `none` where `urlparse` raises.
  pub urlparse : Text → Option (Text × Text)
  pub fs : FileSystem
  pub mirrors_root : FilePath

-- [a-zA-Z0-9._-]{0,n}$
unfoldable pub up_to : ℕ → Text → Bool
unfolding is_name_char
up_to n [] = true
up_to zero (c ∷ s) = nat_beq c 10 && at_end s
up_to (suc n) (c ∷ s) =
    let rest = up_to n s in if is_name_char c then rest else nat_beq c 10 && at_end s

unfoldable pub name_re : Text → Bool
unfolding up_to
name_re [] = false
name_re (c ∷ s) = is_alnum c && up_to 127 s

unfoldable pub validate_mirror_name : Text → Result (Unit {0})
unfolding name_re contains
validate_mirror_name name = do
  guard (truthy name && name_re name) value_error
  guard (not (contains name (codes ".."))) value_error

abbrev pub allowed_schemes : List Text
allowed_schemes = codes "http" ∷ codes "https" ∷ codes "ftp" ∷ codes "rsync" ∷ []

abbrev pub allowed_url : Option (Text × Text) → Bool
allowed_url none = false
allowed_url (some (scheme, netloc)) = among scheme allowed_schemes && truthy netloc

unfoldable pub validate_source_url : Outside → Text → Result (Unit {0})
unfolding among
validate_source_url o url = guard (allowed_url (o.urlparse url)) value_error

-- The keys of `{m["name"]: m for m in data}`.
unfoldable pub by_name : List RepoMirror → Dict Text RepoMirror → Dict Text RepoMirror
by_name [] d = d
by_name (m ∷ ms) d = by_name ms (Dict.put m.name m d)

unfoldable pub load : MirrorFile → Dict Text RepoMirror
unfolding by_name
load missing = []
load broken = []
load (holds ms) = by_name ms []

unfoldable pub init : MirrorFile → RepoManager
unfolding load
init f = record { mirrors = load f; file = f; rmtree_calls = [] }

-- The manager with these mirrors, and `_save`.
unfoldable pub saved : RepoManager → Dict Text RepoMirror → RepoManager
saved r mirrors = record r { mirrors = mirrors; file = holds (Dict.values mirrors) }

abbrev pub default_path : Outside → Text → FilePath
default_path o name = o.mirrors_root ++ name ∷ []

-- Whether the path, with its links, lies below the root or is the root.
unfoldable pub stays_under : Outside → FilePath → Bool
unfolding is_relative_to
stays_under o local = is_relative_to (o.fs.resolve local) (o.fs.resolve o.mirrors_root)

-- local_path as it is stored.
unfoldable pub stored_path : Outside → Text → LocalPath → FilePath
unfolding stays_under
stored_path o name (relative p) = default_path o name
stored_path o name (absolute p) = if stays_under o p then p else default_path o name

unfoldable pub add_mirror : Outside → RepoManager → RepoMirror → Result (RepoManager × RepoMirror)
unfolding validate_mirror_name validate_source_url stored_path saved
add_mirror o r mirror = do
  validate_mirror_name mirror.name
  validate_source_url o mirror.source_url
  guard (not (Dict.has_key mirror.name r.mirrors)) value_error
  let added = record mirror { local_path = absolute (stored_path o mirror.name mirror.local_path) }
  ok (saved r (Dict.put mirror.name added r.mirrors), added)

-- The call of shutil.rmtree on a directory that is there.
abbrev pub remove_tree : Outside → LocalPath → RepoManager → RepoManager
remove_tree o (relative p) r = r
remove_tree o (absolute p) r =
    if o.fs.exists p && o.fs.is_dir p
    then record r { rmtree_calls = r.rmtree_calls ++ p ∷ [] }
    else r

abbrev pub remove_found : Outside → RepoManager → Option RepoMirror → Text → RepoManager × Bool
remove_found o r none name = (r, false)
remove_found o r (some mirror) name =
    (remove_tree o mirror.local_path (saved r (Dict.remove name r.mirrors)), true)

unfoldable pub remove_mirror : Outside → RepoManager → Text → Result (RepoManager × Bool)
unfolding validate_mirror_name saved
remove_mirror o r name = do
  validate_mirror_name name
  ok (remove_found o r (Dict.get name r.mirrors) name)

unfoldable pub get_mirror : RepoManager → Text → Option RepoMirror
get_mirror r name = Dict.get name r.mirrors

unfoldable pub list_mirrors : RepoManager → List RepoMirror
unfolding sort
list_mirrors r = sort (λ a b. text_le a.name b.name) (Dict.values r.mirrors)

pub record SyncResult : Type 0 where
  pub mirror_name : Text
  pub success : Bool
  pub started_at : ℕ
  pub finished_at : ℕ
  pub error : Text

-- The program that syncs a URL.
abbrev pub uses_rsync : Text → Bool
uses_rsync url = starts_with url (codes "rsync://")

-- The end of a sync: `none`, or the text of what running the program raised.
abbrev pub sync_ended :
    RepoManager → RepoMirror → Text → ℕ → ℕ → Option Text → RepoManager × SyncResult
sync_ended r mirror name started now none = (
  saved r (Dict.put name (record mirror { last_sync = some now }) r.mirrors),
  record {
    mirror_name = name;
    success = true;
    started_at = started;
    finished_at = now;
    error = [];
  },
)
sync_ended r mirror name started now (some error) = (
  r,
  record {
    mirror_name = name;
    success = false;
    started_at = started;
    finished_at = now;
    error = error;
  },
)

abbrev pub need_mirror : Option RepoMirror → Result RepoMirror
need_mirror none = raise value_error
need_mirror (some mirror) = ok mirror

-- What running rsync (`true`) or wget on the source of a mirror gives is the first argument.
unfoldable pub sync_mirror :
    (Bool → RepoMirror → Option Text)
    → RepoManager
    → Text
    → ℕ
    → ℕ
    → Result (RepoManager × SyncResult)
unfolding validate_mirror_name saved
sync_mirror run r name started now = do
  validate_mirror_name name
  mirror ← need_mirror (Dict.get name r.mirrors)
  ok (sync_ended r mirror name started now (run (uses_rsync mirror.source_url) mirror))
