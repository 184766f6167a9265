-- ===== src/Tests/Mirrored.antt =====
-- tftpos/repo_mirror.py with one mirror, on a file system without links.
use tftp_os.Prelude.{
  Bool-cases, inl, inr, ==_iff, if◌then◌else◌, true, false, none, some, text_beq, [], ◌∷◌, ◌≡◌,
  refl, codes, text_eq, ◌==◌,
}
use tftp_os.Prelude.Text.{Text}
use tftp_os.Result.{ok}
use tftp_os.Dict
use tftp_os.Paths.{FilePath, is_relative_to-append, last_part, parent}
use tftp_os.Mirrors.{
  absolute, relative, RepoMirror, missing, RepoManager, Outside, name_re, default_path, stays_under,
  add_mirror, get_mirror, init, saved, validate_mirror_name, validate_source_url, stored_path,
}
use tftp_os.Mirrors.Roots.{IsInside, fresh, added, get_mirror-IsInside, IsManaged}

abbrev root : FilePath
root = codes "srv" ∷ codes "mirrors" ∷ []

-- The path without a `..` at its end.
unfoldable resolve : FilePath → FilePath
unfolding last_part parent
resolve p = if last_part p == codes ".." then parent (parent p) else p

abbrev outside : Outside
outside = record {
  urlparse = λ url. some (codes "https", url);
  fs = record { resolve = resolve; exists = λ p. true; is_file = λ p. false; is_dir = λ p. true };
  mirrors_root = root;
}

abbrev centos : RepoMirror
centos = record {
  name = codes "centos";
  source_url = codes "rsync://b";
  local_path = relative (codes "c" ∷ []);
  sync_interval = 86400;
  last_sync = none;
}

abbrev stored_centos : RepoMirror
stored_centos = record centos { local_path = absolute (default_path outside (codes "centos")) }

-- A mirror that asks for the root itself.
abbrev mirror : RepoMirror
mirror = record {
  name = codes "epel";
  source_url = codes "https://a";
  local_path = absolute root;
  sync_interval = 86400;
  last_sync = none;
}

abbrev before : RepoManager
before = saved (init missing) ((codes "centos", stored_centos) ∷ [])

abbrev manager : RepoManager
manager = saved before ((codes "centos", stored_centos) ∷ (codes "epel", mirror) ∷ [])

centos_run : add_mirror outside (init missing) centos ≡ ok (before, stored_centos)
unfolding add_mirror init saved text_beq validate_mirror_name validate_source_url name_re
    stored_path stays_under Dict.has_key Dict.put resolve
centos_run = refl

mirror_run : add_mirror outside before mirror ≡ ok (manager, mirror)
unfolding add_mirror init saved text_beq validate_mirror_name validate_source_url name_re
    stored_path stays_under Dict.has_key Dict.put resolve
mirror_run = refl

before-IsManaged : IsManaged outside before
before-IsManaged = added (init missing) before centos stored_centos centos_run fresh

base :
    (name : Text)
    → validate_mirror_name name ≡ ok tt
    → stays_under outside (default_path outside name) ≡ true
unfolding stays_under resolve validate_mirror_name name_re text_beq
base name valid = elim (Bool-cases (name == codes "..")) [
  | inl y ↦
      let dots : name ≡ codes ".." = (==_iff name (codes "..")).0 y in
      absurd (refused (rw dots at valid))
  | inr n ↦ rw n (is_relative_to-append root (name ∷ []))
]
  where
    refused : validate_mirror_name (codes "..") ≡ ok tt → ⊥
    refused h = cc h

get_run : get_mirror manager (codes "epel") ≡ some mirror
unfolding get_mirror saved text_beq Dict.get
get_run = refl

get_mirror-IsInside_example : IsInside outside mirror.local_path
get_mirror-IsInside_example =
    get_mirror-IsInside outside base manager (codes "epel") mirror
      (added before manager mirror mirror mirror_run before-IsManaged) get_run
