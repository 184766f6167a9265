-- ===== src/Staging/Placed.antt =====
-- What staging leaves under the root.
use tftp_os.Prelude.{
  ◌≡◌, ◌≢◌, refl, Bool, true, false, not, Option, none, some, [], ◌∷◌, ◌++◌, text_eq, codes, ◌||◌,
  ◌==◌, has_char, truthy, ◌⊎◌, inl, inr,
}
use tftp_os.Prelude.Text.{Text}
use tftp_os.Result.{
  Result, ok, raise, value_error, file_not_found, is_a_directory, os_error, ◌>>◌, guard, >>=-eq-ok,
  ok-injective,
}
use tftp_os.Dict
use tftp_os.Dict.Laws.{get-put_self, get-put_ne}
use tftp_os.Paths.{FilePath, FileSystem, last_part}
use tftp_os.Staging.{
  Staged, link_to, copy_of, directory, TftpRoot, safe_name, validate_under_root, replace, place,
  put_under, given_name, checked_name, answer, stage_checked, stage,
}

-- The name stands for the file now, as a link or as a copy, and every other name for what it stood.
pub record IsPlaced (name : Text) (path : FilePath) (root root' : TftpRoot) : Type 0 where
  pub new :
      (Dict.get name root' ≡ some (link_to path)) ⊎ (Dict.get name root' ≡ some (copy_of path))
  pub others : (n : Text) → name ≢ n → Dict.get n root' ≡ Dict.get n root

place-cases :
    (b : Bool) (name : Text) (new : Staged) (root : TftpRoot)
    → (place b name new root ≡ (Dict.put name new root, ok tt))
      ⊎ (place b name new root ≡ (root, raise os_error))
unfolding place
place-cases false name new root = inr refl
place-cases true name new root = at_name (Dict.get name root)
  where
    at_name :
        (o : Option Staged)
        → (replace o name new root ≡ (Dict.put name new root, ok tt))
          ⊎ (replace o name new root ≡ (root, raise os_error))
    at_name none = inl refl
    at_name (some (link_to p)) = inl refl
    at_name (some (copy_of p)) = inl refl
    at_name (some directory) = inr refl

-- What stands under the root when a call has ended: the file is placed under a safe name, or nothing
-- has changed.
abbrev pub Ends : FilePath → FilePath → TftpRoot → TftpRoot × Result FilePath → Type 0
Ends path tftp_root root (root', raise e) = root' ≡ root
Ends path tftp_root root (root', ok target) =
    (safe : Text) × (target ≡ tftp_root ++ safe ∷ [])
    × (safe_name safe ≡ ok safe)
    × IsPlaced safe path root root'

link-Ends :
    (path tftp_root : FilePath) (name : Text) (root : TftpRoot)
    → safe_name name ≡ ok name
    → Ends path tftp_root root
        (answer (tftp_root ++ name ∷ []) (Dict.put name (link_to path) root, ok tt))
link-Ends path tftp_root name root h = (
  name,
  refl,
  h,
  record {
    new = inl (get-put_self name (link_to path) root);
    others = λ n ne. get-put_ne name n (link_to path) root ne;
  },
)

copy-Ends :
    (path tftp_root : FilePath) (name : Text) (root : TftpRoot)
    → safe_name name ≡ ok name
    → Ends path tftp_root root
        (answer (tftp_root ++ name ∷ []) (Dict.put name (copy_of path) root, ok tt))
copy-Ends path tftp_root name root h = (
  name,
  refl,
  h,
  record {
    new = inr (get-put_self name (copy_of path) root);
    others = λ n ne. get-put_ne name n (copy_of path) root ne;
  },
)

copied-Ends :
    (copies : Bool) (path tftp_root : FilePath) (name : Text) (root : TftpRoot)
    → safe_name name ≡ ok name
    → Ends path tftp_root root
        (answer (tftp_root ++ name ∷ []) (place copies name (copy_of path) root))
copied-Ends copies path tftp_root name root h = elim (place-cases copies name (copy_of path) root) [
  | inl y ↦ rw y (copy-Ends path tftp_root name root h)
  | inr n ↦ rw n refl
]

put_under-Ends :
    (symlink links copies : Bool) (path tftp_root : FilePath) (name : Text) (root : TftpRoot)
    → safe_name name ≡ ok name
    → Ends path tftp_root root
        (answer (tftp_root ++ name ∷ []) (put_under symlink links copies name path root))
unfolding put_under
put_under-Ends false links copies path tftp_root name root h =
    copied-Ends copies path tftp_root name root h
put_under-Ends true links copies path tftp_root name root h =
    elim (place-cases links name (link_to path) root) [
      | inl y ↦ rw y (link-Ends path tftp_root name root h)
      | inr n ↦ rw n (copied-Ends copies path tftp_root name root h)
    ]

three_guards :
    (a b c : Bool) (name safe : Text)
    → (guard a value_error >> (guard b value_error >> (guard c value_error >> ok name))) ≡ ok safe
    → name ≡ safe
three_guards true true true name safe h = ok-injective h
three_guards true true false name safe h = cc h
three_guards true false c name safe h = cc h
three_guards false b c name safe h = cc h

safe_name-same : (name safe : Text) → safe_name name ≡ ok safe → safe_name safe ≡ ok safe
unfolding safe_name
safe_name-same name safe h =
    let same =
      three_guards (not (has_char b'/' name))
        (not (not (truthy name) || (name == codes "." || name == codes "..")))
        (not (has_char 0 name)) name safe h in
    rw same at h

checked_name-safe :
    (fs : FileSystem) (path tftp_root : FilePath) (name : Option Text) (safe : Text)
    → checked_name fs path tftp_root name ≡ ok safe
    → safe_name safe ≡ ok safe
unfolding checked_name
checked_name-safe fs path tftp_root name safe h =
    let (_, _, h₁) = >>=-eq-ok (guard (fs.exists path) file_not_found) _ h in
    let (_, _, h₂) = >>=-eq-ok (guard (not (fs.is_dir path)) is_a_directory) _ h₁ in
    let (s, named, h₃) = >>=-eq-ok (safe_name (given_name (last_part path) name)) _ h₂ in
    let (_, _, h₄) = >>=-eq-ok (validate_under_root fs (tftp_root ++ s ∷ []) tftp_root) _ h₃ in
    let same : s ≡ safe = ok-injective h₄ in
    rw same at (safe_name-same (given_name (last_part path) name) s named)

-- A call of stage either raises, and then nothing under the root has changed, or returns a path right
-- under the root; then its name is a safe one, it stands for the firmware, as a link or as a copy, and
-- every other name for what it stood before.
pub stage-Ends :
    (fs : FileSystem) (path tftp_root : FilePath) (name : Option Text) (symlink links copies : Bool)
    (root : TftpRoot)
    → Ends path tftp_root root (stage fs path tftp_root name symlink links copies root)
unfolding stage
stage-Ends fs path tftp_root name symlink links copies root =
    at_result (checked_name fs path tftp_root name) refl
  where
    at_result :
        (r : Result Text)
        → checked_name fs path tftp_root name ≡ r
        → Ends path tftp_root root (stage_checked tftp_root symlink links copies path root r)
    at_result (raise e) h = refl
    at_result (ok safe) h =
        put_under-Ends symlink links copies path tftp_root safe root
          (checked_name-safe fs path tftp_root name safe h)
