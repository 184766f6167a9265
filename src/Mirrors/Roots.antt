-- ===== src/Mirrors/Roots.antt =====
-- Where the data of the mirrors lies.
use tftp_os.Prelude.{
  ℕ, ◌≡◌, refl, ap, Bool, true, false, ◌&&◌, not, Option, none, some, text_eq, Bool-cases, inl, inr,
}
use tftp_os.Prelude.Text.{Text}
use tftp_os.Result.{ok, value_error, guard, >>=-eq-ok, ok-injective}
use tftp_os.Dict
use tftp_os.Dict.Laws.{each-put, each-remove}
use tftp_os.Paths.{FilePath, is_relative_to}
use tftp_os.Mirrors.{
  LocalPath, absolute, relative, RepoMirror, missing, RepoManager, Outside, validate_mirror_name,
  validate_source_url, init, load, saved, default_path, stays_under, stored_path, add_mirror,
  remove_tree, remove_found, remove_mirror, get_mirror, SyncResult, sync_ended, need_mirror,
  sync_mirror, uses_rsync,
}

module _ (o : Outside) where
  -- The path is absolute, and stays below the root.
  abbrev pub IsInside : LocalPath → Type 0
  IsInside (absolute p) = stays_under o p ≡ true
  IsInside (relative p) = ⊥

  -- The managers that the program has, from one without a file.
  pub data IsManaged : RepoManager → Type 0 where
    fresh : IsManaged (init missing)
    added :
        (r r' : RepoManager) (mirror mirror' : RepoMirror)
        → add_mirror o r mirror ≡ ok (r', mirror')
        → IsManaged r
        → IsManaged r'
    removed :
        (r r' : RepoManager) (name : Text) (b : Bool)
        → remove_mirror o r name ≡ ok (r', b)
        → IsManaged r
        → IsManaged r'
    synced :
        (run : Bool → RepoMirror → Option Text) (r r' : RepoManager) (name : Text) (started now : ℕ)
        (result : SyncResult)
        → sync_mirror run r name started now ≡ ok (r', result)
        → IsManaged r
        → IsManaged r'

  -- Every mirror stays below the root.
  abbrev pub AreInside : RepoManager → Type 0
  AreInside r = (k : Text) (m : RepoMirror) → get_mirror r k ≡ some m → IsInside m.local_path

  remove_tree-mirrors : (l : LocalPath) (r : RepoManager) → (remove_tree o l r).mirrors ≡ r.mirrors
  remove_tree-mirrors (relative p) r = refl
  remove_tree-mirrors (absolute p) r = elim (Bool-cases (o.fs.exists p && o.fs.is_dir p)) [
    | inl y ↦ rw y refl
    | inr n ↦ rw n refl
  ]

  remove_found-AreInside :
      (r : RepoManager) (found : Option RepoMirror) (name : Text)
      → AreInside r
      → AreInside (remove_found o r found name).0
  unfolding get_mirror saved
  remove_found-AreInside r none name h k m there = h k m there
  remove_found-AreInside r (some mirror) name h k m there =
      let same = remove_tree-mirrors mirror.local_path (saved r (Dict.remove name r.mirrors)) in
      each-remove (λ m. IsInside m.local_path) name k m r.mirrors (h k m) (rw same at there)

  sync_ended-AreInside :
      (r : RepoManager) (mirror : RepoMirror) (name : Text) (started now : ℕ)
      (end_text : Option Text)
      → AreInside r
      → Dict.get name r.mirrors ≡ some mirror
      → AreInside (sync_ended r mirror name started now end_text).0
  unfolding get_mirror saved
  sync_ended-AreInside r mirror name started now none h known k m there =
      each-put (λ m. IsInside m.local_path) name k (record mirror { last_sync = some now }) m
        r.mirrors (h name mirror known) (h k m) there
  sync_ended-AreInside r mirror name started now (some error) h known k m there = h k m there

  need_mirror-eq :
      (found : Option RepoMirror) (m : RepoMirror) → need_mirror found ≡ ok m → found ≡ some m
  need_mirror-eq none m h = cc h
  need_mirror-eq (some m') m h = ap some (ok-injective h)

  module _
      (base : (name : Text)
        → validate_mirror_name name ≡ ok tt
        → stays_under o (default_path o name) ≡ true) where
    stored_path-IsInside :
        (name : Text) (l : LocalPath)
        → validate_mirror_name name ≡ ok tt
        → stays_under o (stored_path o name l) ≡ true
    unfolding stored_path
    stored_path-IsInside name (relative p) valid = base name valid
    stored_path-IsInside name (absolute p) valid = elim (Bool-cases (stays_under o p)) [
      | inl y ↦ rw y y
      | inr n ↦ rw n (base name valid)
    ]

    add_mirror-AreInside :
        (r r' : RepoManager) (mirror mirror' : RepoMirror)
        → AreInside r
        → add_mirror o r mirror ≡ ok (r', mirror')
        → AreInside r'
    unfolding add_mirror saved get_mirror
    add_mirror-AreInside r r' mirror mirror' h e k m there =
        let (_, valid, e₁) = >>=-eq-ok (validate_mirror_name mirror.name) _ e in
        let (_, _, e₂) = >>=-eq-ok (validate_source_url o mirror.source_url) _ e₁ in
        let (_, _, e₃) =
          >>=-eq-ok (guard (not (Dict.has_key mirror.name r.mirrors)) value_error) _ e₂ in
        let same = ap (λ p. p.0.mirrors) (ok-injective e₃) in
        each-put (λ m. IsInside m.local_path) mirror.name k _ m r.mirrors
          (stored_path-IsInside mirror.name mirror.local_path valid) (h k m) (rw (← same) at there)

    IsManaged-AreInside : {r : RepoManager} → IsManaged r → AreInside r
    unfolding init load get_mirror Dict.get remove_mirror sync_mirror
    IsManaged-AreInside fresh k m there = cc there
    IsManaged-AreInside (added r r' mirror mirror' e h) k m there =
        add_mirror-AreInside r r' mirror mirror' (IsManaged-AreInside h) e k m there
    IsManaged-AreInside (removed r r' name b e h) k m there =
        let (_, _, e₁) = >>=-eq-ok (validate_mirror_name name) _ e in
        let same = ap (λ p. p.0) (ok-injective e₁) in
        remove_found-AreInside r (Dict.get name r.mirrors) name (IsManaged-AreInside h) k m
          (rw (← same) at there)
    IsManaged-AreInside (synced run r r' name started now result e h) k m there =
        let (_, _, e₁) = >>=-eq-ok (validate_mirror_name name) _ e in
        let (found, known, e₂) = >>=-eq-ok (need_mirror (Dict.get name r.mirrors)) _ e₁ in
        let same = ap (λ p. p.0) (ok-injective e₂) in
        sync_ended-AreInside r found name started now (run (uses_rsync found.source_url) found)
          (IsManaged-AreInside h) (need_mirror-eq (Dict.get name r.mirrors) found known) k m
          (rw (← same) at there)

-- Where no valid name right under the root of the mirrors is a link out of it: in every manager that
-- the program has, from one without a file, whatever was added, removed or synced, each mirror has an
-- absolute path that stays below the root, or is the root.
pub get_mirror-IsInside :
    (o : Outside)
    → ((name : Text)
        → validate_mirror_name name ≡ ok tt
        → stays_under o (default_path o name) ≡ true)
    → (r : RepoManager) (name : Text) (m : RepoMirror) → IsManaged o r
    → get_mirror r name ≡ some m
    → IsInside o m.local_path
get_mirror-IsInside o base r name m managed there = IsManaged-AreInside o base managed name m there

-- The data lie below the path, with its links, or are there.
abbrev pub is_below : Outside → FilePath → LocalPath → Bool
is_below o p (absolute q) = is_relative_to (o.fs.resolve q) (o.fs.resolve p)
is_below o p (relative q) = false

abbrev pub none_or_below : Outside → FilePath → Option RepoMirror → Bool
none_or_below o p none = true
none_or_below o p (some m) = is_below o p m.local_path
