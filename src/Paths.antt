-- ===== src/Paths.antt =====
-- Paths, as the list of their parts from the root, and what the program asks the file system. A file
-- system is a parameter: it says to which path the links of a path lead, and what stands there.
use tftp_os.Prelude.{
  arith, Eq, ==_iff, Bool, true, false, ◌&&◌, ◌≡◌, refl, List, [], ◌∷◌, ◌++◌, ◌==◌, text_eq,
  ==_refl,
}
use mathlib.Core.Logic.{◌↔◌}
use tftp_os.Prelude.Text.{Text}

abbrev pub FilePath : Type 0
FilePath = List Text

pub record FileSystem : Type 0 where
  pub resolve : FilePath → FilePath
  pub exists : FilePath → Bool
  pub is_file : FilePath → Bool
  pub is_dir : FilePath → Bool

-- p.is_relative_to(root)
unfoldable pub is_relative_to : FilePath → FilePath → Bool
is_relative_to p [] = true
is_relative_to [] (r ∷ root) = false
is_relative_to (s ∷ p) (r ∷ root) = s == r && is_relative_to p root

-- p.parent
unfoldable pub parent : FilePath → FilePath
parent [] = []
parent (s ∷ []) = []
parent (s ∷ t ∷ p) = s ∷ parent (t ∷ p)

-- p.name
unfoldable pub last_part : FilePath → Text
last_part [] = []
last_part (s ∷ []) = s
last_part (s ∷ t ∷ p) = last_part (t ∷ p)

-- p == q
unfoldable pub same_path : FilePath → FilePath → Bool
same_path [] [] = true
same_path [] (t ∷ q) = false
same_path (s ∷ p) [] = false
same_path (s ∷ p) (t ∷ q) = s == t && same_path p q

same_path_sound : (p q : FilePath) → same_path p q ≡ true → p ≡ q
unfolding same_path
same_path_sound [] [] h = refl
same_path_sound [] (t ∷ q) h = cc h
same_path_sound (s ∷ p) [] h = cc h
same_path_sound (s ∷ p) (t ∷ q) h = ground (arith, ==_iff s t, same_path_sound p q)

pub same_path_refl : (p : FilePath) → same_path p p ≡ true
unfolding same_path
same_path_refl [] = refl
same_path_refl (s ∷ p) = rw (==_refl s) (same_path_refl p)

pub same_path_iff : (p q : FilePath) → (same_path p q ≡ true) ↔ (p ≡ q)
same_path_iff p q = (same_path_sound p q, λ e. rw (← e) (same_path_refl p))

instance abbrev pub path_eq : Eq FilePath
path_eq = record { same = same_path; same_iff = same_path_iff }

-- What lies below a path is relative to it.
pub is_relative_to-append : (root p : FilePath) → is_relative_to (root ++ p) root ≡ true
unfolding is_relative_to
is_relative_to-append [] p = refl
is_relative_to-append (r ∷ root) p = rw (==_refl r) (is_relative_to-append root p)

pub parent-append : (p : FilePath) (s : Text) → parent (p ++ s ∷ []) ≡ p
unfolding parent
parent-append [] s = refl
parent-append (r ∷ []) s = refl
parent-append (r ∷ t ∷ p) s = cc (parent-append (t ∷ p) s)

pub is_relative_to_refl : (p : FilePath) → is_relative_to p p ≡ true
unfolding is_relative_to
is_relative_to_refl [] = refl
is_relative_to_refl (s ∷ p) = rw (==_refl s) (is_relative_to_refl p)

-- What lies below a path lies below every path that this one lies below.
pub is_relative_to_trans :
    (p q r : FilePath)
    → is_relative_to p q ≡ true
    → is_relative_to q r ≡ true
    → is_relative_to p r ≡ true
unfolding is_relative_to
is_relative_to_trans p q [] h k = refl
is_relative_to_trans p [] (c ∷ r) h k = cc k
is_relative_to_trans [] (b ∷ q) (c ∷ r) h k = cc h
is_relative_to_trans (a ∷ p) (b ∷ q) (c ∷ r) h k =
    ground (arith, ==_iff a b, ==_iff b c, ==_iff a c, is_relative_to_trans p q r)
