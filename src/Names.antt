-- ===== src/Names.antt =====
-- The names that become file names: `_validate_cluster_name` of tftpos/cluster.py and `_validate_name`
-- of tftpos/named_objects.py, with their pattern
-- ^[A-Za-z0-9][A-Za-z0-9._-]*$. As in Python, `$`
-- matches at the end and before a newline that ends the text.
pub mod Accepted
use tftp_os.Prelude.{
  ℕ, Bool, true, false, not, ◌&&◌, ◌||◌, List, [], ◌∷◌, leb, nat_beq, if◌then◌else◌, ◌≡◌, ◌≢◌,
  arith, codes, contains, has_char, starts_with, truthy, refl, every, ◌⊎◌, inl, inr, ◌++◌,
  Bool-cases,
}
use tftp_os.Prelude.Text.{Text}
use tftp_os.Result.{Result, ok, raise, value_error, ◌>>=◌, ◌>>◌, guard}

unfoldable pub is_alnum : ℕ → Bool
is_alnum c = leb b'A' c && leb c b'Z' || leb b'a' c && leb c b'z' || leb b'0' c && leb c b'9'

unfoldable pub is_name_char : ℕ → Bool
unfolding is_alnum
is_name_char c = is_alnum c || nat_beq c b'.' || nat_beq c b'_' || nat_beq c b'-'

-- The empty text.
abbrev pub at_end : Text → Bool
at_end [] = true
at_end (c ∷ s) = false

-- [p]*$
unfoldable pub star_to_end : (ℕ → Bool) → Text → Bool
star_to_end p [] = true
star_to_end p (c ∷ s) = let rest = star_to_end p s in if p c then rest else nat_beq c 10 && at_end s

unfoldable pub safe_name_re : Text → Bool
unfolding is_name_char star_to_end
safe_name_re [] = false
safe_name_re (c ∷ s) = is_alnum c && star_to_end is_name_char s

unfoldable pub validate_name : Text → Result (Unit {0})
unfolding safe_name_re contains has_char starts_with
validate_name name = do
  guard (truthy name) value_error
  guard (not (contains name (codes ".."))) value_error
  guard (not (has_char b'/' name || has_char b'\\' name)) value_error
  guard (safe_name_re name) value_error
