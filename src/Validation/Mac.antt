-- ===== src/Validation/Mac.antt =====
-- MAC addresses: the pattern of `validate_mac`, and the form of `normalize_mac`.
use tftp_os.Prelude.{
  ℕ, zero, suc, Bool, true, false, ◌&&◌, ◌||◌, [], ◌∷◌, ◌++◌, leb, nat_beq, if◌then◌else◌, lower,
  strip, filter, not,
}
use tftp_os.Prelude.Recent.{take, drop}
use tftp_os.Prelude.Text.{Text}
use tftp_os.Result.{Result, ok, raise, value_error}

-- [0-9a-fA-F]
abbrev pub is_hex : ℕ → Bool
is_hex c = (leb b'0' c && leb c b'9') || ((leb b'a' c && leb c b'f') || (leb b'A' c && leb c b'F'))

-- [:\-]
abbrev pub is_separator : ℕ → Bool
is_separator c = nat_beq c b':' || nat_beq c b'-'

-- `$`: the end, or before a newline that ends the text.
abbrev pub dollar : Text → Bool
dollar [] = true
dollar (c ∷ []) = nat_beq c 10
dollar (c ∷ d ∷ s) = false

-- ([0-9a-fA-F]{2}[:\-]){n}[0-9a-fA-F]{2}$
unfoldable pub separated : ℕ → Text → Bool
separated zero (a ∷ b ∷ s) = (is_hex a && is_hex b) && dollar s
separated (suc n) (a ∷ b ∷ c ∷ s) = (is_hex a && is_hex b) && (is_separator c && separated n s)
separated _ _ = false

-- [0-9a-fA-F]{n}$
unfoldable pub hexes : ℕ → Text → Bool
hexes zero s = dollar s
hexes (suc n) [] = false
hexes (suc n) (a ∷ s) = is_hex a && hexes n s

unfoldable pub validate_mac : Text → Bool
unfolding strip separated hexes
validate_mac mac = separated 5 (strip mac) || hexes 12 (strip mac)

-- .replace(":", "").replace("-", "")
unfoldable pub without_separators : Text → Text
unfolding filter
without_separators s = filter (λ c. not (nat_beq c b'-')) (filter (λ c. not (nat_beq c b':')) s)

-- ":".join of so many pairs
unfoldable pub join_pairs : ℕ → Text → Text
unfolding take drop
join_pairs zero s = []
join_pairs (suc zero) s = take 2 s
join_pairs (suc (suc n)) s = take 2 s ++ b':' ∷ join_pairs (suc n) (drop 2 s)

unfoldable pub normalize_mac : Text → Result Text
unfolding validate_mac strip without_separators lower join_pairs
normalize_mac mac =
    if validate_mac mac
    then ok (join_pairs 6 (lower (without_separators (strip mac))))
    else raise value_error
