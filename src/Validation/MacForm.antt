-- ===== src/Validation/MacForm.antt =====
-- The normal form of MAC addresses, which normalising leaves as it is.
use tftp_os.Prelude.{
  ℕ, zero, suc, ◌≡◌, refl, ap, arith, Bool, true, ◌&&◌, ◌||◌, [], ◌∷◌, leb, lower, lower_char,
  strip, lstrip, rstrip, filter, Bool-cases, inl, inr,
}
use tftp_os.Prelude.Recent.{take, drop}
use tftp_os.Prelude.Text.{Text}
use tftp_os.Result.{ok}
use tftp_os.Validation.Mac.{
  is_hex, is_separator, separated, hexes, validate_mac, without_separators, join_pairs,
  normalize_mac,
}

-- [0-9a-f]
abbrev pub is_lower_hex : ℕ → Bool
is_lower_hex c = (leb b'0' c && leb c b'9') || (leb b'a' c && leb c b'f')

-- So many pairs of digits with a colon behind them, and one more pair.
pub data IsColonPairs : ℕ → Text → Type 0 where
  last_pair :
      (a b : ℕ) → is_lower_hex a ≡ true → is_lower_hex b ≡ true → IsColonPairs 0 (a ∷ b ∷ [])
  next_pair :
      (n a b : ℕ) (s : Text)
      → is_lower_hex a ≡ true
      → is_lower_hex b ≡ true
      → IsColonPairs n s
      → IsColonPairs (suc n) (a ∷ b ∷ b':' ∷ s)

lower_hex : (c : ℕ) → is_hex c ≡ true → is_lower_hex (lower_char c) ≡ true
unfolding lower_char
lower_hex c h = ground arith

lower_char-lower_hex : (c : ℕ) → is_lower_hex c ≡ true → lower_char c ≡ c
unfolding lower_char
lower_char-lower_hex c h = ground arith

lower_hex-is_hex : (c : ℕ) → is_lower_hex c ≡ true → is_hex c ≡ true
lower_hex-is_hex c h = ground arith

-- Two digits stay when separators are removed.
without_separators-digits :
    (a b : ℕ) (s : Text)
    → is_hex a ≡ true
    → is_hex b ≡ true
    → without_separators (a ∷ b ∷ s) ≡ a ∷ b ∷ without_separators s
unfolding without_separators filter
without_separators-digits a b s h k = ground arith

without_separators-separator :
    (c : ℕ) (s : Text) → is_separator c ≡ true → without_separators (c ∷ s) ≡ without_separators s
unfolding without_separators filter
without_separators-separator c s h = ground arith

-- The pairs of an accepted text with separators are in the normal form.
separated-IsColonPairs :
    (n : ℕ) (s : Text)
    → separated n s ≡ true
    → IsColonPairs n (join_pairs (suc n) (lower (without_separators s)))
unfolding separated join_pairs lower take drop
separated-IsColonPairs zero [] h = cc h
separated-IsColonPairs (suc n) [] h = cc h
separated-IsColonPairs zero (a ∷ []) h = cc h
separated-IsColonPairs zero (a ∷ b ∷ s) h =
    let hex_a : is_hex a ≡ true = ground arith in
    let hex_b : is_hex b ≡ true = ground arith in
    rw (without_separators-digits a b s hex_a hex_b)
      (last_pair (lower_char a) (lower_char b) (lower_hex a hex_a) (lower_hex b hex_b))
separated-IsColonPairs (suc n) (a ∷ []) h = cc h
separated-IsColonPairs (suc n) (a ∷ b ∷ []) h = cc h
separated-IsColonPairs (suc n) (a ∷ b ∷ c ∷ s) h =
    let hex_a : is_hex a ≡ true = ground arith in
    let hex_b : is_hex b ≡ true = ground arith in
    let sep : is_separator c ≡ true = ground arith in
    let rest : separated n s ≡ true = ground arith in
    rw (without_separators-digits a b (c ∷ s) hex_a hex_b, without_separators-separator c s sep)
      (next_pair n (lower_char a) (lower_char b) _ (lower_hex a hex_a) (lower_hex b hex_b)
        (separated-IsColonPairs n s rest))

abbrev double : ℕ → ℕ
double zero = 0
double (suc n) = suc (suc (double n))

hexes-IsColonPairs :
    (n : ℕ) (s : Text)
    → hexes (suc (suc (double n))) s ≡ true
    → IsColonPairs n (join_pairs (suc n) (lower (without_separators s)))
unfolding hexes join_pairs lower take drop
hexes-IsColonPairs n [] h = cc h
hexes-IsColonPairs n (a ∷ []) h = ground arith
hexes-IsColonPairs zero (a ∷ b ∷ s) h =
    let hex_a : is_hex a ≡ true = ground arith in
    let hex_b : is_hex b ≡ true = ground arith in
    rw (without_separators-digits a b s hex_a hex_b)
      (last_pair (lower_char a) (lower_char b) (lower_hex a hex_a) (lower_hex b hex_b))
hexes-IsColonPairs (suc n) (a ∷ b ∷ s) h =
    let hex_a : is_hex a ≡ true = ground arith in
    let hex_b : is_hex b ≡ true = ground arith in
    let rest : hexes (suc (suc (double n))) s ≡ true = ground arith in
    rw (without_separators-digits a b s hex_a hex_b) (
      next_pair n (lower_char a) (lower_char b) _ (lower_hex a hex_a) (lower_hex b hex_b)
        (hexes-IsColonPairs n s rest))

pub validate_mac-IsColonPairs :
    (mac : Text)
    → validate_mac mac ≡ true
    → IsColonPairs 5 (join_pairs 6 (lower (without_separators (strip mac))))
unfolding validate_mac
validate_mac-IsColonPairs mac h = elim (Bool-cases (separated 5 (strip mac))) [
  | inl y ↦ separated-IsColonPairs 5 (strip mac) y
  | inr n ↦ hexes-IsColonPairs 5 (strip mac) (ground arith)
]

-- A text in the normal form is accepted, and stays through each step.
IsColonPairs-separated : {n : ℕ} {s : Text} → IsColonPairs n s → separated n s ≡ true
unfolding separated
IsColonPairs-separated (last_pair a b h k) = rw (lower_hex-is_hex a h, lower_hex-is_hex b k) refl
IsColonPairs-separated (next_pair n a b s h k rest) =
    rw (lower_hex-is_hex a h, lower_hex-is_hex b k) (IsColonPairs-separated rest)

IsColonPairs-join_pairs :
    {n : ℕ} {s : Text} → IsColonPairs n s → join_pairs (suc n) (lower (without_separators s)) ≡ s
unfolding join_pairs lower take drop
IsColonPairs-join_pairs (last_pair a b h k) =
    rw
      (
        without_separators-digits a b [] (lower_hex-is_hex a h) (lower_hex-is_hex b k),
        lower_char-lower_hex a h,
        lower_char-lower_hex b k,
      )
      refl
IsColonPairs-join_pairs (next_pair n a b s h k rest) =
    rw
      (
        without_separators-digits a b (b':' ∷ s) (lower_hex-is_hex a h) (lower_hex-is_hex b k),
        without_separators-separator b':' s refl,
        lower_char-lower_hex a h,
        lower_char-lower_hex b k,
      )
      (ap (λ t. a ∷ b ∷ b':' ∷ t) (IsColonPairs-join_pairs rest))

lstrip-hex : (a : ℕ) (s : Text) → is_lower_hex a ≡ true → lstrip (a ∷ s) ≡ a ∷ s
unfolding lstrip
lstrip-hex a s h = ground arith

rstrip-hex : (a : ℕ) → is_lower_hex a ≡ true → rstrip (a ∷ []) ≡ a ∷ []
unfolding rstrip
rstrip-hex a h = ground arith

rstrip-before : (a b : ℕ) (t s : Text) → rstrip s ≡ b ∷ t → rstrip (a ∷ s) ≡ a ∷ b ∷ t
unfolding rstrip
rstrip-before a b t s h = rw h refl

rstrip-colon : {n : ℕ} {s : Text} → IsColonPairs n s → rstrip s ≡ s → rstrip (b':' ∷ s) ≡ b':' ∷ s
rstrip-colon (last_pair a b h k) e = rstrip-before b':' a (b ∷ []) (a ∷ b ∷ []) e
rstrip-colon (next_pair n a b s h k rest) e =
    rstrip-before b':' a (b ∷ b':' ∷ s) (a ∷ b ∷ b':' ∷ s) e

IsColonPairs-rstrip : {n : ℕ} {s : Text} → IsColonPairs n s → rstrip s ≡ s
IsColonPairs-rstrip (last_pair a b h k) = rstrip-before a b [] (b ∷ []) (rstrip-hex b k)
IsColonPairs-rstrip (next_pair n a b s h k rest) =
    rstrip-before a b (b':' ∷ s) (b ∷ b':' ∷ s)
      (rstrip-before b b':' s (b':' ∷ s) (rstrip-colon rest (IsColonPairs-rstrip rest)))

IsColonPairs-strip : {n : ℕ} {s : Text} → IsColonPairs n s → strip s ≡ s
unfolding strip
IsColonPairs-strip (last_pair a b h k) =
    rw (lstrip-hex a (b ∷ []) h) (IsColonPairs-rstrip (last_pair a b h k))
IsColonPairs-strip (next_pair n a b s h k rest) =
    rw (lstrip-hex a (b ∷ b':' ∷ s) h) (IsColonPairs-rstrip (next_pair n a b s h k rest))

normal : (n : Text) → IsColonPairs 5 n → normalize_mac n ≡ ok n
unfolding normalize_mac validate_mac
normal n pairs =
    rw (IsColonPairs-strip pairs, IsColonPairs-separated pairs, IsColonPairs-join_pairs pairs) refl

-- A valid MAC address is normalised to six pairs of lower-case digits with
-- colons between them, and normalising that gives it back.
pub normalize_mac-normalize_mac :
    (mac : Text)
    → validate_mac mac ≡ true
    → (n : Text) × (normalize_mac mac ≡ ok n) × IsColonPairs 5 n × (normalize_mac n ≡ ok n)
unfolding normalize_mac
normalize_mac-normalize_mac mac h =
    let n = join_pairs 6 (lower (without_separators (strip mac))) in
    let pairs = validate_mac-IsColonPairs mac h in (n, rw h refl, pairs, normal n pairs)
