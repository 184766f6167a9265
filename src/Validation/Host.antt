-- ===== src/Validation/Host.antt =====
-- Host names and URLs. `urlparse` is an argument: it gives the scheme and the host of a URL, or raises.
use tftp_os.Prelude.{
  ℕ, zero, suc, ◌≡◌, refl, ap, arith, Bool, true, false, not, ◌&&◌, ◌||◌, Option, none, some, List,
  [], ◌∷◌, codes, text_eq, truthy, leb, nat_beq, length, ◌==◌, if◌then◌else◌, Bool-cases, inl, inr,
}
use tftp_os.Prelude.Text.{Text}
use tftp_os.Result.{Result, ok, raise, value_error, ok-injective}
use tftp_os.Dict.Laws.{among}
use tftp_os.Names.{is_alnum}
use tftp_os.Validation.Mac.{dollar}

-- .rstrip(".")
unfoldable pub rstrip_dots : Text → Text
rstrip_dots [] = []
rstrip_dots (c ∷ s) =
    let rest = rstrip_dots s in if nat_beq c b'.' && not (truthy rest) then [] else c ∷ rest

abbrev with_first : ℕ → List Text → List Text
with_first c [] = (c ∷ []) ∷ []
with_first c (label ∷ labels) = (c ∷ label) ∷ labels

-- .split(".")
unfoldable pub split_dots : Text → List Text
split_dots [] = [] ∷ []
split_dots (c ∷ s) =
    let rest = split_dots s in if nat_beq c b'.' then [] ∷ rest else with_first c rest

-- [a-zA-Z0-9\-]{0,n}[a-zA-Z0-9]$
unfoldable pub label_rest : ℕ → Text → Bool
unfolding is_alnum
label_rest n [] = false
label_rest zero (c ∷ s) = is_alnum c && dollar s
label_rest (suc n) (c ∷ s) =
    let rest = label_rest n s in
    (is_alnum c && dollar s) || ((is_alnum c || nat_beq c b'-') && rest)

-- ^[a-zA-Z0-9]([a-zA-Z0-9\-]{0,61}[a-zA-Z0-9])?$
unfoldable pub label_re : Text → Bool
unfolding is_alnum label_rest
label_re [] = false
label_re (c ∷ s) = is_alnum c && (label_rest 61 s || dollar s)

unfoldable pub all_labels : List Text → Bool
unfolding label_re
all_labels [] = true
all_labels (label ∷ labels) = label_re label && all_labels labels

unfoldable pub validate_hostname : Text → Bool
unfolding rstrip_dots split_dots all_labels
validate_hostname hostname =
    if not (truthy hostname)
    then false
    else leb (length (rstrip_dots hostname)) 253 && all_labels (split_dots (rstrip_dots hostname))

unfoldable pub sanitize_hostname : Text → Result Text
unfolding validate_hostname
sanitize_hostname hostname =
    if validate_hostname hostname then ok (rstrip_dots hostname) else raise value_error

abbrev pub allowed_url_schemes : List Text
allowed_url_schemes = codes "http" ∷ codes "https" ∷ codes "ftp" ∷ codes "nfs" ∷ codes "tftp" ∷ []

-- allowed_schemes or _ALLOWED_URL_SCHEMES
abbrev pub or_schemes : Option (List Text) → List Text
or_schemes none = allowed_url_schemes
or_schemes (some []) = allowed_url_schemes
or_schemes (some (s ∷ schemes)) = s ∷ schemes

abbrev pub parsed_allowed : List Text → Option (Text × Text) → Bool
parsed_allowed schemes none = false
parsed_allowed schemes (some (scheme, netloc)) =
    among scheme schemes && (truthy netloc || scheme == codes "nfs")

unfoldable pub validate_url : (Text → Option (Text × Text)) → Text → Option (List Text) → Bool
unfolding among
validate_url urlparse url allowed_schemes =
    truthy url && parsed_allowed (or_schemes allowed_schemes) (urlparse url)

unfoldable pub sanitize_url :
    (Text → Option (Text × Text)) → Text → Option (List Text) → Result Text
unfolding validate_url
sanitize_url urlparse url allowed_schemes =
    if validate_url urlparse url allowed_schemes then ok url else raise value_error

rstrip_dots_again :
    (c : ℕ) (rest : Text)
    → rstrip_dots rest ≡ rest
    → rstrip_dots (if nat_beq c b'.' && not (truthy rest) then [] else c ∷ rest)
      ≡ (if nat_beq c b'.' && not (truthy rest) then [] else c ∷ rest)
unfolding rstrip_dots
rstrip_dots_again c rest h = elim (Bool-cases (nat_beq c b'.' && not (truthy rest))) [
  | inl y ↦ rw y refl
  | inr n ↦ rw (n, rstrip_dots, h, n) refl
]

rstrip_dots-rstrip_dots : (s : Text) → rstrip_dots (rstrip_dots s) ≡ rstrip_dots s
unfolding rstrip_dots
rstrip_dots-rstrip_dots [] = refl
rstrip_dots-rstrip_dots (c ∷ s) = rstrip_dots_again c (rstrip_dots s) (rstrip_dots-rstrip_dots s)

labels-truthy : (s : Text) → all_labels (split_dots s) ≡ true → truthy s ≡ true
unfolding all_labels split_dots label_re
labels-truthy [] h = cc h
labels-truthy (c ∷ s) h = refl

and-parts : (t b c : Bool) → (if not t then false else b && c) ≡ true → (b ≡ true) × (c ≡ true)
and-parts t b c h = ground arith

validate_hostname-rstrip_dots :
    (hostname : Text)
    → validate_hostname hostname ≡ true
    → validate_hostname (rstrip_dots hostname) ≡ true
unfolding validate_hostname
validate_hostname-rstrip_dots hostname h =
    let (short, labels) =
      and-parts (truthy hostname) (leb (length (rstrip_dots hostname)) 253)
        (all_labels (split_dots (rstrip_dots hostname))) h in
    rw (labels-truthy (rstrip_dots hostname) labels, rstrip_dots-rstrip_dots hostname, short) labels

sanitized :
    (hostname stripped : Text)
    → sanitize_hostname hostname ≡ ok stripped
    → (validate_hostname hostname ≡ true) × (rstrip_dots hostname ≡ stripped)
unfolding sanitize_hostname
sanitized hostname stripped h = elim (Bool-cases (validate_hostname hostname)) [
  | inl y ↦ (y, ok-injective (rw y at h))
  | inr n ↦ let e : raise value_error ≡ ok stripped = rw n at h in absurd (cc e)
]

-- A host name that sanitize_hostname returns is accepted again, and returned as it is.
pub sanitize_hostname-sanitize_hostname :
    (hostname stripped : Text)
    → sanitize_hostname hostname ≡ ok stripped
    → sanitize_hostname stripped ≡ ok stripped
unfolding sanitize_hostname
sanitize_hostname-sanitize_hostname hostname stripped h =
    let (valid, same) = sanitized hostname stripped h in
    rw (← same, validate_hostname-rstrip_dots hostname valid)
      (ap ok (rstrip_dots-rstrip_dots hostname))
