-- ===== src/Validation/Packages.antt =====
-- What `sanitize_packages` accepts.
use tftp_os.Prelude.{
  ℕ, ◌≤◌, ◌≡◌, ◌⊎◌, refl, true, false, List, [], ◌∷◌, ◌++◌, arith, every, length, all, All,
  Bool-cases, inl, inr,
}
use tftp_os.Prelude.Text.{Text}
use tftp_os.Result.{ok, raise, value_error}
use tftp_os.Names.{is_alnum}
use tftp_os.Names.Accepted.{star_to_end-every}
use tftp_os.Validation.{
  is_package_char, package_re, validate_package_name, check_packages, sanitize_packages,
}

-- What is accepted of one package name: at most 256 characters, a letter or a digit, and then
-- characters of the class, but for one final newline.
abbrev pub IsPackage : Text → Type 0
IsPackage pkg =
    (length pkg ≤ 256)
    × ((c : ℕ) × (t : Text) × (is_alnum c ≡ true)
        × (every is_package_char t ≡ true)
        × ((pkg ≡ c ∷ t) ⊎ (pkg ≡ c ∷ t ++ 10 ∷ [])))

validate_package_name-IsPackage : (pkg : Text) → validate_package_name pkg ≡ true → IsPackage pkg
unfolding validate_package_name package_re
validate_package_name-IsPackage [] h = absurd (ground arith)
validate_package_name-IsPackage (c ∷ s) h =
    let (t, fits, shape) = star_to_end-every is_package_char s (ground arith) in
    (
      ground arith,
      (c, t, ground arith, fits, elim shape [ inl e ↦ inl (rw e refl) | inr e ↦ inr (rw e refl) ]),
    )

check_packages-All :
    (packages : List Text)
    → ((check_packages packages ≡ ok tt) × All (λ p. validate_package_name p ≡ true) packages)
      ⊎ ((check_packages packages ≡ raise value_error)
          × (all validate_package_name packages ≡ false))
unfolding check_packages all
check_packages-All [] = inl (refl, tt)
check_packages-All (p ∷ packages) = elim (Bool-cases (validate_package_name p)) [
  | inl good ↦ elim (check_packages-All packages) [
    | inl (passes, each) ↦ inl (rw (good, passes) refl, (good, each))
    | inr (raises, some') ↦ inr (rw (good, raises) refl, rw (good, some') refl)
  ]
  | inr bad ↦ inr (rw bad refl, rw bad refl)
]

All-map :
    (packages : List Text)
    → All (λ p. validate_package_name p ≡ true) packages
    → All IsPackage packages
All-map [] h = tt
All-map (p ∷ packages) h = (validate_package_name-IsPackage p h.0, All-map packages h.1)

-- Sanitizing a list of packages either returns the list as it is, and each name of it has at most
-- 256 characters, the first a letter or a digit, the others of the class, but for one newline that
-- it may end in; or it raises, and some name of it is refused.
pub sanitize_packages-IsPackage :
    (packages : List Text)
    → ((sanitize_packages packages ≡ ok packages) × All IsPackage packages)
      ⊎ ((sanitize_packages packages ≡ raise value_error)
          × (all validate_package_name packages ≡ false))
unfolding sanitize_packages
sanitize_packages-IsPackage packages = elim (check_packages-All packages) [
  | inl (passes, each) ↦ inl (rw passes refl, All-map packages each)
  | inr (raises, some') ↦ inr (rw raises refl, some')
]
