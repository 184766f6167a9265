-- ===== src/Names/Accepted.antt =====
-- Which names are accepted.
use tftp_os.Prelude.{
  ℕ, Bool, true, false, [], ◌∷◌, nat_beq, ◌≡◌, refl, ap, arith, codes, contains, has_char, every,
  ◌⊎◌, inl, inr, ◌++◌, Bool-cases,
}
use tftp_os.Prelude.Text.{Text}
use tftp_os.Result.{ok}
use tftp_os.Names.{is_alnum, is_name_char, at_end, star_to_end, validate_name}

at_end-[] : (s : Text) → at_end s ≡ true → s ≡ []
at_end-[] [] h = refl
at_end-[] (c ∷ s) h = cc

-- What the pattern admits: the class all through, or the class and then a final newline.
pub star_to_end-every :
    (p : ℕ → Bool) (s : Text)
    → star_to_end p s ≡ true
    → (t : Text) × (every p t ≡ true) × ((s ≡ t) ⊎ (s ≡ t ++ 10 ∷ []))
unfolding star_to_end every
star_to_end-every p [] h = ([], refl, inl refl)
star_to_end-every p (c ∷ s) h = elim (Bool-cases (p c)) [
  | inl passes ↦
      let (t, all, shape) = star_to_end-every p s (ground arith) in
      (c ∷ t, ground arith, elim shape [ inl e ↦ inl (ap (◌∷◌ c) e) | inr e ↦ inr (ap (◌∷◌ c) e) ])
  | inr fails ↦
      let e : s ≡ [] = at_end-[] s (ground arith) in
      let n : c ≡ 10 = ground arith in ([], refl, inr (rw (e, n) refl))
]

-- An accepted name is not empty, starts with a letter or a digit, has no "..", no "/" and no "\",
-- and is made of letters, digits and ".", "_" and "-", but for one newline that it may end in.
pub validate_name-shape :
    (name : Text)
    → validate_name name ≡ ok tt
    → (c : ℕ) × (t : Text) × (is_alnum c ≡ true)
      × (every is_name_char t ≡ true)
      × ((name ≡ c ∷ t) ⊎ (name ≡ c ∷ t ++ 10 ∷ []))
      × (contains name (codes "..") ≡ false)
      × (has_char b'/' name ≡ false)
      × (has_char b'\\' name ≡ false)
unfolding validate_name
validate_name-shape [] h = absurd (ground arith)
validate_name-shape (c ∷ s) h =
    let (t, all, shape) = star_to_end-every is_name_char s (ground arith) in
    (
      c,
      t,
      ground arith,
      all,
      elim shape [ inl e ↦ inl (ap (◌∷◌ c) e) | inr e ↦ inr (ap (◌∷◌ c) e) ],
      ground arith,
      ground arith,
      ground arith,
    )

has_char-newline :
    (c : ℕ) (s : Text) → nat_beq 10 c ≡ false → has_char c (s ++ 10 ∷ []) ≡ has_char c s
unfolding has_char
has_char-newline c [] h = ground arith
has_char-newline c (a ∷ s) h = ground (arith, has_char-newline c s h)

contains-newline : (s : Text) → contains (s ++ 10 ∷ []) (codes "..") ≡ contains s (codes "..")
unfolding contains
contains-newline [] = refl
contains-newline (a ∷ []) = ground arith
contains-newline (a ∷ b ∷ s) = ground (arith, contains-newline (b ∷ s))

star_to_end-newline :
    (p : ℕ → Bool) (s : Text)
    → p 10 ≡ false
    → every p s ≡ true
    → star_to_end p (s ++ 10 ∷ []) ≡ true
unfolding star_to_end every
star_to_end-newline p [] n h = rw n refl
star_to_end-newline p (c ∷ s) n h = ground (arith, star_to_end-newline p s n)

-- Every name of the accepted characters that is accepted is also accepted with a newline behind it.
pub validate_name-newline :
    (c : ℕ) (t : Text)
    → validate_name (c ∷ t) ≡ ok tt
    → every is_name_char t ≡ true
    → validate_name (c ∷ t ++ 10 ∷ []) ≡ ok tt
unfolding validate_name
validate_name-newline c t h all = ground (
  arith,
  contains-newline (c ∷ t),
  has_char-newline b'/' (c ∷ t) refl,
  has_char-newline b'\\' (c ∷ t) refl,
  star_to_end-newline is_name_char t refl,
)
