-- ===== src/Mnemonics/Reached.antt =====
-- Which registered names a mnemonic reaches.
use tftp_os.Prelude.{
  ℕ, ◌≡◌, refl, ap, ◌∙◌, arith, Bool, true, false, not, ◌&&◌, ◌||◌, Option, some, [], ◌∷◌, text_eq,
  truthy, nat_beq, lower, strip, filter, nat_beq_iff, has_char, ◌==◌, ==_iff, if◌then◌else◌,
  Bool-cases, inl, inr,
}
use tftp_os.Prelude.Text.{Text}
use tftp_os.Dict
use tftp_os.Dict.Laws.{get-put}
use tftp_os.Mnemonics.{MnemonicRegistry, register, key_of, or_parse, resolve}
use tftp_os.Mnemonics.Aliases.{DistroAlias}

differ : (p : ℕ → Bool) (a c : ℕ) → a ≡ c → p a ≡ true → p c ≡ false → ⊥
differ p a c same y h = cc (ap p same, y, h)

filter-has_char : (p : ℕ → Bool) (c : ℕ) (s : Text) → p c ≡ false → has_char c (filter p s) ≡ false
unfolding has_char filter
filter-has_char p c [] h = refl
filter-has_char p c (a ∷ s) h =
    let rest = filter-has_char p c s h in
    elim (Bool-cases (p a)) [
      | inl y ↦ elim (Bool-cases (nat_beq a c)) [
        | inl e ↦ let same : a ≡ c = (nat_beq_iff a c).0 e in absurd (differ p a c same y h)
        | inr ne ↦ rw (y, has_char, ne) rest
      ]
      | inr n ↦ rw n rest
    ]

filter-has_char_le :
    (p : ℕ → Bool) (c : ℕ) (s : Text) → has_char c s ≡ false → has_char c (filter p s) ≡ false
unfolding has_char filter
filter-has_char_le p c [] h = refl
filter-has_char_le p c (a ∷ s) h = ground (arith, filter-has_char_le p c s)

-- The key of a mnemonic has neither dashes nor underscores.
key_of-has_char :
    (m : Text) → (has_char b'-' (key_of m) ≡ false) × (has_char b'_' (key_of m) ≡ false)
unfolding key_of
key_of-has_char m = (
  filter-has_char_le (λ c. not (nat_beq c b'_')) b'-' (filter (λ c. not (nat_beq c b'-')) (lower m))
      (filter-has_char (λ c. not (nat_beq c b'-')) b'-' (lower m) refl),
  filter-has_char (λ c. not (nat_beq c b'_')) b'_' (filter (λ c. not (nat_beq c b'-')) (lower m))
      refl,
)

if-and :
    (b : Bool) (alias : DistroAlias) (o : Option DistroAlias)
    → (if b && false then some alias else o) ≡ o
if-and true alias o = refl
if-and false alias o = refl

or_parse-if :
    (b : Bool) (alias : DistroAlias) (o : Option DistroAlias) (key : Text)
    → or_parse (if b then some alias else o) key ≡ (if b then some alias else or_parse o key)
or_parse-if true alias o key = refl
or_parse-if false alias o key = refl

-- After an alias was registered under a name, a mnemonic with more than white space resolves to it if
-- its key, in lower case and without dashes and underscores, is the name in lower case; every other
-- mnemonic resolves to what it resolved to before.
pub resolve-register :
    (r : MnemonicRegistry) (name m : Text) (alias : DistroAlias)
    → resolve (register r name alias) m ≡ (
        if (truthy m && truthy (strip m)) && (lower name == key_of m)
        then some alias
        else resolve r m)
unfolding resolve register
resolve-register r name m alias = elim (Bool-cases (truthy m && truthy (strip m))) [
  | inr n ↦ rw n refl
  | inl y ↦ rw y (
      ap (λ o. or_parse o (key_of m)) (get-put (lower name) (key_of m) alias r)
      ∙ or_parse-if (lower name == key_of m) alias (Dict.get (key_of m) r) (key_of m))
]

key_of-ne :
    (name m : Text)
    → (has_char b'-' (lower name) || has_char b'_' (lower name)) ≡ true
    → (lower name == key_of m) ≡ false
key_of-ne name m h = elim (Bool-cases (lower name == key_of m)) [
  | inr n ↦ n
  | inl y ↦
      let same : lower name ≡ key_of m = (==_iff (lower name) (key_of m)).0 y in
      absurd (both m (rw same at h))
]
  where
    both : (m : Text) → (has_char b'-' (key_of m) || has_char b'_' (key_of m)) ≡ true → ⊥
    both m h = let (d, u) = key_of-has_char m in cc (rw (d, u) at h)

-- An alias that is registered under a name with a dash or an underscore is reached by no mnemonic: every
-- one resolves to what it resolved to before.
pub resolve-register_dash :
    (r : MnemonicRegistry) (name m : Text) (alias : DistroAlias)
    → (has_char b'-' (lower name) || has_char b'_' (lower name)) ≡ true
    → resolve (register r name alias) m ≡ resolve r m
resolve-register_dash r name m alias h =
    resolve-register r name m alias
    ∙ rw (key_of-ne name m h) (if-and (truthy m && truthy (strip m)) alias (resolve r m))
