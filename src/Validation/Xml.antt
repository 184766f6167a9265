-- ===== src/Validation/Xml.antt =====
-- The escaping of XML: five replacements, one after the other, against one pass over the text.
use tftp_os.Prelude.{
  ℕ, ◌≡◌, refl, sym, ap, Bool, true, List, [], ◌∷◌, ◌++◌, arith, nat_beq, if◌then◌else◌, codes,
  Bool-cases, inl, inr, not, ◌||◌, ◌&&◌, every,
}
use tftp_os.Prelude.Text.{Text}
use tftp_os.Validation.{replace_by, replace_each, xml_escape_map, escape_xml}

-- What one character stands for in XML.
abbrev pub entity : ℕ → Text
entity c =
    if nat_beq c b'&'
    then codes "&amp;"
    else if nat_beq c b'<'
    then codes "&lt;"
    else if nat_beq c b'>'
    then codes "&gt;"
    else if nat_beq c b'"'
    then codes "&quot;"
    else if nat_beq c b'\''
    then codes "&apos;"
    else c ∷ []

-- One pass over the text.
unfoldable pub escape_once : Text → Text
escape_once [] = []
escape_once (c ∷ s) = entity c ++ escape_once s

append_assoc : (s t u : Text) → (s ++ t) ++ u ≡ s ++ (t ++ u)
append_assoc [] t u = refl
append_assoc (c ∷ s) t u = ap (◌∷◌ c) (append_assoc s t u)

replace_by-append :
    (c : ℕ) (r s t : Text) → replace_by c r (s ++ t) ≡ replace_by c r s ++ replace_by c r t
unfolding replace_by
replace_by-append c r [] t = refl
replace_by-append c r (a ∷ s) t = elim (Bool-cases (nat_beq a c)) [
  | inl same ↦
      rw (same, replace_by-append c r s t)
        (sym (append_assoc r (replace_by c r s) (replace_by c r t)))
  | inr other ↦ rw (other, replace_by-append c r s t) refl
]

replace_each-append :
    (map : List (ℕ × Text)) (s t : Text)
    → replace_each map (s ++ t) ≡ replace_each map s ++ replace_each map t
unfolding replace_each
replace_each-append [] s t = refl
replace_each-append ((c, r) ∷ map) s t =
    rw (replace_by-append c r s t) (replace_each-append map (replace_by c r s) (replace_by c r t))

escape_xml-one : (c : ℕ) → escape_xml (c ∷ []) ≡ entity c
unfolding escape_xml replace_each replace_by
escape_xml-one c = elim (Bool-cases (nat_beq c b'&')) [
  | inl p0 ↦ let e : c ≡ b'&' = ground arith in rw e refl
  | inr p0 ↦ elim (Bool-cases (nat_beq c b'<')) [
    | inl p1 ↦ let e : c ≡ b'<' = ground arith in rw e refl
    | inr p1 ↦ elim (Bool-cases (nat_beq c b'>')) [
      | inl p2 ↦ let e : c ≡ b'>' = ground arith in rw e refl
      | inr p2 ↦ elim (Bool-cases (nat_beq c b'"')) [
        | inl p3 ↦ let e : c ≡ b'"' = ground arith in rw e refl
        | inr p3 ↦ elim (Bool-cases (nat_beq c b'\'')) [
          | inl p4 ↦ let e : c ≡ b'\'' = ground arith in rw e refl
          | inr p4 ↦ rw (p0, p1, p2, p3, p4) refl
        ]
      ]
    ]
  ]
]

escape_xml-cons : (c : ℕ) (s : Text) → escape_xml (c ∷ s) ≡ escape_xml (c ∷ []) ++ escape_xml s
unfolding escape_xml
escape_xml-cons c s = replace_each-append xml_escape_map (c ∷ []) s

-- Escaping by five replacements gives what one pass over the characters gives: no replacement
-- touches what an earlier one wrote.
pub escape_xml-escape_once : (value : Text) → escape_xml value ≡ escape_once value
unfolding escape_once
escape_xml-escape_once [] = unfold escape_xml replace_each in refl
escape_xml-escape_once (c ∷ s) =
    rw (escape_xml-cons c s, escape_xml-one c, escape_xml-escape_once s) refl

-- The characters that an escaped text may not hold.
abbrev pub markup : ℕ → Bool
markup c = nat_beq c b'<' || nat_beq c b'>' || nat_beq c b'"' || nat_beq c b'\''

every-append : (p : ℕ → Bool) (s t : Text) → every p (s ++ t) ≡ (every p s && every p t)
unfolding every
every-append p [] t = refl
every-append p (c ∷ s) t = ground (arith, every-append p s t)

entity-every : (c : ℕ) → every (λ a. not (markup a)) (entity c) ≡ true
unfolding every
entity-every c = elim (Bool-cases (nat_beq c b'&')) [
  | inl p0 ↦ let e : c ≡ b'&' = ground arith in rw e refl
  | inr p0 ↦ elim (Bool-cases (nat_beq c b'<')) [
    | inl p1 ↦ let e : c ≡ b'<' = ground arith in rw e refl
    | inr p1 ↦ elim (Bool-cases (nat_beq c b'>')) [
      | inl p2 ↦ let e : c ≡ b'>' = ground arith in rw e refl
      | inr p2 ↦ elim (Bool-cases (nat_beq c b'"')) [
        | inl p3 ↦ let e : c ≡ b'"' = ground arith in rw e refl
        | inr p3 ↦ elim (Bool-cases (nat_beq c b'\'')) [
          | inl p4 ↦ let e : c ≡ b'\'' = ground arith in rw e refl
          | inr p4 ↦ rw (p0, p1, p2, p3, p4) (ground arith)
        ]
      ]
    ]
  ]
]

escape_once-every : (s : Text) → every (λ c. not (markup c)) (escape_once s) ≡ true
unfolding escape_once every
escape_once-every [] = refl
escape_once-every (c ∷ s) =
    rw (every-append (λ a. not (markup a)) (entity c) (escape_once s), entity-every c)
      (escape_once-every s)

-- An escaped text has none of the characters "<", ">", and no quote of either kind.
pub escape_xml-every : (value : Text) → every (λ c. not (markup c)) (escape_xml value) ≡ true
escape_xml-every value = rw (escape_xml-escape_once value) (escape_once-every value)
