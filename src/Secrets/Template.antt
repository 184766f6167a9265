-- ===== src/Secrets/Template.antt =====
-- What a text with references becomes: its references are filled in, and what is filled in is not
-- read again.
use tftp_os.Prelude.{
  ℕ, suc, ◌+◌, ◌≡◌, refl, ◌∙◌, sym, ap, arith, true, false, Option, none, some, List, [], ◌∷◌, ◌++◌,
  codes, nat_beq, starts_with, length, truthy, every, All, not, text_eq,
}
use tftp_os.Prelude.Recent.{drop}
use tftp_os.Prelude.Text.{Text}
use tftp_os.Result.{Result, ok, ◌>>=◌, >>=-ok, >>=_assoc}
use tftp_os.Secrets.Resolve.{
  opening, closing, is_key_char, key_run, match_ref, found, length_after, sub, resolve_string,
}

-- A text in pieces: literal texts, and references.
pub data Piece : Type 0 where
  literal : Text → Piece
  reference : Text → Piece

abbrev pub render : List Piece → Text
render [] = []
render (literal s ∷ pieces) = s ++ render pieces
render (reference key ∷ pieces) = opening ++ (key ++ (closing ++ render pieces))

-- Each reference is replaced by the value of its secret; without one, it is an error.
abbrev pub fill : (Text → Option Text) → List Piece → Result Text
fill get [] = ok []
fill get (literal s ∷ pieces) = do rest ← fill get pieces; ok (s ++ rest)
fill get (reference key ∷ pieces) = do
  secret_val ← found (get key)
  rest ← fill get pieces
  ok (secret_val ++ rest)

-- A literal has no "{"; a key is not empty, and of the characters of the pattern.
abbrev pub IsPiece : Piece → Type 0
IsPiece (literal s) = every (λ c. not (nat_beq c b'{')) s ≡ true
IsPiece (reference key) = (truthy key ≡ true) × (every is_key_char key ≡ true)

key_run-key :
    (key s : Text)
    → every is_key_char key ≡ true
    → key_run (key ++ (closing ++ s)) ≡ (key, closing ++ s)
unfolding key_run every
key_run-key [] s h = refl
key_run-key (c ∷ key) s h = ground (arith, key_run-key key s)

match_ref-none : (c : ℕ) (s : Text) → nat_beq c b'{' ≡ false → match_ref (c ∷ s) ≡ none
unfolding match_ref starts_with
match_ref-none c s h = ground arith

match_ref-reference :
    (key s : Text)
    → IsPiece (reference key)
    → match_ref (opening ++ (key ++ (closing ++ s))) ≡ some key
unfolding match_ref starts_with drop
match_ref-reference key s (h, hs) = rw (key_run-key key s hs, h) refl

module _ (get : Text → Option Text) where
  sub-skip : (xs : Text) (n : ℕ) (s : Text) → sub get (length xs + n) (xs ++ s) ≡ sub get n s
  unfolding sub
  sub-skip [] n s = let none_left : 0 + n ≡ n = omega arith in rw none_left refl
  sub-skip (x ∷ xs) n s =
      let one_more : suc (length xs) + n ≡ suc (length xs + n) = omega arith in
      rw one_more (sub-skip xs n s)

  sub-none :
      (c : ℕ) (s : Text)
      → match_ref (c ∷ s) ≡ none
      → sub get 0 (c ∷ s) ≡ (sub get 0 s >>= λ rest. ok (c ∷ rest))
  unfolding sub
  sub-none c s h = rw (h, sub) refl

  sub-some :
      (c : ℕ) (s key : Text)
      → match_ref (c ∷ s) ≡ some key
      → sub get 0 (c ∷ s) ≡ (
          found (get key) >>= λ secret_val.
          sub get (length_after key) s >>= λ rest. ok (secret_val ++ rest))
  unfolding sub
  sub-some c s key h = rw (h, sub) refl

  sub-literal :
      (xs s : Text)
      → every (λ c. not (nat_beq c b'{')) xs ≡ true
      → sub get 0 (xs ++ s) ≡ (sub get 0 s >>= λ rest. ok (xs ++ rest))
  unfolding sub every
  sub-literal [] s h = sym (>>=-ok (sub get 0 s))
  sub-literal (x ∷ xs) s h =
      let other : nat_beq x b'{' ≡ false = ground arith in
      let others : every (λ c. not (nat_beq c b'{')) xs ≡ true = ground arith in
      sub-none x (xs ++ s) (match_ref-none x (xs ++ s) other)
      ∙ (ap (λ r. r >>= λ rest. ok (x ∷ rest)) (sub-literal xs s others)
          ∙ >>=_assoc (sub get 0 s) (λ rest. ok (xs ++ rest)) (λ rest. ok (x ∷ rest)))

  sub-after :
      (key s : Text)
      → sub get (length_after key) (codes "{secret:" ++ (key ++ (closing ++ s))) ≡ sub get 0 s
  sub-after key s =
      let no_more : length closing ≡ length closing + 0 = omega arith in
      sub-skip (codes "{secret:") (length key + length closing) (key ++ (closing ++ s))
      ∙ sub-skip key (length closing) (closing ++ s)
      ∙ ap (λ n. sub get n (closing ++ s)) no_more
      ∙ sub-skip closing 0 s

  sub-reference :
      (key s : Text)
      → IsPiece (reference key)
      → sub get 0 (opening ++ (key ++ (closing ++ s)))
        ≡ (found (get key) >>= λ secret_val. sub get 0 s >>= λ rest. ok (secret_val ++ rest))
  unfolding sub
  sub-reference key s h =
      let matched : match_ref (opening ++ (key ++ (closing ++ s))) ≡ some key =
        match_ref-reference key s h in
      sub-some b'{' (codes "{secret:" ++ (key ++ (closing ++ s))) key matched
      ∙ rw (sub-after key s) refl

  -- Where each literal piece has no "{", and each key that is referred to is not empty and made of the
  -- characters of the pattern: the text that is made of the pieces becomes what the pieces become when
  -- they are filled in.
  pub resolve_string-render :
      (pieces : List Piece)
      → All IsPiece pieces
      → resolve_string get (render pieces) ≡ fill get pieces
  unfolding resolve_string sub
  resolve_string-render [] h = refl
  resolve_string-render (literal s ∷ pieces) (h, hs) =
      sub-literal s (render pieces) h
      ∙ ap (λ r. r >>= λ rest. ok (s ++ rest)) (resolve_string-render pieces hs)
  resolve_string-render (reference key ∷ pieces) (h, hs) =
      sub-reference key (render pieces) h
      ∙ ap (λ r. found (get key) >>= λ v. r >>= λ rest. ok (v ++ rest))
          (resolve_string-render pieces hs)
