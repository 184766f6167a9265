-- ===== src/Secrets/Resolve.antt =====
-- SecretsManager: the references {{secret:KEY}} of a text or a JSON value are replaced by the secrets.
-- The pattern is \{\{secret:([A-Za-z0-9_]+)\}\}; its class has no "}", so that the longest run of its
-- characters is the one that matches.
use tftp_os.Prelude.{
  ℕ, zero, suc, ◌+◌, Bool, ◌&&◌, ◌||◌, Option, none, some, [], ◌∷◌, ◌++◌, codes, if◌then◌else◌, leb,
  nat_beq, starts_with, length, truthy,
}
use tftp_os.Prelude.Recent.{drop}
use tftp_os.Prelude.Text.{Text}
use tftp_os.Result.{Result, ok, raise, value_error, ◌>>=◌}
use tftp_os.Json.{Json, null, bool, num, text, arr, obj, Items, nil, cons, Fields, end, field}

abbrev pub opening : Text
opening = codes "{{secret:"

abbrev pub closing : Text
closing = codes "}}"

-- [A-Za-z0-9_]
abbrev pub is_key_char : ℕ → Bool
is_key_char c =
    (leb b'A' c && leb c b'Z')
    || ((leb b'a' c && leb c b'z') || ((leb b'0' c && leb c b'9') || nat_beq c b'_'))

-- The longest run of characters of the class, and what follows it.
unfoldable pub key_run : Text → Text × Text
key_run [] = ([], [])
key_run (c ∷ s) =
    let rest = key_run s in if is_key_char c then (c ∷ rest.0, rest.1) else ([], c ∷ s)

abbrev pub closed : Text × Text → Option Text
closed (key, rest) = if truthy key && starts_with rest closing then some key else none

-- The key of the reference that the text starts with.
unfoldable pub match_ref : Text → Option Text
unfolding key_run starts_with drop
match_ref s = if starts_with s opening then closed (key_run (drop (length opening) s)) else none

-- The value of a secret, or the error of a missing one.
abbrev pub found : Option Text → Result Text
found none = raise value_error
found (some secret_val) = ok secret_val

-- The length of a reference after its first character.
abbrev pub length_after : Text → ℕ
length_after key = length (codes "{secret:") + (length key + length closing)

module _ (get : Text → Option Text) where
  -- _SECRET_REF_RE.sub(_replacer, text), past so many characters of the last match.
  unfoldable pub sub : ℕ → Text → Result Text
  unfolding match_ref
  sub n [] = ok []
  sub (suc n) (c ∷ s) = sub n s
  sub zero (c ∷ s) = elim (match_ref (c ∷ s)) [
    | none ↦ do rest ← sub zero s; ok (c ∷ rest)
    | some key ↦ do
      secret_val ← found (get key)
      rest ← sub (length_after key) s
      ok (secret_val ++ rest)
  ]

  unfoldable pub resolve_string : Text → Result Text
  unfolding sub
  resolve_string s = sub zero s

  unfoldable mutual
    unfolding resolve_string

    pub resolve_value : Json → Result Json
    resolve_value null = ok null
    resolve_value (bool b) = ok (bool b)
    resolve_value (num n) = ok (num n)
    resolve_value (text s) = do resolved ← resolve_string s; ok (text resolved)
    resolve_value (arr items) = do resolved ← resolve_items items; ok (arr resolved)
    resolve_value (obj fields) = do resolved ← resolve_fields fields; ok (obj resolved)

    pub resolve_items : Items → Result Items
    resolve_items nil = ok nil
    resolve_items (cons v items) = do
      first ← resolve_value v
      rest ← resolve_items items
      ok (cons first rest)

    pub resolve_fields : Fields → Result Fields
    resolve_fields end = ok end
    resolve_fields (field k v fields) = do
      first ← resolve_value v
      rest ← resolve_fields fields
      ok (field k first rest)
