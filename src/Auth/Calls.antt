-- ===== src/Auth/Calls.antt =====
-- What creating and validating keys does to the keys that the file holds.
use tftp_os.Prelude.{
  ℕ, ◌≡◌, inl, inr, refl, true, Option, none, some, [], ◌∷◌, ◌++◌, arith, ◌==◌, ==_iff, ==_refl,
  text_eq, if◌then◌else◌, codes, Bool-cases, Option-cases,
}
use tftp_os.Prelude.Text.{Text}
use tftp_os.Result.{ok}
use tftp_os.Dict
use tftp_os.Dict.{Dict}
use tftp_os.Dict.Laws.{get-put, present}
use tftp_os.Dict.Distinct.{IsDistinct, put-IsDistinct}
use tftp_os.Auth.{Role, ApiKey, KeyFile, write, matched, accept, create_key, validate}
use tftp_os.Auth.File.{IsKeyed, Holds, put-IsKeyed, write-Holds}

-- Distinct keys match at most once, so that the loop over all of them is a lookup.
matched-get :
    (h : Text) (keys : Dict Text ApiKey) (found : Option ApiKey)
    → IsDistinct keys
    → matched h keys found ≡ (if present (Dict.get h keys) then Dict.get h keys else found)
unfolding matched Dict.get
matched-get h [] found d = refl
matched-get h ((j, k) ∷ keys) found d =
    ground
      (arith, matched-get h keys found d.1, matched-get h keys (some k) d.1, ==_iff h j, ==_iff j h)

key_at :
    (h : Text) (k : ApiKey) (keys : Dict Text ApiKey)
    → IsKeyed keys
    → Dict.get h keys ≡ some k
    → k.key_hash ≡ h
unfolding Dict.get
key_at h k [] r e = cc
key_at h k ((j, x) ∷ keys) r e = ground (arith, key_at h k keys r.1, ==_iff j h)

-- What `validate` answers for the key under the hash, and what it leaves there.
abbrev pub accepted : ℕ → Option ApiKey → Option ApiKey
accepted now none = none
accepted now (some k) = if k.enabled then some (record k { last_used_at = some now }) else none

abbrev pub touched : ℕ → Option ApiKey → Option ApiKey
touched now none = none
touched now (some k) = if k.enabled then some (record k { last_used_at = some now }) else some k

module _ (hash_key : Text → Text) where
  -- On a file that holds keys, `validate` returns; it accepts exactly the raw keys whose hash stands
  -- there with an enabled key, notes the time of use on that key, and leaves every other key.
  pub validate-Holds :
      (f : KeyFile) (keys : Dict Text ApiKey) (raw_key : Text) (now : ℕ)
      → Holds f keys
      → (f' : KeyFile) × (keys' : Dict Text ApiKey) × (validate hash_key f raw_key now
          ≡ ok (f', accepted now (Dict.get (hash_key raw_key) keys)))
        × Holds f' keys'
        × ((h : Text)
            → Dict.get h keys'
              ≡ (if hash_key raw_key == h then touched now (Dict.get h keys) else Dict.get h keys))
  unfolding validate accept
  validate-Holds f keys raw_key now r =
      let h = hash_key raw_key in
      let found : matched h keys none ≡ Dict.get h keys =
        ground (arith, matched-get h keys none r.distinct) in
      elim (Option-cases (Dict.get h keys)) [
        | inl p ↦ (f, keys, rw (r.reads, found, p) refl, r, λ j. ground (arith, ==_iff h j))
        | inr (k, p) ↦ elim (Bool-cases k.enabled) [
          | inl on ↦
              let used : ApiKey = record k { last_used_at = some now } in
              let here : used.key_hash ≡ h = key_at h k keys r.keyed p in
              let (keys', held, same) =
                write-Holds (Dict.put h used keys) (put-IsDistinct h used keys r.distinct)
                  (put-IsKeyed h used keys here r.keyed) in
              (
                write (Dict.put h used keys),
                keys',
                rw (r.reads, found, p, accept, on) refl,
                held,
                λ j. rw same (ground (arith, get-put h j used keys, ==_iff h j)),
              )
          | inr off ↦ (
            f,
            keys,
            rw (r.reads, found, p, accept, off) refl,
            r,
            λ j. ground (arith, ==_iff h j),
          )
        ]
      ]

  -- On a file that holds keys, `create_key` returns a key with the name and the role under the hash
  -- of the raw key that it returns, and leaves every other key; the raw key is then accepted.
  pub create_key-Holds :
      (f : KeyFile) (keys : Dict Text ApiKey) (token name : Text) (role : Role) (now later : ℕ)
      → Holds f keys
      → (f' : KeyFile) × (keys' : Dict Text ApiKey) × (raw_key : Text) × (key : ApiKey)
        × (create_key hash_key f token name role now ≡ ok (f', raw_key, key))
        × Holds f' keys'
        × ((h : Text)
            → Dict.get h keys' ≡ (if hash_key raw_key == h then some key else Dict.get h keys))
        × (key.name ≡ name)
        × (key.role ≡ role)
        × ((f'' : KeyFile) × (validate hash_key f' raw_key later
              ≡ ok (f'', some (record key { last_used_at = some later }))))
  unfolding create_key
  create_key-Holds f keys token name role now later r =
      let raw_key = codes "tftpos_" ++ token in
      let h = hash_key raw_key in
      let key : ApiKey = record {
        key_hash = h;
        name = name;
        role = role;
        created_at = now;
        last_used_at = none;
        enabled = true;
      } in
      let (keys', held, same) =
        write-Holds (Dict.put h key keys) (put-IsDistinct h key keys r.distinct)
          (put-IsKeyed h key keys refl r.keyed) in
      let at : (j : Text) → Dict.get j keys' ≡ (if h == j then some key else Dict.get j keys) =
        λ j. rw same (get-put h j key keys) in
      let there : Dict.get h keys' ≡ some key = rw (at, ==_refl h) refl in
      let (f'', keys'', validated, _, _) =
        validate-Holds (write (Dict.put h key keys)) keys' raw_key later held in
      (
        write (Dict.put h key keys),
        keys',
        raw_key,
        key,
        rw r.reads refl,
        held,
        at,
        refl,
        refl,
        (f'', rw there at validated),
      )
