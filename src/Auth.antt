-- ===== src/Auth.antt =====
-- tftpos/auth.py: roles, and the store of API keys in a JSON file. The SHA-256 hash of a raw key is a
-- parameter, and the random part of a new key an argument, as is the time. The file holds a JSON
-- object; permissions of the file are not modelled.
pub mod File
pub mod Calls
pub mod Removal
use tftp_os.Prelude.{
  ℕ, Bool, true, false, not, ◌||◌, Option, none, some, List, [], ◌∷◌, ◌++◌, if◌then◌else◌, leb,
  ◌==◌, text_eq, codes,
}
use tftp_os.Prelude.Sort.{sort, text_le}
use tftp_os.Prelude.Text.{Text}
use tftp_os.Result.{Result, ok, raise, value_error, ◌>>=◌}
use tftp_os.Json.{
  Json, null, bool, num, text, obj, Fields, end, field, item, item_or, as_text, as_bool, as_num,
  as_fields, as_option_num, option_num,
}
use tftp_os.Dict
use tftp_os.Dict.{Dict}

pub data Role : Type 0 where
  viewer operator admin : Role

-- _ROLE_LEVEL
unfoldable pub role_level : Role → ℕ
role_level viewer = 1
role_level operator = 2
role_level admin = 3

unfoldable pub role_has_access : Role → Role → Bool
unfolding role_level
role_has_access user_role required_role = leb (role_level required_role) (role_level user_role)

unfoldable pub role_value : Role → Text
role_value viewer = codes "viewer"
role_value operator = codes "operator"
role_value admin = codes "admin"

-- Role(value)
unfoldable pub role_of : Text → Result Role
role_of v =
    if v == codes "viewer"
    then ok viewer
    else if v == codes "operator"
    then ok operator
    else if v == codes "admin"
    then ok admin
    else raise value_error

pub record ApiKey : Type 0 where
  pub key_hash : Text
  pub name : Text
  pub role : Role
  pub created_at : ℕ
  pub last_used_at : Option ℕ
  pub enabled : Bool

-- The file `auth_keys.json`, if it exists.
abbrev pub KeyFile : Type 0
KeyFile = Option (Dict Text Json)

-- An entry as `_write` writes it, with sorted keys.
unfoldable pub entry : ApiKey → Fields
unfolding role_value
entry k = field (codes "created_at") (num k.created_at) (
    field (codes "enabled") (bool k.enabled) (
      field (codes "last_used_at") (option_num k.last_used_at)
        (field (codes "name") (text k.name) (field (codes "role") (text (role_value k.role)) end))))

unfoldable pub read_entry : Text → Json → Result ApiKey
unfolding role_of
read_entry key_hash v = do
  d ← as_fields v
  name ← (do n ← item (codes "name") d; as_text n)
  role ← (do r ← item (codes "role") d; t ← as_text r; role_of t)
  created ← as_num (item_or (codes "created_at") (num 0) d)
  used ← as_option_num (item_or (codes "last_used_at") null d)
  enabled ← as_bool (item_or (codes "enabled") (bool true) d)
  ok (record {
    key_hash = key_hash;
    name = name;
    role = role;
    created_at = created;
    last_used_at = used;
    enabled = enabled;
  })

-- The loop of `_read`. The keys of a JSON object differ, so that each assignment is of a new key.
unfoldable pub read_all : Dict Text Json → Result (Dict Text ApiKey)
unfolding read_entry
read_all [] = ok []
read_all ((h, v) ∷ d) = let rest = read_all d in do k ← read_entry h v; ks ← rest; ok ((h, k) ∷ ks)

unfoldable pub read : KeyFile → Result (Dict Text ApiKey)
unfolding read_all
read none = ok []
read (some d) = read_all d

unfoldable pub entries : Dict Text ApiKey → Dict Text Json
unfolding entry
entries [] = []
entries ((h, k) ∷ ks) = (h, obj (entry k)) ∷ entries ks

-- sort_keys=True
abbrev pub key_le {κ} : {V : Type κ} → Text × V → Text × V → Bool
key_le a b = text_le a.0 b.0

unfoldable pub write : Dict Text ApiKey → KeyFile
unfolding entries sort
write keys = some (sort key_le (entries keys))

-- The loop of `validate` over all keys: the last key that matches.
unfoldable pub matched : Text → Dict Text ApiKey → Option ApiKey → Option ApiKey
matched h [] found = found
matched h ((stored, k) ∷ keys) found = matched h keys (if h == stored then some k else found)

-- The loop of `revoke`: the first key with the name is disabled.
unfoldable pub disable_first : Text → Dict Text ApiKey → Option (Dict Text ApiKey)
disable_first name [] = none
disable_first name ((h, k) ∷ keys) =
    let rest = disable_first name keys in
    if k.name == name
    then some ((h, record k { enabled = false }) ∷ keys)
    else elim rest [ none ↦ none | some keys' ↦ some ((h, k) ∷ keys') ]

-- to_remove
unfoldable pub named : Text → Dict Text ApiKey → List Text
named name [] = []
named name ((h, k) ∷ keys) = let rest = named name keys in if k.name == name then h ∷ rest else rest

unfoldable pub remove_all : List Text → Dict Text ApiKey → Dict Text ApiKey
remove_all [] keys = keys
remove_all (h ∷ hs) keys = remove_all hs (Dict.remove h keys)

-- What `validate` does with the key that matched.
accept : KeyFile → Dict Text ApiKey → Text → ℕ → Option ApiKey → KeyFile × Option ApiKey
unfolding write
accept f keys h now none = (f, none)
accept f keys h now (some k) =
    let used : ApiKey = record k { last_used_at = some now } in
    if k.enabled then (write (Dict.put h used keys), some used) else (f, none)

revoked : KeyFile → Option (Dict Text ApiKey) → KeyFile × Bool
unfolding write
revoked f none = (f, false)
revoked f (some keys) = (write keys, true)

deleted : KeyFile → Dict Text ApiKey → List Text → KeyFile × Bool
unfolding write remove_all
deleted f keys [] = (f, false)
deleted f keys (h ∷ hs) = (write (remove_all (h ∷ hs) keys), true)

-- `hash_key` is the parameter.
module _ (hash_key : Text → Text) where
  -- `token` is the random part of the key.
  unfoldable pub create_key : KeyFile → Text → Text → Role → ℕ → Result (KeyFile × Text × ApiKey)
  unfolding read write
  create_key f token name role now = do
    let raw_key = codes "tftpos_" ++ token
    let key : ApiKey = record {
      key_hash = hash_key raw_key;
      name = name;
      role = role;
      created_at = now;
      last_used_at = none;
      enabled = true;
    }
    keys ← read f
    ok (write (Dict.put (hash_key raw_key) key keys), raw_key, key)

  unfoldable pub validate : KeyFile → Text → ℕ → Result (KeyFile × Option ApiKey)
  unfolding read accept matched
  validate f raw_key now = do
    keys ← read f
    ok (accept f keys (hash_key raw_key) now (matched (hash_key raw_key) keys none))

unfoldable pub list_keys : KeyFile → Result (List ApiKey)
unfolding read
list_keys f = do keys ← read f; ok (Dict.values keys)

unfoldable pub revoke : KeyFile → Text → Result (KeyFile × Bool)
unfolding read revoked disable_first
revoke f name = do keys ← read f; ok (revoked f (disable_first name keys))

unfoldable pub delete : KeyFile → Text → Result (KeyFile × Bool)
unfolding read deleted named
delete f name = do keys ← read f; ok (deleted f keys (named name keys))

abbrev no_keys : Dict Text ApiKey → Bool
no_keys [] = true
no_keys (k ∷ keys) = false

unfoldable pub is_empty : KeyFile → Result Bool
unfolding read
is_empty f = do keys ← read f; ok (no_keys keys)
