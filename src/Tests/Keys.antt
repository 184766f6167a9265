-- ===== src/Tests/Keys.antt =====
-- tftpos/auth.py on a file with two keys of the same name. The hash is a concrete function here.
use tftp_os.Prelude.{
  ◌≡◌, ◌≢◌, ◌⊎◌, refl, true, false, none, some, [], ◌∷◌, ◌==◌, text_eq, text_beq, codes,
  if◌then◌else◌,
}
use tftp_os.Prelude.Text.{Text}
use tftp_os.Result.{ok}
use tftp_os.Json.{
  obj, as_option_num, option_num, item, item_or, as_text, as_num, as_bool, as_fields,
}
use tftp_os.Dict
use tftp_os.Dict.{Dict}
use tftp_os.Auth.{
  Role, role_value, role_of, ApiKey, KeyFile, entry, read_entry, read_all, read, create_key,
  validate, revoke,
}
use tftp_os.Auth.File.{Holds}
use tftp_os.Auth.Calls.{accepted, touched, validate-Holds, create_key-Holds}
use tftp_os.Auth.Removal.{revoke-Holds}

abbrev hash : Text → Text
hash raw = b'h' ∷ raw

abbrev key : Text → ApiKey
key raw = record {
  key_hash = hash raw;
  name = codes "ci";
  role = Role.operator;
  created_at = 1;
  last_used_at = none;
  enabled = true;
}

abbrev keys : Dict Text ApiKey
keys = (codes "hA", key (codes "A")) ∷ (codes "hB", key (codes "B")) ∷ []

abbrev file : KeyFile
file =
    some (
      (codes "hA", obj (entry (key (codes "A"))))
      ∷ (codes "hB", obj (entry (key (codes "B"))))
      ∷ [])

file-Holds : Holds file keys
unfolding read read_all read_entry entry role_of role_value text_beq item item_or as_text as_num
    as_bool as_fields as_option_num option_num Dict.get
file-Holds = record { reads = refl; distinct = (refl, (refl, tt)); keyed = (refl, (refl, tt)) }

validate-Holds_example :
    (f' : KeyFile) × (keys' : Dict Text ApiKey) × (validate hash file (codes "A") 9
      ≡ ok (f', accepted 9 (Dict.get (hash (codes "A")) keys)))
    × Holds f' keys'
    × ((h : Text)
        → Dict.get h keys'
          ≡ (if hash (codes "A") == h then touched 9 (Dict.get h keys) else Dict.get h keys))
validate-Holds_example = validate-Holds hash file keys (codes "A") 9 file-Holds

create_key-Holds_example :
    (f' : KeyFile) × (keys' : Dict Text ApiKey) × (raw_key : Text) × (k : ApiKey) × (create_key hash
        file
        (codes "C")
        (codes "web")
        Role.viewer
        7
      ≡ ok (f', raw_key, k))
    × Holds f' keys'
    × ((h : Text) → Dict.get h keys' ≡ (if hash raw_key == h then some k else Dict.get h keys))
    × (k.name ≡ codes "web")
    × (k.role ≡ Role.viewer)
    × ((f'' : KeyFile) × (validate hash f' raw_key 8
          ≡ ok (f'', some (record k { last_used_at = some 8 }))))
create_key-Holds_example =
    create_key-Holds hash file keys (codes "C") (codes "web") Role.viewer 7 8 file-Holds

revoke-Holds_example :
    ((revoke file (codes "ci") ≡ ok (file, false))
      × ((h : Text) (k : ApiKey) → Dict.get h keys ≡ some k → k.name ≢ codes "ci"))
    ⊎ ((f' : KeyFile) × (keys' : Dict Text ApiKey) × (h : Text) × (k : ApiKey) × (revoke file
            (codes "ci")
          ≡ ok (f', true))
        × Holds f' keys'
        × (Dict.get h keys ≡ some k)
        × (k.name ≡ codes "ci")
        × ((j : Text)
            → Dict.get j keys'
              ≡ (if h == j then some (record k { enabled = false }) else Dict.get j keys)))
revoke-Holds_example = revoke-Holds file keys (codes "ci") file-Holds
