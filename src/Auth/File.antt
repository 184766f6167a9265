-- ===== src/Auth/File.antt =====
-- What a file of keys holds, and that it is read back as it was written.
use tftp_os.Prelude.{◌≡◌, refl, [], ◌∷◌, arith, ==_iff, text_eq, text_beq}
use tftp_os.Prelude.Sort.{insert, sort}
use tftp_os.Prelude.Text.{Text}
use tftp_os.Result.{ok}
use tftp_os.Json.{obj, as_option_num-option_num, item, item_or, as_text, as_num, as_bool, as_fields}
use tftp_os.Dict
use tftp_os.Dict.{Dict}
use tftp_os.Dict.Distinct.{IsDistinct}
use tftp_os.Dict.Sorted.{get-sort, sort-IsDistinct}
use tftp_os.Auth.{
  Role, role_value, role_of, ApiKey, KeyFile, entry, read_entry, read_all, read, entries, key_le,
  write,
}

-- Each key stands under its hash.
abbrev pub IsKeyed : Dict Text ApiKey → Type 0
IsKeyed [] = Unit
IsKeyed ((h, k) ∷ keys) = (k.key_hash ≡ h) × IsKeyed keys

-- The file is read as these keys.
pub record Holds (f : KeyFile) (keys : Dict Text ApiKey) : Type 0 where
  pub reads : read f ≡ ok keys
  pub distinct : IsDistinct keys
  pub keyed : IsKeyed keys

role_of-value : (r : Role) → role_of (role_value r) ≡ ok r
unfolding role_of role_value text_beq
role_of-value Role.viewer = refl
role_of-value Role.operator = refl
role_of-value Role.admin = refl

read_entry-entry : (k : ApiKey) → read_entry k.key_hash (obj (entry k)) ≡ ok k
unfolding read_entry entry text_beq item item_or as_text as_num as_bool as_fields
read_entry-entry k = rw (role_of-value k.role, as_option_num-option_num k.last_used_at) refl

read_all-entries : (keys : Dict Text ApiKey) → IsKeyed keys → read_all (entries keys) ≡ ok keys
unfolding read_all entries
read_all-entries [] h = refl
read_all-entries ((h, k) ∷ keys) (e, r) =
    rw (← e) (rw (read_entry-entry k, read_all-entries keys r) refl)

entries-insert :
    (h : Text) (k : ApiKey) (keys : Dict Text ApiKey)
    → entries (insert key_le (h, k) keys) ≡ insert key_le (h, obj (entry k)) (entries keys)
unfolding entries insert
entries-insert h k [] = refl
entries-insert h k ((j, x) ∷ keys) = ground (arith, entries-insert h k keys)

entries-sort : (keys : Dict Text ApiKey) → entries (sort key_le keys) ≡ sort key_le (entries keys)
unfolding entries sort
entries-sort [] = refl
entries-sort ((h, k) ∷ keys) = rw (entries-insert h k (sort key_le keys), entries-sort keys) refl

insert-IsKeyed :
    (h : Text) (k : ApiKey) (keys : Dict Text ApiKey)
    → k.key_hash ≡ h
    → IsKeyed keys
    → IsKeyed (insert key_le (h, k) keys)
unfolding insert
insert-IsKeyed h k [] e r = (e, tt)
insert-IsKeyed h k ((j, x) ∷ keys) e r = ground (arith, insert-IsKeyed h k keys e)

sort-IsKeyed : (keys : Dict Text ApiKey) → IsKeyed keys → IsKeyed (sort key_le keys)
unfolding sort
sort-IsKeyed [] r = tt
sort-IsKeyed ((h, k) ∷ keys) r = insert-IsKeyed h k (sort key_le keys) r.0 (sort-IsKeyed keys r.1)

pub put-IsKeyed :
    (h : Text) (k : ApiKey) (keys : Dict Text ApiKey)
    → k.key_hash ≡ h
    → IsKeyed keys
    → IsKeyed (Dict.put h k keys)
unfolding Dict.put
put-IsKeyed h k [] e r = (e, tt)
put-IsKeyed h k ((j, x) ∷ keys) e r = ground (arith, put-IsKeyed h k keys e, ==_iff j h)

pub remove-IsKeyed :
    (h : Text) (keys : Dict Text ApiKey) → IsKeyed keys → IsKeyed (Dict.remove h keys)
unfolding Dict.remove
remove-IsKeyed h [] r = tt
remove-IsKeyed h ((j, x) ∷ keys) r = ground (arith, remove-IsKeyed h keys)

-- The file that was written is read as the same entries.
pub write-Holds :
    (keys : Dict Text ApiKey)
    → IsDistinct keys
    → IsKeyed keys
    → (keys' : Dict Text ApiKey) × Holds (write keys) keys'
      × ((h : Text) → Dict.get h keys' ≡ Dict.get h keys)
unfolding write read
write-Holds keys d r = (
  sort key_le keys,
  record {
    reads = rw (← entries-sort keys) (read_all-entries (sort key_le keys) (sort-IsKeyed keys r));
    distinct = sort-IsDistinct key_le keys d;
    keyed = sort-IsKeyed keys r;
  },
  λ h. get-sort key_le h keys d,
)
