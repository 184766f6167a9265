-- ===== src/Secrets/File.antt =====
-- FileSecretsProvider: the secrets are one file, a JSON object of texts that is written with sorted
-- keys. The permissions of the file and its directory are not modelled.
use tftp_os.Prelude.{
  ◌≡◌, refl, ◌∙◌, sym, ap, Bool, false, Option, none, some, List, [], text_eq, ◌==◌, if◌then◌else◌,
  Bool-cases, inl, inr,
}
use tftp_os.Prelude.Text.{Text}
use tftp_os.Prelude.Sort.{sort, text_le}
use tftp_os.Dict
use tftp_os.Dict.{Dict}
use tftp_os.Dict.Laws.{get-put, get-remove, remove_absent, has_key-get, present}
use tftp_os.Dict.Distinct.{IsDistinct, put-IsDistinct, remove-IsDistinct}
use tftp_os.Dict.Sorted.{get-sort, sort-IsDistinct}
use tftp_os.Secrets.{SecretsProvider, IsProvider}
use tftp_os.Dict.Listed.{among-sort, among-keys}

-- The file `secrets.json`, where there is one.
abbrev pub SecretsFile : Type 0
SecretsFile = Option (Dict Text Text)

unfoldable pub read : SecretsFile → Dict Text Text
read none = []
read (some data_read) = data_read

abbrev pub key_le : Text × Text → Text × Text → Bool
key_le a b = text_le a.0 b.0

unfoldable pub write : Dict Text Text → SecretsFile
unfolding sort
write data_read = some (sort key_le data_read)

unfoldable pub get : SecretsFile → Text → Option Text
unfolding read
get f key = Dict.get key (read f)

unfoldable pub set : SecretsFile → Text → Text → SecretsFile
unfolding read write
set f key value = write (Dict.put key value (read f))

unfoldable pub delete : SecretsFile → Text → SecretsFile
unfolding read write
delete f key = if Dict.has_key key (read f) then write (Dict.remove key (read f)) else f

unfoldable pub list_keys : SecretsFile → List Text
unfolding read sort
list_keys f = sort text_le (Dict.keys (read f))

abbrev pub file_provider : SecretsProvider SecretsFile
file_provider = record { get = get; set = set; delete = delete; list_keys = list_keys }

-- A JSON object that is read has no key twice.
abbrev pub IsFile : SecretsFile → Type 0
IsFile f = IsDistinct (read f)

set-IsFile : (f : SecretsFile) (k v : Text) → IsFile f → IsFile (set f k v)
unfolding set write read
set-IsFile f k v h = sort-IsDistinct key_le (Dict.put k v (read f)) (put-IsDistinct k v (read f) h)

delete-IsFile : (f : SecretsFile) (k : Text) → IsFile f → IsFile (delete f k)
unfolding delete write read
delete-IsFile f k h = elim (Bool-cases (Dict.has_key k (read f))) [
  | inl y ↦ rw y (sort-IsDistinct key_le (Dict.remove k (read f)) (remove-IsDistinct k (read f) h))
  | inr n ↦ rw n h
]

get-set :
    (f : SecretsFile) (k v j : Text)
    → IsFile f
    → get (set f k v) j ≡ (if k == j then some v else get f j)
unfolding set get write read
get-set f k v j h =
    get-sort key_le j (Dict.put k v (read f)) (put-IsDistinct k v (read f) h)
    ∙ get-put k j v (read f)

present-none : (o : Option Text) → present o ≡ false → o ≡ none
present-none none h = refl
present-none (some t) h = cc h

-- A key that is absent reads as it reads when removed.
absent :
    (k j : Text) (d : Dict Text Text)
    → Dict.has_key k d ≡ false
    → Dict.get j d ≡ (if k == j then none else Dict.get j d)
absent k j d h =
    let none_there = present-none (Dict.get k d) (sym (has_key-get k d) ∙ h) in
    sym (ap (Dict.get j) (remove_absent k d none_there)) ∙ get-remove k j d

get-delete :
    (f : SecretsFile) (k j : Text)
    → IsFile f
    → get (delete f k) j ≡ (if k == j then none else get f j)
unfolding delete get write read
get-delete f k j h = elim (Bool-cases (Dict.has_key k (read f))) [
  | inl y ↦ rw y (
      get-sort key_le j (Dict.remove k (read f)) (remove-IsDistinct k (read f) h)
      ∙ get-remove k j (read f))
  | inr n ↦ rw n (absent k j (read f) n)
]

-- On a file without a key twice, the file of secrets is a store: a key that is set reads as its value,
-- a key that is deleted reads as absent, all other keys stay, no key comes to stand twice, and the
-- keys listed are those that read as present.
pub file_provider-IsProvider : IsProvider file_provider (λ k. k) IsFile
unfolding list_keys get
file_provider-IsProvider = record {
  set-IsValid = set-IsFile;
  delete-IsValid = delete-IsFile;
  get-set = get-set;
  get-delete = get-delete;
  list_keys-get = λ f k h.
      among-sort text_le k (Dict.keys (read f)) ∙ among-keys k (read f) ∙ has_key-get k (read f);
}
