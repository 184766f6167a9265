-- ===== src/Db/JsonFile.antt =====
-- JSONBackend: the whole state is read and written on every operation. The file holds a JSON object
-- or nothing that can be read; a file with another JSON value is not modelled.
use tftp_os.Prelude.{
  Bool, true, false, Option, none, some, List, [], ◌∷◌, ◌≡◌, refl, lower, ◌==◌, text_eq, arith,
  if◌then◌else◌, inl, inr, Bool-cases,
}
use tftp_os.Prelude.Text.{Text}
use tftp_os.Result.{Result, ok, ◌>>=◌}
use tftp_os.ProvisionRecord.{ProvisionRecord}
use tftp_os.Json.{Json, null, obj, as_fields}
use tftp_os.Dict
use tftp_os.Dict.{Dict}
use tftp_os.Dict.Laws.{present, remove_absent}
use tftp_os.Db.Memory
use tftp_os.Db.Serial.{record_to_dict, dict_to_record, dict_to_record-record_to_dict}

pub data FileContent : Type 0 where
  missing unreadable blank : FileContent
  object : Dict Text Json → FileContent

-- `_load`: what cannot be read counts as empty.
unfoldable pub load : FileContent → Dict Text Json
load (object d) = d
load _ = []

-- `_dump`
unfoldable pub dump : Dict Text Json → FileContent
dump d = object d

unfoldable pub save : FileContent → ProvisionRecord → FileContent
unfolding load dump
save f r = dump (Dict.put (lower r.mac) (obj (record_to_dict r)) (load f))

decode : Json → Result ProvisionRecord
decode v = do d ← as_fields v; dict_to_record d

decode_found : Option Json → Result (Option ProvisionRecord)
decode_found none = ok none
decode_found (some null) = ok none
decode_found (some v) = do r ← decode v; ok (some r)

unfoldable pub get : FileContent → Text → Result (Option ProvisionRecord)
unfolding decode_found decode load
get f mac = decode_found (Dict.get (lower mac) (load f))

decode_all : List Json → Result (List ProvisionRecord)
decode_all [] = ok []
decode_all (v ∷ vs) = let rest = decode_all vs in do r ← decode v; rs ← rest; ok (r ∷ rs)

unfoldable pub list_all : FileContent → Result (List ProvisionRecord)
unfolding decode_all decode load
list_all f = decode_all (Dict.values (load f))

unfoldable pub delete : FileContent → Text → FileContent × Bool
unfolding load dump
delete f mac =
    if Dict.has_key (lower mac) (load f)
    then (dump (Dict.remove (lower mac) (load f)), true)
    else (f, false)

unfoldable pub clear : FileContent → FileContent
unfolding dump
clear f = dump []

-- The entries of the file that stands for a store of records.
unfoldable pub encode : Memory.Store → Dict Text Json
encode [] = []
encode ((k, r) ∷ s) = (k, obj (record_to_dict r)) ∷ encode s

decode-record : (r : ProvisionRecord) → decode (obj (record_to_dict r)) ≡ ok r
unfolding decode as_fields
decode-record r = dict_to_record-record_to_dict r

put-encode :
    (k : Text) (r : ProvisionRecord) (s : Memory.Store)
    → Dict.put k (obj (record_to_dict r)) (encode s) ≡ encode (Dict.put k r s)
unfolding Dict.put encode
put-encode k r [] = refl
put-encode k r ((j, x) ∷ s) = ground (arith, put-encode k r s)

remove-encode : (k : Text) (s : Memory.Store) → Dict.remove k (encode s) ≡ encode (Dict.remove k s)
unfolding Dict.remove encode
remove-encode k [] = refl
remove-encode k ((j, x) ∷ s) = ground (arith, remove-encode k s)

get-encode :
    (k : Text) (s : Memory.Store) → decode_found (Dict.get k (encode s)) ≡ ok (Dict.get k s)
unfolding Dict.get encode decode_found
get-encode k [] = refl
get-encode k ((j, x) ∷ s) = elim (Bool-cases (j == k)) [
  | inl here ↦ rw (here, decode-record x) refl
  | inr on ↦ rw on (get-encode k s)
]

has_key-encode : (k : Text) (s : Memory.Store) → Dict.has_key k (encode s) ≡ present (Dict.get k s)
unfolding Dict.has_key Dict.get encode
has_key-encode k [] = refl
has_key-encode k ((j, x) ∷ s) = ground (arith, has_key-encode k s)

values-encode : (s : Memory.Store) → decode_all (Dict.values (encode s)) ≡ ok (Dict.values s)
unfolding encode decode_all
values-encode [] = refl
values-encode ((j, x) ∷ s) = rw (decode-record x, values-encode s) refl

-- The file stands for the store of records.
abbrev pub Represents : FileContent → Memory.Store → Type 0
Represents f s = load f ≡ encode s

module _ (f : FileContent) (s : Memory.Store) (rep : Represents f s) where
  json_delete :
      (mac : Text)
      → Represents (delete f mac).0 (Memory.delete s mac).0
        × ((delete f mac).1 ≡ (Memory.delete s mac).1)
  unfolding delete Memory.delete
  json_delete mac = elim (Bool-cases (present (Dict.get (lower mac) s))) [
    | inl there ↦ rw (delete, rep, has_key-encode, there) (remove-encode (lower mac) s, refl)
    | inr gone ↦
        let absent : Dict.get (lower mac) s ≡ none = ground arith in
        rw (delete, rep, has_key-encode, gone, remove_absent (lower mac) s absent) (rep, refl)
  ]

  -- The file backend does what the in-memory one does: each operation on a file that stands for a
  -- store gives the same answer, does not raise, and leaves a file that stands for the new store.
  pub json_refines_memory :
      ((r : ProvisionRecord) → Represents (save f r) (Memory.save s r))
      × ((mac : Text) → get f mac ≡ ok (Memory.get s mac))
      × (list_all f ≡ ok (Memory.list_all s))
      × ((mac : Text)
          → Represents (delete f mac).0 (Memory.delete s mac).0
            × ((delete f mac).1 ≡ (Memory.delete s mac).1))
      × Represents (clear f) (Memory.clear s)
  unfolding save get list_all delete clear Memory.save Memory.get Memory.list_all Memory.delete
      Memory.clear encode
  json_refines_memory = (
    (λ r. rw rep (put-encode (lower r.mac) r s)),
    (λ mac. rw rep (get-encode (lower mac) s)),
    rw rep (values-encode s),
    json_delete,
    refl,
  )
