-- ===== src/Cluster/Store.antt =====
-- ClusterStore: a JSON file for each cluster, by its name. Reads and writes of the files succeed.
use tftp_os.Prelude.{
  Bool, true, false, Option, none, some, List, [], ◌∷◌, ◌++◌, ◌≡◌, refl, ◌==◌, text_eq,
  if◌then◌else◌, codes, arith,
}
use tftp_os.Prelude.Text.{Text}
use tftp_os.Prelude.Sort.{sort, text_le}
use tftp_os.Result.{Result, ok, raise, ◌>>=◌, ◌>>◌}
use tftp_os.Json.{Json, obj}
use tftp_os.Dict
use tftp_os.Dict.{Dict}
use tftp_os.Dict.Laws.{get-put, get-put_self}
use tftp_os.Names.{validate_name}
use tftp_os.Cluster.Definition.{ClusterDefinition}
use tftp_os.Cluster.Serial.{to_dict, from_dict, from_dict-to_dict}

-- The files of the directory, without their ending ".json".
abbrev pub ClusterStore : Type 0
ClusterStore = Dict Text Json

unfoldable pub save : ClusterStore → ClusterDefinition → Result ClusterStore
save s c = do validate_name c.name; ok (Dict.put c.name (obj (to_dict c)) s)

load_found : Option Json → Result (Option ClusterDefinition)
load_found none = ok none
load_found (some v) = do c ← from_dict v; ok (some c)

unfoldable pub get : ClusterStore → Text → Result (Option ClusterDefinition)
unfolding load_found
get s name = do validate_name name; load_found (Dict.get name s)

-- The order of the paths is that of the file names.
abbrev file_le : Text × Json → Text × Json → Bool
file_le a b = text_le (a.0 ++ codes ".json") (b.0 ++ codes ".json")

load_all : List (Text × Json) → Result (List ClusterDefinition)
load_all [] = ok []
load_all ((name, v) ∷ files) =
    let rest = load_all files in do c ← from_dict v; cs ← rest; ok (c ∷ cs)

unfoldable pub list_all : ClusterStore → Result (List ClusterDefinition)
unfolding load_all sort
list_all s = load_all (sort file_le s)

unfoldable pub delete : ClusterStore → Text → Result (ClusterStore × Bool)
delete s name = do
  validate_name name
  ok (if Dict.has_key name s then (Dict.remove name s, true) else (s, false))

-- A cluster with a valid name is saved, and read back as it was; the other files stay as they were.
pub get-save_cluster :
    (s : ClusterStore) (c : ClusterDefinition)
    → validate_name c.name ≡ ok tt
    → (s' : ClusterStore) × (save s c ≡ ok s')
      × (get s' c.name ≡ ok (some c))
      × ((name : Text)
          → Dict.get name s' ≡ (if c.name == name then some (obj (to_dict c)) else Dict.get name s))
unfolding save get
get-save_cluster s c valid = (
  Dict.put c.name (obj (to_dict c)) s,
  rw valid refl,
  rw (valid, get-put_self) (rw (from_dict-to_dict c, load_found) refl),
  λ name. get-put c.name name (obj (to_dict c)) s,
)

-- What was saved is read back as it was.
pub get_of_save :
    (s s' : ClusterStore) (c : ClusterDefinition) → save s c ≡ ok s' → get s' c.name ≡ ok (some c)
get_of_save s s' c h = go (validate_name c.name) refl
  where
    go : (v : Result (Unit {0})) → validate_name c.name ≡ v → get s' c.name ≡ ok (some c)
    go (raise e) v = absurd (unfold save in ground arith)
    go (ok u) v =
        let (t, saved, got, _) = get-save_cluster s c v in
        let same : t ≡ s' = ground arith in rw (← same) got
