-- ===== src/NamedObjects.antt =====
-- tftpos/named_objects.py: NamedObjectStore, saved distros and hosts, each a JSON file under its name.
-- Reads and writes of the files succeed; a value is read at the type that its field declares.
pub mod Interface
pub mod Distro
pub mod Host
pub mod Laws
use tftp_os.Prelude.{
  Bool, true, false, ◌||◌, ◌&&◌, Option, none, some, List, [], ◌∷◌, ◌++◌, if◌then◌else◌, ◌==◌,
  text_eq, codes,
}
use tftp_os.Prelude.Sort.{sort, text_le}
use tftp_os.Prelude.Text.{Text}
use tftp_os.Result.{Result, ok, raise, type_error, ◌>>=◌, ◌>>◌, guard}
use tftp_os.Json.{
  Json, text, arr, obj, Items, nil, Fields, end, field, item, item_or, as_text, as_fields, as_items,
}
use tftp_os.Dict
use tftp_os.Dict.{Dict}
use tftp_os.Names.{validate_name}
use tftp_os.Matcher.{normal_mac}
use tftp_os.Cluster.Serial.{texts_to_items, texts_from_items}
use tftp_os.NamedObjects.Interface.{Kind}
use tftp_os.NamedObjects.Distro.{NamedDistro, distro_kind}
use tftp_os.NamedObjects.Host.{NamedHost, host_kind}

-- The files of one of the two directories, without their ending ".json".
abbrev pub Directory : Type 0
Directory = Dict Text Json

pub record NamedObjectStore : Type 0 where
  pub distros : Directory
  pub hosts : Directory

abbrev pub file_le : Text × Json → Text × Json → Bool
file_le a b = text_le (a.0 ++ codes ".json") (b.0 ++ codes ".json")

module _ {A : Type 0} (k : Kind A) where
  unfoldable pub decode : Json → Result A
  decode v = do d ← as_fields v; k.construct d

  unfoldable pub decode_found : Option Json → Result (Option A)
  unfolding decode
  decode_found none = ok none
  decode_found (some v) = do x ← decode v; ok (some x)

  unfoldable pub decode_all : Directory → Result (List A)
  unfolding decode
  decode_all [] = ok []
  decode_all ((name, v) ∷ files) =
      let rest = decode_all files in do x ← decode v; xs ← rest; ok (x ∷ xs)

  unfoldable pub add : Directory → A → Result Directory
  add s x = do validate_name (k.name_of x); ok (Dict.put (k.name_of x) (obj (k.asdict x)) s)

  unfoldable pub get : Directory → Text → Result (Option A)
  unfolding decode_found
  get s name = do validate_name name; decode_found (Dict.get name s)

  unfoldable pub list_objects : Directory → Result (List A)
  unfolding decode_all sort
  list_objects s = decode_all (sort file_le s)

  -- The loop over the updates.
  unfoldable pub apply : Dict Text Json → A → Result A
  apply [] x = ok x
  apply ((key, v) ∷ updates) x = do x' ← k.set key v x; apply updates x'

  update_found : Directory → Dict Text Json → Option A → Result (Directory × Option A)
  unfolding apply add
  update_found s updates none = ok (s, none)
  update_found s updates (some x) = do x' ← apply updates x; s' ← add s x'; ok (s', some x')

  unfoldable pub update : Directory → Text → Dict Text Json → Result (Directory × Option A)
  unfolding get update_found
  update s name updates = do found ← get s name; update_found s updates found

unfoldable pub delete : Directory → Text → Result (Directory × Bool)
delete s name = do
  validate_name name
  ok (if Dict.has_key name s then (Dict.remove name s, true) else (s, false))

unfoldable pub add_distro : NamedObjectStore → NamedDistro → Result NamedObjectStore
unfolding add
add_distro s x = do d ← add distro_kind s.distros x; ok (record s { distros = d })

unfoldable pub get_distro : NamedObjectStore → Text → Result (Option NamedDistro)
unfolding get
get_distro s name = get distro_kind s.distros name

unfoldable pub list_distros : NamedObjectStore → Result (List NamedDistro)
unfolding list_objects
list_distros s = list_objects distro_kind s.distros

unfoldable pub delete_distro : NamedObjectStore → Text → Result (NamedObjectStore × Bool)
unfolding delete
delete_distro s name = do (d, b) ← delete s.distros name; ok (record s { distros = d }, b)

unfoldable pub update_distro :
    NamedObjectStore → Text → Dict Text Json → Result (NamedObjectStore × Option NamedDistro)
unfolding update
update_distro s name updates = do
  (d, x) ← update distro_kind s.distros name updates
  ok (record s { distros = d }, x)

unfoldable pub add_host : NamedObjectStore → NamedHost → Result NamedObjectStore
unfolding add
add_host s x = do d ← add host_kind s.hosts x; ok (record s { hosts = d })

unfoldable pub get_host : NamedObjectStore → Text → Result (Option NamedHost)
unfolding get
get_host s name = get host_kind s.hosts name

unfoldable pub list_hosts : NamedObjectStore → Result (List NamedHost)
unfolding list_objects
list_hosts s = list_objects host_kind s.hosts

unfoldable pub delete_host : NamedObjectStore → Text → Result (NamedObjectStore × Bool)
unfolding delete
delete_host s name = do (d, b) ← delete s.hosts name; ok (record s { hosts = d }, b)

unfoldable pub update_host :
    NamedObjectStore → Text → Dict Text Json → Result (NamedObjectStore × Option NamedHost)
unfolding update
update_host s name updates = do
  (d, x) ← update host_kind s.hosts name updates
  ok (record s { hosts = d }, x)

-- The first host whose MAC address is the same in normal form.
unfoldable pub first_with_mac : Text → List NamedHost → Option NamedHost
unfolding normal_mac
first_with_mac normalised [] = none
first_with_mac normalised (h ∷ hosts) =
    let rest = first_with_mac normalised hosts in
    if normal_mac h.mac == normalised then some h else rest

unfoldable pub find_host_by_mac : NamedObjectStore → Text → Result (Option NamedHost)
unfolding first_with_mac list_hosts
find_host_by_mac s mac = do hosts ← list_hosts s; ok (first_with_mac (normal_mac mac) hosts)
