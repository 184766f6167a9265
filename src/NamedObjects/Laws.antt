-- ===== src/NamedObjects/Laws.antt =====
-- Saved objects are read back as they were, also after an update.
use tftp_os.Prelude.{◌≡◌, refl, some, ◌==◌, text_eq, text_beq, if◌then◌else◌}
use tftp_os.Prelude.Text.{Text}
use tftp_os.Result.{ok}
use tftp_os.Json.{Json, obj, item, item_or, as_text, as_fields, as_items}
use tftp_os.Dict
use tftp_os.Dict.{Dict}
use tftp_os.Dict.Laws.{get-put, get-put_self}
use tftp_os.Names.{validate_name}
use tftp_os.Cluster.Serial.{texts_from_items-texts_to_items}
use tftp_os.NamedObjects.Interface.{Kind, as_texts, only_keys}
use tftp_os.NamedObjects.Distro.{NamedDistro, distro_asdict, distro_construct, distro_kind}
use tftp_os.NamedObjects.Host.{NamedHost, host_asdict, host_construct, host_kind}
use tftp_os.NamedObjects.{
  NamedObjectStore, Directory, decode, add, get, apply, update, update_found, get_distro,
  update_distro, get_host, update_host,
}

distro_construct-asdict : (x : NamedDistro) → distro_construct (distro_asdict x) ≡ ok x
unfolding distro_construct distro_asdict text_beq item item_or as_text only_keys
distro_construct-asdict x = refl

host_construct-asdict : (x : NamedHost) → host_construct (host_asdict x) ≡ ok x
unfolding host_construct host_asdict text_beq item item_or as_text as_fields as_items as_texts
    only_keys
host_construct-asdict x = rw (texts_from_items-texts_to_items x.nameservers) refl

module _ {A : Type 0} (k : Kind A) (round : (x : A) → k.construct (k.asdict x) ≡ ok x) where
  -- What an update of the object under a name leaves: it returns the changed object, which is read
  -- under the name that it has then, and every other file stays, also the one under an old name.
  Updated : Directory → Text → Dict Text Json → A → Type 0
  Updated s name updates x =
      (s' : Directory) × (update k s name updates ≡ ok (s', some x))
      × (get k s' (k.name_of x) ≡ ok (some x))
      × ((n : Text)
          → Dict.get n s' ≡ (if k.name_of x == n then some (obj (k.asdict x)) else Dict.get n s))

  update-Updated :
      (s : Directory) (name : Text) (updates : Dict Text Json) (x x' : A)
      → get k s name ≡ ok (some x)
      → apply k updates x ≡ ok x'
      → validate_name (k.name_of x') ≡ ok tt
      → Updated s name updates x'
  unfolding Updated update add get decode as_fields
  update-Updated s name updates x x' found applied valid = (
    Dict.put (k.name_of x') (obj (k.asdict x')) s,
    rw (found, update_found, applied, valid) refl,
    rw (valid, get-put_self, round x') refl,
    λ n. get-put (k.name_of x') n (obj (k.asdict x')) s,
  )

-- Updating a saved distro, where the updates apply and leave a valid name, returns the changed distro, which
-- is then read under the name that it has; every other file stays, also the one under a name that it
-- had before.
pub update_distro-get :
    (s : NamedObjectStore) (name : Text) (updates : Dict Text Json) (x x' : NamedDistro)
    → get_distro s name ≡ ok (some x)
    → apply distro_kind updates x ≡ ok x'
    → validate_name x'.name ≡ ok tt
    → (s' : NamedObjectStore) × (update_distro s name updates ≡ ok (s', some x'))
      × (get_distro s' x'.name ≡ ok (some x'))
      × (s'.hosts ≡ s.hosts)
      × ((n : Text)
          → Dict.get n s'.distros
            ≡ (if x'.name == n then some (obj (distro_asdict x')) else Dict.get n s.distros))
unfolding update_distro get_distro Updated
update_distro-get s name updates x x' found applied valid =
    let (d, updated, got, others) =
      update-Updated distro_kind distro_construct-asdict s.distros name updates x x' found applied
        valid in
    (record s { distros = d }, rw updated refl, got, refl, others)

-- Updating a saved host, where the updates apply and leave a valid name, returns the changed host, which
-- is then read under the name that it has; every other file stays, also the one under a name that it
-- had before.
pub update_host-get :
    (s : NamedObjectStore) (name : Text) (updates : Dict Text Json) (x x' : NamedHost)
    → get_host s name ≡ ok (some x)
    → apply host_kind updates x ≡ ok x'
    → validate_name x'.name ≡ ok tt
    → (s' : NamedObjectStore) × (update_host s name updates ≡ ok (s', some x'))
      × (get_host s' x'.name ≡ ok (some x'))
      × (s'.distros ≡ s.distros)
      × ((n : Text)
          → Dict.get n s'.hosts
            ≡ (if x'.name == n then some (obj (host_asdict x')) else Dict.get n s.hosts))
unfolding update_host get_host Updated
update_host-get s name updates x x' found applied valid =
    let (d, updated, got, others) =
      update-Updated host_kind host_construct-asdict s.hosts name updates x x' found applied
        valid in
    (record s { hosts = d }, rw updated refl, got, refl, others)
