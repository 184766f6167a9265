-- ===== src/Tests/Saved.antt =====
-- tftpos/named_objects.py: a saved distro is renamed, and a saved host is changed.
use tftp_os.Prelude.{
  ◌≡◌, refl, some, [], ◌∷◌, text_eq, text_beq, codes, contains, has_char, starts_with,
}
use tftp_os.Prelude.Text.{Text}
use tftp_os.Result.{ok}
use tftp_os.Json.{Json, text, obj, end, item, item_or, as_text, as_fields, as_items}
use tftp_os.Dict
use tftp_os.Dict.{Dict}
use tftp_os.Names.{validate_name, safe_name_re, star_to_end, is_alnum, is_name_char}
use tftp_os.Cluster.Serial.{texts_from_items, texts_to_items}
use tftp_os.NamedObjects.Interface.{as_texts, only_keys}
use tftp_os.NamedObjects.Distro.{
  NamedDistro, distro_asdict, distro_construct, distro_kind, distro_set,
}
use tftp_os.NamedObjects.Host.{NamedHost, host_asdict, host_construct, host_kind, host_set}
use tftp_os.NamedObjects.{NamedObjectStore, decode, get, decode_found, apply, get_distro, get_host}

abbrev distro : NamedDistro
distro = record {
  name = codes "deb";
  os_family = codes "debian";
  vendor = [];
  version = codes "12";
  arch = codes "x86_64";
  kernel_path = [];
  initrd_path = [];
  install_url = [];
  comment = [];
}

abbrev host : NamedHost
host = record {
  name = codes "web";
  mac = codes "aa:01";
  profile = [];
  distro = codes "deb";
  hostname = [];
  gateway = [];
  nameservers = [];
  ip_address = [];
  netmask = [];
  comment = [];
  extra = end;
}

abbrev objects : NamedObjectStore
objects = record {
  distros = (codes "deb", obj (distro_asdict distro)) ∷ [];
  hosts = (codes "web", obj (host_asdict host)) ∷ [];
}

abbrev renames : Dict Text Json
renames = (codes "name", text (codes "old")) ∷ []

valid_names :
    (validate_name (codes "deb") ≡ ok tt)
    × (validate_name (codes "web") ≡ ok tt)
    × (validate_name (codes "old") ≡ ok tt)
unfolding validate_name contains has_char safe_name_re star_to_end is_alnum is_name_char starts_with
valid_names = (refl, refl, refl)

distro_found : get_distro objects (codes "deb") ≡ ok (some distro)
unfolding get_distro get decode_found decode Dict.get distro_construct distro_asdict text_beq item
    item_or as_text as_fields only_keys
distro_found = rw valid_names.0 refl

distro_applied : apply distro_kind renames distro ≡ ok (record distro { name = codes "old" })
unfolding apply distro_set text_beq as_text
distro_applied = refl

host_found : get_host objects (codes "web") ≡ ok (some host)
unfolding get_host get decode_found decode Dict.get host_construct host_asdict text_beq item item_or
    as_text as_fields as_items as_texts only_keys texts_from_items texts_to_items
host_found = rw valid_names.1 refl

host_applied :
    apply host_kind ((codes "comment", text (codes "rack 2")) ∷ []) host
    ≡ ok (record host { comment = codes "rack 2" })
unfolding apply host_set text_beq as_text
host_applied = refl
