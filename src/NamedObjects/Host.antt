-- ===== src/NamedObjects/Host.antt =====
-- NamedHost as a dict and back.
use tftp_os.Prelude.{Bool, ◌||◌, List, [], if◌then◌else◌, ◌==◌, text_eq, codes}
use tftp_os.Prelude.Text.{Text}
use tftp_os.Result.{Result, ok, type_error, ◌>>=◌, ◌>>◌, guard}
use tftp_os.Json.{Json, text, arr, obj, nil, Fields, end, field, item, item_or, as_text, as_fields}
use tftp_os.Cluster.Serial.{texts_to_items}
use tftp_os.NamedObjects.Interface.{Kind, as_texts, only_keys}

pub record NamedHost : Type 0 where
  pub name : Text
  pub mac : Text
  pub profile : Text
  pub distro : Text
  pub hostname : Text
  pub gateway : Text
  pub nameservers : List Text
  pub ip_address : Text
  pub netmask : Text
  pub comment : Text
  pub extra : Fields

abbrev host_key : Text → Bool
host_key k =
    k == codes "name"
    || k == codes "mac"
    || k == codes "profile"
    || k == codes "distro"
    || k == codes "hostname"
    || k == codes "gateway"
    || k == codes "nameservers"
    || k == codes "ip_address"
    || k == codes "netmask"
    || k == codes "comment"
    || k == codes "extra"

unfoldable pub host_asdict : NamedHost → Fields
host_asdict x = field (codes "name") (text x.name) (
    field (codes "mac") (text x.mac) (
      field (codes "profile") (text x.profile) (
        field (codes "distro") (text x.distro) (
          field (codes "hostname") (text x.hostname) (
            field (codes "gateway") (text x.gateway) (
              field (codes "nameservers") (arr (texts_to_items x.nameservers)) (
                field (codes "ip_address") (text x.ip_address) (
                  field (codes "netmask") (text x.netmask) (
                    field (codes "comment") (text x.comment)
                      (field (codes "extra") (obj x.extra) (end)))))))))))

unfoldable pub host_construct : Fields → Result NamedHost
unfolding as_texts only_keys
host_construct d = do
  guard (only_keys host_key d) type_error
  name ← (do v ← item (codes "name") d; as_text v)
  mac ← (do v ← item (codes "mac") d; as_text v)
  profile ← as_text (item_or (codes "profile") (text []) d)
  distro ← as_text (item_or (codes "distro") (text []) d)
  hostname ← as_text (item_or (codes "hostname") (text []) d)
  gateway ← as_text (item_or (codes "gateway") (text []) d)
  nameservers ← as_texts (item_or (codes "nameservers") (arr nil) d)
  ip_address ← as_text (item_or (codes "ip_address") (text []) d)
  netmask ← as_text (item_or (codes "netmask") (text []) d)
  comment ← as_text (item_or (codes "comment") (text []) d)
  extra ← as_fields (item_or (codes "extra") (obj end) d)
  ok (record {
    name = name;
    mac = mac;
    profile = profile;
    distro = distro;
    hostname = hostname;
    gateway = gateway;
    nameservers = nameservers;
    ip_address = ip_address;
    netmask = netmask;
    comment = comment;
    extra = extra;
  })

unfoldable pub host_set : Text → Json → NamedHost → Result NamedHost
unfolding as_texts
host_set k v x =
    if k == codes "name"
    then (do w ← as_text v; ok (record x { name = w }))
    else if k == codes "mac"
    then (do w ← as_text v; ok (record x { mac = w }))
    else if k == codes "profile"
    then (do w ← as_text v; ok (record x { profile = w }))
    else if k == codes "distro"
    then (do w ← as_text v; ok (record x { distro = w }))
    else if k == codes "hostname"
    then (do w ← as_text v; ok (record x { hostname = w }))
    else if k == codes "gateway"
    then (do w ← as_text v; ok (record x { gateway = w }))
    else if k == codes "nameservers"
    then (do w ← as_texts v; ok (record x { nameservers = w }))
    else if k == codes "ip_address"
    then (do w ← as_text v; ok (record x { ip_address = w }))
    else if k == codes "netmask"
    then (do w ← as_text v; ok (record x { netmask = w }))
    else if k == codes "comment"
    then (do w ← as_text v; ok (record x { comment = w }))
    else if k == codes "extra"
    then (do w ← as_fields v; ok (record x { extra = w }))
    else ok x

abbrev pub host_kind : Kind NamedHost
host_kind = record {
  name_of = λ x. x.name;
  asdict = host_asdict;
  construct = host_construct;
  set = host_set;
}
