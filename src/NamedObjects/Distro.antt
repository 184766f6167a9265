-- ===== src/NamedObjects/Distro.antt =====
-- NamedDistro as a dict and back.
use tftp_os.Prelude.{Bool, ◌||◌, [], if◌then◌else◌, ◌==◌, text_eq, codes}
use tftp_os.Prelude.Text.{Text}
use tftp_os.Result.{Result, ok, type_error, ◌>>=◌, ◌>>◌, guard}
use tftp_os.Json.{Json, text, Fields, end, field, item, item_or, as_text}
use tftp_os.NamedObjects.Interface.{Kind, as_texts, only_keys}

pub record NamedDistro : Type 0 where
  pub name : Text
  pub os_family : Text
  pub vendor : Text
  pub version : Text
  pub arch : Text
  pub kernel_path : Text
  pub initrd_path : Text
  pub install_url : Text
  pub comment : Text

abbrev distro_key : Text → Bool
distro_key k =
    k == codes "name"
    || k == codes "os_family"
    || k == codes "vendor"
    || k == codes "version"
    || k == codes "arch"
    || k == codes "kernel_path"
    || k == codes "initrd_path"
    || k == codes "install_url"
    || k == codes "comment"

unfoldable pub distro_asdict : NamedDistro → Fields
distro_asdict x = field (codes "name") (text x.name) (
    field (codes "os_family") (text x.os_family) (
      field (codes "vendor") (text x.vendor) (
        field (codes "version") (text x.version) (
          field (codes "arch") (text x.arch) (
            field (codes "kernel_path") (text x.kernel_path) (
              field (codes "initrd_path") (text x.initrd_path) (
                field (codes "install_url") (text x.install_url)
                  (field (codes "comment") (text x.comment) (end)))))))))

unfoldable pub distro_construct : Fields → Result NamedDistro
unfolding as_texts only_keys
distro_construct d = do
  guard (only_keys distro_key d) type_error
  name ← (do v ← item (codes "name") d; as_text v)
  os_family ← (do v ← item (codes "os_family") d; as_text v)
  vendor ← (do v ← item (codes "vendor") d; as_text v)
  version ← (do v ← item (codes "version") d; as_text v)
  arch ← as_text (item_or (codes "arch") (text (codes "x86_64")) d)
  kernel_path ← as_text (item_or (codes "kernel_path") (text []) d)
  initrd_path ← as_text (item_or (codes "initrd_path") (text []) d)
  install_url ← as_text (item_or (codes "install_url") (text []) d)
  comment ← as_text (item_or (codes "comment") (text []) d)
  ok (record {
    name = name;
    os_family = os_family;
    vendor = vendor;
    version = version;
    arch = arch;
    kernel_path = kernel_path;
    initrd_path = initrd_path;
    install_url = install_url;
    comment = comment;
  })

unfoldable pub distro_set : Text → Json → NamedDistro → Result NamedDistro
unfolding as_texts
distro_set k v x =
    if k == codes "name"
    then (do w ← as_text v; ok (record x { name = w }))
    else if k == codes "os_family"
    then (do w ← as_text v; ok (record x { os_family = w }))
    else if k == codes "vendor"
    then (do w ← as_text v; ok (record x { vendor = w }))
    else if k == codes "version"
    then (do w ← as_text v; ok (record x { version = w }))
    else if k == codes "arch"
    then (do w ← as_text v; ok (record x { arch = w }))
    else if k == codes "kernel_path"
    then (do w ← as_text v; ok (record x { kernel_path = w }))
    else if k == codes "initrd_path"
    then (do w ← as_text v; ok (record x { initrd_path = w }))
    else if k == codes "install_url"
    then (do w ← as_text v; ok (record x { install_url = w }))
    else if k == codes "comment"
    then (do w ← as_text v; ok (record x { comment = w }))
    else ok x

abbrev pub distro_kind : Kind NamedDistro
distro_kind = record {
  name_of = λ x. x.name;
  asdict = distro_asdict;
  construct = distro_construct;
  set = distro_set;
}
