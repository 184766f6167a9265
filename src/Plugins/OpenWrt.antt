-- ===== src/Plugins/OpenWrt.antt =====
-- OpenWrtPlugin: {distro_root}/openwrt/{version}/targets/{target}/{subtarget}/{filename}.
use tftp_os.Prelude.{
  Bool, true, false, not, Option, none, some, List, [], ◌∷◌, ◌++◌, codes, text_eq, truthy, nat_beq,
  has_char, if◌then◌else◌,
}
use tftp_os.Prelude.Text.{Text}
use tftp_os.Result.{Result, ok, raise, value_error, ◌>>=◌, ◌>>◌}
use tftp_os.Json.{Json, text, field?, null, bool, num, arr, obj, nil, cons, end, field}
use tftp_os.HostRule.{ProvisionProfile}
use tftp_os.Paths.{FilePath, FileSystem}
use tftp_os.Plugins.{FirmwarePlugin, validate_segment}
use tftp_os.Plugins.Static.{existing_under}

pub record OpenWrtPlugin : Type 0 where
  pub distro_root : FilePath
  pub supported_versions : List Text
  pub image_type : Text

unfoldable pub new_openwrt : FileSystem → FilePath → List Text → Text → Result OpenWrtPlugin
unfolding validate_segment
new_openwrt fs distro_root supported_versions image_type = do
  validate_segment image_type
  ok (record {
    distro_root = fs.resolve distro_root;
    supported_versions = supported_versions;
    image_type = image_type;
  })

-- s.split("-", 1), of a text with a dash
unfoldable pub split_dash : Text → Text × Text
split_dash [] = ([], [])
split_dash (c ∷ s) =
    let rest = split_dash s in if nat_beq c b'-' then ([], s) else (c ∷ rest.0, rest.1)

unfoldable pub target_of : Text → Text × Text
unfolding split_dash has_char
target_of arch = if has_char b'-' arch then split_dash arch else (arch, codes "generic")

-- The truth value of a JSON value.
abbrev pub truthy_json : Json → Bool
truthy_json null = false
truthy_json (bool b) = b
truthy_json (num n) = not (nat_beq n 0)
truthy_json (text t) = truthy t
truthy_json (arr nil) = false
truthy_json (arr (cons v items)) = true
truthy_json (obj end) = false
truthy_json (obj (field k v fields)) = true

-- A file name that is no text is refused.
unfoldable pub given_name : Json → Result Text
unfolding validate_segment
given_name (text t) = do validate_segment t; ok t
given_name v = raise value_error

unfoldable pub filename_of : Text → Option Json → Result Text
unfolding given_name
filename_of image_type none = ok (image_type ++ codes ".bin")
filename_of image_type (some v) =
    if truthy_json v then given_name v else ok (image_type ++ codes ".bin")

unfoldable pub openwrt_path : FileSystem → OpenWrtPlugin → ProvisionProfile → Result FilePath
unfolding validate_segment target_of filename_of field? existing_under
openwrt_path fs p profile = do
  validate_segment profile.os_version
  validate_segment profile.arch
  validate_segment (target_of profile.arch).0
  validate_segment (target_of profile.arch).1
  filename ← filename_of p.image_type (field? (codes "filename") profile.extra)
  existing_under fs p.distro_root (
      p.distro_root
      ++ (codes "openwrt"
          ∷ profile.os_version
          ∷ codes "targets"
          ∷ (target_of profile.arch).0
          ∷ (target_of profile.arch).1
          ∷ filename
          ∷ []))

abbrev pub openwrt_plugin : FileSystem → OpenWrtPlugin → FirmwarePlugin
openwrt_plugin fs p = record {
  class_name = codes "OpenWrtPlugin";
  os_family = codes "openwrt";
  supported_versions = p.supported_versions;
  firmware_path = openwrt_path fs p;
}
