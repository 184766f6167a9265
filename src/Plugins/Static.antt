-- ===== src/Plugins/Static.antt =====
-- StaticFirmwarePlugin: {distro_root}/{os_family}/{os_version}/[{arch}/]{filename}.
use tftp_os.Prelude.{Bool, true, false, List, [], ◌∷◌, ◌++◌, codes}
use tftp_os.Prelude.Text.{Text}
use tftp_os.Result.{Result, ok, value_error, file_not_found, ◌>>=◌, ◌>>◌, guard}
use tftp_os.HostRule.{ProvisionProfile}
use tftp_os.Paths.{FilePath, FileSystem, is_relative_to}
use tftp_os.Plugins.{FirmwarePlugin, validate_segment}

pub record StaticFirmwarePlugin : Type 0 where
  pub distro_root : FilePath
  pub os_family : Text
  pub supported_versions : List Text
  pub filename : Text
  pub include_arch : Bool

-- The construction, with the file name checked and the root resolved.
unfoldable pub new_static :
    FileSystem → FilePath → Text → List Text → Text → Bool → Result StaticFirmwarePlugin
unfolding validate_segment
new_static fs distro_root os_family supported_versions filename include_arch = do
  validate_segment filename
  ok (record {
    distro_root = fs.resolve distro_root;
    os_family = os_family;
    supported_versions = supported_versions;
    filename = filename;
    include_arch = include_arch;
  })

-- The part for the architecture, where there is one.
unfoldable pub arch_part : Bool → Text → Result FilePath
unfolding validate_segment
arch_part false arch = ok []
arch_part true arch = do validate_segment arch; ok (arch ∷ [])

-- The guard against other roots, and the test that the file is there.
unfoldable pub existing_under : FileSystem → FilePath → FilePath → Result FilePath
unfolding is_relative_to
existing_under fs distro_root path = do
  guard (is_relative_to (fs.resolve path) distro_root) value_error
  guard (fs.is_file (fs.resolve path)) file_not_found
  ok (fs.resolve path)

unfoldable pub static_path : FileSystem → StaticFirmwarePlugin → ProvisionProfile → Result FilePath
unfolding validate_segment arch_part existing_under
static_path fs p profile = do
  validate_segment profile.os_family
  validate_segment profile.os_version
  arch ← arch_part p.include_arch profile.arch
  existing_under fs p.distro_root
      (p.distro_root ++ (profile.os_family ∷ profile.os_version ∷ (arch ++ p.filename ∷ [])))

abbrev pub static_plugin : FileSystem → StaticFirmwarePlugin → FirmwarePlugin
static_plugin fs p = record {
  class_name = codes "StaticFirmwarePlugin";
  os_family = p.os_family;
  supported_versions = p.supported_versions;
  firmware_path = static_path fs p;
}
