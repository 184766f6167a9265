-- ===== src/Plugins/Under.antt =====
-- Where the firmware lies that a plugin returns.
use tftp_os.Prelude.{◌≡◌, refl, codes, text_eq, Bool, true, false}
use tftp_os.Result.{ok, ◌>>◌, guard, >>=-eq-ok, value_error, file_not_found}
use tftp_os.Json.{field?}
use tftp_os.HostRule.{ProvisionProfile}
use tftp_os.Paths.{FilePath, FileSystem, is_relative_to, is_relative_to_trans}
use tftp_os.Prelude.{List, ap}
use tftp_os.Prelude.Text.{Text}
use tftp_os.Result.{ok-injective}
use tftp_os.Plugins.{FirmwarePlugin, validate_segment}
use tftp_os.Plugins.Static.{
  StaticFirmwarePlugin, new_static, static_plugin, arch_part, existing_under, static_path,
}
use tftp_os.Plugins.OpenWrt.{
  OpenWrtPlugin, new_openwrt, openwrt_plugin, target_of, filename_of, openwrt_path,
}

-- The path lies below the root, and is that of a file.
pub record IsFirmware (fs : FileSystem) (root p : FilePath) : Type 0 where
  pub under : is_relative_to p root ≡ true
  pub file : fs.is_file p ≡ true

two_guards :
    (a b : Bool) (q p : FilePath)
    → (guard a value_error >> (guard b file_not_found >> ok q)) ≡ ok p
    → (a ≡ true) × (b ≡ true) × (q ≡ p)
two_guards true true q p h = (refl, refl, cc h)
two_guards true false q p h = cc h
two_guards false b q p h = cc h

existing_under-IsFirmware :
    (fs : FileSystem) (root path p : FilePath)
    → existing_under fs root path ≡ ok p
    → IsFirmware fs root p
unfolding existing_under
existing_under-IsFirmware fs root path p h =
    let q = fs.resolve path in
    let (under, file, same) = two_guards (is_relative_to q root) (fs.is_file q) q p h in
    rw (← same) (record { under = under; file = file })

pub static_path-IsFirmware :
    (fs : FileSystem) (plugin : StaticFirmwarePlugin) (profile : ProvisionProfile) (p : FilePath)
    → static_path fs plugin profile ≡ ok p
    → IsFirmware fs plugin.distro_root p
unfolding static_path
static_path-IsFirmware fs plugin profile p h =
    let (_, _, h₁) = >>=-eq-ok (validate_segment profile.os_family) _ h in
    let (_, _, h₂) = >>=-eq-ok (validate_segment profile.os_version) _ h₁ in
    let (arch, _, h₃) = >>=-eq-ok (arch_part plugin.include_arch profile.arch) _ h₂ in
    existing_under-IsFirmware fs plugin.distro_root _ p h₃

pub openwrt_path-IsFirmware :
    (fs : FileSystem) (plugin : OpenWrtPlugin) (profile : ProvisionProfile) (p : FilePath)
    → openwrt_path fs plugin profile ≡ ok p
    → IsFirmware fs plugin.distro_root p
unfolding openwrt_path
openwrt_path-IsFirmware fs plugin profile p h =
    let (_, _, h₁) = >>=-eq-ok (validate_segment profile.os_version) _ h in
    let (_, _, h₂) = >>=-eq-ok (validate_segment profile.arch) _ h₁ in
    let (_, _, h₃) = >>=-eq-ok (validate_segment (target_of profile.arch).0) _ h₂ in
    let (_, _, h₄) = >>=-eq-ok (validate_segment (target_of profile.arch).1) _ h₃ in
    let (name, _, h₅) =
      >>=-eq-ok (filename_of plugin.image_type (field? (codes "filename") profile.extra)) _ h₄ in
    existing_under-IsFirmware fs plugin.distro_root _ p h₅

-- The plugins of the repository, as their constructors make them, for a distro root that lies below a
-- path, with its links.
pub data IsBuiltin (fs : FileSystem) (root : FilePath) : FirmwarePlugin → Type 0 where
  static :
      (distro_root : FilePath) (os_family : Text) (versions : List Text) (filename : Text)
      (include_arch : Bool) (plugin : StaticFirmwarePlugin)
      → new_static fs distro_root os_family versions filename include_arch ≡ ok plugin
      → is_relative_to (fs.resolve distro_root) root ≡ true
      → IsBuiltin fs root (static_plugin fs plugin)
  openwrt :
      (distro_root : FilePath) (versions : List Text) (image_type : Text) (plugin : OpenWrtPlugin)
      → new_openwrt fs distro_root versions image_type ≡ ok plugin
      → is_relative_to (fs.resolve distro_root) root ≡ true
      → IsBuiltin fs root (openwrt_plugin fs plugin)

IsFirmware-above :
    (fs : FileSystem) (below root p : FilePath)
    → is_relative_to below root ≡ true
    → IsFirmware fs below p
    → IsFirmware fs root p
IsFirmware-above fs below root p h f = record {
  under = is_relative_to_trans p below root f.under h;
  file = f.file;
}

static_root :
    (fs : FileSystem) (distro_root : FilePath) (os_family : Text) (versions : List Text)
    (filename : Text) (include_arch : Bool) (plugin : StaticFirmwarePlugin)
    → new_static fs distro_root os_family versions filename include_arch ≡ ok plugin
    → fs.resolve distro_root ≡ plugin.distro_root
unfolding new_static
static_root fs distro_root os_family versions filename include_arch plugin h =
    let (_, _, h₁) = >>=-eq-ok (validate_segment filename) _ h in
    ap (λ p. p.distro_root) (ok-injective h₁)

openwrt_root :
    (fs : FileSystem) (distro_root : FilePath) (versions : List Text) (image_type : Text)
    (plugin : OpenWrtPlugin)
    → new_openwrt fs distro_root versions image_type ≡ ok plugin
    → fs.resolve distro_root ≡ plugin.distro_root
unfolding new_openwrt
openwrt_root fs distro_root versions image_type plugin h =
    let (_, _, h₁) = >>=-eq-ok (validate_segment image_type) _ h in
    ap (λ p. p.distro_root) (ok-injective h₁)

-- Each of these plugins returns files below the root only.
pub firmware_path-IsFirmware :
    (fs : FileSystem) (root : FilePath) (plugin : FirmwarePlugin) (profile : ProvisionProfile)
    (p : FilePath)
    → IsBuiltin fs root plugin
    → plugin.firmware_path profile ≡ ok p
    → IsFirmware fs root p
firmware_path-IsFirmware fs root plugin profile p
      (static dir family versions name arch s made below) h =
    IsFirmware-above fs s.distro_root root p
      (rw (static_root fs dir family versions name arch s made) at below)
      (static_path-IsFirmware fs s profile p h)
firmware_path-IsFirmware fs root plugin profile p (openwrt dir versions image s made below) h =
    IsFirmware-above fs s.distro_root root p
      (rw (openwrt_root fs dir versions image s made) at below)
      (openwrt_path-IsFirmware fs s profile p h)
