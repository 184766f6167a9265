-- ===== src/Engine.antt =====
-- tftpos/engine.py: FirmwareEngine, from a request to the file that is served, over the matcher, the
-- registry of plugins, the cached profiles, the tracker and staging. Loading a profile from its file
-- is tftpos/config.py (Config.load_profile), with the TOML library as a parameter. The other arguments
-- of a request (`kwargs`) are the fields of Matcher.Request. `base_url` is not modelled.
pub mod Served
pub mod Guarded
pub mod Tracked
use tftp_os.Prelude.{
  ℕ, Bool, true, false, not, ◌||◌, Option, none, some, List, [], ◌∷◌, ◌++◌, codes, text_eq,
  contains, has_char, if◌then◌else◌,
}
use tftp_os.Prelude.Text.{Text}
use tftp_os.Result.{Result, ok, raise, value_error, attribute_error, ◌>>=◌, ◌>>◌, guard}
use tftp_os.HostRule.{HostRule, ProvisionProfile, bios}
use tftp_os.Json.{end}
use tftp_os.Matcher.{Library, Request, HostMatcher, match}
use tftp_os.Cache
use tftp_os.Cache.{CacheStats, TtlCacheWrapper, wrapped}
use tftp_os.Paths.{FilePath, FileSystem, parent, same_path, path_eq}
use tftp_os.Plugins.{FirmwarePlugin, validate_profile, is_empty}
use tftp_os.Registry
use tftp_os.Registry.{PluginRegistry}
use tftp_os.Staging.{TftpRoot}
unfoldable use tftp_os.Staging.{stage as stage_firmware}
use tftp_os.Db.Interface.{StorageBackend}
use tftp_os.Tracker
use tftp_os.Tracker.{ProvisionTracker}

-- What the engine reads of its surroundings and of its configuration.
pub record Setting : Type 0 where
  pub lib : Library
  pub fs : FileSystem
  pub data_dir : FilePath
  pub tftp_root : FilePath
  pub matcher : HostMatcher
  pub registry : PluginRegistry
  -- load_profile, of tftpos/config.py
  pub load : FilePath → Result ProvisionProfile

-- The cache of `_cached_load_profile`, with the statistics.
abbrev pub Profiles : Type 0
Profiles = Cache.State FilePath ProvisionProfile

-- The function that is cached.
abbrev pub loader :
    (FilePath → Result ProvisionProfile) → FilePath → Result (Option ProvisionProfile)
loader load path = load path >>= λ profile. ok (some profile)

unfoldable pub profiles_dir : Setting → FilePath
profiles_dir e = e.data_dir ++ codes "profiles" ∷ []

unfoldable pub profile_path : Setting → Text → FilePath
unfolding profiles_dir
profile_path e profile = profiles_dir e ++ (profile ++ codes ".toml") ∷ []

-- if ".." in rule.profile or "/" in rule.profile
abbrev pub is_bad_name : Text → Bool
is_bad_name profile = contains profile (codes "..") || has_char b'/' profile

abbrev pub need_rule : Option HostRule → Result HostRule
need_rule none = raise value_error
need_rule (some rule) = ok rule

unfoldable pub resolve_rule : Setting → Request → Result HostRule
unfolding match
resolve_rule e q = need_rule (match e.lib e.matcher q)

unfoldable pub get_rule : Setting → Request → Option HostRule
unfolding match
get_rule e q = match e.lib e.matcher q

-- The profile of a rule that has no file.
abbrev pub bare_profile : HostRule → ProvisionProfile
bare_profile rule = record {
  name = rule.profile;
  os_family = rule.os_family;
  os_version = rule.os_version;
  vendor = rule.vendor;
  arch = codes "x86_64";
  firmware = bios;
  install_url = [];
  autoinstall_url = [];
  network = end;
  disk = end;
  packages = [];
  post_scripts = [];
  extra = end;
  ipxe_commands = [];
  dhcp_options = end;
}

-- What a call of the cached function leaves: where the function raises, the cache after the lookup.
abbrev pub after_call :
    Profiles → Result (Profiles × Option ProvisionProfile) → Profiles × Result ProvisionProfile
after_call looked (raise x) = (looked, raise x)
after_call looked (ok (c, none)) = (c, raise attribute_error)
after_call looked (ok (c, some profile)) = (c, ok profile)

-- The times at which the cache reads the clock.
pub record Clock : Type 0 where
  pub first : ℕ
  pub second : ℕ
  pub third : ℕ

module _ (e : Setting) where
  -- The two guards on the name of the profile.
  unfoldable pub checked_profile : HostRule → Result (Unit {0})
  unfolding same_path parent profile_path profiles_dir contains has_char
  checked_profile rule = do
    guard (not (is_bad_name rule.profile)) value_error
    guard
        (same_path (parent (e.fs.resolve (profile_path e rule.profile)))
          (e.fs.resolve (profiles_dir e)))
        value_error

  unfoldable pub profile_path_for_rule : HostRule → Option FilePath
  unfolding profile_path contains has_char
  profile_path_for_rule rule =
      if is_bad_name rule.profile
      then none
      else if e.fs.exists (profile_path e rule.profile)
      then some (profile_path e rule.profile)
      else none

  -- The plugin of the rule checks the profile, and gives the path.
  unfoldable pub plugin_path : HostRule → ProvisionProfile → Result FilePath
  unfolding Registry.get validate_profile
  plugin_path rule profile = do
    plugin ← Registry.get e.registry rule.os_family
    guard (is_empty (validate_profile plugin profile)) value_error
    plugin.firmware_path profile

module _ (e : Setting) (t : Clock) where
  unfoldable pub cached_load_profile : Profiles → FilePath → Profiles × Result ProvisionProfile
  unfolding wrapped
  cached_load_profile (c, g) path =
      after_call (Cache.get c g path t.first).0
        (wrapped (loader e.load) c g path t.first t.second t.third)

  abbrev pub load_checked :
      Profiles → HostRule → Result (Unit {0}) → Profiles × Result ProvisionProfile
  load_checked s rule (raise x) = (s, raise x)
  load_checked s rule (ok u) =
      if e.fs.exists (profile_path e rule.profile)
      then cached_load_profile s (profile_path e rule.profile)
      else (s, ok (bare_profile rule))

  unfoldable pub load_profile_for_rule : Profiles → HostRule → Profiles × Result ProvisionProfile
  unfolding checked_profile cached_load_profile profile_path
  load_profile_for_rule s rule = load_checked s rule (checked_profile e rule)

  abbrev pub serve_loaded :
      HostRule → Profiles × Result ProvisionProfile → Profiles × Result FilePath
  serve_loaded rule (s, raise x) = (s, raise x)
  serve_loaded rule (s, ok profile) = (s, plugin_path e rule profile)

  abbrev pub serve_rule : Profiles → Result HostRule → Profiles × Result FilePath
  serve_rule s (raise x) = (s, raise x)
  serve_rule s (ok rule) = serve_loaded rule (load_profile_for_rule s rule)

  unfoldable pub serve : Profiles → Request → Profiles × Result FilePath
  unfolding resolve_rule load_profile_for_rule plugin_path
  serve s q = serve_rule s (resolve_rule e q)

  abbrev pub stage_served :
      Option Text
      → Bool
      → Bool
      → Bool
      → TftpRoot
      → Profiles × Result FilePath
      → Profiles × (TftpRoot × Result FilePath)
  stage_served name symlink links copies root (s, raise x) = (s, (root, raise x))
  stage_served name symlink links copies root (s, ok path) =
      (s, stage_firmware e.fs path e.tftp_root name symlink links copies root)

  unfoldable pub stage :
      Profiles
      → Request
      → Option Text
      → Bool
      → Bool
      → Bool
      → TftpRoot
      → Profiles × (TftpRoot × Result FilePath)
  unfolding serve stage_firmware
  stage s q name symlink links copies root = stage_served name symlink links copies root (serve s q)

-- invalidate_caches: the cache is cleared, and 0 returned.
unfoldable pub invalidate_caches : Profiles → Profiles × ℕ
unfolding Cache.clear
invalidate_caches (c, g) = ((Cache.clear c, g), 0)
