-- ===== src/Tests/Served.antt =====
-- tftpos/engine.py with one rule, one static plugin and a file system without links.
use tftp_os.Prelude.{
  ◌≡◌, refl, arith, true, false, none, some, [], ◌∷◌, ◌++◌, codes, text_eq, text_beq, lower, ◌==◌,
  if◌then◌else◌,
}
use tftp_os.Result.{ok, raise, value_error}
use tftp_os.HostRule.{HostRule}
use tftp_os.Dict
use tftp_os.Matcher
use tftp_os.Matcher.{Request, match}
use tftp_os.Cache
use tftp_os.Cache.Memo.{IsMemo}
use tftp_os.Paths.{FilePath, FileSystem, path_eq, is_relative_to_refl}
use tftp_os.Plugins.Static.{StaticFirmwarePlugin, new_static, static_path, static_plugin}
use tftp_os.Plugins.{validate_segment, safe_segment_re}
use tftp_os.Plugins.Under.{IsBuiltin, static}
use tftp_os.Engine.Guarded.{IsServed, serve-IsServed}
use tftp_os.Registry.{PluginRegistry, init, register, register_instance, instance_of, get}
use tftp_os.Registry.Known.{IsLoaded, fresh, registered}
use tftp_os.Staging.{stage}
use tftp_os.Staging.Placed.{Ends, stage-Ends}
use tftp_os.Engine.{Setting, Profiles, Clock, loader, resolve_rule, load_profile_for_rule, serve}
use tftp_os.Engine.Tracked.{ensure_tracked, known_or_new, get-ensure_tracked}
use tftp_os.Db.Memory.{memory_backend}
use tftp_os.Tracker
use tftp_os.Tracker.{ProvisionTracker}
use tftp_os.Engine.Served.{serve_uncached, serve-serve_uncached}

abbrev files : FileSystem
files = record { resolve = λ p. p; exists = λ p. false; is_file = λ p. true; is_dir = λ p. false }

abbrev root : FilePath
root = codes "srv" ∷ []

abbrev plugin : StaticFirmwarePlugin
plugin = record {
  distro_root = root;
  os_family = codes "OpenWRT";
  supported_versions = codes "23.05" ∷ [];
  filename = codes "firmware.bin";
  include_arch = false;
}

abbrev registry : PluginRegistry
registry = register_instance init (static_plugin files plugin)

abbrev rule : HostRule
rule = record {
  profile = codes "router";
  os_family = codes "OpenWRT";
  os_version = codes "23.05";
  vendor = [];
  priority = 100;
  mac = some (codes "aa:bb");
  mac_prefix = none;
  hostname_pattern = none;
  subnet = none;
  serial = none;
  group = none;
  arch = none;
  bmc_host = none;
  bmc_user = none;
  bmc_password = none;
  bmc_driver = none;
  deploy_mode = codes "tftp";
  console_type = none;
  console_endpoint = none;
}

abbrev setting : Setting
setting = record {
  lib = record { fnmatch = λ n p. false; in_network = λ ip net. none };
  fs = files;
  data_dir = codes "etc" ∷ [];
  tftp_root = codes "tftp" ∷ [];
  matcher = Matcher.init (rule ∷ []);
  registry = registry;
  load = λ p. raise value_error;
}

abbrev asked : Request
asked = record {
  mac = some (codes "AA-BB");
  hostname = none;
  subnet = none;
  serial = none;
  groups = none;
  arch = none;
}

abbrev clock : Clock
clock = record { first = 1; second = 1; third = 2 }

abbrev profiles : Profiles
profiles = (Cache.init (codes "profile_loader") 64 300, Cache.no_stats)

profiles-IsMemo : IsMemo (loader setting.load) profiles.0
unfolding Cache.init Dict.get
profiles-IsMemo = record {
  valid = record { bounded = omega arith; distinct = tt };
  room = omega arith;
  entries = λ k t v p. cc p;
}

plugin_run :
    new_static files root (codes "OpenWRT") (codes "23.05" ∷ []) (codes "firmware.bin") false
    ≡ ok plugin
unfolding new_static validate_segment safe_segment_re text_beq
plugin_run = refl

plugin-IsBuiltin : IsBuiltin files root (static_plugin files plugin)
plugin-IsBuiltin =
    static root (codes "OpenWRT") (codes "23.05" ∷ []) (codes "firmware.bin") false plugin
      plugin_run (is_relative_to_refl root)

registry-IsLoaded : IsLoaded (IsBuiltin files root) registry
unfolding register
registry-IsLoaded =
    registered init registry (instance_of (static_plugin files plugin)) plugin-IsBuiltin refl fresh

serve-serve_uncached_example :
    IsMemo (loader setting.load) (serve setting clock profiles asked).0.0
    × ((serve setting clock profiles asked).1 ≡ serve_uncached setting asked)
serve-serve_uncached_example = serve-serve_uncached setting clock profiles asked profiles-IsMemo

abbrev served_path : FilePath
served_path = root ++ (codes "OpenWRT" ∷ codes "23.05" ∷ codes "firmware.bin" ∷ [])

served_run : (serve setting clock profiles asked).1 ≡ ok served_path
unfolding serve resolve_rule load_profile_for_rule Matcher.init Matcher.match_tier text_beq Dict.get
    register_instance Dict.put init static_path
served_run = refl

serve-IsServed_example : IsServed setting asked root served_path
serve-IsServed_example =
    serve-IsServed setting clock profiles root asked served_path profiles-IsMemo registry-IsLoaded
      served_run

stage-Ends_example :
    Ends
      (codes "srv" ∷ codes "f.bin" ∷ [])
      root
      []
      (stage files (codes "srv" ∷ codes "f.bin" ∷ []) root none true false true [])
stage-Ends_example =
    stage-Ends files (codes "srv" ∷ codes "f.bin" ∷ []) root none true false true []

abbrev tracker : ProvisionTracker memory_backend
tracker = record { backend = none; records = []; callbacks = λ _. []; fired = [] }

get-ensure_tracked_example :
    Tracker.get memory_backend
      (ensure_tracked memory_backend tracker (codes "AA-BB") rule 5).0
      (codes "aa-bb")
    ≡ (if lower (codes "AA-BB") == lower (codes "aa-bb")
        then some (
            known_or_new memory_backend
              (Tracker.get memory_backend tracker (codes "AA-BB"))
              (codes "AA-BB")
              rule
              5)
        else Tracker.get memory_backend tracker (codes "aa-bb"))
get-ensure_tracked_example =
    get-ensure_tracked memory_backend tracker (codes "AA-BB") (codes "aa-bb") rule 5
