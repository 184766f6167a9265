-- ===== src/Engine/Guarded.antt =====
-- What a request that is served has passed.
use tftp_os.Prelude.{
  ◌≡◌, refl, sym, ap, ◌∙◌, Bool, true, false, not, ◌||◌, ◌&&◌, Option, none, some, ◌++◌, text_eq,
  lower, truthy, ◌==◌, ==_iff, contains, has_char, codes, arith,
}
use tftp_os.Prelude.Text.{Text}
use tftp_os.Result.{ok, ok-injective, value_error, ◌>>◌, guard, >>=-eq-ok}
use tftp_os.HostRule.{HostRule, ProvisionProfile}
use tftp_os.Matcher.{Request, match}
use tftp_os.Cache.Memo.{IsMemo}
use tftp_os.Dict
use tftp_os.Dict.Laws.{among}
use tftp_os.Paths.{FilePath, path_eq, parent, same_path, same_path_iff}
use tftp_os.Plugins.{FirmwarePlugin, Complaint, complain_if, validate_profile, is_empty}
use tftp_os.Plugins.Under.{IsFirmware, IsBuiltin, firmware_path-IsFirmware}
use tftp_os.Registry
use tftp_os.Registry.{found}
use tftp_os.Registry.Known.{IsLoaded, IsLoaded-IsRegistry}
use tftp_os.Engine.{
  Setting, Profiles, Clock, loader, need_rule, is_bad_name, profile_path, profiles_dir,
  resolve_rule, checked_profile, plugin_path, serve,
}
use tftp_os.Engine.Served.{load_uncached, profile_uncached, serve_uncached, serve-serve_uncached}

-- How a request came to the path: by the rule that matches it, whose profile name has no "..", no "/"
-- and leads right into the directory of the profiles; by the profile of that name; and by the plugin of
-- the rule's family, which accepts this profile and gives the path of a file below the root.
pub record IsServed (e : Setting) (q : Request) (root path : FilePath) : Type 0 where
  pub rule : HostRule
  pub profile : ProvisionProfile
  pub plugin : FirmwarePlugin
  pub rule_matched : match e.lib e.matcher q ≡ some rule
  pub no_dots : contains rule.profile (codes "..") ≡ false
  pub no_slash : has_char b'/' rule.profile ≡ false
  pub in_profiles :
      parent (e.fs.resolve (profile_path e rule.profile)) ≡ e.fs.resolve (profiles_dir e)
  pub profile_read : load_uncached e rule ≡ ok profile
  pub known : Registry.get e.registry rule.os_family ≡ ok plugin
  pub has_name : truthy profile.name ≡ true
  pub same_family : profile.os_family ≡ plugin.os_family
  pub supported :
      (is_empty plugin.supported_versions || among profile.os_version plugin.supported_versions)
      ≡ true
  pub given : plugin.firmware_path profile ≡ ok path
  pub firmware : IsFirmware e.fs root path

no_complaint :
    (a b c d : Bool) (x y z : Complaint)
    → is_empty (complain_if (not a) x ++ (complain_if (not b) y ++ complain_if (not c && not d) z))
      ≡ true
    → (a ≡ true) × (b ≡ true) × ((c || d) ≡ true)
no_complaint true true true d x y z h = (refl, refl, refl)
no_complaint true true false true x y z h = (refl, refl, refl)
no_complaint true true false false x y z h = cc h
no_complaint true false c d x y z h = cc h
no_complaint false b c d x y z h = cc h

validate_profile-parts :
    (plugin : FirmwarePlugin) (profile : ProvisionProfile)
    → is_empty (validate_profile plugin profile) ≡ true
    → (truthy profile.name ≡ true)
      × ((profile.os_family == plugin.os_family) ≡ true)
      × ((is_empty plugin.supported_versions || among profile.os_version plugin.supported_versions)
          ≡ true)
unfolding validate_profile
validate_profile-parts plugin profile h =
    no_complaint (truthy profile.name) (profile.os_family == plugin.os_family)
      (is_empty plugin.supported_versions) (among profile.os_version plugin.supported_versions) _ _
      _ h

two_guards :
    (a b : Bool) (u : Unit {0})
    → (guard (not a) value_error >> guard b value_error) ≡ ok u
    → (a ≡ false) × (b ≡ true)
two_guards false true u h = (refl, refl)
two_guards false false u h = cc h
two_guards true b u h = cc h

guarded : (b : Bool) (u : Unit {0}) → guard b value_error ≡ ok u → b ≡ true
guarded true u h = refl
guarded false u h = cc h

checked_profile-parts :
    (e : Setting) (rule : HostRule) (u : Unit {0})
    → checked_profile e rule ≡ ok u
    → (is_bad_name rule.profile ≡ false)
      × (parent (e.fs.resolve (profile_path e rule.profile)) ≡ e.fs.resolve (profiles_dir e))
unfolding checked_profile
checked_profile-parts e rule u h =
    let there = parent (e.fs.resolve (profile_path e rule.profile)) in
    let dir = e.fs.resolve (profiles_dir e) in
    let (plain, same) = two_guards (is_bad_name rule.profile) (same_path there dir) u h in
    (plain, (same_path_iff there dir).0 same)

no_or : (a b : Bool) → (a || b) ≡ false → (a ≡ false) × (b ≡ false)
no_or a b h = ground arith

need_rule-eq : (o : Option HostRule) (rule : HostRule) → need_rule o ≡ ok rule → o ≡ some rule
need_rule-eq none rule h = cc h
need_rule-eq (some r) rule h = ap some (ok-injective h)

found-eq : (o : Option FirmwarePlugin) (p : FirmwarePlugin) → found o ≡ ok p → o ≡ some p
found-eq none p h = cc h
found-eq (some r) p h = ap some (ok-injective h)

get-IsBuiltin :
    (e : Setting) (root : FilePath) (family : Text) (plugin : FirmwarePlugin)
    → IsLoaded (IsBuiltin e.fs root) e.registry
    → Registry.get e.registry family ≡ ok plugin
    → IsBuiltin e.fs root plugin
unfolding Registry.get
get-IsBuiltin e root family plugin loaded known =
    (IsLoaded-IsRegistry (IsBuiltin e.fs root) loaded).each (lower family) plugin
      (found-eq (Dict.get (lower family) e.registry.instances) plugin known)

served :
    (e : Setting) (root : FilePath) (q : Request) (path : FilePath)
    → IsLoaded (IsBuiltin e.fs root) e.registry
    → serve_uncached e q ≡ ok path
    → IsServed e q root path
unfolding resolve_rule plugin_path
served e root q path built h =
    let (rule, resolved, h₁) = >>=-eq-ok (need_rule (match e.lib e.matcher q)) _ h in
    let (profile, had, h₂) = >>=-eq-ok (profile_uncached e rule) _ h₁ in
    let (u, checked, loaded) = >>=-eq-ok (checked_profile e rule) _ had in
    let (plain, inside) = checked_profile-parts e rule u checked in
    let (plugin, known, h₃) = >>=-eq-ok (Registry.get e.registry rule.os_family) _ h₂ in
    let (v, fine, given) =
      >>=-eq-ok (guard (is_empty (validate_profile plugin profile)) value_error) _ h₃ in
    let (named, family, versions) = validate_profile-parts plugin profile (guarded _ v fine) in
    record {
      rule = rule;
      profile = profile;
      plugin = plugin;
      rule_matched = need_rule-eq (match e.lib e.matcher q) rule resolved;
      no_dots = (no_or (contains rule.profile (codes "..")) (has_char b'/' rule.profile) plain).0;
      no_slash = (no_or (contains rule.profile (codes "..")) (has_char b'/' rule.profile) plain).1;
      in_profiles = inside;
      profile_read = loaded;
      known = known;
      has_name = named;
      same_family = (==_iff profile.os_family plugin.os_family).0 family;
      supported = versions;
      given = given;
      firmware =
          firmware_path-IsFirmware e.fs root plugin profile path
            (get-IsBuiltin e root rule.os_family plugin built known) given;
    }

-- Where every plugin of the registry, however it came in, is one that a constructor of the two plugin
-- classes made, for a distro root that lies below a root, and the cache holds what loading gives: a path
-- that is served for a request comes from the rule that matches it, whose profile name has no ".." and
-- no "/" and leads right into the directory of the profiles; from the profile of that name; and from the
-- plugin of the family of the rule, which is the family of the profile too, and which supports the
-- version of the profile. It lies below the root, and is the path of a file.
pub serve-IsServed :
    (e : Setting) (t : Clock) (s : Profiles) (root : FilePath) (q : Request) (path : FilePath)
    → IsMemo (loader e.load) s.0
    → IsLoaded (IsBuiltin e.fs root) e.registry
    → (serve e t s q).1 ≡ ok path
    → IsServed e q root path
serve-IsServed e t s root q path m built h =
    served e root q path built (sym ((serve-serve_uncached e t s q m).1) ∙ h)
