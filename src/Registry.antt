-- ===== src/Registry.antt =====
-- tftpos/registry.py: the plugins by os family. A class is its name and what its construction returns
-- or raises; an entry point or a module is what loading it gives. The names of the classes stand for
-- them in the tables `_plugins` and `_discovered`.
pub mod Known
use tftp_os.Prelude.{
  Bool, true, false, Option, none, some, List, [], ◌∷◌, lower, text_eq, ◌==◌, if◌then◌else◌,
}
use tftp_os.Prelude.Sort.{sort, text_le}
use tftp_os.Prelude.Text.{Text}
use tftp_os.Result.{Error, Result, ok, raise, value_error, type_error, ◌>>=◌}
use tftp_os.Dict
use tftp_os.Dict.{Dict}
use tftp_os.Plugins.{FirmwarePlugin}

pub record PluginRegistry : Type 0 where
  pub plugins : Dict Text Text
  pub instances : Dict Text FirmwarePlugin
  pub discovered : Dict Text Text

unfoldable pub init : PluginRegistry
init = record { plugins = []; instances = []; discovered = [] }

-- A class of plugins: its name, and its construction without arguments.
pub record PluginClass : Type 0 where
  pub class_name : Text
  pub construct : Result FirmwarePlugin

-- What `register` is given: an instance, a class, or something else.
pub data Registered : Type 0 where
  instance_of : FirmwarePlugin → Registered
  class_of : PluginClass → Registered
  other : Registered

unfoldable pub register_instance : PluginRegistry → FirmwarePlugin → PluginRegistry
register_instance r plugin = record r {
  plugins = Dict.put (lower plugin.os_family) plugin.class_name r.plugins;
  instances = Dict.put (lower plugin.os_family) plugin r.instances;
}

unfoldable pub register : PluginRegistry → Registered → Result PluginRegistry
unfolding register_instance
register r (instance_of plugin) = ok (register_instance r plugin)
register r (class_of c) = do plugin ← c.construct; ok (register_instance r plugin)
register r other = raise type_error

abbrev pub found : Option FirmwarePlugin → Result FirmwarePlugin
found none = raise value_error
found (some plugin) = ok plugin

unfoldable pub get : PluginRegistry → Text → Result FirmwarePlugin
get r os_family = found (Dict.get (lower os_family) r.instances)

unfoldable pub available : PluginRegistry → List Text
unfolding sort
available r = sort text_le (Dict.keys r.plugins)

-- What is left of the registry when the registration of a class raises: it stays as it was.
abbrev pub or_before : PluginRegistry → Result PluginRegistry → PluginRegistry
or_before r (ok r') = r'
or_before r (raise e) = r

-- One entry point: its name, and what loading it gives; `none` is something that is no plugin class.
unfoldable pub discover_one : PluginRegistry → Text × Result (Option PluginClass) → PluginRegistry
unfolding register
discover_one r (name, raise e) = r
discover_one r (name, ok none) = r
discover_one r (name, ok (some c)) =
    let r' = record r { discovered = Dict.put name c.class_name r.discovered } in
    or_before r' (register r' (class_of c))

unfoldable pub discover :
    PluginRegistry → List (Text × Result (Option PluginClass)) → PluginRegistry
unfolding discover_one
discover r [] = r
discover r (ep ∷ eps) = discover (discover_one r ep) eps

-- A class of a module: a TypeError notes it as discovered, any other exception goes on.
abbrev pub builtin_result :
    PluginRegistry → Text → PluginClass → Result PluginRegistry → Result PluginRegistry
builtin_result r attr_name c (ok r') = ok r'
builtin_result r attr_name c (raise type_error) =
    ok (record r { discovered = Dict.put (lower attr_name) c.class_name r.discovered })
builtin_result r attr_name c (raise e) = raise e

unfoldable pub load_attributes : PluginRegistry → List (Text × PluginClass) → Result PluginRegistry
unfolding register
load_attributes r [] = ok r
load_attributes r ((attr_name, c) ∷ attrs) = do
  r' ← builtin_result r attr_name c (register r (class_of c))
  load_attributes r' attrs

-- The modules, each with its plugin classes, or `none` where the import fails.
unfoldable pub load_builtins :
    PluginRegistry → List (Option (List (Text × PluginClass))) → Result PluginRegistry
unfolding load_attributes
load_builtins r [] = ok r
load_builtins r (none ∷ modules) = load_builtins r modules
load_builtins r (some attrs ∷ modules) = do r' ← load_attributes r attrs; load_builtins r' modules
