-- ===== src/Registry/Known.antt =====
-- Which plugins a registry knows.
use tftp_os.Prelude.{
  ◌≡◌, refl, sym, ◌∙◌, ap, Bool, true, false, Option, none, some, List, [], ◌∷◌, All, lower,
  text_eq, ◌||◌, ◌==◌, if◌then◌else◌,
}
use tftp_os.Prelude.Text.{Text}
use tftp_os.Result.{Result, ok, raise, type_error, >>=-eq-ok, ok-injective}
use tftp_os.Dict
use tftp_os.Dict.{Dict}
use tftp_os.Dict.Laws.{get-put, each-put, present}
use tftp_os.Plugins.{FirmwarePlugin}
use tftp_os.Registry.{
  PluginRegistry, PluginClass, Registered, instance_of, class_of, other, init, register_instance,
  register, get, or_before, discover_one, discover, builtin_result, load_attributes, load_builtins,
}

present-if :
    {V : Type 0} (b : Bool) (v : V) (o : Option V)
    → present (if b then some v else o) ≡ (b || present o)
present-if true v o = refl
present-if false v o = refl

present-put :
    {V : Type 0} (k f : Text) (v : V) (d : Dict Text V)
    → present (Dict.get f (Dict.put k v d)) ≡ ((k == f) || present (Dict.get f d))
present-put k f v d = ap present (get-put k f v d) ∙ present-if (k == f) v (Dict.get f d)

-- What holds of every plugin that is registered.
module _ (P : FirmwarePlugin → Type 0) where
  -- Both tables have the same keys, and every plugin has the property.
  pub record IsRegistry (r : PluginRegistry) : Type 0 where
    pub same_keys : (f : Text) → present (Dict.get f r.plugins) ≡ present (Dict.get f r.instances)
    pub each : (f : Text) (p : FirmwarePlugin) → Dict.get f r.instances ≡ some p → P p

  -- Construction gives plugins with the property.
  abbrev pub Makes : PluginClass → Type 0
  Makes c = (p : FirmwarePlugin) → c.construct ≡ ok p → P p

  abbrev pub Fits : Registered → Type 0
  Fits (instance_of p) = P p
  Fits (class_of c) = Makes c
  Fits other = Unit

  abbrev pub FitsEntry : Text × Result (Option PluginClass) → Type 0
  FitsEntry (name, ok (some c)) = Makes c
  FitsEntry _ = Unit

  abbrev pub FitsModule : Option (List (Text × PluginClass)) → Type 0
  FitsModule none = Unit
  FitsModule (some attrs) = All (λ a. Makes a.1) attrs

  register_instance-IsRegistry :
      (r : PluginRegistry) (p : FirmwarePlugin)
      → IsRegistry r
      → P p
      → IsRegistry (register_instance r p)
  unfolding register_instance
  register_instance-IsRegistry r p h h_p = record {
    same_keys = λ f.
        present-put (lower p.os_family) f p.class_name r.plugins
        ∙ ap (λ b. (lower p.os_family == f) || b) (h.same_keys f)
        ∙ sym (present-put (lower p.os_family) f p r.instances);
    each = λ f q e. each-put P (lower p.os_family) f p q r.instances h_p (h.each f q) e;
  }

  register-IsRegistry :
      (r r' : PluginRegistry) (x : Registered)
      → IsRegistry r
      → Fits x
      → register r x ≡ ok r'
      → IsRegistry r'
  unfolding register
  register-IsRegistry r r' (instance_of p) h fits e =
      rw (← ok-injective e) (register_instance-IsRegistry r p h fits)
  register-IsRegistry r r' (class_of c) h fits e =
      let (p, made, e') = >>=-eq-ok c.construct _ e in
      rw (← ok-injective e') (register_instance-IsRegistry r p h (fits p made))
  register-IsRegistry r r' other h fits e = cc e

  -- A registry that differs in what it has discovered only.
  noted-IsRegistry :
      (r : PluginRegistry) (d : Dict Text Text)
      → IsRegistry r
      → IsRegistry (record r { discovered = d })
  noted-IsRegistry r d h = record { same_keys = h.same_keys; each = h.each }

  or_before-IsRegistry :
      (r : PluginRegistry) (c : PluginClass) (result : Result PluginRegistry)
      → IsRegistry r
      → Makes c
      → register r (class_of c) ≡ result
      → IsRegistry (or_before r result)
  or_before-IsRegistry r c (ok r') h fits e = register-IsRegistry r r' (class_of c) h fits e
  or_before-IsRegistry r c (raise x) h fits e = h

  discover-IsRegistry :
      (r : PluginRegistry) (eps : List (Text × Result (Option PluginClass)))
      → IsRegistry r
      → All FitsEntry eps
      → IsRegistry (discover r eps)
  unfolding discover discover_one
  discover-IsRegistry r [] h fits = h
  discover-IsRegistry r ((name, raise e) ∷ eps) h (f, fs) = discover-IsRegistry r eps h fs
  discover-IsRegistry r ((name, ok none) ∷ eps) h (f, fs) = discover-IsRegistry r eps h fs
  discover-IsRegistry r ((name, ok (some c)) ∷ eps) h (f, fs) =
      let noted = record r { discovered = Dict.put name c.class_name r.discovered } in
      discover-IsRegistry (or_before noted (register noted (class_of c))) eps
        (or_before-IsRegistry noted c _ (noted-IsRegistry r noted.discovered h) f refl) fs

  builtin-IsRegistry :
      (r r' : PluginRegistry) (name : Text) (c : PluginClass) (result : Result PluginRegistry)
      → IsRegistry r
      → Makes c
      → register r (class_of c) ≡ result
      → builtin_result r name c result ≡ ok r'
      → IsRegistry r'
  builtin-IsRegistry r r' name c (ok s) h fits e e' =
      rw (← ok-injective e') (register-IsRegistry r s (class_of c) h fits e)
  builtin-IsRegistry r r' name c (raise type_error) h fits e e' =
      rw (← ok-injective e')
        (noted-IsRegistry r (Dict.put (lower name) c.class_name r.discovered) h)
  builtin-IsRegistry r r' name c (raise x) h fits e e' = cc e'

  load_attributes-IsRegistry :
      (r r' : PluginRegistry) (attrs : List (Text × PluginClass))
      → IsRegistry r
      → All (λ a. Makes a.1) attrs
      → load_attributes r attrs ≡ ok r'
      → IsRegistry r'
  unfolding load_attributes
  load_attributes-IsRegistry r r' [] h fits e = rw (← ok-injective e) h
  load_attributes-IsRegistry r r' ((name, c) ∷ attrs) h (f, fs) e =
      let (s, one, rest) = >>=-eq-ok (builtin_result r name c (register r (class_of c))) _ e in
      load_attributes-IsRegistry s r' attrs (builtin-IsRegistry r s name c _ h f refl one) fs rest

  load_builtins-IsRegistry :
      (r r' : PluginRegistry) (modules : List (Option (List (Text × PluginClass))))
      → IsRegistry r
      → All FitsModule modules
      → load_builtins r modules ≡ ok r'
      → IsRegistry r'
  unfolding load_builtins
  load_builtins-IsRegistry r r' [] h fits e = rw (← ok-injective e) h
  load_builtins-IsRegistry r r' (none ∷ modules) h (f, fs) e =
      load_builtins-IsRegistry r r' modules h fs e
  load_builtins-IsRegistry r r' (some attrs ∷ modules) h (f, fs) e =
      let (s, one, rest) = >>=-eq-ok (load_attributes r attrs) _ e in
      load_builtins-IsRegistry s r' modules (load_attributes-IsRegistry r s attrs h f one) fs rest

-- A family is listed as available exactly if a plugin is found for it, in any case of its letters.
abbrev pub is_ok : {A : Type 0} → Result A → Bool
is_ok (ok a) = true
is_ok (raise e) = false

-- The registries that the program has: a new one, and what each operation makes of one, where the
-- plugins that come in have the property.
pub data IsLoaded (P : FirmwarePlugin → Type 0) : PluginRegistry → Type 0 where
  fresh : IsLoaded P init
  registered :
      (r r' : PluginRegistry) (x : Registered)
      → Fits P x
      → register r x ≡ ok r'
      → IsLoaded P r
      → IsLoaded P r'
  discovered :
      (r : PluginRegistry) (eps : List (Text × Result (Option PluginClass)))
      → All (FitsEntry P) eps
      → IsLoaded P r
      → IsLoaded P (discover r eps)
  builtins :
      (r r' : PluginRegistry) (modules : List (Option (List (Text × PluginClass))))
      → All (FitsModule P) modules
      → load_builtins r modules ≡ ok r'
      → IsLoaded P r
      → IsLoaded P r'

pub IsLoaded-IsRegistry :
    (P : FirmwarePlugin → Type 0) {r : PluginRegistry} → IsLoaded P r → IsRegistry P r
unfolding init Dict.get
IsLoaded-IsRegistry P fresh = record { same_keys = λ f. refl; each = λ f p e. cc e }
IsLoaded-IsRegistry P (registered r r' x fits e h) =
    register-IsRegistry P r r' x (IsLoaded-IsRegistry P h) fits e
IsLoaded-IsRegistry P (discovered r eps fits h) =
    discover-IsRegistry P r eps (IsLoaded-IsRegistry P h) fits
IsLoaded-IsRegistry P (builtins r r' modules fits e h) =
    load_builtins-IsRegistry P r r' modules (IsLoaded-IsRegistry P h) fits e
