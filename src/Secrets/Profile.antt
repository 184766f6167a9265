-- ===== src/Secrets/Profile.antt =====
-- resolve_profile of SecretsManager, over every field of a profile but its firmware, and the use of
-- the manager with a store of secrets.
use tftp_os.Prelude.{
  ◌≡◌, refl, ◌∙◌, sym, ap, true, Option, List, [], ◌∷◌, not, nat_beq, every, All, text_eq,
}
use mathlib.Core.List.{append-nil}
use tftp_os.Prelude.Text.{Text}
use tftp_os.Result.{Result, ok, ◌>>=◌}
use tftp_os.Json.{Json, null, bool, num, text, arr, obj, Items, nil, cons, Fields, end, field}
use tftp_os.HostRule.{ProvisionProfile}
use tftp_os.Secrets.Resolve.{resolve_string, resolve_value, resolve_items, resolve_fields}
use tftp_os.Secrets.Template.{literal, resolve_string-render}

module _ (get : Text → Option Text) where
  unfoldable pub resolve_texts : List Text → Result (List Text)
  unfolding resolve_string
  resolve_texts [] = ok []
  resolve_texts (t ∷ ts) = do
    first ← resolve_string get t
    rest ← resolve_texts ts
    ok (first ∷ rest)

  unfoldable pub resolve_profile : ProvisionProfile → Result ProvisionProfile
  unfolding resolve_string resolve_value resolve_texts
  resolve_profile profile = do
    name ← resolve_string get profile.name
    os_family ← resolve_string get profile.os_family
    os_version ← resolve_string get profile.os_version
    vendor ← resolve_string get profile.vendor
    arch ← resolve_string get profile.arch
    install_url ← resolve_string get profile.install_url
    autoinstall_url ← resolve_string get profile.autoinstall_url
    network ← resolve_fields get profile.network
    disk ← resolve_fields get profile.disk
    packages ← resolve_texts profile.packages
    post_scripts ← resolve_texts profile.post_scripts
    extra ← resolve_fields get profile.extra
    ipxe_commands ← resolve_texts profile.ipxe_commands
    dhcp_options ← resolve_fields get profile.dhcp_options
    ok (record {
      name = name;
      os_family = os_family;
      os_version = os_version;
      vendor = vendor;
      arch = arch;
      firmware = profile.firmware;
      install_url = install_url;
      autoinstall_url = autoinstall_url;
      network = network;
      disk = disk;
      packages = packages;
      post_scripts = post_scripts;
      extra = extra;
      ipxe_commands = ipxe_commands;
      dhcp_options = dhcp_options;
    })

-- A text without "{" has no reference.
abbrev pub IsPlain : Text → Type 0
IsPlain s = every (λ c. not (nat_beq c b'{')) s ≡ true

abbrev mutual
  pub IsPlainJson : Json → Type 0
  IsPlainJson (text s) = IsPlain s
  IsPlainJson (arr items) = ArePlain items
  IsPlainJson (obj fields) = HasPlain fields
  IsPlainJson _ = Unit

  pub ArePlain : Items → Type 0
  ArePlain nil = Unit
  ArePlain (cons v items) = IsPlainJson v × ArePlain items

  pub HasPlain : Fields → Type 0
  HasPlain end = Unit
  HasPlain (field k v fields) = IsPlainJson v × HasPlain fields

-- The profile has no "{" in any text.
pub record IsPlainProfile (p : ProvisionProfile) : Type 0 where
  pub texts : All IsPlain (
      p.name ∷ p.os_family ∷ p.os_version ∷ p.vendor ∷ p.arch ∷ p.install_url ∷ p.autoinstall_url
      ∷ [])
  pub network : HasPlain p.network
  pub disk : HasPlain p.disk
  pub packages : All IsPlain p.packages
  pub post_scripts : All IsPlain p.post_scripts
  pub extra : HasPlain p.extra
  pub ipxe_commands : All IsPlain p.ipxe_commands
  pub dhcp_options : HasPlain p.dhcp_options

module _ (get : Text → Option Text) where
  resolve_string-plain : (s : Text) → IsPlain s → resolve_string get s ≡ ok s
  resolve_string-plain s h =
      ap (resolve_string get) (sym (append-nil s))
      ∙ resolve_string-render get (literal s ∷ []) (h, tt)
      ∙ ap ok (append-nil s)

  mutual
    unfolding resolve_value

    resolve_value-plain : (v : Json) → IsPlainJson v → resolve_value get v ≡ ok v
    resolve_value-plain null h = refl
    resolve_value-plain (bool b) h = refl
    resolve_value-plain (num n) h = refl
    resolve_value-plain (text s) h = rw (resolve_string-plain s h) refl
    resolve_value-plain (arr items) h = rw (resolve_items-plain items h) refl
    resolve_value-plain (obj fields) h = rw (resolve_fields-plain fields h) refl

    resolve_items-plain : (items : Items) → ArePlain items → resolve_items get items ≡ ok items
    resolve_items-plain nil h = refl
    resolve_items-plain (cons v items) (h, hs) =
        rw (resolve_value-plain v h, resolve_items-plain items hs) refl

    resolve_fields-plain :
        (fields : Fields) → HasPlain fields → resolve_fields get fields ≡ ok fields
    resolve_fields-plain end h = refl
    resolve_fields-plain (field k v fields) (h, hs) =
        rw (resolve_value-plain v h, resolve_fields-plain fields hs) refl

  resolve_texts-plain : (ts : List Text) → All IsPlain ts → resolve_texts get ts ≡ ok ts
  unfolding resolve_texts
  resolve_texts-plain [] h = refl
  resolve_texts-plain (t ∷ ts) (h, hs) =
      rw (resolve_string-plain t h, resolve_texts-plain ts hs) refl

  -- A profile without a "{" in any text is returned as it is, whatever the secrets.
  pub resolve_profile-plain :
      (p : ProvisionProfile) → IsPlainProfile p → resolve_profile get p ≡ ok p
  unfolding resolve_profile
  resolve_profile-plain p h =
      let (name, (family, (version, (vendor, (arch, (install, (auto, none_left))))))) = h.texts in
      rw
        (
          resolve_string-plain p.name name,
          resolve_string-plain p.os_family family,
          resolve_string-plain p.os_version version,
          resolve_string-plain p.vendor vendor,
          resolve_string-plain p.arch arch,
          resolve_string-plain p.install_url install,
          resolve_string-plain p.autoinstall_url auto,
          resolve_fields-plain p.network h.network,
          resolve_fields-plain p.disk h.disk,
          resolve_texts-plain p.packages h.packages,
          resolve_texts-plain p.post_scripts h.post_scripts,
          resolve_fields-plain p.extra h.extra,
          resolve_texts-plain p.ipxe_commands h.ipxe_commands,
          resolve_fields-plain p.dhcp_options h.dhcp_options,
        )
        refl
