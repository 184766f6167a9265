-- ===== src/Plugins.antt =====
-- tftpos/plugins/base.py: the interface of the firmware plugins, the check of a profile that they
-- share, and the check of a part of a path (tftpos/plugins/static.py and tftpos/plugins/openwrt.py have
-- the same code). The characters of \w are those of ASCII.
pub mod Static
pub mod OpenWrt
pub mod Under
use tftp_os.Prelude.{
  ℕ, Bool, true, false, not, ◌&&◌, ◌||◌, List, [], ◌∷◌, ◌++◌, codes, text_eq, truthy, leb, nat_beq,
  ◌==◌, if◌then◌else◌,
}
use tftp_os.Prelude.Text.{Text}
use tftp_os.Result.{Result, ok, raise, value_error, ◌>>=◌, ◌>>◌, guard}
use tftp_os.HostRule.{ProvisionProfile}
use tftp_os.Dict.Laws.{among}
use tftp_os.Paths.{FilePath}
use tftp_os.Names.{star_to_end}

pub record FirmwarePlugin : Type 0 where
  -- The name of its class.
  pub class_name : Text
  pub os_family : Text
  pub supported_versions : List Text
  pub firmware_path : ProvisionProfile → Result FilePath

-- What is wrong with a profile; the texts of the messages are not modelled.
pub data Complaint : Type 0 where
  name_required os_family_mismatch unsupported_version : Complaint

abbrev pub complain_if : Bool → Complaint → List Complaint
complain_if test complaint = if test then complaint ∷ [] else []

abbrev pub is_empty : {A : Type 0} → List A → Bool
is_empty [] = true
is_empty (x ∷ xs) = false

unfoldable pub validate_profile : FirmwarePlugin → ProvisionProfile → List Complaint
unfolding among
validate_profile plugin profile =
    complain_if (not (truthy profile.name)) name_required
    ++ (complain_if (not (profile.os_family == plugin.os_family)) os_family_mismatch
        ++ complain_if
            (not (is_empty plugin.supported_versions)
              && not (among profile.os_version plugin.supported_versions))
            unsupported_version)

-- [\w.\-]
unfoldable pub is_segment_char : ℕ → Bool
is_segment_char c =
    (leb b'0' c && leb c b'9')
    || ((leb b'a' c && leb c b'z')
        || ((leb b'A' c && leb c b'Z') || (nat_beq c b'_' || (nat_beq c b'.' || nat_beq c b'-'))))

-- ^[\w.\-]+$
unfoldable pub safe_segment_re : Text → Bool
unfolding is_segment_char star_to_end
safe_segment_re [] = false
safe_segment_re (c ∷ s) = is_segment_char c && star_to_end is_segment_char s

unfoldable pub validate_segment : Text → Result (Unit {0})
unfolding safe_segment_re
validate_segment value = do
  guard (truthy value) value_error
  guard (not (value == codes "." || value == codes "..")) value_error
  guard (safe_segment_re value) value_error
