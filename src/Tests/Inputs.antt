-- ===== src/Tests/Inputs.antt =====
-- tftpos/validation.py on concrete texts.
use tftp_os.Prelude.{◌≡◌, ◌⊎◌, refl, false, [], ◌∷◌, List, All, all, codes}
use tftp_os.Prelude.Text.{Text}
use tftp_os.Result.{ok, raise, value_error}
use tftp_os.Validation.{
  escape_xml, replace_each, replace_by, sanitize_packages, validate_package_name,
}
use tftp_os.Validation.Xml.{escape_once, escape_xml-escape_once}
use tftp_os.Validation.Packages.{IsPackage, sanitize_packages-IsPackage}

escape_run : escape_xml (codes "a&<b>") ≡ codes "a&amp;&lt;b&gt;"
unfolding escape_xml replace_each replace_by
escape_run = refl

escape_xml-escape_once_example : escape_xml (codes "a&<b>") ≡ escape_once (codes "a&<b>")
escape_xml-escape_once_example = escape_xml-escape_once (codes "a&<b>")

abbrev packages : List Text
packages = codes "vim" ∷ codes "-rf" ∷ []

sanitize_packages-IsPackage_example :
    ((sanitize_packages packages ≡ ok packages) × All IsPackage packages)
    ⊎ ((sanitize_packages packages ≡ raise value_error)
        × (all validate_package_name packages ≡ false))
sanitize_packages-IsPackage_example = sanitize_packages-IsPackage packages
