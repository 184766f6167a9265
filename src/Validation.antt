-- ===== src/Validation.antt =====
-- tftpos/validation.py: the checks of os families, of values for shell scripts, of names and of
-- packages, and the escaping of XML; the MAC addresses are in Validation/Mac.antt, host names and URLs
-- in Validation/Host.antt. As in Python, `$` in a pattern matches at the end and before a newline that
-- ends the text.
pub mod Xml
pub mod Mac
pub mod Host
pub mod MacForm
pub mod Packages
use tftp_os.Prelude.{
  ℕ, Bool, true, false, not, ◌||◌, ◌&&◌, List, [], ◌∷◌, ◌++◌, leb, nat_beq, if◌then◌else◌, any,
  ◌==◌, text_eq, lower, codes, contains, has_char, truthy, length,
}
use tftp_os.Prelude.Text.{Text}
use tftp_os.Result.{Result, ok, raise, value_error, ◌>>=◌, ◌>>◌, guard}
use tftp_os.Names.{is_alnum, star_to_end}

-- The first component of the answer; the message of a failure is not modelled.
unfoldable pub validate_os_family : Text → List Text → Bool
unfolding any
validate_os_family os_family available = any (λ a. lower a == lower os_family) available

-- [;&|`$\"\'\\\n\r<>(){}!\x00]
unfoldable pub is_shell_unsafe : ℕ → Bool
unfolding has_char
is_shell_unsafe c = has_char c (codes ";&|`$\"'\\<>(){}!" ++ 10 ∷ 13 ∷ 0 ∷ [])

-- search: some character of the text is in the class.
unfoldable pub has_unsafe : Text → Bool
unfolding is_shell_unsafe
has_unsafe [] = false
has_unsafe (c ∷ s) = is_shell_unsafe c || has_unsafe s

unfoldable pub is_shell_safe : Text → Bool
unfolding has_unsafe
is_shell_safe value = not (has_unsafe value)

unfoldable pub sanitize_shell_value : Text → Result Text
unfolding is_shell_safe
sanitize_shell_value value = do guard (is_shell_safe value) value_error; ok value

-- value.replace(c, r) for a character `c`
unfoldable pub replace_by : ℕ → Text → Text → Text
replace_by c r [] = []
replace_by c r (a ∷ s) = let rest = replace_by c r s in if nat_beq a c then r ++ rest else a ∷ rest

-- _XML_ESCAPE_MAP, in its order
abbrev pub xml_escape_map : List (ℕ × Text)
xml_escape_map =
    (b'&', codes "&amp;")
    ∷ (b'<', codes "&lt;")
    ∷ (b'>', codes "&gt;")
    ∷ (b'"', codes "&quot;")
    ∷ (b'\'', codes "&apos;")
    ∷ []

unfoldable pub replace_each : List (ℕ × Text) → Text → Text
unfolding replace_by
replace_each [] value = value
replace_each ((c, r) ∷ map) value = replace_each map (replace_by c r value)

unfoldable pub escape_xml : Text → Text
unfolding replace_each
escape_xml value = replace_each xml_escape_map value

unfoldable pub validate_safe_name : Text → Result Text
unfolding contains has_char
validate_safe_name name = do
  guard (truthy name) value_error
  guard
      (not (
        contains name (codes "..") || has_char b'/' name || has_char b'\\' name || has_char 0 name))
      value_error
  ok name

unfoldable pub is_package_char : ℕ → Bool
unfolding is_alnum
is_package_char c =
    is_alnum c
    || nat_beq c b'.'
    || nat_beq c b'_'
    || nat_beq c b'+'
    || nat_beq c b':'
    || nat_beq c b'-'

-- ^[a-zA-Z0-9][a-zA-Z0-9._+:\-]*$
unfoldable pub package_re : Text → Bool
unfolding is_package_char star_to_end
package_re [] = false
package_re (c ∷ s) = is_alnum c && star_to_end is_package_char s

unfoldable pub validate_package_name : Text → Bool
unfolding package_re
validate_package_name pkg =
    if not (truthy pkg) || not (leb (length pkg) 256) then false else package_re pkg

-- The loop of `sanitize_packages`.
check_packages : List Text → Result (Unit {0})
unfolding validate_package_name
check_packages [] = ok tt
check_packages (pkg ∷ packages) =
    let rest = check_packages packages in do guard (validate_package_name pkg) value_error; rest

unfoldable pub sanitize_packages : List Text → Result (List Text)
unfolding check_packages
sanitize_packages packages = do check_packages packages; ok packages
