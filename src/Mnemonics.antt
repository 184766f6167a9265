-- ===== src/Mnemonics.antt =====
-- tftpos/mnemonics.py: short names of distributions. The letters and digits of the pattern are those of
-- ASCII.
pub mod Aliases
pub mod Reached
use tftp_os.Prelude.{
  ℕ, Bool, true, false, not, ◌&&◌, ◌||◌, Option, none, some, List, [], ◌∷◌, codes, text_eq, truthy,
  leb, nat_beq, lower, strip, filter, ◌==◌, if◌then◌else◌,
}
use tftp_os.Prelude.Sort.{sort, text_le}
use tftp_os.Prelude.Text.{Text}
use tftp_os.Result.{Result, ok, raise, type_error, ◌>>=◌}
use tftp_os.Json.{Json, text, obj, Fields, end, field, item_or, as_text}
use tftp_os.Dict
use tftp_os.Dict.{Dict}
use tftp_os.Mnemonics.Aliases.{DistroAlias, builtin_aliases, family_prefixes}

abbrev pub MnemonicRegistry : Type 0
MnemonicRegistry = Dict Text DistroAlias

unfoldable pub init : MnemonicRegistry
init = builtin_aliases

unfoldable pub register : MnemonicRegistry → Text → DistroAlias → MnemonicRegistry
unfolding lower
register r name alias = Dict.put (lower name) alias r

-- mnemonic.lower().replace("-", "").replace("_", "")
unfoldable pub key_of : Text → Text
unfolding lower filter
key_of mnemonic =
    filter (λ c. not (nat_beq c b'_')) (filter (λ c. not (nat_beq c b'-')) (lower mnemonic))

-- The longest run of characters that pass a test, and the rest.
unfoldable pub run_of : (ℕ → Bool) → Text → Text × Text
run_of p [] = ([], [])
run_of p (c ∷ s) = let rest = run_of p s in if p c then (c ∷ rest.0, rest.1) else ([], c ∷ s)

abbrev pub is_digit : ℕ → Bool
is_digit c = leb b'0' c && leb c b'9'

-- [a-z], in any case
abbrev pub is_letter : ℕ → Bool
is_letter c = (leb b'a' c && leb c b'z') || (leb b'A' c && leb c b'Z')

-- `$`
abbrev pub at_end : Text → Bool
at_end [] = true
at_end (c ∷ []) = nat_beq c 10
at_end (c ∷ d ∷ s) = false

-- (\d[\d.]*)$
abbrev pub version_match : Text → Text → Text → Option (Text × Text)
version_match prefix [] last = none
version_match prefix (d ∷ version) last =
    if truthy prefix && (is_digit d && at_end last) then some (prefix, d ∷ version) else none

-- ^([a-z]+?)(\d[\d.]*)$: letters and digits have no character in common, so that there is one match
-- at most.
unfoldable pub pattern : Text → Option (Text × Text)
unfolding run_of
pattern key =
    let (prefix, rest) = run_of is_letter key in
    let (version, last) = run_of (λ c. is_digit c || nat_beq c b'.') rest in
    version_match prefix version last

abbrev pub with_family : Option (Text × Text) → Text → Option DistroAlias
with_family none version = none
with_family (some (os_family, vendor)) version =
    some (record { os_family = os_family; vendor = vendor; version = version })

abbrev pub parsed : Option (Text × Text) → Option DistroAlias
parsed none = none
parsed (some (prefix, version)) = with_family (Dict.get (lower prefix) family_prefixes) version

unfoldable pub try_parse : Text → Option DistroAlias
unfolding pattern
try_parse key = parsed (pattern key)

abbrev pub or_parse : Option DistroAlias → Text → Option DistroAlias
or_parse none key = try_parse key
or_parse (some alias) key = some alias

unfoldable pub resolve : MnemonicRegistry → Text → Option DistroAlias
unfolding strip key_of try_parse
resolve r mnemonic =
    if truthy mnemonic && truthy (strip mnemonic)
    then or_parse (Dict.get (key_of mnemonic) r) (key_of mnemonic)
    else none

-- The names differ, so that the order of the items is that of the names.
unfoldable pub list_aliases : MnemonicRegistry → List (Text × DistroAlias)
unfolding sort
list_aliases r = sort (λ a b. text_le a.0 b.0) r

-- An entry of the configuration that is a table; the parts are texts.
unfoldable pub alias_of : Fields → Result DistroAlias
unfolding item_or as_text
alias_of entry = do
  os_family ← as_text (item_or (codes "os_family") (text []) entry)
  vendor ← as_text (item_or (codes "vendor") (text []) entry)
  version ← as_text (item_or (codes "version") (text []) entry)
  ok (record { os_family = os_family; vendor = vendor; version = version })

unfoldable pub load_from_config : MnemonicRegistry → Fields → Result MnemonicRegistry
unfolding register alias_of
load_from_config r end = ok r
load_from_config r (field name (obj entry) mnemonics) = do
  alias ← alias_of entry
  load_from_config (register r name alias) mnemonics
load_from_config r (field name v mnemonics) = load_from_config r mnemonics
