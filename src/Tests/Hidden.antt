-- ===== src/Tests/Hidden.antt =====
-- tftpos/secrets.py on a file with one secret.
use tftp_os.Prelude.{◌≡◌, refl, some, List, [], ◌∷◌, codes, text_eq, every}
use tftp_os.Dict
use tftp_os.Secrets.File.{SecretsFile, get}
use tftp_os.Secrets.Resolve.{resolve_string}
use tftp_os.Secrets.Template.{Piece, literal, reference, render, fill, resolve_string-render}

abbrev file : SecretsFile
file = some ((codes "disk_key", codes "k1") ∷ [])

abbrev parts : List Piece
parts = literal (codes "key=") ∷ reference (codes "disk_key") ∷ []

resolve_string-render_example : resolve_string (get file) (render parts) ≡ fill (get file) parts
unfolding every
resolve_string-render_example = resolve_string-render (get file) parts (refl, ((refl, refl), tt))
