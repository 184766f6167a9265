-- ===== src/Secrets.antt =====
-- tftpos/secrets.py: the interface of the stores of secrets, with what its users rely on. The stores
-- are in Secrets/File.antt and Secrets/Environment.antt, the manager that fills in references in
-- Secrets/Resolve.antt and Secrets/Profile.antt.
pub mod File
pub mod Environment
pub mod Resolve
pub mod Template
pub mod Profile
use tftp_os.Prelude.{Bool, Option, none, some, List, ◌≡◌, ◌==◌, text_eq, if◌then◌else◌}
use tftp_os.Prelude.Text.{Text}
use tftp_os.Dict.Laws.{present, among}

-- The abstract class, over the state that its methods read and change.
pub record SecretsProvider (S : Type 0) : Type 0 where
  pub get : S → Text → Option Text
  pub set : S → Text → Text → S
  pub delete : S → Text → S
  pub list_keys : S → List Text

-- The methods agree with one another, where keys of the same name are the same key.
pub record IsProvider {S : Type 0} (p : SecretsProvider S) (name : Text → Text)
    (IsValid : S → Type 0) : Type 0 where
  pub set-IsValid : (s : S) (k v : Text) → IsValid s → IsValid (p.set s k v)
  pub delete-IsValid : (s : S) (k : Text) → IsValid s → IsValid (p.delete s k)
  pub get-set :
      (s : S) (k v j : Text)
      → IsValid s
      → p.get (p.set s k v) j ≡ (if name k == name j then some v else p.get s j)
  pub get-delete :
      (s : S) (k j : Text)
      → IsValid s
      → p.get (p.delete s k) j ≡ (if name k == name j then none else p.get s j)
  pub list_keys-get :
      (s : S) (k : Text) → IsValid s → among (name k) (p.list_keys s) ≡ present (p.get s k)
