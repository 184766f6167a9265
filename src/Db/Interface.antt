-- ===== src/Db/Interface.antt =====
-- The abstract class StorageBackend, with what its users rely on.
use tftp_os.Prelude.{
  Bool, Option, none, some, List, [], ◌∷◌, ◌≡◌, lower, ◌==◌, text_eq, if◌then◌else◌,
}
use tftp_os.Prelude.Text.{Text}
use tftp_os.ProvisionRecord.{ProvisionRecord}

abbrev pub or_else : {A : Type 0} → Option A → Option A → Option A
or_else none o = o
or_else (some a) o = some a

-- The last record of the list with the MAC address, whatever its case.
unfoldable pub last_with : Text → List ProvisionRecord → Option ProvisionRecord
last_with mac [] = none
last_with mac (r ∷ rs) =
    or_else (last_with mac rs) (if lower r.mac == lower mac then some r else none)

pub record StorageBackend : Type 1 where
  pub Store : Type 0
  pub save : Store → ProvisionRecord → Store
  pub get : Store → Text → Option ProvisionRecord
  pub list_all : Store → List ProvisionRecord
  pub delete : Store → Text → Store × Bool
  pub clear : Store → Store
  -- The stores that the operations reach.
  pub IsStore : Store → Type 0
  -- What is read back of a record.
  pub stored : ProvisionRecord → ProvisionRecord
  pub lower-stored : (r : ProvisionRecord) → lower (stored r).mac ≡ lower r.mac
  pub save-IsStore : (s : Store) (r : ProvisionRecord) → IsStore s → IsStore (save s r)
  pub delete-IsStore : (s : Store) (mac : Text) → IsStore s → IsStore (delete s mac).0
  pub clear-IsStore : (s : Store) → IsStore (clear s)
  pub get-save :
      (s : Store) (r : ProvisionRecord) (mac : Text)
      → IsStore s
      → get (save s r) mac ≡ (if lower r.mac == lower mac then some (stored r) else get s mac)
  pub get-delete :
      (s : Store) (k mac : Text)
      → IsStore s
      → get (delete s k).0 mac ≡ (if lower k == lower mac then none else get s mac)
  pub get-clear : (s : Store) (mac : Text) → get (clear s) mac ≡ none
  pub last_with-list_all :
      (s : Store) (mac : Text) → IsStore s → last_with mac (list_all s) ≡ get s mac
