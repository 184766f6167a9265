-- ===== src/Db/Memory.antt =====
-- MemoryBackend.
use tftp_os.Prelude.{
  Bool, Option, none, some, List, [], ◌∷◌, ◌≡◌, refl, lower, ◌==◌, ==_iff, text_eq, arith,
  if◌then◌else◌,
}
use tftp_os.Prelude.Text.{Text}
use tftp_os.ProvisionRecord.{ProvisionRecord}
use tftp_os.Dict
use tftp_os.Dict.{Dict}
use tftp_os.Dict.Laws.{get-put, get-remove, present}
use tftp_os.Dict.Distinct.{IsDistinct, put-IsDistinct, remove-IsDistinct}
use tftp_os.Db.Interface.{StorageBackend, last_with}

abbrev pub Store : Type 0
Store = Dict Text ProvisionRecord

unfoldable pub save : Store → ProvisionRecord → Store
save s r = Dict.put (lower r.mac) r s

unfoldable pub get : Store → Text → Option ProvisionRecord
get s mac = Dict.get (lower mac) s

unfoldable pub list_all : Store → List ProvisionRecord
list_all s = Dict.values s

unfoldable pub delete : Store → Text → Store × Bool
delete s mac = (Dict.remove (lower mac) s, present (Dict.get (lower mac) s))

unfoldable pub clear : Store → Store
clear s = []

-- Each record stands under its MAC address in lower case, and no key stands twice.
abbrev pub IsKeyed : Store → Type 0
IsKeyed [] = Unit
IsKeyed ((k, r) ∷ s) = (k ≡ lower r.mac) × IsKeyed s

pub put-IsKeyed :
    (r : ProvisionRecord) (s : Store) → IsKeyed s → IsKeyed (Dict.put (lower r.mac) r s)
unfolding Dict.put
put-IsKeyed r [] h = (refl, tt)
put-IsKeyed r ((k, x) ∷ s) h = ground (arith, put-IsKeyed r s, ==_iff k (lower r.mac))

pub remove-IsKeyed : (k : Text) (s : Store) → IsKeyed s → IsKeyed (Dict.remove k s)
unfolding Dict.remove
remove-IsKeyed k [] h = tt
remove-IsKeyed k ((j, x) ∷ s) h = ground (arith, remove-IsKeyed k s)

-- The values of a keyed `dict`, read in their order, show what the `dict` holds.
pub last_with-values :
    (s : Store) (mac : Text)
    → IsKeyed s
    → IsDistinct s
    → last_with mac (Dict.values s) ≡ Dict.get (lower mac) s
unfolding last_with Dict.get
last_with-values [] mac h d = refl
last_with-values ((k, r) ∷ s) mac h d =
    ground (arith, last_with-values s mac h.1 d.1, ==_iff k (lower mac))

abbrev pub IsStore : Store → Type 0
IsStore s = IsKeyed s × IsDistinct s

pub save-IsStore : (s : Store) (r : ProvisionRecord) → IsStore s → IsStore (save s r)
unfolding save
save-IsStore s r h = (put-IsKeyed r s h.0, put-IsDistinct (lower r.mac) r s h.1)

pub delete-IsStore : (s : Store) (mac : Text) → IsStore s → IsStore (delete s mac).0
unfolding delete
delete-IsStore s mac h = (remove-IsKeyed (lower mac) s h.0, remove-IsDistinct (lower mac) s h.1)

pub clear-IsStore : (s : Store) → IsStore (clear s)
unfolding clear
clear-IsStore s = (tt, tt)

pub get-save :
    (s : Store) (r : ProvisionRecord) (mac : Text)
    → IsStore s
    → get (save s r) mac ≡ (if lower r.mac == lower mac then some r else get s mac)
unfolding get save
get-save s r mac h = get-put (lower r.mac) (lower mac) r s

pub get-delete :
    (s : Store) (k mac : Text)
    → IsStore s
    → get (delete s k).0 mac ≡ (if lower k == lower mac then none else get s mac)
unfolding get delete
get-delete s k mac h = get-remove (lower k) (lower mac) s

pub get-clear : (s : Store) (mac : Text) → get (clear s) mac ≡ none
unfolding get clear Dict.get
get-clear s mac = refl

pub last_with-list_all :
    (s : Store) (mac : Text) → IsStore s → last_with mac (list_all s) ≡ get s mac
unfolding get list_all
last_with-list_all s mac h = last_with-values s mac h.0 h.1

abbrev pub memory_backend : StorageBackend
memory_backend = record {
  Store = Store;
  save = save;
  get = get;
  list_all = list_all;
  delete = delete;
  clear = clear;
  IsStore = IsStore;
  stored = λ r. r;
  lower-stored = λ r. refl;
  save-IsStore = save-IsStore;
  delete-IsStore = delete-IsStore;
  clear-IsStore = clear-IsStore;
  get-save = get-save;
  get-delete = get-delete;
  get-clear = get-clear;
  last_with-list_all = last_with-list_all;
}
