-- ===== src/NamedObjects/Interface.antt =====
-- What NamedObjectStore does with an object of either class, and reads that both share.
use tftp_os.Prelude.{Bool, true, ◌&&◌, List, text_eq}
use tftp_os.Prelude.Text.{Text}
use tftp_os.Result.{Result, ◌>>=◌}
use tftp_os.Json.{Json, Fields, end, field, as_items}
use tftp_os.Cluster.Serial.{texts_from_items}

unfoldable pub as_texts : Json → Result (List Text)
as_texts v = do xs ← as_items v; texts_from_items xs

-- A call with the entries of a dict as keyword arguments takes no other keys.
unfoldable pub only_keys : (Text → Bool) → Fields → Bool
only_keys known end = true
only_keys known (field k v fs) = known k && only_keys known fs

-- What the two classes differ in: the name of an object, asdict(o), cls(**data), and setattr(o, k, v)
-- where hasattr(o, k).
pub record Kind (A : Type 0) : Type 0 where
  pub name_of : A → Text
  pub asdict : A → Fields
  pub construct : Fields → Result A
  pub set : Text → Json → A → Result A
