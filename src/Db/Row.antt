-- ===== src/Db/Row.antt =====
-- ProvisionRow, the row of the table of records, and its two conversions. The text of the history
-- stands for the JSON list that it holds. The columns' lengths are not modelled.
use tftp_os.Prelude.{ℕ, ◌≡◌, refl, Bool, Option, lower}
use tftp_os.Prelude.Text.{Text}
use tftp_os.Result.{Result, ok, ◌>>=◌}
use tftp_os.Json.{Items}
use tftp_os.ProvisionRecord.{state_value, ProvisionRecord}
use tftp_os.Db.Serial.{
  state_of, state_of-state_value, history_to_items, items_to_history,
  items_to_history-history_to_items,
}

pub record ProvisionRow : Type 0 where
  pub mac : Text
  pub profile : Text
  pub os_family : Text
  pub os_version : Text
  pub state : Text
  pub started_at : Option ℕ
  pub updated_at : Option ℕ
  pub completed_at : Option ℕ
  pub error_message : Option Text
  pub history : Items
  pub netboot_enabled : Bool

unfoldable pub to_provision_record : ProvisionRow → Result ProvisionRecord
to_provision_record row = do
  history ← items_to_history row.history
  state ← state_of row.state
  ok (record {
    mac = row.mac;
    profile = row.profile;
    os_family = row.os_family;
    os_version = row.os_version;
    state = state;
    started_at = row.started_at;
    updated_at = row.updated_at;
    completed_at = row.completed_at;
    error_message = row.error_message;
    history = history;
    netboot_enabled = row.netboot_enabled;
  })

unfoldable pub from_provision_record : ProvisionRecord → ProvisionRow
from_provision_record r = record {
  mac = lower r.mac;
  profile = r.profile;
  os_family = r.os_family;
  os_version = r.os_version;
  state = state_value r.state;
  started_at = r.started_at;
  updated_at = r.updated_at;
  completed_at = r.completed_at;
  error_message = r.error_message;
  history = history_to_items r.history;
  netboot_enabled = r.netboot_enabled;
}

-- A record that goes through a row comes back with its MAC address in lower case, and is else as it
-- was.
pub to_provision_record-from_provision_record :
    (r : ProvisionRecord)
    → to_provision_record (from_provision_record r) ≡ ok (record r { mac = lower r.mac })
unfolding to_provision_record from_provision_record
to_provision_record-from_provision_record r =
    rw (items_to_history-history_to_items r.history, state_of-state_value r.state) refl
