-- ===== src/ProvisionRecord.antt =====
-- tftpos/state.py: the state of a provisioned host and its record. Times are natural numbers.
use tftp_os.Prelude.{ℕ, Bool, true, false, Option, List, codes}
use tftp_os.Prelude.Text.{Text}

pub data ProvisionState : Type 0 where
  registered booting installing post_install complete failed : ProvisionState

-- state.value
unfoldable pub state_value : ProvisionState → Text
state_value registered = codes "registered"
state_value booting = codes "booting"
state_value installing = codes "installing"
state_value post_install = codes "post_install"
state_value complete = codes "complete"
state_value failed = codes "failed"

-- state == ProvisionState.COMPLETE
abbrev pub is_complete : ProvisionState → Bool
is_complete complete = true
is_complete _ = false

pub record ProvisionRecord : Type 0 where
  pub mac : Text
  pub profile : Text
  pub os_family : Text
  pub os_version : Text
  pub state : ProvisionState
  pub started_at : Option ℕ
  pub updated_at : Option ℕ
  pub completed_at : Option ℕ
  pub error_message : Option Text
  pub history : List (ProvisionState × ℕ)
  pub netboot_enabled : Bool
