-- ===== src/HostRule.antt =====
-- tftpos/models.py: HostRule and ProvisionProfile, and the profile's other data as JSON. A priority is
-- a natural number.
use tftp_os.Prelude.{ℕ, Bool, Option, none, some, List, truthy, false}
use tftp_os.Prelude.Text.{Text}
use tftp_os.Json.{Fields}

pub data BootFirmware : Type 0 where
  bios uefi : BootFirmware

pub record ProvisionProfile : Type 0 where
  pub name : Text
  pub os_family : Text
  pub os_version : Text
  pub vendor : Text
  pub arch : Text
  pub firmware : BootFirmware
  pub install_url : Text
  pub autoinstall_url : Text
  pub network : Fields
  pub disk : Fields
  pub packages : List Text
  pub post_scripts : List Text
  pub extra : Fields
  pub ipxe_commands : List Text
  pub dhcp_options : Fields

pub record HostRule : Type 0 where
  pub profile : Text
  pub os_family : Text
  pub os_version : Text
  pub vendor : Text
  pub priority : ℕ
  pub mac : Option Text
  pub mac_prefix : Option Text
  pub hostname_pattern : Option Text
  pub subnet : Option Text
  pub serial : Option Text
  pub group : Option Text
  pub arch : Option Text
  pub bmc_host : Option Text
  pub bmc_user : Option Text
  pub bmc_password : Option Text
  pub bmc_driver : Option Text
  pub deploy_mode : Text
  pub console_type : Option Text
  pub console_endpoint : Option Text

-- The truth value of an optional text.
abbrev pub present_text : Option Text → Bool
present_text none = false
present_text (some t) = truthy t
