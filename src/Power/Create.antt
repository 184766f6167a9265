-- ===== src/Power/Create.antt =====
-- create_driver of PowerManager.
use tftp_os.Prelude.{List, codes, text_eq, lower, ◌==◌, if◌then◌else◌}
use tftp_os.Prelude.Text.{Text}
use tftp_os.Result.{Result, ok, raise, power_error}
use tftp_os.Power.{PowerDriver}
use tftp_os.Power.Ipmi.{Ran, ipmi_driver}
use tftp_os.Power.Redfish.{Library, redfish_driver}

unfoldable pub create_driver :
    {W : Type 0}
    → (List Text → W → W × Ran)
    → Library W
    → Text
    → Text
    → Text
    → Text
    → Result (PowerDriver W)
unfolding lower
create_driver subprocess_run lib bmc_driver bmc_host bmc_user bmc_password =
    if lower bmc_driver == codes "ipmi"
    then ok (
        ipmi_driver subprocess_run (record {
          host = bmc_host;
          username = bmc_user;
          password = bmc_password;
          interface_name = codes "lanplus";
        }))
    else if lower bmc_driver == codes "redfish"
    then ok (
        redfish_driver lib (record {
          host = bmc_host;
          username = bmc_user;
          password = bmc_password;
          system_id = codes "1";
        }))
    else raise power_error
