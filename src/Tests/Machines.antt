-- ===== src/Tests/Machines.antt =====
-- tftpos/power.py with one machine, whose state is whether it is on, and MAC addresses of
-- tftpos/validation.py.
use tftp_os.Prelude.{
  ◌≡◌, refl, Bool, true, List, [], codes, text_eq, text_beq, if◌then◌else◌, lower, lower_char,
  strip, lstrip, rstrip,
}
use tftp_os.Prelude.Text.{Text}
use tftp_os.Result.{ok, raise, power_error}
use tftp_os.Json.{end}
use tftp_os.Power.{PowerManager, PowerDriver, register, power_status, set_boot_device}
use tftp_os.Power.Ipmi.{Ran, completed, ipmi_driver}
use tftp_os.Power.Redfish.{Library, response}
use tftp_os.Power.Create.{create_driver}
use tftp_os.Power.Laws.{IsBuilt, empty, registered, answers_status, manager-IsBuilt}
use tftp_os.Validation.Mac.{validate_mac, normalize_mac, separated, hexes}
use tftp_os.Validation.MacForm.{IsColonPairs, normalize_mac-normalize_mac}

-- ipmitool answers every command with the state of the machine.
abbrev ipmitool : List Text → Bool → Bool × Ran
ipmitool args on =
    (on, completed 0 (if on then codes "Chassis Power is on" else codes "Chassis Power is off") [])

abbrev library : Library Bool
library = record {
  urlopen = λ request on. (on, response 204 []);
  dumps = λ fields. [];
  loads = λ t. ok end;
  b64encode = λ t. t;
}

abbrev driver : PowerDriver Bool
driver = ipmi_driver ipmitool (record {
  host = codes "10.0.0.9";
  username = codes "admin";
  password = codes "pw";
  interface_name = codes "lanplus";
})

abbrev machines : PowerManager Bool
machines = register [] (codes "AA-BB") driver

machines-IsBuilt : IsBuilt ipmitool library machines
unfolding create_driver lower lower_char text_beq
machines-IsBuilt =
    registered (codes "AA-BB") (codes "IPMI") (codes "10.0.0.9") (codes "admin") (codes "pw") driver
      refl empty

manager-IsBuilt_example :
    (set_boot_device machines (codes "aa:bb") (codes "cdrom") true ≡ (true, raise power_error))
    × (answers_status (power_status machines (codes "aa:bb") true).1 ≡ true)
unfolding text_beq
manager-IsBuilt_example =
    manager-IsBuilt ipmitool library machines (codes "aa:bb") (codes "cdrom") true machines-IsBuilt
      refl

normalize_mac-normalize_mac_example :
    (n : Text) × (normalize_mac (codes " AA-BB-CC-00-11-22") ≡ ok n)
    × IsColonPairs 5 n
    × (normalize_mac n ≡ ok n)
unfolding validate_mac strip lstrip rstrip separated hexes
normalize_mac-normalize_mac_example = normalize_mac-normalize_mac (codes " AA-BB-CC-00-11-22") refl
