-- ===== src/Power/Ipmi.antt =====
-- IPMIDriver: commands of ipmitool. What running a command does is a parameter.
use tftp_os.Prelude.{
  ℕ, List, [], ◌∷◌, codes, text_eq, lower, strip, contains, nat_beq, if◌then◌else◌,
}
use tftp_os.Prelude.Text.{Text}
use tftp_os.Result.{Result, ok, raise, power_error}
use tftp_os.Power.{PowerDriver, is_device}

-- What subprocess.run returns or raises.
pub data Ran : Type 0 where
  completed : ℕ → Text → Text → Ran
  not_found : Ran
  timed_out : Ran

pub record IpmiDriver : Type 0 where
  pub host : Text
  pub username : Text
  pub password : Text
  pub interface_name : Text

-- The output of a command that ended well.
abbrev pub stdout_of : Ran → Result Text
stdout_of (completed returncode stdout stderr) =
    if nat_beq returncode 0 then ok (strip stdout) else raise power_error
stdout_of not_found = raise power_error
stdout_of timed_out = raise power_error

unfoldable pub status_of : Text → Text
unfolding lower contains
status_of output =
    if contains (lower output) (codes "on")
    then codes "on"
    else if contains (lower output) (codes "off")
    then codes "off"
    else codes "unknown"

abbrev pub map_ok : (Text → Text) → Result Text → Result Text
map_ok f (raise e) = raise e
map_ok f (ok t) = ok (f t)

module _ {W : Type 0} (subprocess_run : List Text → W → W × Ran) where
  unfoldable pub run : IpmiDriver → List Text → W → W × Result Text
  unfolding strip
  run d args w =
      let (w', result) =
        subprocess_run
          (codes "ipmitool"
            ∷ codes "-I"
            ∷ d.interface_name
            ∷ codes "-H"
            ∷ d.host
            ∷ codes "-U"
            ∷ d.username
            ∷ codes "-P"
            ∷ d.password
            ∷ args)
          w in
      (w', stdout_of result)

  unfoldable pub power_status : IpmiDriver → W → W × Result Text
  unfolding run status_of
  power_status d w =
      let (w', output) = run d (codes "power" ∷ codes "status" ∷ []) w in
      (w', map_ok status_of output)

  unfoldable pub set_boot_device : IpmiDriver → Text → W → W × Result Text
  unfolding run
  set_boot_device d device w =
      if is_device device
      then run d (codes "chassis" ∷ codes "bootdev" ∷ device ∷ []) w
      else (w, raise power_error)

  abbrev pub ipmi_driver : IpmiDriver → PowerDriver W
  ipmi_driver d = record {
    power_on = run d (codes "power" ∷ codes "on" ∷ []);
    power_off = run d (codes "power" ∷ codes "off" ∷ []);
    power_status = power_status d;
    set_boot_device = set_boot_device d;
  }
