-- ===== src/Power.antt =====
-- tftpos/power.py: the interface of the power drivers, over the state W of the machines that they
-- reach, and the manager that keeps a driver for each MAC address.
pub mod Ipmi
pub mod Redfish
pub mod Create
pub mod Laws
use tftp_os.Prelude.{Bool, true, false, ◌||◌, Option, none, some, [], codes, text_eq, ◌==◌, ◌≡◌}
use tftp_os.Prelude.Text.{Text}
use tftp_os.Result.{Result, ok, raise, power_error}
use tftp_os.Matcher.{normal_mac}
use tftp_os.Dict
use tftp_os.Dict.{Dict}

-- The abstract class.
pub record PowerDriver (W : Type 0) : Type 0 where
  pub power_on : W → W × Result Text
  pub power_off : W → W × Result Text
  pub power_status : W → W × Result Text
  pub set_boot_device : Text → W → W × Result Text

-- device in ("pxe", "disk")
abbrev pub is_device : Text → Bool
is_device device = device == codes "pxe" || device == codes "disk"

-- What the class promises in words: a status is one of three, and a boot device is one of two; the
-- machine is not touched for another one.
pub record IsDriver {W : Type 0} (d : PowerDriver W) : Type 0 where
  pub status_among :
      (w w' : W) (s : Text)
      → d.power_status w ≡ (w', ok s)
      → (s == codes "on" || (s == codes "off" || s == codes "unknown")) ≡ true
  pub device_refused :
      (w : W) (device : Text)
      → is_device device ≡ false
      → d.set_boot_device device w ≡ (w, raise power_error)

-- The drivers, by MAC address.
abbrev pub PowerManager : Type 0 → Type 0
PowerManager W = Dict Text (PowerDriver W)

module _ {W : Type 0} where
  unfoldable pub register : PowerManager W → Text → PowerDriver W → PowerManager W
  unfolding normal_mac
  register m mac driver = Dict.put (normal_mac mac) driver m

  abbrev pub need_driver : Option (PowerDriver W) → Result (PowerDriver W)
  need_driver none = raise power_error
  need_driver (some driver) = ok driver

  unfoldable pub get_driver : PowerManager W → Text → Result (PowerDriver W)
  unfolding normal_mac
  get_driver m mac = need_driver (Dict.get (normal_mac mac) m)

  unfoldable pub has_driver : PowerManager W → Text → Bool
  unfolding normal_mac
  has_driver m mac = Dict.has_key (normal_mac mac) m

  -- self.get_driver(mac).method()
  abbrev pub with_driver :
      Result (PowerDriver W) → (PowerDriver W → W → W × Result Text) → W → W × Result Text
  with_driver (raise e) method w = (w, raise e)
  with_driver (ok driver) method w = method driver w

  unfoldable pub power_on : PowerManager W → Text → W → W × Result Text
  unfolding get_driver
  power_on m mac = with_driver (get_driver m mac) (λ d. d.power_on)

  unfoldable pub power_off : PowerManager W → Text → W → W × Result Text
  unfolding get_driver
  power_off m mac = with_driver (get_driver m mac) (λ d. d.power_off)

  unfoldable pub power_status : PowerManager W → Text → W → W × Result Text
  unfolding get_driver
  power_status m mac = with_driver (get_driver m mac) (λ d. d.power_status)

  unfoldable pub set_boot_device : PowerManager W → Text → Text → W → W × Result Text
  unfolding get_driver
  set_boot_device m mac device = with_driver (get_driver m mac) (λ d. d.set_boot_device device)
