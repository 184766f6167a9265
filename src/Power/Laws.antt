-- ===== src/Power/Laws.antt =====
-- What the manager and its drivers do.
use tftp_os.Prelude.{
  ◌≡◌, refl, ◌∙◌, ap, arith, Bool, true, false, ◌||◌, Option, none, some, List, [], codes, text_eq,
  text_beq, ◌==◌, if◌then◌else◌, lower,
}
use tftp_os.Prelude.Text.{Text}
use tftp_os.Result.{ok-injective, Result, ok, raise, power_error, ◌>>=◌}
use tftp_os.Json.{Fields, field?}
use tftp_os.Matcher.{normal_mac}
use tftp_os.Dict
use tftp_os.Dict.Laws.{get-put, each-put}
use tftp_os.Power.{
  PowerDriver, PowerManager, IsDriver, is_device, register, need_driver, get_driver, power_status,
  set_boot_device, with_driver,
}
use tftp_os.Power.Ipmi
use tftp_os.Power.Ipmi.{Ran, IpmiDriver, ipmi_driver, map_ok, run}
use tftp_os.Power.Redfish
use tftp_os.Power.Redfish.{Library, RedfishDriver, redfish_driver, state_text, request, system_path}
use tftp_os.Power.Create.{create_driver}

-- A power status in words.
abbrev pub is_status : Text → Bool
is_status s = s == codes "on" || (s == codes "off" || s == codes "unknown")

-- The answer is an exception, or a power status.
abbrev pub answers_status : Result Text → Bool
answers_status (raise e) = true
answers_status (ok s) = is_status s

ipmi_status : (output : Text) → is_status (Ipmi.status_of output) ≡ true
unfolding Ipmi.status_of text_beq
ipmi_status output = ground arith

redfish_status : (state : Text) → is_status (Redfish.status_of state) ≡ true
unfolding text_beq
redfish_status state = ground arith

need_driver-if :
    {W : Type 0} (b : Bool) (d : PowerDriver W) (o : Option (PowerDriver W))
    → need_driver (if b then some d else o) ≡ (if b then ok d else need_driver o)
need_driver-if true d o = refl
need_driver-if false d o = refl

map_ok-eq :
    (f : Text → Text) (r : Result Text) (t : Text) → map_ok f r ≡ ok t → (s : Text) × (t ≡ f s)
map_ok-eq f (raise e) t h = cc h
map_ok-eq f (ok s) t h = (s, cc h)

refused_device :
    {W : Type 0} (test : Bool) (p : W × Result Text) (w : W)
    → test ≡ false
    → (if test then p else (w, raise power_error)) ≡ (w, raise power_error)
refused_device test p w h = rw h refl

pub ipmi_driver-IsDriver :
    {W : Type 0} (subprocess_run : List Text → W → W × Ran) (d : IpmiDriver)
    → IsDriver (ipmi_driver subprocess_run d)
unfolding Ipmi.power_status Ipmi.set_boot_device
ipmi_driver-IsDriver subprocess_run d = record {
  status_among = λ w w' s h.
      let (output, same) = map_ok-eq Ipmi.status_of _ s (ap (λ p. p.1) h) in
      rw same (ipmi_status output);
  device_refused = λ w device h. refused_device (is_device device) _ w h;
}

redfish_text :
    (r : Result Text) (s : Text)
    → (r >>= λ state. ok (Redfish.status_of state)) ≡ ok s
    → is_status s ≡ true
redfish_text (raise e) s h = cc h
redfish_text (ok state) s h =
    let same : Redfish.status_of state ≡ s = ok-injective h in rw (← same) (redfish_status state)

redfish_answer :
    (r : Result Fields) (s : Text)
    → (r >>= λ fields.
        state_text (field? (codes "PowerState") fields) >>= λ state. ok (Redfish.status_of state))
      ≡ ok s
    → is_status s ≡ true
redfish_answer (raise e) s h = cc h
redfish_answer (ok fields) s h = redfish_text (state_text (field? (codes "PowerState") fields)) s h

pub redfish_driver-IsDriver :
    {W : Type 0} (lib : Library W) (d : RedfishDriver) → IsDriver (redfish_driver lib d)
unfolding Redfish.power_status Redfish.set_boot_device
redfish_driver-IsDriver lib d = record {
  status_among = λ w w' s h. redfish_answer _ s (ap (λ p. p.1) h);
  device_refused = λ w device h. refused_device (is_device device) _ w h;
}

module _ {W : Type 0} where
  -- A driver that is registered is found under its MAC address in any spelling by case and dashes, and
  -- the drivers of other addresses stay.
  pub get_driver-register :
      (m : PowerManager W) (mac j : Text) (d : PowerDriver W)
      → get_driver (register m mac d) j
        ≡ (if normal_mac mac == normal_mac j then ok d else get_driver m j)
  unfolding get_driver register
  get_driver-register m mac j d =
      ap need_driver (get-put (normal_mac mac) (normal_mac j) d m)
      ∙ need_driver-if (normal_mac mac == normal_mac j) d (Dict.get (normal_mac j) m)

  with_driver-refused :
      (o : Option (PowerDriver W)) (device : Text) (w : W)
      → ((d : PowerDriver W) → o ≡ some d → IsDriver d)
      → is_device device ≡ false
      → with_driver (need_driver o) (λ d. d.set_boot_device device) w ≡ (w, raise power_error)
  with_driver-refused none device w each bad = refl
  with_driver-refused (some d) device w each bad = (each d refl).device_refused w device bad

  with_driver-status :
      (o : Option (PowerDriver W)) (w : W)
      → ((d : PowerDriver W) → o ≡ some d → IsDriver d)
      → answers_status (with_driver (need_driver o) (λ d. d.power_status) w).1 ≡ true
  with_driver-status none w each = refl
  with_driver-status (some d) w each =
      answered (d.power_status w) (λ w' s h. (each d refl).status_among w w' s h)
    where
      answered :
          (p : W × Result Text)
          → ((w' : W) (s : Text) → p ≡ (w', ok s) → is_status s ≡ true)
          → answers_status p.1 ≡ true
      answered (w', raise e) h = refl
      answered (w', ok s) h = h w' s refl

module _ {W : Type 0} (subprocess_run : List Text → W → W × Ran) (lib : Library W) where
  -- The managers that the program has: empty, and with the drivers that create_driver made.
  pub data IsBuilt : PowerManager W → Type 0 where
    empty : IsBuilt []
    registered :
        {m : PowerManager W} (mac bmc_driver host user password : Text) (d : PowerDriver W)
        → create_driver subprocess_run lib bmc_driver host user password ≡ ok d
        → IsBuilt m
        → IsBuilt (register m mac d)

  chosen :
      (b c : Bool) (x y d : PowerDriver W)
      → (if b then ok x else if c then ok y else raise power_error) ≡ ok d
      → IsDriver x
      → IsDriver y
      → IsDriver d
  chosen true c x y d h is_x is_y = rw (← ok-injective h) is_x
  chosen false true x y d h is_x is_y = rw (← ok-injective h) is_y
  chosen false false x y d h is_x is_y = cc h

  create_driver-IsDriver :
      (bmc_driver host user password : Text) (d : PowerDriver W)
      → create_driver subprocess_run lib bmc_driver host user password ≡ ok d
      → IsDriver d
  unfolding create_driver
  create_driver-IsDriver bmc_driver host user password d h =
      chosen (lower bmc_driver == codes "ipmi") (lower bmc_driver == codes "redfish") _ _ d h
        (ipmi_driver-IsDriver subprocess_run _) (redfish_driver-IsDriver lib _)

  each-IsDriver :
      {m : PowerManager W} (k : Text) (d : PowerDriver W)
      → IsBuilt m
      → Dict.get k m ≡ some d
      → IsDriver d
  unfolding register Dict.get
  each-IsDriver k d empty h = cc h
  each-IsDriver k d (registered {m = m} mac b host user password new made built) h =
      each-put IsDriver (normal_mac mac) k new d m
        (create_driver-IsDriver b host user password new made) (each-IsDriver k d built) h

  -- On a manager that holds drivers of create_driver only, for every MAC address, also one without a
  -- driver: a boot device other than "pxe" and "disk" is refused, and no machine is reached; asking for
  -- the status raises, or gives "on", "off" or "unknown".
  pub manager-IsBuilt :
      (m : PowerManager W) (mac device : Text) (w : W)
      → IsBuilt m
      → is_device device ≡ false
      → (set_boot_device m mac device w ≡ (w, raise power_error))
        × (answers_status (power_status m mac w).1 ≡ true)
  unfolding set_boot_device power_status get_driver
  manager-IsBuilt m mac device w built bad =
      let o = Dict.get (normal_mac mac) m in
      let each : (d : PowerDriver W) → o ≡ some d → IsDriver d =
        λ d. each-IsDriver (normal_mac mac) d built in
      (with_driver-refused o device w each bad, with_driver-status o w each)
