-- ===== src/Power/Redfish.antt =====
-- RedfishDriver: requests of the Redfish interface. What a request does, `json.dumps`, `json.loads` and
-- the base64 code are parameters.
use tftp_os.Prelude.{
  ℕ, Option, none, some, [], ◌∷◌, ◌++◌, codes, text_eq, lower, ◌==◌, nat_beq, if◌then◌else◌,
}
use tftp_os.Prelude.Text.{Text}
use tftp_os.Result.{Result, ok, raise, power_error, attribute_error, ◌>>=◌}
use tftp_os.Json.{Json, text, Fields, end, field, field?, obj}
use tftp_os.Dict.{Dict}
use tftp_os.Power.{PowerDriver, is_device}

-- What urlopen returns or raises: a status with a body, or an error of HTTP or of the connection.
pub data Response : Type 0 where
  response : ℕ → Text → Response
  http_error : ℕ → Response
  url_error : Response

pub record HttpRequest : Type 0 where
  pub url : Text
  pub method : Text
  pub body : Option Text
  pub headers : Dict Text Text

pub record Library (W : Type 0) : Type 0 where
  pub urlopen : HttpRequest → W → W × Response
  pub dumps : Fields → Text
  -- The object that a text stands for, or the error of the library.
  pub loads : Text → Result Fields
  pub b64encode : Text → Text

pub record RedfishDriver : Type 0 where
  pub host : Text
  pub username : Text
  pub password : Text
  pub system_id : Text

abbrev pub base_url : RedfishDriver → Text
base_url d = codes "https://" ++ (d.host ++ codes "/redfish/v1")

abbrev pub system_path : RedfishDriver → Text
system_path d = codes "/Systems/" ++ d.system_id

abbrev pub reset_path : RedfishDriver → Text
reset_path d = system_path d ++ codes "/Actions/ComputerSystem.Reset"

-- data.get("PowerState", "Unknown").lower()
abbrev pub state_text : Option Json → Result Text
state_text none = ok (lower (codes "Unknown"))
state_text (some (text t)) = ok (lower t)
state_text (some v) = raise attribute_error

abbrev pub status_of : Text → Text
status_of state =
    if state == codes "on"
    then codes "on"
    else if state == codes "off"
    then codes "off"
    else codes "unknown"

-- json.dumps(data).encode() if data else None
abbrev pub body_of : (Fields → Text) → Fields → Option Text
body_of dumps end = none
body_of dumps (field k v fs) = some (dumps (field k v fs))

module _ {W : Type 0} (lib : Library W) where
  abbrev pub fields_of : Response → Result Fields
  fields_of (response status body) = if nat_beq status 204 then ok end else lib.loads body
  fields_of (http_error code) = raise power_error
  fields_of url_error = raise power_error

  -- A request without data has the empty data.
  unfoldable pub request : RedfishDriver → Text → Text → Fields → W → W × Result Fields
  request d path method fields w =
      let (w', answer) =
        lib.urlopen
          (record {
            url = base_url d ++ path;
            method = method;
            body = body_of lib.dumps fields;
            headers =
                (codes "Content-Type", codes "application/json")
                ∷ (
                  codes "Authorization",
                  codes "Basic " ++ lib.b64encode (d.username ++ (codes ":" ++ d.password)),
                )
                ∷ [];
          })
          w in
      (w', fields_of answer)

  -- The request is made, and a message is returned.
  abbrev pub then_say : Text → W × Result Fields → W × Result Text
  then_say message (w, answer) = (w, answer >>= λ fields. ok message)

  unfoldable pub reset : RedfishDriver → Text → Text → W → W × Result Text
  unfolding request
  reset d reset_type message w =
      then_say message (
        request d (reset_path d) (codes "POST") (field (codes "ResetType") (text reset_type) end) w)

  unfoldable pub power_on : RedfishDriver → W → W × Result Text
  unfolding reset
  power_on d = reset d (codes "On") (codes "power on requested")

  unfoldable pub power_off : RedfishDriver → W → W × Result Text
  unfolding reset
  power_off d = reset d (codes "ForceOff") (codes "power off requested")

  unfoldable pub power_status : RedfishDriver → W → W × Result Text
  unfolding request field?
  power_status d w =
      let (w', answer) = request d (system_path d) (codes "GET") end w in
      (
        w',
        answer >>= λ fields.
            state_text (field? (codes "PowerState") fields) >>= λ state. ok (status_of state),
      )

  unfoldable pub set_boot_device : RedfishDriver → Text → W → W × Result Text
  unfolding request
  set_boot_device d device w =
      if is_device device
      then then_say (codes "boot device set to " ++ device) (
          request d (system_path d) (codes "PATCH")
            (field (codes "Boot")
              (obj (
                field (codes "BootSourceOverrideTarget")
                  (text (if device == codes "pxe" then codes "Pxe" else codes "Hdd"))
                  (field (codes "BootSourceOverrideEnabled") (text (codes "Once")) end)))
              end)
            w)
      else (w, raise power_error)

  abbrev pub redfish_driver : RedfishDriver → PowerDriver W
  redfish_driver d = record {
    power_on = power_on d;
    power_off = power_off d;
    power_status = power_status d;
    set_boot_device = set_boot_device d;
  }
