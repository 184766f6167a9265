-- ===== src/Tests/Trackers.antt =====
-- tftpos/state.py and tftpos/db.py: a tracker over the in-memory backend, with one host.
use tftp_os.Prelude.{
  ℕ, ◌≡◌, refl, true, Option, none, some, [], ◌∷◌, arith, codes, lower, ◌==◌, text_eq, text_beq,
  if◌then◌else◌, lower_char, List,
}
use tftp_os.Prelude.Text.{Text}
use tftp_os.Result.{ok, value_error}
use tftp_os.Json.{obj}
use tftp_os.Dict
use tftp_os.ProvisionRecord.{ProvisionState, ProvisionRecord}
use tftp_os.Db.Memory
use tftp_os.Db.Memory.{memory_backend}
use tftp_os.Db.Serial.{record_to_dict}
use tftp_os.Db.JsonFile
use tftp_os.Db.JsonFile.{FileContent, object, Represents, encode, json_refines_memory}
use tftp_os.Tracker.{
  ProvisionTracker, Callback, advance, new_record, init, get, register, transition, disable_netboot,
  enable_netboot, clear, store, fire, run_callbacks, preload,
}
use tftp_os.Tracker.Invariant.{IsValid, image, methods-IsValid}
use tftp_os.Tracker.Recovery.{get-init}
use tftp_os.Tracker.Transition.{first_error, ending, transition_known}

abbrev mac : Text
mac = codes "AA:01"

abbrev fresh : ProvisionTracker memory_backend
fresh = record { backend = some []; records = []; callbacks = λ _. []; fired = [] }

fresh-init : fresh ≡ init memory_backend (some [])
unfolding init preload Memory.list_all
fresh-init = refl

fresh-IsValid : IsValid memory_backend fresh
unfolding Dict.get Memory.get
fresh-IsValid = record {
  keyed = λ k r p. absurd (ground arith);
  recorded = λ k r p. absurd (ground arith);
  agrees = ((tt, tt), λ m. refl);
}

abbrev host : ProvisionRecord
host = record {
  mac = mac;
  profile = codes "web";
  os_family = codes "debian";
  os_version = codes "12";
  state = ProvisionState.registered;
  started_at = some 3;
  updated_at = some 3;
  completed_at = none;
  error_message = none;
  history = (ProvisionState.registered, 3) ∷ [];
  netboot_enabled = true;
}

-- One callback accepts a complete host, and the next one raises.
abbrev complete_callbacks : ProvisionState → List Callback
complete_callbacks ProvisionState.complete =
    record { label = 1; run = λ r. none } ∷ record { label = 2; run = λ r. some value_error } ∷ []
complete_callbacks _ = []

abbrev started : ProvisionTracker memory_backend
started = record {
  backend = some ((lower mac, host) ∷ []);
  records = (lower mac, host) ∷ [];
  callbacks = λ _. [];
  fired = [];
}

started-register :
    register memory_backend fresh mac (codes "web") (codes "debian") (codes "12") 3
    ≡ (started, ok host)
unfolding register store fire new_record run_callbacks Dict.put Memory.save lower lower_char
started-register = refl

started-IsValid : IsValid memory_backend started
started-IsValid =
    let valid =
      (methods-IsValid memory_backend fresh mac fresh-IsValid).0 (codes "web") (codes "debian")
        (codes "12") 3 in
    rw started-register at valid

abbrev watched : ProvisionTracker memory_backend
watched = record started { callbacks = complete_callbacks }

held : get memory_backend watched (codes "aa:01") ≡ some host
unfolding get Dict.get text_beq lower lower_char
held = refl

methods-IsValid_example :
    ((profile os_family os_version : Text) (now : ℕ)
      → IsValid memory_backend
          (register memory_backend started mac profile os_family os_version now).0)
    × ((s : ProvisionState) (m : Option Text) (now : ℕ)
        → IsValid memory_backend (transition memory_backend started mac s m now).0)
    × IsValid memory_backend (disable_netboot memory_backend started mac).0
    × IsValid memory_backend (enable_netboot memory_backend started mac).0
    × IsValid memory_backend (clear memory_backend started)
methods-IsValid_example = methods-IsValid memory_backend started mac started-IsValid

get-init_example :
    get memory_backend (init memory_backend started.backend) (codes "aa:01")
    ≡ image memory_backend (get memory_backend started (codes "aa:01"))
get-init_example =
    get-init memory_backend started ((lower mac, host) ∷ []) (codes "aa:01") refl started-IsValid

transition_known_example :
    ((mac' : Text)
      → get memory_backend
          (transition memory_backend watched (codes "aa:01") ProvisionState.complete none 8).0
          mac'
        ≡ (if lower (codes "aa:01") == lower mac'
            then some (advance host ProvisionState.complete none 8)
            else get memory_backend watched mac'))
    × ((transition memory_backend watched (codes "aa:01") ProvisionState.complete none 8).1
        ≡ ending (advance host ProvisionState.complete none 8) (
            first_error
              (watched.callbacks ProvisionState.complete)
              (advance host ProvisionState.complete none 8)))
transition_known_example =
    transition_known memory_backend watched (codes "aa:01") ProvisionState.complete none 8 host held

abbrev file : FileContent
file = object ((lower mac, obj (record_to_dict host)) ∷ [])

represented : Represents file ((lower mac, host) ∷ [])
unfolding JsonFile.load encode
represented = refl

json_refines_memory_example :
    ((r : ProvisionRecord)
      → Represents (JsonFile.save file r) (Memory.save ((lower mac, host) ∷ []) r))
    × ((m : Text) → JsonFile.get file m ≡ ok (Memory.get ((lower mac, host) ∷ []) m))
    × (JsonFile.list_all file ≡ ok (Memory.list_all ((lower mac, host) ∷ [])))
    × ((m : Text)
        → Represents (JsonFile.delete file m).0 (Memory.delete ((lower mac, host) ∷ []) m).0
          × ((JsonFile.delete file m).1 ≡ (Memory.delete ((lower mac, host) ∷ []) m).1))
    × Represents (JsonFile.clear file) (Memory.clear ((lower mac, host) ∷ []))
json_refines_memory_example = json_refines_memory file ((lower mac, host) ∷ []) represented
