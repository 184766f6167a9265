-- ===== src/Tracker.antt =====
-- tftpos/state.py: ProvisionTracker, the records of the hosts that are provisioned, with callbacks
-- and an optional backend. Each method takes the time that it reads from the clock and returns the
-- tracker beside its result. A callback gets the record by value: it may raise, and does not change
-- the record. What was invoked is kept in `fired`. A backend's own failures are not modelled.
pub mod Invariant
pub mod Transition
pub mod Recovery
use tftp_os.Prelude.{
  ℕ, Bool, true, false, Option, none, some, List, [], ◌∷◌, ◌++◌, if◌then◌else◌, truthy, lower,
  text_eq,
}
use tftp_os.Prelude.Text.{Text}
use tftp_os.Result.{Error, Result, ok, raise, value_error}
use tftp_os.Dict
use tftp_os.Dict.{Dict}
use tftp_os.ProvisionRecord.{ProvisionState, registered, ProvisionRecord, is_complete}
use tftp_os.Db.Interface.{StorageBackend}

-- A registered function: a label, and the exception with which it answers a record, if it raises.
pub record Callback : Type 0 where
  pub label : ℕ
  pub run : ProvisionRecord → Option Error

-- The callbacks run in turn until one raises: what was invoked, and how it ended.
unfoldable pub run_callbacks :
    List Callback → ProvisionRecord → List (ℕ × ProvisionRecord) × Result (Unit {0})
run_callbacks [] r = ([], ok tt)
run_callbacks (cb ∷ cbs) r =
    let rest = run_callbacks cbs r in
    elim (cb.run r) [
      | none ↦ ((cb.label, r) ∷ rest.0, rest.1)
      | some e ↦ ((cb.label, r) ∷ [], raise e)
    ]

-- The body of `on_state_change` on the table of callbacks.
abbrev same_state : ProvisionState → ProvisionState → Bool
same_state ProvisionState.registered ProvisionState.registered = true
same_state ProvisionState.booting ProvisionState.booting = true
same_state ProvisionState.installing ProvisionState.installing = true
same_state ProvisionState.post_install ProvisionState.post_install = true
same_state ProvisionState.complete ProvisionState.complete = true
same_state ProvisionState.failed ProvisionState.failed = true
same_state _ _ = false

abbrev answer : ProvisionRecord → Result (Unit {0}) → Result ProvisionRecord
answer r (ok _) = ok r
answer r (raise e) = raise e

-- if error_message: record.error_message = error_message
abbrev pub new_message : Option Text → Option Text → Option Text
new_message none old = old
new_message (some m) old = if truthy m then some m else old

-- What `transition` does to the record.
unfoldable pub advance : ProvisionRecord → ProvisionState → Option Text → ℕ → ProvisionRecord
advance r new_state error_message now = record r {
  state = new_state;
  updated_at = some now;
  history = r.history ++ (new_state, now) ∷ [];
  completed_at = if is_complete new_state then some now else r.completed_at;
  error_message = new_message error_message r.error_message;
}

-- The record of a host that was just registered.
unfoldable pub new_record : Text → Text → Text → Text → ℕ → ProvisionRecord
new_record mac profile os_family os_version now = record {
  mac = mac;
  profile = profile;
  os_family = os_family;
  os_version = os_version;
  state = registered;
  started_at = some now;
  updated_at = some now;
  completed_at = none;
  error_message = none;
  history = (registered, now) ∷ [];
  netboot_enabled = true;
}

module _ (b : StorageBackend) where
  pub record ProvisionTracker : Type 0 where
    pub backend : Option b.Store
    pub records : Dict Text ProvisionRecord
    pub callbacks : ProvisionState → List Callback
    pub fired : List (ℕ × ProvisionRecord)

  save_to : Option b.Store → ProvisionRecord → Option b.Store
  save_to none r = none
  save_to (some s) r = some (b.save s r)

  clear_of : Option b.Store → Option b.Store
  clear_of none = none
  clear_of (some s) = some (b.clear s)

  -- The loop over `self._backend.list_all()`.
  unfoldable pub preload :
      List ProvisionRecord → Dict Text ProvisionRecord → Dict Text ProvisionRecord
  preload [] d = d
  preload (r ∷ rs) d = preload rs (Dict.put (lower r.mac) r d)

  loaded : Option b.Store → Dict Text ProvisionRecord
  loaded none = []
  loaded (some s) = preload (b.list_all s) []

  unfoldable pub init : Option b.Store → ProvisionTracker
  unfolding loaded preload
  init backend = record {
    backend = backend;
    records = loaded backend;
    callbacks = λ _. [];
    fired = [];
  }

  unfoldable pub fire :
      ProvisionTracker
      → ProvisionState
      → ProvisionRecord
      → ProvisionTracker × Result ProvisionRecord
  unfolding run_callbacks
  fire t state r =
      let (log, result) = run_callbacks (t.callbacks state) r in
      (record t { fired = t.fired ++ log }, answer r result)

  -- self._records[mac.lower()] = record, and the save to the backend.
  unfoldable pub store : ProvisionTracker → Text → ProvisionRecord → ProvisionTracker
  unfolding save_to
  store t mac r = record t {
    records = Dict.put (lower mac) r t.records;
    backend = save_to t.backend r;
  }

  unfoldable pub register :
      ProvisionTracker → Text → Text → Text → Text → ℕ → ProvisionTracker × Result ProvisionRecord
  unfolding store new_record fire
  register t mac profile os_family os_version now =
      let r = new_record mac profile os_family os_version now in fire (store t mac r) registered r

  unfoldable pub get : ProvisionTracker → Text → Option ProvisionRecord
  get t mac = Dict.get (lower mac) t.records

  transition_found :
      ProvisionTracker
      → Text
      → ProvisionState
      → Option Text
      → ℕ
      → Option ProvisionRecord
      → ProvisionTracker × Result ProvisionRecord
  unfolding store fire advance
  transition_found t mac new_state error_message now none = (t, raise value_error)
  transition_found t mac new_state error_message now (some r) =
      let r' = advance r new_state error_message now in fire (store t mac r') new_state r'

  unfoldable pub transition :
      ProvisionTracker
      → Text
      → ProvisionState
      → Option Text
      → ℕ
      → ProvisionTracker × Result ProvisionRecord
  unfolding transition_found get
  transition t mac new_state error_message now =
      transition_found t mac new_state error_message now (get t mac)

  unfoldable pub list_all : ProvisionTracker → List ProvisionRecord
  list_all t = Dict.values t.records

  unfoldable pub on_state_change : ProvisionTracker → ProvisionState → Callback → ProvisionTracker
  on_state_change t state cb = record t {
    callbacks = λ s. if same_state state s then t.callbacks s ++ cb ∷ [] else t.callbacks s;
  }

  netboot_of : Option ProvisionRecord → Bool
  netboot_of none = true
  netboot_of (some r) = r.netboot_enabled

  unfoldable pub is_netboot_enabled : ProvisionTracker → Text → Bool
  unfolding netboot_of get
  is_netboot_enabled t mac = netboot_of (get t mac)

  set_netboot :
      ProvisionTracker
      → Text
      → Bool
      → Option ProvisionRecord
      → ProvisionTracker × Result ProvisionRecord
  unfolding store
  set_netboot t mac enabled none = (t, raise value_error)
  set_netboot t mac enabled (some r) =
      let r' = record r { netboot_enabled = enabled } in (store t mac r', ok r')

  unfoldable pub disable_netboot :
      ProvisionTracker → Text → ProvisionTracker × Result ProvisionRecord
  unfolding set_netboot get
  disable_netboot t mac = set_netboot t mac false (get t mac)

  unfoldable pub enable_netboot :
      ProvisionTracker → Text → ProvisionTracker × Result ProvisionRecord
  unfolding set_netboot get
  enable_netboot t mac = set_netboot t mac true (get t mac)

  unfoldable pub clear : ProvisionTracker → ProvisionTracker
  unfolding clear_of
  clear t = record t { records = []; backend = clear_of t.backend }
