-- ===== src/Cluster/Manager.antt =====
-- ClusterManager. A callback sees the cluster and the host by value, and answers with the text of the
-- exception that it raises, if it does. The n-th reading of the clock within an operation is
-- `clock n`. An operation that raises before its first save leaves the store; none raises later.
pub mod Create
pub mod Provision
pub mod Outcome
pub mod Returns
pub mod Marks
pub mod Status
use tftp_os.Prelude.{
  ℕ, suc, zero, ◌+◌, Bool, true, false, not, ◌&&◌, Option, none, some, List, [], ◌∷◌, ◌++◌,
  if◌then◌else◌, ◌==◌, text_eq, lower, map, all, any, ◌||◌, get_elem?, codes, length, Eq,
}
use tftp_os.Prelude.Text.{Text}
use tftp_os.Result.{Result, ok, raise, value_error, ◌>>=◌, ◌>>◌, guard}
use tftp_os.Dict
use tftp_os.Dict.{Dict}
use tftp_os.Dict.Laws.{among}
use tftp_os.Names.{validate_name}
use tftp_os.Cluster.Definition.{
  ClusterState, HostState, ClusterHost, ClusterDefinition, is_complete, is_failed, ordered_groups,
}
use tftp_os.Cluster.Serial.{host_state_value}
use tftp_os.Cluster.Store
use tftp_os.Cluster.Store.{ClusterStore}

abbrev pub Callback : Type 0
Callback = ClusterDefinition → ClusterHost → Option Text

pub record ClusterManager : Type 0 where
  pub store : ClusterStore
  pub callbacks : List Callback

unfoldable pub on_provision : ClusterManager → Callback → ClusterManager
on_provision m cb = record m { callbacks = m.callbacks ++ cb ∷ [] }

-- len(xs) == len(set(xs))
unfoldable pub no_duplicates : List Text → Bool
unfolding among
no_duplicates [] = true
no_duplicates (x ∷ xs) = not (among x xs) && no_duplicates xs

abbrev pub nonempty : List ClusterHost → Bool
nonempty [] = false
nonempty (h ∷ hs) = true

-- if definition.created_at is None: definition.created_at = now
abbrev pub or_now : Option ℕ → ℕ → Option ℕ
or_now none now = some now
or_now (some t) now = some t

abbrev pub is_new : Option ClusterDefinition → Bool
is_new none = true
is_new (some c) = false

unfoldable pub create_cluster :
    ClusterStore → ClusterDefinition → ℕ → Result (ClusterStore × ClusterDefinition)
unfolding no_duplicates
create_cluster s c now = do
  validate_name c.name
  guard (nonempty c.hosts) value_error
  guard (no_duplicates (map (λ h. lower h.mac) c.hosts)) value_error
  guard (no_duplicates (map (λ h. h.hostname) c.hosts)) value_error
  existing ← Store.get s c.name
  guard (is_new existing) value_error
  let c' = record c { created_at = or_now c.created_at now; updated_at = some now }
  s' ← Store.save s c'
  ok (s', c')

-- The assignments to the host at a position.
unfoldable pub update_at : ℕ → (ClusterHost → ClusterHost) → List ClusterHost → List ClusterHost
update_at i f [] = []
update_at zero f (h ∷ hs) = f h ∷ hs
update_at (suc i) f (h ∷ hs) = h ∷ update_at i f hs

-- The callbacks in turn, until one raises.
unfoldable pub run_callbacks : List Callback → ClusterDefinition → ClusterHost → Option Text
run_callbacks [] c h = none
run_callbacks (cb ∷ cbs) c h =
    let rest = run_callbacks cbs c h in elim (cb c h) [ none ↦ rest | some e ↦ some e ]

run_callbacks_at : List Callback → ClusterDefinition → Option ClusterHost → Option Text
run_callbacks_at cbs c none = none
run_callbacks_at cbs c (some h) = run_callbacks cbs c h

-- The variables of the loop in `start_provisioning`.
pub record Run : Type 0 where
  pub store : ClusterStore
  pub cluster : ClusterDefinition
  pub all_succeeded : Bool
  pub readings : ℕ

-- host.state = HostState.COMPLETE, or what the `except` branch assigns.
abbrev pub outcome : Option Text → ClusterHost → ClusterHost
outcome none h = record h { state = HostState.complete }
outcome (some e) h = record h { state = HostState.failed; error_message = e }

abbrev pub succeeded : Option Text → Bool
succeeded none = true
succeeded (some e) = false

-- The cluster with one host in work, and after its callbacks.
unfoldable pub begin_host : ClusterDefinition → ℕ → ℕ → ClusterDefinition
unfolding update_at
begin_host c i now = record c {
  hosts = update_at i (λ h. record h { state = HostState.provisioning }) c.hosts;
  updated_at = some now;
}

unfoldable pub end_host : ClusterDefinition → ℕ → ℕ → Option Text → ClusterDefinition
unfolding update_at
end_host c i now e = record c { hosts = update_at i (outcome e) c.hosts; updated_at = some now }

module _ (clock : ℕ → ℕ) (callbacks : List Callback) where
  unfoldable pub provision_host : ℕ → Run → Result Run
  unfolding begin_host end_host run_callbacks run_callbacks_at
  provision_host i r = do
    let begun = begin_host r.cluster i (clock r.readings)
    s ← Store.save r.store begun
    let raised = run_callbacks_at callbacks begun (get_elem? begun.hosts i)
    let ended = end_host begun i (clock (suc r.readings)) raised
    s' ← Store.save s ended
    ok (record {
      store = s';
      cluster = ended;
      all_succeeded = r.all_succeeded && succeeded raised;
      readings = suc (suc r.readings);
    })

  unfoldable pub provision_group : List ℕ → Run → Result Run
  provision_group [] r = ok r
  provision_group (i ∷ is) r = do r' ← provision_host i r; provision_group is r'

  unfoldable pub provision_groups : List (List ℕ) → Run → Result Run
  provision_groups [] r = ok r
  provision_groups (g ∷ gs) r = do r' ← provision_group g r; provision_groups gs r'

-- The state of the cluster after the loop.
unfoldable pub final_state : Bool → List ClusterHost → ClusterState
unfolding any
final_state all_succeeded hosts =
    if all_succeeded
    then ClusterState.complete
    else if any is_complete hosts
    then ClusterState.partial
    else ClusterState.failed

unfoldable pub need_cluster : Option ClusterDefinition → Result ClusterDefinition
need_cluster none = raise value_error
need_cluster (some c) = ok c

abbrev pub in_progress : ClusterDefinition → Bool
in_progress c = elim c.state [ ClusterState.provisioning ↦ true | _ ↦ false ]

unfoldable pub start_provisioning :
    ClusterManager → (ℕ → ℕ) → Text → Result (ClusterStore × ClusterDefinition)
unfolding need_cluster provision_groups provision_group final_state
start_provisioning m clock name = do
  found ← Store.get m.store name
  c ← need_cluster found
  guard (not (in_progress c)) value_error
  let c' = record c { state = ClusterState.provisioning; updated_at = some (clock 0) }
  let start : Run = record { store = m.store; cluster = c'; all_succeeded = true; readings = 1 }
  r ← provision_groups clock m.callbacks (ordered_groups c') start
  let done = record r.cluster {
    state = final_state r.all_succeeded r.cluster.hosts;
    updated_at = some (clock r.readings);
  }
  s ← Store.save r.store done
  ok (s, done)
