-- ===== src/Cluster/Manager/Status.antt =====
-- `get_cluster_status` of ClusterManager, and what it passes on to its store.
use tftp_os.Prelude.{ℕ, ◌+◌, Bool, Option, none, some, List, [], ◌∷◌, length, text_eq}
use tftp_os.Prelude.Text.{Text}
use tftp_os.Result.{Result, ok, ◌>>=◌}
use tftp_os.Dict
use tftp_os.Dict.{Dict}
use tftp_os.Cluster.Definition.{ClusterState, ClusterHost, ClusterDefinition}
use tftp_os.Cluster.Serial.{host_state_value}
use tftp_os.Cluster.Store
use tftp_os.Cluster.Store.{ClusterStore}

abbrev pub plus_one : Option ℕ → ℕ
plus_one none = 1
plus_one (some n) = n + 1

-- The loop that fills `by_state`.
unfoldable pub count_states : List ClusterHost → Dict Text ℕ → Dict Text ℕ
unfolding host_state_value
count_states [] d = d
count_states (h ∷ hs) d =
    count_states hs
      (Dict.put (host_state_value h.state) (plus_one (Dict.get (host_state_value h.state) d)) d)

pub record ClusterStatus : Type 0 where
  pub name : Text
  pub state : ClusterState
  pub total_hosts : ℕ
  pub hosts_by_state : Dict Text ℕ
  pub created_at : Option ℕ
  pub updated_at : Option ℕ

unfoldable pub status_of : ClusterDefinition → ClusterStatus
unfolding count_states
status_of c = record {
  name = c.name;
  state = c.state;
  total_hosts = length c.hosts;
  hosts_by_state = count_states c.hosts [];
  created_at = c.created_at;
  updated_at = c.updated_at;
}

unfoldable pub get_cluster_status : ClusterStore → Text → Result (Option ClusterStatus)
unfolding status_of
get_cluster_status s name = do
  found ← Store.get s name
  ok (elim found [ none ↦ none | some c ↦ some (status_of c) ])

unfoldable pub get_cluster : ClusterStore → Text → Result (Option ClusterDefinition)
get_cluster s name = Store.get s name

unfoldable pub list_clusters : ClusterStore → Result (List ClusterDefinition)
list_clusters s = Store.list_all s

unfoldable pub delete_cluster : ClusterStore → Text → Result (ClusterStore × Bool)
delete_cluster s name = Store.delete s name
