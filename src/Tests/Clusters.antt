-- ===== src/Tests/Clusters.antt =====
-- tftpos/cluster.py: a cluster of two hosts, and its names.
use tftp_os.Prelude.{
  ◌≡◌, refl, true, none, some, [], ◌∷◌, codes, ◌==◌, text_eq, text_beq, lower, lower_char,
  starts_with, contains, has_char, All, if◌then◌else◌, map,
}
use tftp_os.Prelude.Text.{Text}
use tftp_os.Result.{ok}
use tftp_os.Json.{end, obj}
use tftp_os.Dict
use tftp_os.Dict.Laws.{among}
use tftp_os.Names.{is_alnum, is_name_char, star_to_end, safe_name_re, validate_name}
use tftp_os.Cluster.Definition.{
  ClusterState, HostState, ClusterHost, ClusterDefinition, ordered_groups, role_groups,
  hosts_by_role, positions,
}
use tftp_os.Cluster.Groups.{visits, turns, visits-ordered_groups}
use tftp_os.Cluster.Serial.{to_dict, from_dict-to_dict}
use tftp_os.Cluster.Store
use tftp_os.Cluster.Store.{ClusterStore, get-save_cluster}
use tftp_os.Cluster.Manager.{
  ClusterManager, Callback, create_cluster, start_provisioning, nonempty, or_now, no_duplicates,
}
use tftp_os.Cluster.Manager.Create.{AllDiffer, create_cluster-ok}
use tftp_os.Cluster.Manager.Provision.{is_done}
use tftp_os.Cluster.Manager.Outcome.{Means}
use tftp_os.Cluster.Manager.Returns.{start_provisioning_returns}

abbrev node : Text → Text → Text → ClusterHost
node hostname mac role = record {
  hostname = hostname;
  mac = mac;
  role = role;
  profile = codes "k8s";
  extra = end;
  state = HostState.pending;
  error_message = [];
}

abbrev worker : ClusterHost
worker = node (codes "w1") (codes "aa:02") (codes "worker")

abbrev cluster : ClusterDefinition
cluster = record {
  name = codes "lab";
  hosts = worker ∷ node (codes "m1") (codes "aa:01") (codes "master") ∷ [];
  shared_config = end;
  provisioning_order = codes "master" ∷ [];
  state = ClusterState.defined;
  created_at = some 1;
  updated_at = some 1;
  callbacks = [];
}

-- The master first, then the host whose role the order does not name.
groups_run : ordered_groups cluster ≡ (1 ∷ []) ∷ (0 ∷ []) ∷ []
unfolding ordered_groups role_groups hosts_by_role positions among text_beq
groups_run = refl

valid_name : validate_name (codes "lab") ≡ ok tt
unfolding validate_name contains has_char safe_name_re star_to_end is_alnum is_name_char starts_with
valid_name = refl

abbrev saved : ClusterStore
saved = (codes "lab", obj (to_dict cluster)) ∷ []

stored : Store.get saved (codes "lab") ≡ ok (some cluster)
unfolding Store.get Dict.get text_beq
stored = rw (valid_name, from_dict-to_dict cluster) refl

-- The callback refuses the worker.
abbrev refuse : Callback
refuse c h = if h.hostname == codes "w1" then some (codes "no disk") else none

abbrev manager : ClusterManager
manager = record { store = saved; callbacks = refuse ∷ [] }

start_provisioning_returns_example :
    (s : ClusterStore) × (c' : ClusterDefinition) × (start_provisioning manager
        (λ n. n)
        (codes "lab")
      ≡ ok (s, c'))
    × (c'.name ≡ cluster.name)
    × All (λ h. is_done h ≡ true) c'.hosts
    × Means c'.state c'.hosts
    × (Store.get s cluster.name ≡ ok (some c'))
start_provisioning_returns_example =
    start_provisioning_returns manager (λ n. n) (codes "lab") cluster stored refl valid_name

visits-ordered_groups_example : visits 0 (ordered_groups cluster) ≡ (
    if among worker.role cluster.provisioning_order
    then turns worker.role cluster.provisioning_order
    else 1)
visits-ordered_groups_example = visits-ordered_groups cluster 0 worker refl

abbrev created : ClusterDefinition
created = record cluster { updated_at = some 7 }

creates : create_cluster [] cluster 7 ≡ ok ((codes "lab", obj (to_dict created)) ∷ [], created)
unfolding create_cluster no_duplicates Store.get Store.save Dict.get Dict.put among text_beq lower
    lower_char
creates = rw valid_name refl

create_cluster-ok_example :
    (validate_name cluster.name ≡ ok tt)
    × (Store.get [] cluster.name ≡ ok none)
    × (nonempty cluster.hosts ≡ true)
    × AllDiffer (map (λ h. lower h.mac) cluster.hosts)
    × AllDiffer (map (λ h. h.hostname) cluster.hosts)
    × (created ≡ record cluster { created_at = or_now cluster.created_at 7; updated_at = some 7 })
    × (Store.get ((codes "lab", obj (to_dict created)) ∷ []) cluster.name ≡ ok (some created))
create_cluster-ok_example =
    create_cluster-ok [] ((codes "lab", obj (to_dict created)) ∷ []) cluster created 7 creates
