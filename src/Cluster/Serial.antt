-- ===== src/Cluster/Serial.antt =====
-- `to_dict` and `from_dict` of the classes of tftpos/cluster.py.
use tftp_os.Prelude.{List, [], ◌∷◌, ◌≡◌, refl, ◌==◌, text_eq, text_beq, codes, if◌then◌else◌}
use tftp_os.Prelude.Text.{Text}
use tftp_os.Result.{Result, ok, raise, value_error, ◌>>=◌}
use tftp_os.Json.{
  Json, null, text, arr, obj, Items, nil, cons, Fields, end, field, item, item_or, as_text,
  as_fields, as_items, as_option_num, option_num, as_option_num-option_num,
}
use tftp_os.Cluster.Definition.{ClusterState, HostState, ClusterHost, ClusterDefinition}

unfoldable pub cluster_state_value : ClusterState → Text
cluster_state_value ClusterState.defined = codes "defined"
cluster_state_value ClusterState.provisioning = codes "provisioning"
cluster_state_value ClusterState.partial = codes "partial"
cluster_state_value ClusterState.complete = codes "complete"
cluster_state_value ClusterState.failed = codes "failed"

-- ClusterState(value)
unfoldable pub cluster_state_of : Text → Result ClusterState
cluster_state_of v =
    if v == codes "defined"
    then ok ClusterState.defined
    else if v == codes "provisioning"
    then ok ClusterState.provisioning
    else if v == codes "partial"
    then ok ClusterState.partial
    else if v == codes "complete"
    then ok ClusterState.complete
    else if v == codes "failed"
    then ok ClusterState.failed
    else raise value_error

unfoldable pub host_state_value : HostState → Text
host_state_value HostState.pending = codes "pending"
host_state_value HostState.provisioning = codes "provisioning"
host_state_value HostState.complete = codes "complete"
host_state_value HostState.failed = codes "failed"

-- HostState(value)
unfoldable pub host_state_of : Text → Result HostState
host_state_of v =
    if v == codes "pending"
    then ok HostState.pending
    else if v == codes "provisioning"
    then ok HostState.provisioning
    else if v == codes "complete"
    then ok HostState.complete
    else if v == codes "failed"
    then ok HostState.failed
    else raise value_error

unfoldable pub host_to_dict : ClusterHost → Fields
unfolding host_state_value
host_to_dict h = field (codes "hostname") (text h.hostname) (
    field (codes "mac") (text h.mac) (
      field (codes "role") (text h.role) (
        field (codes "profile") (text h.profile) (
          field (codes "extra") (obj h.extra) (
            field (codes "state") (text (host_state_value h.state))
              (field (codes "error_message") (text h.error_message) end))))))

unfoldable pub host_from_dict : Json → Result ClusterHost
unfolding host_state_of item item_or as_text as_fields
host_from_dict v = do
  h ← as_fields v
  hostname ← item (codes "hostname") h
  hostname ← as_text hostname
  mac ← item (codes "mac") h
  mac ← as_text mac
  role ← as_text (item_or (codes "role") (text (codes "worker")) h)
  profile ← as_text (item_or (codes "profile") (text []) h)
  extra ← as_fields (item_or (codes "extra") (obj end) h)
  state ← as_text (item_or (codes "state") (text (codes "pending")) h)
  state ← host_state_of state
  error_message ← as_text (item_or (codes "error_message") (text []) h)
  ok (record {
    hostname = hostname;
    mac = mac;
    role = role;
    profile = profile;
    extra = extra;
    state = state;
    error_message = error_message;
  })

unfoldable pub hosts_to_items : List ClusterHost → Items
unfolding host_to_dict
hosts_to_items [] = nil
hosts_to_items (h ∷ hs) = cons (obj (host_to_dict h)) (hosts_to_items hs)

unfoldable pub hosts_from_items : Items → Result (List ClusterHost)
unfolding host_from_dict
hosts_from_items nil = ok []
hosts_from_items (cons v vs) =
    let rest = hosts_from_items vs in do h ← host_from_dict v; hs ← rest; ok (h ∷ hs)

unfoldable pub texts_to_items : List Text → Items
texts_to_items [] = nil
texts_to_items (t ∷ ts) = cons (text t) (texts_to_items ts)

unfoldable pub texts_from_items : Items → Result (List Text)
unfolding as_text
texts_from_items nil = ok []
texts_from_items (cons v vs) =
    let rest = texts_from_items vs in do t ← as_text v; ts ← rest; ok (t ∷ ts)

unfoldable pub to_dict : ClusterDefinition → Fields
unfolding hosts_to_items texts_to_items cluster_state_value option_num
to_dict c = field (codes "name") (text c.name) (
    field (codes "hosts") (arr (hosts_to_items c.hosts)) (
      field (codes "shared_config") (obj c.shared_config) (
        field (codes "provisioning_order") (arr (texts_to_items c.provisioning_order)) (
          field (codes "state") (text (cluster_state_value c.state)) (
            field (codes "created_at") (option_num c.created_at) (
              field (codes "updated_at") (option_num c.updated_at)
                (field (codes "callbacks") (arr (texts_to_items c.callbacks)) end)))))))

unfoldable pub from_dict : Json → Result ClusterDefinition
unfolding hosts_from_items texts_from_items cluster_state_of item item_or as_text as_fields as_items
    as_option_num
from_dict v = do
  d ← as_fields v
  hosts ← as_items (item_or (codes "hosts") (arr nil) d)
  hosts ← hosts_from_items hosts
  name ← item (codes "name") d
  name ← as_text name
  shared_config ← as_fields (item_or (codes "shared_config") (obj end) d)
  provisioning_order ← as_items (item_or (codes "provisioning_order") (arr nil) d)
  provisioning_order ← texts_from_items provisioning_order
  state ← as_text (item_or (codes "state") (text (codes "defined")) d)
  state ← cluster_state_of state
  created_at ← as_option_num (item_or (codes "created_at") null d)
  updated_at ← as_option_num (item_or (codes "updated_at") null d)
  callbacks ← as_items (item_or (codes "callbacks") (arr nil) d)
  callbacks ← texts_from_items callbacks
  ok (record {
    name = name;
    hosts = hosts;
    shared_config = shared_config;
    provisioning_order = provisioning_order;
    state = state;
    created_at = created_at;
    updated_at = updated_at;
    callbacks = callbacks;
  })

cluster_state_of-value : (s : ClusterState) → cluster_state_of (cluster_state_value s) ≡ ok s
unfolding cluster_state_of cluster_state_value text_beq
cluster_state_of-value ClusterState.defined = refl
cluster_state_of-value ClusterState.provisioning = refl
cluster_state_of-value ClusterState.partial = refl
cluster_state_of-value ClusterState.complete = refl
cluster_state_of-value ClusterState.failed = refl

host_state_of-value : (s : HostState) → host_state_of (host_state_value s) ≡ ok s
unfolding host_state_of host_state_value text_beq
host_state_of-value HostState.pending = refl
host_state_of-value HostState.provisioning = refl
host_state_of-value HostState.complete = refl
host_state_of-value HostState.failed = refl

host_from_dict-host_to_dict : (h : ClusterHost) → host_from_dict (obj (host_to_dict h)) ≡ ok h
unfolding host_from_dict host_to_dict text_beq
host_from_dict-host_to_dict h = rw (host_state_of-value h.state) refl

hosts_from_items-hosts_to_items :
    (hs : List ClusterHost) → hosts_from_items (hosts_to_items hs) ≡ ok hs
unfolding hosts_from_items hosts_to_items
hosts_from_items-hosts_to_items [] = refl
hosts_from_items-hosts_to_items (h ∷ hs) =
    rw (host_from_dict-host_to_dict h, hosts_from_items-hosts_to_items hs) refl

pub texts_from_items-texts_to_items :
    (ts : List Text) → texts_from_items (texts_to_items ts) ≡ ok ts
unfolding texts_from_items texts_to_items
texts_from_items-texts_to_items [] = refl
texts_from_items-texts_to_items (t ∷ ts) = rw (texts_from_items-texts_to_items ts) refl

-- A cluster that is written as a dict is read back as it was, each host in its state and place.
pub from_dict-to_dict : (c : ClusterDefinition) → from_dict (obj (to_dict c)) ≡ ok c
unfolding from_dict to_dict text_beq
from_dict-to_dict c =
    rw
      (
        hosts_from_items-hosts_to_items c.hosts,
        texts_from_items-texts_to_items c.provisioning_order,
        texts_from_items-texts_to_items c.callbacks,
        cluster_state_of-value c.state,
        as_option_num-option_num c.created_at,
        as_option_num-option_num c.updated_at,
      )
      refl
