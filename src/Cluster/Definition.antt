-- ===== src/Cluster/Definition.antt =====
-- The data classes of tftpos/cluster.py and the grouping by role. A reference to a host of a cluster
-- is its position in the list of hosts.
use tftp_os.Prelude.{
  ℕ, suc, Bool, true, false, not, Option, List, [], ◌∷◌, if◌then◌else◌, ◌==◌, text_eq,
}
use tftp_os.Prelude.Text.{Text}
use tftp_os.Json.{Fields}
use tftp_os.Dict.Laws.{among}

pub data ClusterState : Type 0 where
  defined provisioning partial complete failed : ClusterState

pub data HostState : Type 0 where
  pending provisioning complete failed : HostState

pub record ClusterHost : Type 0 where
  pub hostname : Text
  pub mac : Text
  pub role : Text
  pub profile : Text
  pub extra : Fields
  pub state : HostState
  pub error_message : Text

pub record ClusterDefinition : Type 0 where
  pub name : Text
  pub hosts : List ClusterHost
  pub shared_config : Fields
  pub provisioning_order : List Text
  pub state : ClusterState
  pub created_at : Option ℕ
  pub updated_at : Option ℕ
  pub callbacks : List Text

-- h.state == HostState.COMPLETE, h.state == HostState.FAILED
abbrev pub is_complete : ClusterHost → Bool
is_complete h = elim h.state [ HostState.complete ↦ true | _ ↦ false ]

abbrev pub is_failed : ClusterHost → Bool
is_failed h = elim h.state [ HostState.failed ↦ true | _ ↦ false ]

-- The positions, counted from `i`, of the hosts that pass the test.
unfoldable pub positions : (ClusterHost → Bool) → ℕ → List ClusterHost → List ℕ
positions p i [] = []
positions p i (h ∷ hs) = let rest = positions p (suc i) hs in if p h then i ∷ rest else rest

unfoldable pub hosts_by_role : ClusterDefinition → Text → List ℕ
unfolding positions
hosts_by_role c role = positions (λ h. h.role == role) 0 c.hosts

-- if group: groups.append(group)
abbrev pub push_group : List ℕ → List (List ℕ) → List (List ℕ)
push_group [] groups = groups
push_group (i ∷ is) groups = (i ∷ is) ∷ groups

-- The loop over the roles, and the group of the other hosts behind it.
unfoldable pub role_groups : ClusterDefinition → List Text → List (List ℕ) → List (List ℕ)
unfolding hosts_by_role
role_groups c [] last = last
role_groups c (role ∷ roles) last = push_group (hosts_by_role c role) (role_groups c roles last)

unfoldable pub ordered_groups : ClusterDefinition → List (List ℕ)
unfolding role_groups among
ordered_groups c =
    role_groups c c.provisioning_order
      (push_group (positions (λ h. not (among h.role c.provisioning_order)) 0 c.hosts) [])
