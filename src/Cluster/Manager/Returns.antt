-- ===== src/Cluster/Manager/Returns.antt =====
-- That `start_provisioning` returns, whatever the callbacks raise.
use tftp_os.Prelude.{ℕ, true, false, some, List, [], ◌∷◌, ◌≡◌, refl, ◌∙◌, All, get_elem?, suc}
use mathlib.Core.Path.{subst}
use tftp_os.Prelude.Text.{Text}
use tftp_os.Result.{Result, ok}
use tftp_os.Names.{validate_name}
use tftp_os.Cluster.Definition.{ClusterState, ClusterDefinition, ordered_groups}
use tftp_os.Cluster.Store
use tftp_os.Cluster.Store.{ClusterStore, get-save_cluster}
use tftp_os.Cluster.Manager.{
  ClusterManager, Callback, Run, begin_host, end_host, provision_host, provision_group,
  provision_groups, start_provisioning, in_progress, need_cluster, final_state, run_callbacks_at,
}
use tftp_os.Cluster.Manager.Provision.{is_done}
use tftp_os.Cluster.Manager.Outcome.{Means, start_provisioning-ok}

module _ (clock : ℕ → ℕ) (cbs : List Callback) where
  -- The loop returns, with the cluster's name as it was.
  Returns : Run → Result Run → Type 0
  Returns r w = (r' : Run) × (w ≡ ok r') × (r'.cluster.name ≡ r.cluster.name)

  provision_host-Returns :
      (i : ℕ) (r : Run)
      → validate_name r.cluster.name ≡ ok tt
      → Returns r (provision_host clock cbs i r)
  unfolding Returns provision_host begin_host end_host
  provision_host-Returns i r valid =
      let begun = begin_host r.cluster i (clock r.readings) in
      let ended =
        end_host begun i (clock (suc r.readings))
          (run_callbacks_at cbs begun (get_elem? begun.hosts i)) in
      let (s, saved, got, others) = get-save_cluster r.store begun valid in
      let (s', saved', got', others') = get-save_cluster s ended valid in
      rw (saved, saved') (_, refl, refl)

  provision_group-Returns :
      (g : List ℕ) (r : Run)
      → validate_name r.cluster.name ≡ ok tt
      → Returns r (provision_group clock cbs g r)
  unfolding Returns provision_group
  provision_group-Returns [] r valid = (r, refl, refl)
  provision_group-Returns (i ∷ is) r valid =
      let (r₁, first, same) = provision_host-Returns i r valid in
      let (r₂, rest, same') = provision_group-Returns is r₁ (rw same valid) in
      (r₂, rw first rest, same' ∙ same)

  provision_groups-Returns :
      (gs : List (List ℕ)) (r : Run)
      → validate_name r.cluster.name ≡ ok tt
      → Returns r (provision_groups clock cbs gs r)
  unfolding Returns provision_groups
  provision_groups-Returns [] r valid = (r, refl, refl)
  provision_groups-Returns (g ∷ gs) r valid =
      let (r₁, first, same) = provision_group-Returns g r valid in
      let (r₂, rest, same') = provision_groups-Returns gs r₁ (rw same valid) in
      (r₂, rw first rest, same' ∙ same)

-- For a stored cluster that is not in work, whose own name is valid, the run returns, whichever
-- callbacks raise: the name is kept, every host is complete or failed, the state of the cluster is
-- COMPLETE only with all hosts complete, FAILED only with all failed, else PARTIAL with some host
-- complete, and the store returns the cluster that the run returns.
pub start_provisioning_returns :
    (m : ClusterManager) (clock : ℕ → ℕ) (name : Text) (c : ClusterDefinition)
    → Store.get m.store name ≡ ok (some c)
    → in_progress c ≡ false
    → validate_name c.name ≡ ok tt
    → (s : ClusterStore) × (c' : ClusterDefinition) × (start_provisioning m clock name ≡ ok (s, c'))
      × (c'.name ≡ c.name)
      × All (λ h. is_done h ≡ true) c'.hosts
      × Means c'.state c'.hosts
      × (Store.get s c.name ≡ ok (some c'))
unfolding start_provisioning Returns need_cluster
start_provisioning_returns m clock name c found idle valid =
    let begun : ClusterDefinition = record c {
      state = ClusterState.provisioning;
      updated_at = some (clock 0);
    } in
    let start : Run = record {
      store = m.store;
      cluster = begun;
      all_succeeded = true;
      readings = 1;
    } in
    let (r, looped, same) =
      provision_groups-Returns clock m.callbacks (ordered_groups begun) start valid in
    let done : ClusterDefinition = record r.cluster {
      state = final_state r.all_succeeded r.cluster.hosts;
      updated_at = some (clock r.readings);
    } in
    let (s, saved, got, others) = get-save_cluster r.store done (rw same valid) in
    let ran : start_provisioning m clock name ≡ ok (s, done) =
      rw (found, idle, looped, saved) refl in
    let (c₁, found', idle', all_done, means, read) =
      start_provisioning-ok m clock name s done ran in
    (s, done, ran, same, all_done, means, subst (λ n. Store.get s n ≡ ok (some done)) same read)
