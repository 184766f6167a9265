-- ===== src/Cluster/Manager/Outcome.antt =====
-- What a run of `start_provisioning` that returns has reached.
use tftp_os.Prelude.{
  ℕ, suc, zero, ◌<◌, Bool, true, false, not, Option, none, some, List, [], ◌∷◌, ◌≡◌, refl, arith,
  text_eq, get_elem?, any, All, Bool-cases, Option-cases, inl, inr,
}
use tftp_os.Prelude.Text.{Text}
use tftp_os.Result.{Result, ok, raise, value_error, ◌>>=◌, ◌>>◌, guard}
use tftp_os.Dict.Laws.{among}
use tftp_os.Cluster.Definition.{
  ClusterState, ClusterHost, ClusterDefinition, is_complete, is_failed, ordered_groups,
}
use tftp_os.Cluster.Groups.{visits, turns, visits-ordered_groups}
use tftp_os.Cluster.Store
use tftp_os.Cluster.Store.{ClusterStore, get_of_save}
use tftp_os.Cluster.Manager.{
  ClusterManager, Callback, Run, provision_groups, final_state, start_provisioning, in_progress,
  need_cluster,
}
use tftp_os.Cluster.Manager.Provision.{is_done, Settled, host_at, provision_groups-Progress}

parts :
    (g : Result (Option ClusterDefinition)) (loop : ClusterDefinition → Result Run)
    (write : Run → Result ClusterStore) (done : Run → ClusterDefinition) (s : ClusterStore)
    (c' : ClusterDefinition)
    → (do
      found ← g
      c ← need_cluster found
      guard (not (in_progress c)) value_error
      r ← loop c
      t ← write r
      let result : ClusterStore × ClusterDefinition = (t, done r)
      ok result)
      ≡ ok (s, c')
    → (c : ClusterDefinition) × (r : Run) × (g ≡ ok (some c))
      × (in_progress c ≡ false)
      × (loop c ≡ ok r)
      × (write r ≡ ok s)
      × (c' ≡ done r)
unfolding need_cluster
parts (raise e) loop write done s c' h = cc
parts (ok none) loop write done s c' h = cc
parts (ok (some c)) loop write done s c' h = checked (in_progress c) refl (loop c) refl
  where
    written :
        (r : Run) (w : Result ClusterStore)
        → in_progress c ≡ false
        → loop c ≡ ok r
        → write r ≡ w
        → (c₁ : ClusterDefinition) × (r₁ : Run) × (ok (some c) ≡ ok (some c₁))
          × (in_progress c₁ ≡ false)
          × (loop c₁ ≡ ok r₁)
          × (write r₁ ≡ ok s)
          × (c' ≡ done r₁)
    written r (raise e) b l w = absurd (ground arith)
    written r (ok t) b l w = (c, r, refl, b, l, ground arith, ground arith)

    checked :
        (b : Bool)
        → in_progress c ≡ b
        → (l : Result Run) → loop c ≡ l
        → (c₁ : ClusterDefinition) × (r₁ : Run) × (ok (some c) ≡ ok (some c₁))
          × (in_progress c₁ ≡ false)
          × (loop c₁ ≡ ok r₁)
          × (write r₁ ≡ ok s)
          × (c' ≡ done r₁)
    checked true b l p = absurd (ground arith)
    checked false b (raise e) p = absurd (ground arith)
    checked false b (ok r) p = written r (write r) b p refl

-- What holds at each position holds of all hosts.
All-positions :
    {P : ClusterHost → Type 0} (hs : List ClusterHost)
    → ((i : ℕ) (h : ClusterHost) → get_elem? hs i ≡ some h → P h)
    → All P hs
All-positions [] f = tt
All-positions (h ∷ hs) f = (f zero h refl, All-positions hs (λ i x e. f (suc i) x e))

turns_pos : (role : Text) (rs : List Text) → among role rs ≡ true → 0 < turns role rs
unfolding turns among
turns_pos role [] h = absurd (ground arith)
turns_pos role (r ∷ rs) h = ground (arith, turns_pos role rs)

-- Each host that is there has a turn.
visits_pos :
    (c : ClusterDefinition) (i : ℕ) (h : ClusterHost)
    → get_elem? c.hosts i ≡ some h
    → 0 < visits i (ordered_groups c)
visits_pos c i h e =
    ground (arith, visits-ordered_groups c i h e, turns_pos h.role c.provisioning_order)

none_complete :
    (hs : List ClusterHost) (i : ℕ) (h : ClusterHost)
    → any is_complete hs ≡ false
    → get_elem? hs i ≡ some h
    → is_complete h ≡ false
unfolding any
none_complete [] i h n e = absurd (ground arith)
none_complete (x ∷ hs) zero h n e = let same : x ≡ h = (cc) in rw (← same) (ground arith)
none_complete (x ∷ hs) (suc i) h n e = none_complete hs i h (ground arith) e

-- The loop settles every host.
all-Settled :
    (clock : ℕ → ℕ) (cbs : List Callback) (r r' : Run)
    → provision_groups clock cbs (ordered_groups r.cluster) r ≡ ok r'
    → (i : ℕ) → Settled r'.all_succeeded (host_at r' i)
all-Settled clock cbs r r' h i =
    let (moved, settled) = provision_groups-Progress clock cbs (ordered_groups r.cluster) r r' h in
    elim (Option-cases (host_at r i)) [
      | inl gone ↦ rw (moved.exists i gone) tt
      | inr (x, there) ↦ settled i (visits_pos r.cluster i x there)
    ]

-- The final state says what it means.
abbrev pub Means : ClusterState → List ClusterHost → Type 0
Means ClusterState.complete hs = All (λ h. is_complete h ≡ true) hs
Means ClusterState.partial hs = any is_complete hs ≡ true
Means ClusterState.failed hs = All (λ h. is_failed h ≡ true) hs
Means _ hs = ⊥

final_state-Means :
    (a : Bool) (hs : List ClusterHost)
    → ((i : ℕ) → Settled a (get_elem? hs i))
    → Means (final_state a hs) hs
unfolding final_state
final_state-Means true hs f = All-positions hs (λ i h e. let s = rw e at (f i) in s.1 refl)
final_state-Means false hs f = elim (Bool-cases (any is_complete hs)) [
  | inl some' ↦ rw some' some'
  | inr none' ↦ rw none' (
      All-positions hs λ i h e.
        let settled : Settled false (some h) = rw e at (f i) in
        let not_complete = none_complete hs i h none' e in ground arith)
]

-- The cluster at the start of the loop, the variables of the loop, and the cluster at the end.
abbrev begun : (ℕ → ℕ) → ClusterDefinition → ClusterDefinition
begun clock c = record c { state = ClusterState.provisioning; updated_at = some (clock 0) }

abbrev start : ClusterManager → (ℕ → ℕ) → ClusterDefinition → Run
start m clock c = record {
  store = m.store;
  cluster = begun clock c;
  all_succeeded = true;
  readings = 1;
}

abbrev finished : (ℕ → ℕ) → Run → ClusterDefinition
finished clock r = record r.cluster {
  state = final_state r.all_succeeded r.cluster.hosts;
  updated_at = some (clock r.readings);
}

-- A run that returns started from a stored cluster that was not in work; it leaves every host
-- complete or failed; the cluster is COMPLETE only if all hosts are complete, FAILED only if all
-- failed, PARTIAL only if some host is complete, and in no other state; and the store returns it.
pub start_provisioning-ok :
    (m : ClusterManager) (clock : ℕ → ℕ) (name : Text) (s : ClusterStore) (c' : ClusterDefinition)
    → start_provisioning m clock name ≡ ok (s, c')
    → (c : ClusterDefinition) × (Store.get m.store name ≡ ok (some c))
      × (in_progress c ≡ false)
      × All (λ h. is_done h ≡ true) c'.hosts
      × Means c'.state c'.hosts
      × (Store.get s c'.name ≡ ok (some c'))
unfolding start_provisioning
start_provisioning-ok m clock name s c' h =
    let (c, r, found, idle, looped, saved, same) =
      parts (Store.get m.store name)
        (λ c. provision_groups clock m.callbacks (ordered_groups (begun clock c)) (start m clock c))
        (λ r. Store.save r.store (finished clock r)) (finished clock) s c' h in
    let settled = all-Settled clock m.callbacks (start m clock c) r looped in
    let means = final_state-Means r.all_succeeded r.cluster.hosts settled in
    (
      c,
      found,
      idle,
      rw same (
          All-positions r.cluster.hosts
            (λ i x e. let t : Settled r.all_succeeded (some x) = rw e at (settled i) in t.0)),
      rw same means,
      rw same (get_of_save r.store s (finished clock r) saved),
    )
