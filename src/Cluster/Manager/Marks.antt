-- ===== src/Cluster/Manager/Marks.antt =====
-- `mark_host_complete` and `mark_host_failed` of ClusterManager.
use tftp_os.Prelude.{
  ℕ, suc, ◌≡◌, ◌≢◌, ◌⊎◌, inl, inr, refl, arith, Option, none, some, List, [], ◌∷◌, if◌then◌else◌,
  ◌==◌, ==_iff, text_eq, lower, all, any, All, get_elem?, nat_beq, Bool-cases,
}
use tftp_os.Prelude.Text.{Text}
use tftp_os.Result.{Result, ok, raise, value_error, ◌>>=◌}
use tftp_os.Names.{validate_name}
use tftp_os.Cluster.Definition.{
  ClusterState, HostState, ClusterHost, ClusterDefinition, is_complete, is_failed,
}
use tftp_os.Cluster.Store
use tftp_os.Cluster.Store.{ClusterStore, get-save_cluster}
use tftp_os.Cluster.Manager.{need_cluster, update_at}
use tftp_os.Cluster.Manager.Provision.{get_elem?-update_at}

-- The position of the first host with the MAC address, in any case of its letters.
unfoldable pub find_host : Text → List ClusterHost → Option ℕ
find_host mac [] = none
find_host mac (h ∷ hs) =
    let rest = find_host mac hs in
    if lower h.mac == lower mac then some 0 else elim rest [ none ↦ none | some i ↦ some (suc i) ]

need_host : Option ℕ → Result ℕ
need_host none = raise value_error
need_host (some i) = ok i

-- The rules of `mark_host_complete` and `mark_host_failed` for the state of the cluster.
unfoldable pub state_after_complete : ClusterState → List ClusterHost → ClusterState
unfolding all any
state_after_complete old hosts =
    if all is_complete hosts
    then ClusterState.complete
    else if any is_failed hosts
    then ClusterState.partial
    else old

unfoldable pub state_after_failed : ClusterState → List ClusterHost → ClusterState
unfolding all any
state_after_failed old hosts =
    if any is_complete hosts
    then ClusterState.partial
    else if all is_failed hosts
    then ClusterState.failed
    else old

unfoldable pub mark_host_complete :
    ClusterStore → Text → Text → ℕ → Result (ClusterStore × ClusterDefinition)
unfolding need_cluster need_host find_host update_at state_after_complete
mark_host_complete s cluster_name mac now = do
  found ← Store.get s cluster_name
  c ← need_cluster found
  i ← need_host (find_host mac c.hosts)
  let hosts = update_at i (λ h. record h { state = HostState.complete }) c.hosts
  let c' = record c {
    hosts = hosts;
    updated_at = some now;
    state = state_after_complete c.state hosts;
  }
  s' ← Store.save s c'
  ok (s', c')

unfoldable pub mark_host_failed :
    ClusterStore → Text → Text → Text → ℕ → Result (ClusterStore × ClusterDefinition)
unfolding need_cluster need_host find_host update_at state_after_failed
mark_host_failed s cluster_name mac error now = do
  found ← Store.get s cluster_name
  c ← need_cluster found
  i ← need_host (find_host mac c.hosts)
  let hosts =
      update_at i (λ h. record h { state = HostState.failed; error_message = error }) c.hosts
  let c' = record c {
    hosts = hosts;
    updated_at = some now;
    state = state_after_failed c.state hosts;
  }
  s' ← Store.save s c'
  ok (s', c')

-- The host that is found is one with the MAC address; none is found only where there is none.
find_host_lem :
    (mac : Text) (hosts : List ClusterHost)
    → ((find_host mac hosts ≡ none) × All (λ h. lower h.mac ≢ lower mac) hosts)
      ⊎ ((i : ℕ) × (h : ClusterHost) × (find_host mac hosts ≡ some i)
          × (get_elem? hosts i ≡ some h)
          × (lower h.mac ≡ lower mac))
unfolding find_host
find_host_lem mac [] = inl (refl, tt)
find_host_lem mac (h ∷ hosts) = elim (Bool-cases (lower h.mac == lower mac)) [
  | inl here ↦ inr (0, h, rw here refl, refl, (==_iff (lower h.mac) (lower mac)).0 here)
  | inr other ↦ elim (find_host_lem mac hosts) [
    | inl (gone, differ) ↦
        inl
          (rw (other, gone) refl, ((λ e. ground (arith, ==_iff (lower h.mac) (lower mac))), differ))
    | inr (i, x, found, at, same) ↦ inr (suc i, x, rw (other, found) refl, at, same)
  ]
]

-- What marking one host of the cluster `c` returns: it raises where no host has the MAC address;
-- otherwise one host with it is changed, the others and their places stay, the state of the cluster
-- follows from the hosts, and the store returns the cluster.
abbrev pub Marked :
    ClusterDefinition
    → Text
    → (ClusterHost → ClusterHost)
    → (List ClusterHost → ClusterState)
    → Result (ClusterStore × ClusterDefinition)
    → Type 0
Marked c mac f state result =
    (All (λ h. lower h.mac ≢ lower mac) c.hosts × (result ≡ raise value_error))
    ⊎ ((s' : ClusterStore) × (c' : ClusterDefinition) × (i : ℕ) × (h : ClusterHost) × (result
          ≡ ok (s', c'))
        × (get_elem? c.hosts i ≡ some h)
        × (lower h.mac ≡ lower mac)
        × ((j : ℕ)
            → get_elem? c'.hosts j ≡ (if nat_beq i j then some (f h) else get_elem? c.hosts j))
        × (c'.state ≡ state c'.hosts)
        × (Store.get s' c.name ≡ ok (some c')))

-- Marking a host of a stored cluster whose own name is valid as complete: without a host of the MAC
-- address it raises; otherwise it changes one host with that address, leaves the others, derives the
-- state of the cluster from the hosts, and the store returns the cluster.
pub mark_host_complete-Marked :
    (s : ClusterStore) (c : ClusterDefinition) (name mac : Text) (now : ℕ)
    → Store.get s name ≡ ok (some c)
    → validate_name c.name ≡ ok tt
    → Marked c mac
        (λ h. record h { state = HostState.complete })
        (state_after_complete c.state)
        (mark_host_complete s name mac now)
unfolding mark_host_complete need_host
mark_host_complete-Marked s c name mac now found valid = elim (find_host_lem mac c.hosts) [
  | inl (gone, differ) ↦ inl (differ, rw (found, need_cluster, gone) refl)
  | inr (i, h, there, at, same) ↦
      let hosts = update_at i (λ h. record h { state = HostState.complete }) c.hosts in
      let c' : ClusterDefinition = record c {
        hosts = hosts;
        updated_at = some now;
        state = state_after_complete c.state hosts;
      } in
      let (s', saved, got, others) = get-save_cluster s c' valid in
      inr (
        s',
        c',
        i,
        h,
        rw (found, need_cluster, there, saved) refl,
        at,
        same,
        (λ j. ground (
          arith,
          get_elem?-update_at i j (λ h. record h { state = HostState.complete }) c.hosts,
        )),
        refl,
        got,
      )
]

-- Marking a host of a stored cluster whose own name is valid as failed: without a host of the MAC
-- address it raises; otherwise it changes one host with that address, leaves the others, derives the
-- state of the cluster from the hosts, and the store returns the cluster.
pub mark_host_failed-Marked :
    (s : ClusterStore) (c : ClusterDefinition) (name mac error : Text) (now : ℕ)
    → Store.get s name ≡ ok (some c)
    → validate_name c.name ≡ ok tt
    → Marked c mac
        (λ h. record h { state = HostState.failed; error_message = error })
        (state_after_failed c.state)
        (mark_host_failed s name mac error now)
unfolding mark_host_failed need_host
mark_host_failed-Marked s c name mac error now found valid = elim (find_host_lem mac c.hosts) [
  | inl (gone, differ) ↦ inl (differ, rw (found, need_cluster, gone) refl)
  | inr (i, h, there, at, same) ↦
      let hosts =
        update_at i (λ h. record h { state = HostState.failed; error_message = error }) c.hosts in
      let c' : ClusterDefinition = record c {
        hosts = hosts;
        updated_at = some now;
        state = state_after_failed c.state hosts;
      } in
      let (s', saved, got, others) = get-save_cluster s c' valid in
      inr (
        s',
        c',
        i,
        h,
        rw (found, need_cluster, there, saved) refl,
        at,
        same,
        (λ j. ground (
          arith,
          get_elem?-update_at i j
              (λ h. record h { state = HostState.failed; error_message = error }) c.hosts,
        )),
        refl,
        got,
      )
]
