-- ===== src/Cluster/Manager/Provision.antt =====
-- The outcome of `start_provisioning`, whatever the callbacks do.
use tftp_os.Prelude.{
  ℕ, suc, zero, ◌<◌, Bool, true, ◌&&◌, Option, none, some, List, [], ◌∷◌, ◌≡◌, refl, arith, nat_eq,
  nat_beq, if◌then◌else◌, get_elem?, Bool-cases, inl, inr, ◌||◌, ◌∙◌,
}
use tftp_os.Prelude.Text.{Text}
use tftp_os.Result.{Result, ok, raise, ◌>>=◌, >>=-eq-ok}
use tftp_os.Cluster.Definition.{HostState, ClusterHost, is_complete, is_failed}
use tftp_os.Cluster.Groups.{count, visits}
use tftp_os.Cluster.Store
use tftp_os.Cluster.Store.{ClusterStore, get-save_cluster}
use tftp_os.Cluster.Manager.{
  Callback, Run, update_at, outcome, succeeded, begin_host, end_host, provision_host,
  provision_group, provision_groups, run_callbacks_at,
}

-- The host is complete, or failed.
abbrev pub is_done : ClusterHost → Bool
is_done h = is_complete h || is_failed h

-- A host that has been worked on: it is done, and complete if no callback has raised so far.
abbrev pub Settled : Bool → Option ClusterHost → Type 0
Settled all_succeeded none = Unit
Settled all_succeeded (some h) = (is_done h ≡ true) × (all_succeeded ≡ true → is_complete h ≡ true)

abbrev pub on_host : (ClusterHost → ClusterHost) → Option ClusterHost → Option ClusterHost
on_host f none = none
on_host f (some h) = some (f h)

pub get_elem?-update_at :
    (i j : ℕ) (f : ClusterHost → ClusterHost) (hs : List ClusterHost)
    → get_elem? (update_at i f hs) j
      ≡ (if nat_beq i j then on_host f (get_elem? hs j) else get_elem? hs j)
unfolding update_at
get_elem?-update_at i j f [] = ground arith
get_elem?-update_at zero zero f (h ∷ hs) = refl
get_elem?-update_at zero (suc j) f (h ∷ hs) = ground arith
get_elem?-update_at (suc i) zero f (h ∷ hs) = ground arith
get_elem?-update_at (suc i) (suc j) f (h ∷ hs) = ground (arith, get_elem?-update_at i j f hs)

Settled-outcome :
    (a : Bool) (e : Option Text) (f : ClusterHost → ClusterHost) (o : Option ClusterHost)
    → Settled (a && succeeded e) (on_host (outcome e) (on_host f o))
Settled-outcome a none f none = tt
Settled-outcome a none f (some h) = (refl, λ _. refl)
Settled-outcome a (some e) f none = tt
Settled-outcome a (some e) f (some h) = (refl, λ p. ground arith)

Settled-less : (a b : Bool) (o : Option ClusterHost) → Settled a o → Settled (a && b) o
Settled-less a b none s = tt
Settled-less a b (some h) s = (s.0, λ p. s.1 (ground arith))

abbrev pub host_at : Run → ℕ → Option ClusterHost
host_at r i = get_elem? r.cluster.hosts i

-- What the turns of hosts leave alone.
pub record Progress (r r' : Run) : Type 0 where
  pub stays :
      (j : ℕ) → Settled r.all_succeeded (host_at r j) → Settled r'.all_succeeded (host_at r' j)
  pub exists : (j : ℕ) → host_at r j ≡ none → host_at r' j ≡ none
  pub same_name : r'.cluster.name ≡ r.cluster.name

Progress-refl : (r : Run) → Progress r r
Progress-refl r = record { stays = λ j s. s; exists = λ j e. e; same_name = refl }

Progress-trans : {r s t : Run} → Progress r s → Progress s t → Progress r t
Progress-trans p q = record {
  stays = λ j h. q.stays j (p.stays j h);
  exists = λ j e. q.exists j (p.exists j e);
  same_name = q.same_name ∙ p.same_name;
}

two_saves :
    (w : Result ClusterStore) (w' : ClusterStore → Result ClusterStore) (k : ClusterStore → Run)
    (r : Run)
    → (do s ← w; s' ← w' s; ok (k s')) ≡ ok r
    → (s : ClusterStore) × (r ≡ k s)
two_saves (raise e) w' k r h = cc
two_saves (ok s) w' k r h = second (w' s) h
  where
    second :
        (v : Result ClusterStore) → (do s' ← v; ok (k s')) ≡ ok r → (s : ClusterStore) × (r ≡ k s)
    second (raise e) h = cc
    second (ok s') h = (s', ground arith)

module _ (clock : ℕ → ℕ) (cbs : List Callback) where
  -- The state of the loop after one turn, if the saves succeed.
  after_turn : ℕ → Run → ClusterStore → Run
  after_turn i r s =
      let begun = begin_host r.cluster i (clock r.readings) in
      let raised = run_callbacks_at cbs begun (get_elem? begun.hosts i) in
      record {
        store = s;
        cluster = end_host begun i (clock (suc r.readings)) raised;
        all_succeeded = r.all_succeeded && succeeded raised;
        readings = suc (suc r.readings);
      }

  provision_host-after_turn :
      (i : ℕ) (r r' : Run)
      → provision_host clock cbs i r ≡ ok r'
      → (s : ClusterStore) × (r' ≡ after_turn i r s)
  unfolding provision_host after_turn
  provision_host-after_turn i r r' h =
      let begun = begin_host r.cluster i (clock r.readings) in
      let raised = run_callbacks_at cbs begun (get_elem? begun.hosts i) in
      let ended = end_host begun i (clock (suc r.readings)) raised in
      two_saves (Store.save r.store begun) (λ s. Store.save s ended) (after_turn i r) r' h

  turn-host_at :
      (i j : ℕ) (r : Run) (s : ClusterStore)
      → (e : Option Text) × (f : ClusterHost → ClusterHost) × ((after_turn i r s).all_succeeded
          ≡ (r.all_succeeded && succeeded e))
        × (host_at (after_turn i r s) j
            ≡ (if nat_beq i j then on_host (outcome e) (on_host f (host_at r j)) else host_at r j))
  unfolding after_turn begin_host end_host
  turn-host_at i j r s =
      let begun = begin_host r.cluster i (clock r.readings) in
      let e = run_callbacks_at cbs begun (get_elem? begun.hosts i) in
      let f = λ (h : ClusterHost). record h { state = HostState.provisioning } in
      (
        e,
        f,
        refl,
        ground (
          arith,
          get_elem?-update_at i j (outcome e) begun.hosts,
          get_elem?-update_at i j f r.cluster.hosts,
        ),
      )

  after_turn-Progress : (i : ℕ) (r : Run) (s : ClusterStore) → Progress r (after_turn i r s)
  after_turn-Progress i r s = record {
    stays = λ j settled.
        let (e, f, ended, here) = turn-host_at i j r s in
        elim (Bool-cases (nat_beq i j)) [
          | inl same ↦ rw (here, ended, same) (Settled-outcome r.all_succeeded e f (host_at r j))
          | inr other ↦
              rw (here, ended, other)
                (Settled-less r.all_succeeded (succeeded e) (host_at r j) settled)
        ];
    exists =
        λ j gone. let (e, f, ended, here) = turn-host_at i j r s in rw (here, gone) (ground arith);
    same_name = unfold after_turn begin_host end_host in refl;
  }

  after_turn-Settled :
      (i : ℕ) (r : Run) (s : ClusterStore)
      → Settled (after_turn i r s).all_succeeded (host_at (after_turn i r s) i)
  after_turn-Settled i r s =
      let (e, f, ended, here) = turn-host_at i i r s in
      let same : nat_beq i i ≡ true = ground arith in
      rw (here, ended, same) (Settled-outcome r.all_succeeded e f (host_at r i))

  provision_host-Progress :
      (i : ℕ) (r r' : Run)
      → provision_host clock cbs i r ≡ ok r'
      → Progress r r' × Settled r'.all_succeeded (host_at r' i)
  provision_host-Progress i r r' h =
      let (s, e) = provision_host-after_turn i r r' h in
      rw e (after_turn-Progress i r s, after_turn-Settled i r s)

  provision_group-Progress :
      (g : List ℕ) (r r' : Run)
      → provision_group clock cbs g r ≡ ok r'
      → Progress r r' × ((i : ℕ) → 0 < count i g → Settled r'.all_succeeded (host_at r' i))
  unfolding provision_group count
  provision_group-Progress [] r r' h =
      let e : r ≡ r' = (cc) in (rw (← e) (Progress-refl r), λ i p. absurd (omega arith))
  provision_group-Progress (j ∷ js) r r' h =
      let (r₁, first, rest) =
        >>=-eq-ok (provision_host clock cbs j r) (provision_group clock cbs js) h in
      let (moved, settled) = provision_host-Progress j r r₁ first in
      let (moved', settled') = provision_group-Progress js r₁ r' rest in
      (
        Progress-trans moved moved',
        λ i p. elim (Bool-cases (nat_beq j i)) [
          | inl here ↦ let e : j ≡ i = ground arith in moved'.stays i (rw e at settled)
          | inr there ↦ settled' i (ground arith)
        ],
      )

  pub provision_groups-Progress :
      (gs : List (List ℕ)) (r r' : Run)
      → provision_groups clock cbs gs r ≡ ok r'
      → Progress r r' × ((i : ℕ) → 0 < visits i gs → Settled r'.all_succeeded (host_at r' i))
  unfolding provision_groups visits
  provision_groups-Progress [] r r' h =
      let e : r ≡ r' = (cc) in (rw (← e) (Progress-refl r), λ i p. absurd (omega arith))
  provision_groups-Progress (g ∷ gs) r r' h =
      let (r₁, first, rest) =
        >>=-eq-ok (provision_group clock cbs g r) (provision_groups clock cbs gs) h in
      let (moved, settled) = provision_group-Progress g r r₁ first in
      let (moved', settled') = provision_groups-Progress gs r₁ r' rest in
      (
        Progress-trans moved moved',
        λ i p. elim (Bool-cases (nat_beq (count i g) 0)) [
          | inl zero' ↦ settled' i (ground arith)
          | inr some' ↦ moved'.stays i (settled i (ground arith))
        ],
      )
