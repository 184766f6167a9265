-- ===== src/Cluster/Manager/Create.antt =====
-- What a successful `create_cluster` has checked, and what it leaves.
use tftp_os.Prelude.{
  ℕ, Bool, true, false, Option, none, some, List, [], ◌∷◌, ◌≡◌, ◌≢◌, arith, ==_iff, text_eq, lower,
  map, All,
}
use tftp_os.Prelude.Text.{Text}
use tftp_os.Result.{Result, ok, value_error, ◌>>=◌, ◌>>◌, guard}
use tftp_os.Dict.Laws.{among}
use tftp_os.Names.{validate_name}
use tftp_os.Cluster.Definition.{ClusterDefinition}
use tftp_os.Cluster.Store
use tftp_os.Cluster.Store.{ClusterStore, get-save_cluster}
use tftp_os.Cluster.Manager.{create_cluster, no_duplicates, nonempty, or_now, is_new}

-- No element stands twice.
abbrev pub AllDiffer : List Text → Type 0
AllDiffer [] = Unit
AllDiffer (x ∷ xs) = All (λ y. x ≢ y) xs × AllDiffer xs

among-All : (x : Text) (xs : List Text) → among x xs ≡ false → All (λ y. x ≢ y) xs
unfolding among
among-All x [] h = tt
among-All x (y ∷ ys) h = ((λ e. ground (arith, ==_iff y x)), among-All x ys (ground arith))

no_duplicates-AllDiffer : (xs : List Text) → no_duplicates xs ≡ true → AllDiffer xs
unfolding no_duplicates
no_duplicates-AllDiffer [] h = tt
no_duplicates-AllDiffer (x ∷ xs) h =
    (among-All x xs (ground arith), no_duplicates-AllDiffer xs (ground arith))

checks :
    (v : Result (Unit {0})) (b₁ b₂ b₃ : Bool) (g : Result (Option ClusterDefinition))
    (w : Result ClusterStore) (c'' c' : ClusterDefinition) (s' : ClusterStore)
    → (do
      v
      guard b₁ value_error
      guard b₂ value_error
      guard b₃ value_error
      existing ← g
      guard (is_new existing) value_error
      t ← w
      let result : ClusterStore × ClusterDefinition = (t, c'')
      ok result)
      ≡ ok (s', c')
    → (v ≡ ok tt)
      × (b₁ ≡ true)
      × (b₂ ≡ true)
      × (b₃ ≡ true)
      × (g ≡ ok none)
      × (w ≡ ok s')
      × (c' ≡ c'')
checks v b₁ b₂ b₃ g w c'' c' s' h = ground arith

-- A cluster that was created has a valid name that was free, at least one host, MAC addresses that
-- differ also in lower case, and host names that differ; afterwards the store returns it under
-- its name, with the times set and all else as it was given.
pub create_cluster-ok :
    (s s' : ClusterStore) (c c' : ClusterDefinition) (now : ℕ)
    → create_cluster s c now ≡ ok (s', c')
    → (validate_name c.name ≡ ok tt)
      × (Store.get s c.name ≡ ok none)
      × (nonempty c.hosts ≡ true)
      × AllDiffer (map (λ h. lower h.mac) c.hosts)
      × AllDiffer (map (λ h. h.hostname) c.hosts)
      × (c' ≡ record c { created_at = or_now c.created_at now; updated_at = some now })
      × (Store.get s' c.name ≡ ok (some c'))
unfolding create_cluster
create_cluster-ok s s' c c' now h =
    let c'' : ClusterDefinition = record c {
      created_at = or_now c.created_at now;
      updated_at = some now;
    } in
    let (valid, hosts, macs, names, free, saved, same) =
      checks (validate_name c.name) (nonempty c.hosts)
        (no_duplicates (map (λ h. lower h.mac) c.hosts))
        (no_duplicates (map (λ h. h.hostname) c.hosts)) (Store.get s c.name) (Store.save s c'') c''
        c' s' h in
    let (t, saved', got, _) = get-save_cluster s c'' valid in
    let stores : t ≡ s' = ground arith in
    (
      valid,
      free,
      hosts,
      no_duplicates-AllDiffer _ macs,
      no_duplicates-AllDiffer _ names,
      same,
      rw (← stores, same) got,
    )
