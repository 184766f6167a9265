-- ===== src/Cluster/Groups.antt =====
-- How often the groups name each host.
use tftp_os.Prelude.{
  ℕ, suc, zero, ◌+◌, ◌<◌, Bool, false, not, Option, none, some, List, [], ◌∷◌, if◌then◌else◌, ◌==◌,
  ==_iff, text_eq, nat_beq, ◌≡◌, refl, arith, get_elem?, ◌∙◌,
}
use tftp_os.Prelude.Text.{Text}
use tftp_os.Dict.Laws.{among}
use tftp_os.Cluster.Definition.{
  ClusterHost, ClusterDefinition, positions, hosts_by_role, push_group, role_groups, ordered_groups,
}

-- How often a position stands in a group, in all groups.
unfoldable pub count : ℕ → List ℕ → ℕ
count i [] = 0
count i (j ∷ js) = (if nat_beq j i then 1 else 0) + count i js

unfoldable pub visits : ℕ → List (List ℕ) → ℕ
unfolding count
visits i [] = 0
visits i (g ∷ gs) = count i g + visits i gs

-- How often a role stands in the order.
unfoldable pub turns : Text → List Text → ℕ
turns role [] = 0
turns role (r ∷ rs) = (if r == role then 1 else 0) + turns role rs

abbrev test_at : (ClusterHost → Bool) → Option ClusterHost → ℕ
test_at p none = 0
test_at p (some h) = if p h then 1 else 0

-- Positions below the start do not occur.
count-positions_below :
    (p : ClusterHost → Bool) (i j : ℕ) (hs : List ClusterHost)
    → j < i
    → count j (positions p i hs) ≡ 0
unfolding count positions
count-positions_below p i j [] h = refl
count-positions_below p i j (x ∷ hs) h = ground (arith, count-positions_below p (suc i) j hs)

count-positions :
    (p : ClusterHost → Bool) (i k : ℕ) (hs : List ClusterHost)
    → count (i + k) (positions p i hs) ≡ test_at p (get_elem? hs k)
unfolding count positions
count-positions p i k [] = refl
count-positions p i zero (x ∷ hs) = ground (arith, count-positions_below p (suc i) (i + 0) hs)
count-positions p i (suc k) (x ∷ hs) =
    let e : i + suc k ≡ suc i + k = omega arith in
    rw e (ground (arith, count-positions p (suc i) k hs))

count-positions_from :
    (p : ClusterHost → Bool) (k : ℕ) (hs : List ClusterHost) {h : ClusterHost}
    → get_elem? hs k ≡ some h
    → count k (positions p 0 hs) ≡ (if p h then 1 else 0)
count-positions_from p k hs e =
    let start : 0 + k ≡ k = omega arith in
    let counted = count-positions p 0 k hs in
    let found = rw start at counted in ground (arith, found)

turns-among : (role : Text) (rs : List Text) → among role rs ≡ false → turns role rs ≡ 0
unfolding turns among
turns-among role [] h = refl
turns-among role (r ∷ rs) h = ground (arith, turns-among role rs)

visits-push_group :
    (i : ℕ) (g : List ℕ) (gs : List (List ℕ)) → visits i (push_group g gs) ≡ count i g + visits i gs
unfolding visits count
visits-push_group i [] gs = omega arith
visits-push_group i (j ∷ js) gs = refl

module _ (c : ClusterDefinition) (i : ℕ) (h : ClusterHost)
    (there : get_elem? c.hosts i ≡ some h) where
  count-hosts_by_role : (r : Text) → count i (hosts_by_role c r) ≡ (if h.role == r then 1 else 0)
  unfolding hosts_by_role
  count-hosts_by_role r = count-positions_from (λ x. x.role == r) i c.hosts there

  visits-role_groups :
      (roles : List Text) (last : List (List ℕ))
      → visits i (role_groups c roles last) ≡ turns h.role roles + visits i last
  unfolding role_groups turns
  visits-role_groups [] last = omega arith
  visits-role_groups (r ∷ roles) last = ground (
    arith,
    visits-push_group i (hosts_by_role c r) (role_groups c roles last),
    count-hosts_by_role r,
    visits-role_groups roles last,
    ==_iff h.role r,
    ==_iff r h.role,
  )

  -- The groups name a host once for each time that its role stands in the provisioning order, and
  -- once if it does not stand there. In an order without repetition each host has one turn.
  pub visits-ordered_groups :
      visits i (ordered_groups c)
      ≡ (if among h.role c.provisioning_order then turns h.role c.provisioning_order else 1)
  unfolding ordered_groups visits
  visits-ordered_groups =
      let order = c.provisioning_order in
      let others = positions (λ x. not (among x.role order)) 0 c.hosts in
      let others_count = count-positions_from (λ x. not (among x.role order)) i c.hosts there in
      visits-role_groups order (push_group others [])
      ∙ rw (visits-push_group i others [], others_count) (ground (arith, turns-among h.role order))
