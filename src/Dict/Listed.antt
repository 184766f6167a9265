-- ===== src/Dict/Listed.antt =====
-- Sorted lists of names: sorting moves names, and loses none.
use tftp_os.Prelude.{◌≡◌, refl, arith, Bool, List, [], ◌∷◌, ◌||◌, Eq, ◌==◌}
use tftp_os.Prelude.Sort.{insert, sort}
use tftp_os.Dict.{Dict, keys, has_key}
use tftp_os.Dict.Laws.{among}

module _ {ℓ} {K : Type ℓ} ⦃e : Eq K⦄ (le : K → K → Bool) where
  among-insert : (k j : K) (js : List K) → among k (insert le j js) ≡ (j == k || among k js)
  unfolding insert among
  among-insert k j [] = refl
  among-insert k j (i ∷ js) = ground (arith, among-insert k j js)

  pub among-sort : (k : K) (js : List K) → among k (sort le js) ≡ among k js
  unfolding sort among
  among-sort k [] = refl
  among-sort k (j ∷ js) = ground (arith, among-insert k j (sort le js), among-sort k js)

module _ {ℓ κ} {K : Type ℓ} {V : Type κ} ⦃e : Eq K⦄ where
  pub among-keys : (k : K) (d : Dict K V) → among k (keys d) ≡ has_key k d
  unfolding among has_key
  among-keys k [] = refl
  among-keys k ((j, v) ∷ d) = ground (arith, among-keys k d)
