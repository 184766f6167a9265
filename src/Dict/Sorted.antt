-- ===== src/Dict/Sorted.antt =====
-- Sorting the items of a `dict` by key changes neither its entries nor that its keys differ.
use tftp_os.Prelude.{◌≡◌, refl, Bool, none, some, [], ◌∷◌, arith, Eq, ◌==◌, ==_iff, if◌then◌else◌}
use tftp_os.Prelude.Sort.{insert, sort}
use tftp_os.Dict.{Dict, get}
use tftp_os.Dict.Distinct.{IsDistinct}

module _ {ℓ κ} {K : Type ℓ} {V : Type κ} ⦃e : Eq K⦄ (le : K × V → K × V → Bool) where
  pub get-insert :
      (k j : K) (v : V) (d : Dict K V)
      → get k d ≡ none
      → get j (insert le (k, v) d) ≡ (if k == j then some v else get j d)
  unfolding get insert
  get-insert k j v [] h = refl
  get-insert k j v ((i, w) ∷ d) h =
      ground (arith, get-insert k j v d, ==_iff i k, ==_iff i j, ==_iff k j)

  insert-IsDistinct :
      (k : K) (v : V) (d : Dict K V)
      → get k d ≡ none
      → IsDistinct d
      → IsDistinct (insert le (k, v) d)
  unfolding get insert
  insert-IsDistinct k v [] h u = (refl, tt)
  insert-IsDistinct k v ((i, w) ∷ d) h u =
      ground (arith, insert-IsDistinct k v d, get-insert k i v d, ==_iff i k, ==_iff k i)

  pub get-sort : (j : K) (d : Dict K V) → IsDistinct d → get j (sort le d) ≡ get j d
  unfolding get sort
  get-sort j [] u = refl
  get-sort j ((k, v) ∷ d) u =
      ground (arith, get-insert k j v (sort le d), get-sort k d u.1, get-sort j d u.1)

  pub sort-IsDistinct : (d : Dict K V) → IsDistinct d → IsDistinct (sort le d)
  unfolding sort
  sort-IsDistinct [] u = tt
  sort-IsDistinct ((k, v) ∷ d) u =
      insert-IsDistinct k v (sort le d) (ground (arith, get-sort k d u.1)) (sort-IsDistinct d u.1)
