-- ===== src/Dict/Size.antt =====
-- How the number of entries of a `dict` changes.
use tftp_os.Prelude.{◌+◌, ◌≤◌, ◌≡◌, none, some, [], ◌∷◌, arith, Eq, if◌then◌else◌, length, ==_iff}
use tftp_os.Dict.{Dict, get, put, remove}
use tftp_os.Dict.Laws.{remove_absent, present}
use tftp_os.Dict.Distinct.{IsDistinct}

module _ {ℓ κ} {K : Type ℓ} {V : Type κ} ⦃e : Eq K⦄ where
  pub length-put_new :
      (k : K) (v : V) (d : Dict K V) → get k d ≡ none → length (put k v d) ≡ length d + 1
  unfolding get put
  length-put_new k v [] h = omega arith
  length-put_new k v ((j, w) ∷ d) h = ground (arith, length-put_new k v d)

  pub length-put_old :
      (k : K) (v w : V) (d : Dict K V) → get k d ≡ some w → length (put k v d) ≡ length d
  unfolding get put
  length-put_old k v w [] h = cc
  length-put_old k v w ((j, x) ∷ d) h = ground (arith, length-put_old k v w d)

  pub length-put :
      (k : K) (v : V) (d : Dict K V)
      → length (put k v d) ≡ (if present (get k d) then length d else length d + 1)
  unfolding get put
  length-put k v [] = omega arith
  length-put k v ((j, w) ∷ d) = ground (arith, length-put k v d)

  pub length-remove-le : (k : K) (d : Dict K V) → length (remove k d) ≤ length d
  unfolding remove
  length-remove-le k [] = omega arith
  length-remove-le k ((j, w) ∷ d) = ground (arith, length-remove-le k d)

  pub length-remove :
      (k : K) (v : V) (d : Dict K V)
      → IsDistinct d
      → get k d ≡ some v
      → length (remove k d) + 1 ≡ length d
  unfolding get remove
  length-remove k v [] h p = cc
  length-remove k v ((j, w) ∷ d) h p =
      ground (arith, length-remove k v d, remove_absent j d, ==_iff j k)
