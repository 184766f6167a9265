-- ===== src/Dict/Distinct.antt =====
-- The keys of a `dict` are distinct, which every operation keeps.
use tftp_os.Prelude.{◌≡◌, refl, none, [], ◌∷◌, arith, Eq, ==_iff}
use tftp_os.Dict.{Dict, get, put, remove}
use tftp_os.Dict.Laws.{get-put, get-remove}

module _ {ℓ κ} {K : Type ℓ} {V : Type κ} ⦃e : Eq K⦄ where
  -- No key stands twice.
  abbrev pub IsDistinct : Dict K V → Type κ
  IsDistinct [] = Unit
  IsDistinct ((k, v) ∷ d) = (get k d ≡ none) × IsDistinct d

  pub put-IsDistinct : (k : K) (v : V) (d : Dict K V) → IsDistinct d → IsDistinct (put k v d)
  unfolding get put
  put-IsDistinct k v [] h = (refl, tt)
  put-IsDistinct k v ((j, w) ∷ d) h =
      ground (arith, put-IsDistinct k v d, get-put k j v d, ==_iff k j, ==_iff j k)

  pub remove-IsDistinct : (k : K) (d : Dict K V) → IsDistinct d → IsDistinct (remove k d)
  unfolding remove
  remove-IsDistinct k [] h = h
  remove-IsDistinct k ((j, w) ∷ d) h =
      ground (arith, remove-IsDistinct k d, get-remove k j d, ==_iff k j)
