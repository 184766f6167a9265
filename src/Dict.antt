-- ===== src/Dict.antt =====
-- Python's `dict`, with its order of insertion: a new key goes to the end, an assignment to a key
-- that is there leaves it in its place. The laws are in Dict/Laws.antt and Dict/Size.antt.
pub mod Laws
pub mod Size
pub mod Distinct
pub mod Sorted
pub mod Listed
use tftp_os.Prelude.{
  Bool, true, false, Option, none, some, List, [], ◌∷◌, map, ℕ, suc, Eq, ◌==◌, if◌then◌else◌,
  length,
}

abbrev pub Dict {ℓ κ} : Type ℓ → Type κ → Type (ℓ ⊔ κ)
Dict K V = List (K × V)

module _ {ℓ κ} {K : Type ℓ} {V : Type κ} ⦃e : Eq K⦄ where
  -- d.get(k)
  unfoldable pub get : K → Dict K V → Option V
  get k [] = none
  get k ((j, v) ∷ d) = if j == k then some v else get k d

  -- d[k] = v
  unfoldable pub put : K → V → Dict K V → Dict K V
  put k v [] = (k, v) ∷ []
  put k v ((j, w) ∷ d) = let rest = put k v d in if j == k then (j, v) ∷ d else (j, w) ∷ rest

  -- del d[k], d.pop(k, None)
  unfoldable pub remove : K → Dict K V → Dict K V
  remove k [] = []
  remove k ((j, w) ∷ d) = let rest = remove k d in if j == k then rest else (j, w) ∷ rest

  -- k in d
  unfoldable pub has_key : K → Dict K V → Bool
  has_key k [] = false
  has_key k ((j, v) ∷ d) = if j == k then true else has_key k d

module _ {ℓ κ} {K : Type ℓ} {V : Type κ} where
  -- d.keys()
  abbrev pub keys : Dict K V → List K
  keys = map (λ e. e.0)

  -- d.values()
  abbrev pub values : Dict K V → List V
  values = map (λ e. e.1)
