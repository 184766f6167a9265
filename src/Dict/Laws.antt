-- ===== src/Dict/Laws.antt =====
-- What a `dict` answers after an assignment or a deletion.
use tftp_os.Prelude.{
  ◌≡◌, refl, sym, ◌∙◌, some-injective, ◌≢◌, Bool, true, false, Option, none, some, [], ◌∷◌, arith,
  Eq, ◌==◌, ◌||◌, List, ==_iff, ==_refl, ==_ne, if◌then◌else◌,
}
use tftp_os.Dict.{Dict, get, put, remove, has_key}

abbrev pub present {ℓ} : {V : Type ℓ} → Option V → Bool
present none = false
present (some v) = true

module _ {ℓ κ} {K : Type ℓ} {V : Type κ} ⦃e : Eq K⦄ where
  pub get-put :
      (k j : K) (v : V) (d : Dict K V) → get j (put k v d) ≡ (if k == j then some v else get j d)
  unfolding get put
  get-put k j v [] = refl
  get-put k j v ((i, w) ∷ d) = ground (arith, ==_iff i k, ==_iff i j, ==_iff k j, get-put k j v d)

  pub get-remove :
      (k j : K) (d : Dict K V) → get j (remove k d) ≡ (if k == j then none else get j d)
  unfolding get remove
  get-remove k j [] = ground arith
  get-remove k j ((i, w) ∷ d) = ground (arith, ==_iff i k, ==_iff i j, ==_iff k j, get-remove k j d)

  pub get-put_self : (k : K) (v : V) (d : Dict K V) → get k (put k v d) ≡ some v
  get-put_self k v d = rw (get-put, ==_refl k)

  pub get-put_ne : (k j : K) (v : V) (d : Dict K V) → k ≢ j → get j (put k v d) ≡ get j d
  get-put_ne k j v d h = rw (get-put, ==_ne k j h)

  pub get-remove_self : (k : K) (d : Dict K V) → get k (remove k d) ≡ none
  get-remove_self k d = rw (get-remove, ==_refl k)

  pub get-remove_ne : (k j : K) (d : Dict K V) → k ≢ j → get j (remove k d) ≡ get j d
  get-remove_ne k j d h = rw (get-remove, ==_ne k j h)

  pub remove_absent : (k : K) (d : Dict K V) → get k d ≡ none → remove k d ≡ d
  unfolding get remove
  remove_absent k [] h = refl
  remove_absent k ((j, w) ∷ d) h = ground (arith, remove_absent k d)

  pub has_key-get : (k : K) (d : Dict K V) → has_key k d ≡ present (get k d)
  unfolding get has_key
  has_key-get k [] = refl
  has_key-get k ((j, w) ∷ d) = ground (arith, has_key-get k d)

-- What holds of every value, after an assignment and after a deletion.
newer {ℓ κ} :
    {V : Type ℓ} (P : V → Type κ) (b : Bool) (v w : V) (o : Option V)
    → (if b then some v else o) ≡ some w
    → P v
    → (o ≡ some w → P w)
    → P w
newer P true v w o h p old = let same : v ≡ w = some-injective h in rw (← same) p
newer P false v w o h p old = old h

module _ {ℓ κ μ} {K : Type ℓ} {V : Type κ} ⦃e : Eq K⦄ (P : V → Type μ) where
  pub each-put :
      (k j : K) (v w : V) (d : Dict K V)
      → P v
      → (get j d ≡ some w → P w)
      → get j (put k v d) ≡ some w
      → P w
  each-put k j v w d p old h = newer P (k == j) v w (get j d) (sym (get-put k j v d) ∙ h) p old

  pub each-remove :
      (k j : K) (w : V) (d : Dict K V)
      → (get j d ≡ some w → P w)
      → get j (remove k d) ≡ some w
      → P w
  each-remove k j w d old h = kept (k == j) (sym (get-remove k j d) ∙ h)
    where
      kept : (b : Bool) → (if b then none else get j d) ≡ some w → P w
      kept true h = cc h
      kept false h = old h

-- key in the list
module _ {ℓ} {K : Type ℓ} ⦃e : Eq K⦄ where
  unfoldable pub among : K → List K → Bool
  among k [] = false
  among k (j ∷ ks) = j == k || among k ks

pub ruleset dict_laws = (get-put, get-remove)
