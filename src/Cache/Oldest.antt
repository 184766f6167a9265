-- ===== src/Cache/Oldest.antt =====
-- Which entry `min` picks among the keys: the oldest, the first of these.
use tftp_os.Prelude.{
  ℕ, ◌≤◌, ◌<◌, ◌≡◌, refl, Option, none, some, [], ◌∷◌, arith, Eq, ==_iff, length, inl, inr, ltb,
  ltb→lt, ◌⊎◌, All, ==_refl, Bool-cases,
}
use native.Mathlib.Nat.{le_refl}
use tftp_os.Result.{ok}
use tftp_os.Dict
use tftp_os.Dict.{Dict}
use tftp_os.Dict.Distinct.{IsDistinct}
use tftp_os.Cache.{oldest_from, oldest_key}

module _ {K V : Type 0} ⦃e : Eq K⦄ where
  abbrev Least : K → ℕ → Dict K (ℕ × Option V) → K → Type 0
  Least k t d o =
      (u : ℕ) × (u ≤ t)
      × All (λ x. u ≤ x.1.0) d
      × (((o ≡ k) × (u ≡ t)) ⊎ ((w : Option V) × (Dict.get o d ≡ some (u, w))))

  All-le :
      (u t : ℕ) (d : Dict K (ℕ × Option V))
      → u ≤ t
      → All (λ x. t ≤ x.1.0) d
      → All (λ x. u ≤ x.1.0) d
  All-le u t [] h a = tt
  All-le u t (x ∷ d) h a = (omega arith, All-le u t d h a.1)

  skip :
      (o j : K) (s : ℕ) (v : Option V) (d : Dict K (ℕ × Option V)) (u : ℕ) (w : Option V)
      → Dict.get j d ≡ none
      → Dict.get o d ≡ some (u, w)
      → Dict.get o ((j, (s, v)) ∷ d) ≡ some (u, w)
  unfolding Dict.get
  skip o j s v d u w h p = ground (arith, ==_iff j o)

  first :
      (j : K) (s : ℕ) (v : Option V) (d : Dict K (ℕ × Option V))
      → Dict.get j ((j, (s, v)) ∷ d) ≡ some (s, v)
  unfolding Dict.get
  first j s v d = rw ==_refl

  oldest_from-Least :
      (k : K) (t : ℕ) (d : Dict K (ℕ × Option V)) → IsDistinct d → Least k t d (oldest_from k t d)
  unfolding oldest_from
  oldest_from-Least k t [] h = (t, le_refl t, tt, inl (refl, refl))
  oldest_from-Least k t ((j, (s, v)) ∷ d) h = elim (Bool-cases (ltb s t)) [
    | inl less ↦
        let (u, le, least, found) = oldest_from-Least j s d h.1 in
        rw less (
          u,
          omega (arith, ltb→lt s t),
          (le, least),
          elim found [
            | inl p ↦ inr (v, rw (p.0, p.1) (first j s v d))
            | inr (w, q) ↦ inr (w, skip _ j s v d u w h.0 q)
          ],
        )
    | inr more ↦
        let (u, le, least, found) = oldest_from-Least k t d h.1 in
        rw more (
          u,
          le,
          (ground arith, least),
          elim found [ inl p ↦ inl p | inr (w, q) ↦ inr (w, skip _ j s v d u w h.0 q) ],
        )
  ]

  at_key :
      (u : ℕ) (d : Dict K (ℕ × Option V)) (j : K) (x : ℕ × Option V)
      → All (λ y. u ≤ y.1.0) d
      → Dict.get j d ≡ some x
      → u ≤ x.0
  unfolding Dict.get
  at_key u [] j x a h = cc
  at_key u ((i, y) ∷ d) j x a h = ground (arith, at_key u d j x a.1)

  -- `min` over the keys of a `dict` that is not empty returns the key of an entry, and no entry has
  -- a lesser time stamp.
  pub oldest_key-least :
      (d : Dict K (ℕ × Option V))
      → IsDistinct d
      → 0 < length d
      → (k : K) × (t : ℕ) × (v : Option V) × (oldest_key d ≡ ok k)
        × (Dict.get k d ≡ some (t, v))
        × ((j : K) (x : ℕ × Option V) → Dict.get j d ≡ some x → t ≤ x.0)
  unfolding oldest_key
  oldest_key-least [] h pos = absurd (omega arith)
  oldest_key-least ((k, (t, v)) ∷ d) h pos =
      let (u, le, least, found) = oldest_from-Least k t d h.1 in
      elim found [
        | inl p ↦ (
          k,
          t,
          v,
          rw p.0,
          first k t v d,
          λ j x q. at_key t ((k, (t, v)) ∷ d) j x (le_refl t, rw p.1 at least) q,
        )
        | inr (w, q) ↦ (
          oldest_from k t d,
          u,
          w,
          refl,
          skip _ k t v d u w h.0 q,
          λ j x r. at_key u ((k, (t, v)) ∷ d) j x (le, least) r,
        )
      ]
