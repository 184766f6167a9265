-- ===== src/Cache/Eviction.antt =====
-- What stays in a cache when an entry is stored, and the account of the entries that went.
use tftp_os.Prelude.{
  ℕ, ◌+◌, ◌-◌, ◌≤◌, ◌<◌, ◌≡◌, ◌≢◌, refl, Bool, true, false, Option, none, some, List, [], ◌∷◌,
  arith, Eq, ◌==◌, ==_iff, ltb, length, Option-cases, inl, inr, if◌then◌else◌, ◌⊎◌, ◌&&◌,
  Bool-cases, ◌∙◌,
}
use tftp_os.Result.{ok}
use tftp_os.Dict
use tftp_os.Dict.{Dict}
use tftp_os.Dict.Laws.{get-put_ne, get-remove, present, among}
use tftp_os.Dict.Distinct.{IsDistinct, remove-IsDistinct}
use tftp_os.Dict.Size.{length-put, length-remove}
use tftp_os.Cache.Size.{IsValid, put-cases}
use tftp_os.Cache.{
  CacheStats, TtlCacheWrapper, State, get, hit, eviction, put, remove_all, matching,
  invalidate_matching,
}

module _ {K V : Type 0} ⦃e : Eq K⦄ where
  -- Storing under a key leaves the entry of another key as it is, unless the cache was full, the
  -- stored key was new, and no entry was older than that one.
  pub put-others :
      (c : TtlCacheWrapper K V) (g : CacheStats) (key j : K) (value : Option V) (now : ℕ)
      → 0 < c.maxsize
      → IsValid c
      → key ≢ j
      → (s : State K V) × (put c g key value now ≡ ok s)
        × ((Dict.get j s.0.cache ≡ Dict.get j c.cache)
            ⊎ ((c.maxsize ≤ length c.cache)
                × (Dict.get key c.cache ≡ none)
                × ((i : K) (x y : ℕ × Option V)
                    → Dict.get i c.cache ≡ some x
                    → Dict.get j c.cache ≡ some y
                    → y.0 ≤ x.0)))
  put-others c g key j value now pos h ne =
      let (s, stored, which) = put-cases c g key value now pos h.distinct in
      (
        s,
        stored,
        elim which [
          | inl (p, room) ↦ inl (rw p (get-put_ne key j (now, value) c.cache ne))
          | inr (k, t, v, p, there, least, new, full) ↦ elim (Bool-cases (k == j)) [
            | inl same ↦
                let here : Dict.get j c.cache ≡ some (t, v) = rw (← (==_iff k j).0 same) there in
                inr (full, new, λ i x y q r. ground (arith, least i x q))
            | inr other ↦ inl (
                rw p (
                  get-put_ne key j (now, value) (Dict.remove k c.cache) ne
                  ∙ rw (get-remove, other)))
          ]
        ],
      )

  -- Entries held and evictions so far.
  abbrev pub account : TtlCacheWrapper K V → ℕ
  account c = length c.cache + c.stats.evictions

  -- Each lookup counts once, as a hit or as a miss, and an entry that expires is counted as
  -- evicted, so that the account stays.
  pub get-account :
      (c : TtlCacheWrapper K V) (g : CacheStats) (key : K) (now : ℕ)
      → IsValid c
      → (account (get c g key now).0.0 ≡ account c)
        × ((get c g key now).0.0.stats.hits + (get c g key now).0.0.stats.misses
            ≡ c.stats.hits + c.stats.misses + 1)
        × ((get c g key now).0.1.hits + (get c g key now).0.1.misses ≡ g.hits + g.misses + 1)
  unfolding get hit
  get-account c g key now h = elim (Option-cases (Dict.get key c.cache)) [
    | inl p ↦ rw p (ground arith)
    | inr ((t, v), p) ↦ elim (Bool-cases (ltb c.ttl (now - t))) [
      | inl old ↦ rw (p, get, old) (ground (arith, length-remove key (t, v) c.cache h.distinct p))
      | inr young ↦ rw (p, get, young) (ground arith)
    ]
  ]

  -- Storing under a new key puts one more entry on the account, evicting or not; storing under a
  -- key that is there leaves it.
  pub put-account :
      (c : TtlCacheWrapper K V) (g : CacheStats) (key : K) (value : Option V) (now : ℕ)
      → 0 < c.maxsize
      → IsValid c
      → (s : State K V) × (put c g key value now ≡ ok s)
        × (account s.0 ≡ (if present (Dict.get key c.cache) then account c else account c + 1))
  unfolding eviction
  put-account c g key value now pos h =
      let (s, stored, which) = put-cases c g key value now pos h.distinct in
      (
        s,
        stored,
        elim which [
          | inl (p, room) ↦ rw p (ground (arith, length-put key (now, value) c.cache))
          | inr (k, t, v, p, there, least, new, full) ↦ rw p (
              ground (
                arith,
                get-remove k key c.cache,
                length-put key (now, value) (Dict.remove k c.cache),
                length-remove k (t, v) c.cache h.distinct there,
              ))
        ],
      )

  -- Keys that are all there, none of them twice.
  abbrev Held : List K → Dict K (ℕ × Option V) → Type 0
  Held [] d = Unit
  Held (k ∷ ks) d = (present (Dict.get k d) ≡ true) × (among k ks ≡ false) × Held ks d

  Held-remove :
      (k : K) (ks : List K) (d : Dict K (ℕ × Option V))
      → among k ks ≡ false
      → Held ks d
      → Held ks (Dict.remove k d)
  unfolding among
  Held-remove k [] d out h = tt
  Held-remove k (j ∷ ks) d out h =
      ground (arith, Held-remove k ks d, get-remove k j d, ==_iff j k, ==_iff k j)

  among-matching :
      (predicate : K → Bool) (j : K) (d : Dict K (ℕ × Option V))
      → among j (matching predicate d) ≡ (predicate j && present (Dict.get j d))
  unfolding among matching Dict.get
  among-matching predicate j [] = ground arith
  among-matching predicate j ((k, x) ∷ d) = ground (arith, among-matching predicate j d, ==_iff k j)

  Held-matching :
      (predicate : K → Bool) (d d' : Dict K (ℕ × Option V))
      → IsDistinct d
      → ((j : K) → present (Dict.get j d) ≡ true → present (Dict.get j d') ≡ true)
      → Held (matching predicate d) d'
  unfolding matching Dict.get
  Held-matching predicate [] d' h sub = tt
  Held-matching predicate ((k, x) ∷ d) d' h sub =
      let tail = Held-matching predicate d d' h.1 (λ j p. sub j (ground arith)) in
      elim (Bool-cases (predicate k)) [
        | inl yes' ↦ rw yes' (
          sub k (ground (arith, ==_iff k k)),
          rw (among-matching predicate k d, h.0) (ground arith),
          tail,
        )
        | inr no' ↦ rw no' tail
      ]

  remove_all-account :
      (ks : List K) (c : TtlCacheWrapper K V) (g : CacheStats)
      → IsDistinct c.cache
      → Held ks c.cache
      → (account (remove_all ks c g).0.0 ≡ account c)
        × (length (remove_all ks c g).0.0.cache + (remove_all ks c g).1 ≡ length c.cache)
        × ((j : K)
            → Dict.get j (remove_all ks c g).0.0.cache
              ≡ (if among j ks then none else Dict.get j c.cache))
  unfolding remove_all among eviction
  remove_all-account [] c g d h = (refl, omega arith, λ j. refl)
  remove_all-account (k ∷ ks) c g d h =
      let c' = record c { cache = Dict.remove k c.cache; stats = eviction c.stats } in
      let (same, count, entries) =
        remove_all-account ks c' (eviction g) (remove-IsDistinct k c.cache d)
          (Held-remove k ks c.cache h.1 h.2) in
      elim (Option-cases (Dict.get k c.cache)) [
        | inl gone ↦ absurd (ground arith)
        | inr (v, there) ↦ (
          omega (arith, same, length-remove k v c.cache d there),
          omega (arith, count, length-remove k v c.cache d there),
          λ j. ground (arith, entries j, get-remove k j c.cache),
        )
      ]

  -- Removing the keys that satisfy a predicate keeps the account, reports how many entries went,
  -- and leaves exactly the entries whose keys do not satisfy it.
  pub invalidate_matching-account :
      (c : TtlCacheWrapper K V) (g : CacheStats) (predicate : K → Bool)
      → IsValid c
      → (account (invalidate_matching c g predicate).0.0 ≡ account c)
        × (length (invalidate_matching c g predicate).0.0.cache
              + (invalidate_matching c g predicate).1
            ≡ length c.cache)
        × ((j : K)
            → Dict.get j (invalidate_matching c g predicate).0.0.cache
              ≡ (if predicate j then none else Dict.get j c.cache))
  unfolding invalidate_matching
  invalidate_matching-account c g predicate h =
      let (same, count, entries) =
        remove_all-account (matching predicate c.cache) c g h.distinct
          (Held-matching predicate c.cache c.cache h.distinct (λ j p. p)) in
      (
        same,
        count,
        λ j.
            entries j
            ∙ rw (among-matching predicate j c.cache)
                (filter_lem (predicate j) (Dict.get j c.cache)),
      )
    where
      filter_lem :
          (b : Bool) (o : Option (ℕ × Option V))
          → (if b && present o then none else o) ≡ (if b then none else o)
      filter_lem b o = ground arith
