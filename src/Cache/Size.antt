-- ===== src/Cache/Size.antt =====
-- The bound on the size of a cache, and what `put` does to the entries.
use tftp_os.Prelude.{
  ℕ, ◌≤◌, ◌<◌, ◌≡◌, refl, true, ◌&&◌, not, Option, none, some, arith, Eq, leb, length, inl, inr,
  ◌⊎◌, Bool-cases,
}
use tftp_os.Result.{ok}
use tftp_os.Dict
use tftp_os.Dict.{Dict}
use tftp_os.Dict.Laws.{has_key-get, present, get-remove}
use tftp_os.Dict.Size.{length-put_new, length-put, length-remove}
use tftp_os.Dict.Distinct.{IsDistinct, put-IsDistinct, remove-IsDistinct}
use tftp_os.Cache.Oldest.{oldest_key-least}
use tftp_os.Cache.{CacheStats, TtlCacheWrapper, State, make_room, put, eviction}

module _ {K V : Type 0} ⦃e : Eq K⦄ where
  pub record IsValid (c : TtlCacheWrapper K V) : Type 0 where
    pub bounded : length c.cache ≤ c.maxsize
    pub distinct : IsDistinct c.cache

  module _ (c : TtlCacheWrapper K V) (g : CacheStats) (key : K) (value : Option V) (now : ℕ) where
    -- There was room for the key, or the key was there.
    abbrev pub Kept : State K V → Type 0
    Kept s =
        (s ≡ (record c { cache = Dict.put key (now, value) c.cache }, g))
        × ((length c.cache < c.maxsize) ⊎ (present (Dict.get key c.cache) ≡ true))

    -- The key was new and the cache full, and an entry with the least time stamp went.
    abbrev pub Evicted : State K V → Type 0
    Evicted s =
        (k : K) × (t : ℕ) × (v : Option V) × (s ≡ (
          record c {
            cache = Dict.put key (now, value) (Dict.remove k c.cache);
            stats = eviction c.stats;
          },
          eviction g,
        ))
        × (Dict.get k c.cache ≡ some (t, v))
        × ((j : K) (x : ℕ × Option V) → Dict.get j c.cache ≡ some x → t ≤ x.0)
        × (Dict.get key c.cache ≡ none)
        × (c.maxsize ≤ length c.cache)

    pub put-cases :
        0 < c.maxsize
        → IsDistinct c.cache
        → (s : State K V) × (put c g key value now ≡ ok s) × (Kept s ⊎ Evicted s)
    unfolding put
    put-cases pos d =
        elim (Bool-cases (leb c.maxsize (length c.cache) && not (Dict.has_key key c.cache))) [
          | inl full ↦
              let (k, t, v, found, there, least) = oldest_key-least c.cache d (ground arith) in
              (
                ((
                  record c {
                    cache = Dict.put key (now, value) (Dict.remove k c.cache);
                    stats = eviction c.stats;
                  },
                  eviction g,
                )),
                rw (full, found, make_room) refl,
                inr (
                  k,
                  t,
                  v,
                  refl,
                  there,
                  least,
                  ground (arith, has_key-get key c.cache),
                  ground (arith, has_key-get key c.cache),
                ),
              )
          | inr room ↦ (
            (record c { cache = Dict.put key (now, value) c.cache }, g),
            rw (room, make_room) refl,
            inl (refl, ground (arith, has_key-get key c.cache)),
          )
        ]

  outcome-IsValid :
      (c : TtlCacheWrapper K V) (g : CacheStats) (key : K) (value : Option V) (now : ℕ)
      (s : State K V)
      → 0 < c.maxsize
      → IsValid c
      → Kept c g key value now s ⊎ Evicted c g key value now s
      → IsValid s.0 × (s.0.maxsize ≡ c.maxsize)
  outcome-IsValid c g key value now s pos h (inl (e, room)) = rw e (
    record {
      bounded = ground (arith, length-put key (now, value) c.cache, h.bounded);
      distinct = put-IsDistinct key (now, value) c.cache h.distinct;
    },
    refl,
  )
  outcome-IsValid c g key value now s pos h (inr (k, t, v, e, there, least, new, full)) = rw e (
    record {
      bounded = ground (
        arith,
        get-remove k key c.cache,
        length-put_new key (now, value) (Dict.remove k c.cache),
        length-remove k (t, v) c.cache h.distinct there,
        h.bounded,
      );
      distinct =
          put-IsDistinct key (now, value) (Dict.remove k c.cache)
            (remove-IsDistinct k c.cache h.distinct);
    },
    refl,
  )

  -- With room for at least one entry, storing into a valid cache never raises, and leaves a valid
  -- cache: never more entries than `maxsize`, never a key twice.
  pub put-IsValid :
      (c : TtlCacheWrapper K V) (g : CacheStats) (key : K) (value : Option V) (now : ℕ)
      → 0 < c.maxsize
      → IsValid c
      → (s : State K V) × (put c g key value now ≡ ok s) × IsValid s.0 × (s.0.maxsize ≡ c.maxsize)
  put-IsValid c g key value now pos h =
      let (s, stored, which) = put-cases c g key value now pos h.distinct in
      let (valid, same) = outcome-IsValid c g key value now s pos h which in
      (s, stored, valid, same)
