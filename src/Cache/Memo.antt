-- ===== src/Cache/Memo.antt =====
-- The decorator: a call through the cache returns what the function returns.
use tftp_os.Prelude.{
  ℕ, ◌-◌, ◌<◌, ◌≡◌, refl, Option, none, some, arith, Eq, ==_iff, ltb, Option-cases, Bool-cases, inl,
  inr, ◌⊎◌,
}
use tftp_os.Result.{Result, ok, raise}
use tftp_os.Dict
use tftp_os.Dict.Distinct.{remove-IsDistinct}
use tftp_os.Dict.Laws.{get-put, get-remove}
use tftp_os.Dict.Size.{length-remove-le}
use tftp_os.Cache.Size.{IsValid, Kept, Evicted, put-cases, put-IsValid}
use tftp_os.Cache.{
  CacheStats, TtlCacheWrapper, State, get, put, recheck, compute, finish, wrapped, hit,
}

module _ {K V : Type 0} ⦃e : Eq K⦄ (func : K → Result (Option V)) where
  -- Every entry holds what the function returns for its key.
  pub record IsMemo (c : TtlCacheWrapper K V) : Type 0 where
    pub valid : IsValid c
    pub room : 0 < c.maxsize
    pub entries : (k : K) (t : ℕ) (v : Option V) → Dict.get k c.cache ≡ some (t, v) → func k ≡ ok v

  pub get-IsMemo :
      (c : TtlCacheWrapper K V) (g : CacheStats) (key : K) (now : ℕ)
      → IsMemo c
      → IsMemo (get c g key now).0.0
  unfolding get hit
  get-IsMemo c g key now m = elim (Option-cases (Dict.get key c.cache)) [
    | inl p ↦ rw p (record {
      valid = record { bounded = m.valid.bounded; distinct = m.valid.distinct };
      room = m.room;
      entries = m.entries;
    })
    | inr ((t, v), p) ↦ elim (Bool-cases (ltb c.ttl (now - t))) [
      | inl old ↦
          rw (p, get, old)
            (record {
              valid = record {
                bounded = omega (arith, length-remove-le key c.cache, m.valid.bounded);
                distinct = remove-IsDistinct key c.cache m.valid.distinct;
              };
              room = m.room;
              entries = λ k u w q. ground (arith, get-remove key k c.cache, m.entries k u w);
            })
      | inr young ↦
          rw (p, get, young)
            (record {
              valid = record { bounded = m.valid.bounded; distinct = m.valid.distinct };
              room = m.room;
              entries = m.entries;
            })
    ]
  ]

  put-entries :
      (c : TtlCacheWrapper K V) (g : CacheStats) (key : K) (value : Option V) (now : ℕ)
      (s : State K V)
      → IsMemo c
      → func key ≡ ok value
      → Kept c g key value now s ⊎ Evicted c g key value now s
      → (k : K) (t : ℕ) (v : Option V) → Dict.get k s.0.cache ≡ some (t, v)
      → func k ≡ ok v
  put-entries c g key value now s m f (inl (p, room)) k t v q =
      ground (arith, get-put key k (now, value) c.cache, ==_iff key k, m.entries k t v)
  put-entries c g key value now s m f (inr (o, u, w, p, there, least, new, full)) k t v q = ground (
    arith,
    get-put key k (now, value) (Dict.remove o c.cache),
    get-remove o k c.cache,
    ==_iff key k,
    m.entries k t v,
  )

  put-IsMemo :
      (c : TtlCacheWrapper K V) (g : CacheStats) (key : K) (value : Option V) (now : ℕ)
      → IsMemo c
      → func key ≡ ok value
      → (s : State K V) × (put c g key value now ≡ ok s) × IsMemo s.0
  put-IsMemo c g key value now m f =
      let (s, stored, which) = put-cases c g key value now m.room m.valid.distinct in
      let (s', stored', valid, same) = put-IsValid c g key value now m.room m.valid in
      let e' : s' ≡ s = ground arith in
      let roomy : 0 < s'.0.maxsize = omega (arith, same, m.room) in
      (
        s,
        stored,
        record {
          valid = rw e' at valid;
          room = rw e' at roomy;
          entries = λ k t v p. put-entries c g key value now s m f which k t v p;
        },
      )

  -- The result of a call: that of the function, with a state that is again a memo of it.
  abbrev pub Agrees : Result (State K V × Option V) → Result (Option V) → Type 0
  Agrees (ok (s, v)) r = IsMemo s.0 × (r ≡ ok v)
  Agrees (raise x) r = r ≡ raise x

  compute-Agrees :
      (c : TtlCacheWrapper K V) (g : CacheStats) (key : K) (now : ℕ) (o : Option (Option V))
      → IsMemo c
      → ((v : Option V) → o ≡ some v → func key ≡ ok v)
      → Agrees (compute func (c, g) key now o) (func key)
  unfolding compute
  compute-Agrees c g key now (some v) m h = (m, h v refl)
  compute-Agrees c g key now none m h = go (func key) refl
    where
      go :
          (r : Result (Option V))
          → func key ≡ r
          → Agrees (compute func (c, g) key now none) (func key)
      go (raise x) f = rw (f, compute) refl
      go (ok v) f =
          let (s, stored, memo) = put-IsMemo c g key v now m f in
          rw (f, stored, compute) (memo, refl)

  recheck-agrees :
      (c : TtlCacheWrapper K V) (key : K) (now : ℕ) (v : Option V)
      → IsMemo c
      → recheck c now (Dict.get key c.cache) ≡ some v
      → func key ≡ ok v
  unfolding recheck
  recheck-agrees c key now v m h = elim (Option-cases (Dict.get key c.cache)) [
    | inl p ↦ absurd (ground arith)
    | inr ((t, w), p) ↦ ground (arith, m.entries key t w p)
  ]

  finish-Agrees :
      (c : TtlCacheWrapper K V) (g : CacheStats) (key : K) (now₂ now₃ : ℕ) (o : Option V)
      → IsMemo c
      → ((v : V) → o ≡ some v → func key ≡ ok (some v))
      → Agrees (finish func (c, g) key now₂ now₃ o) (func key)
  unfolding finish
  finish-Agrees c g key now₂ now₃ (some v) m h = (m, h v refl)
  finish-Agrees c g key now₂ now₃ none m h =
      compute-Agrees c g key now₃ (recheck c now₂ (Dict.get key c.cache)) m
        (λ v p. recheck-agrees c key now₂ v m p)

  found-agrees :
      (c : TtlCacheWrapper K V) (g : CacheStats) (key : K) (now : ℕ) (v : V)
      → IsMemo c
      → (get c g key now).1 ≡ some v
      → func key ≡ ok (some v)
  unfolding get
  found-agrees c g key now v m h = elim (Option-cases (Dict.get key c.cache)) [
    | inl p ↦ absurd (ground arith)
    | inr ((t, w), p) ↦ ground (arith, m.entries key t w p)
  ]

  -- In a cache with room for at least one entry (maxsize at least 1), which is valid and whose entries
  -- all hold what the function returns: whatever has expired, been evicted or been cached, also a cached
  -- None, a call through the cache returns what the function returns, or raises what it raises, and
  -- leaves such a cache.
  pub wrapped-Agrees :
      (c : TtlCacheWrapper K V) (g : CacheStats) (key : K) (now₁ now₂ now₃ : ℕ)
      → IsMemo c
      → Agrees (wrapped func c g key now₁ now₂ now₃) (func key)
  unfolding wrapped
  wrapped-Agrees c g key now₁ now₂ now₃ m =
      finish-Agrees (get c g key now₁).0.0 (get c g key now₁).0.1 key now₂ now₃ (get c g key now₁).1
        (get-IsMemo c g key now₁ m) (λ v p. found-agrees c g key now₁ v m p)
