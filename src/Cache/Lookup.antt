-- ===== src/Cache/Lookup.antt =====
-- What a lookup answers after a store.
use tftp_os.Prelude.{
  ℕ, ◌-◌, ◌<◌, ◌≡◌, refl, Option, none, some, arith, Eq, ltb, Option-cases, inl, inr, if◌then◌else◌,
}
use tftp_os.Result.{ok}
use tftp_os.Dict
use tftp_os.Dict.Laws.{get-put_self}
use tftp_os.Cache.Size.{IsValid, put-cases}
use tftp_os.Cache.{CacheStats, TtlCacheWrapper, State, get, put}

-- What a lookup reads off an entry: the value, while it is not older than the time to live.
abbrev pub live : {V : Type 0} → ℕ → ℕ → Option (ℕ × Option V) → Option V
live ttl now none = none
live ttl now (some (t, v)) = if ltb ttl (now - t) then none else v

module _ {K V : Type 0} ⦃e : Eq K⦄ where
  pub get-live :
      (c : TtlCacheWrapper K V) (g : CacheStats) (key : K) (now : ℕ)
      → (get c g key now).1 ≡ live c.ttl now (Dict.get key c.cache)
  unfolding get
  get-live c g key now = ground (arith, Option-cases (Dict.get key c.cache))

  -- A lookup after a store returns the stored value as long as it is not older than the time to
  -- live, and nothing afterwards.
  pub get-put_live :
      (c : TtlCacheWrapper K V) (g : CacheStats) (key : K) (value : Option V) (now later : ℕ)
      → 0 < c.maxsize
      → IsValid c
      → (s : State K V) × (put c g key value now ≡ ok s)
        × ((get s.0 s.1 key later).1 ≡ (if ltb c.ttl (later - now) then none else value))
  get-put_live c g key value now later pos h =
      let (s, stored, which) = put-cases c g key value now pos h.distinct in
      (
        s,
        stored,
        elim which [
          | inl (p, room) ↦ rw p (rw (get-live, get-put_self) refl)
          | inr (k, t, v, p, there, least, new, full) ↦ rw p (rw (get-live, get-put_self) refl)
        ],
      )
