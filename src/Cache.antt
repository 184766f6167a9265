-- ===== src/Cache.antt =====
-- tftpos/cache.py: a cache whose entries expire, of bounded size, and the decorator `ttl_cache`.
-- The time of each reading of the monotonic clock is an argument. A cached value is an `Option`:
-- `none` is Python's None, which `get` cannot tell from a miss. A method takes the wrapper and the
-- module's `_global_stats`, and returns both.
mod Oldest
pub mod Size
pub mod Lookup
pub mod Memo
pub mod Eviction
pub mod Registry
use tftp_os.Prelude.{
  ℕ, suc, ◌+◌, ◌-◌, Bool, true, false, not, ◌&&◌, Option, none, some, List, [], ◌∷◌, ltb, leb,
  if◌then◌else◌, length, Eq,
}
use tftp_os.Prelude.Text.{Text}
use tftp_os.Result.{Result, ok, raise, value_error, ◌>>=◌}
use tftp_os.Dict
use tftp_os.Dict.{Dict}

pub record CacheStats : Type 0 where
  pub hits : ℕ
  pub misses : ℕ
  pub evictions : ℕ

abbrev pub no_stats : CacheStats
no_stats = record { hits = 0; misses = 0; evictions = 0 }

unfoldable pub hit : CacheStats → CacheStats
hit s = record s { hits = s.hits + 1 }

unfoldable pub miss : CacheStats → CacheStats
miss s = record s { misses = s.misses + 1 }

unfoldable pub eviction : CacheStats → CacheStats
eviction s = record s { evictions = s.evictions + 1 }

pub record TtlCacheWrapper (K V : Type 0) : Type 0 where
  pub name : Text
  pub maxsize : ℕ
  pub ttl : ℕ
  pub cache : Dict K (ℕ × Option V)
  pub stats : CacheStats

-- The wrapper and the global statistics.
abbrev pub State : Type 0 → Type 0 → Type 0
State K V = TtlCacheWrapper K V × CacheStats

module _ {K V : Type 0} where
  unfoldable pub init : Text → ℕ → ℕ → TtlCacheWrapper K V
  init name maxsize ttl = record {
    name = name;
    maxsize = maxsize;
    ttl = ttl;
    cache = [];
    stats = no_stats;
  }

  -- The key with the least time stamp, the first of these: `min` over the keys.
  unfoldable pub oldest_from : K → ℕ → Dict K (ℕ × Option V) → K
  oldest_from k t [] = k
  oldest_from k t ((j, (s, v)) ∷ d) =
      oldest_from (if ltb s t then j else k) (if ltb s t then s else t) d

  -- `min` of no keys raises.
  unfoldable pub oldest_key : Dict K (ℕ × Option V) → Result K
  unfolding oldest_from
  oldest_key [] = raise value_error
  oldest_key ((k, (t, v)) ∷ d) = ok (oldest_from k t d)

  unfoldable pub clear : TtlCacheWrapper K V → TtlCacheWrapper K V
  clear c = record c { cache = [] }

  abbrev pub size : TtlCacheWrapper K V → ℕ
  size c = length c.cache

  -- The keys that satisfy the predicate.
  unfoldable pub matching : (K → Bool) → Dict K (ℕ × Option V) → List K
  matching predicate [] = []
  matching predicate ((k, e) ∷ d) =
      let rest = matching predicate d in if predicate k then k ∷ rest else rest

module _ {K V : Type 0} ⦃e : Eq K⦄ where
  -- The rest of `get` on the entry that was found.
  get_entry :
      TtlCacheWrapper K V → CacheStats → K → ℕ → Option (ℕ × Option V) → State K V × Option V
  unfolding hit miss eviction
  get_entry c g key now none = ((record c { stats = miss c.stats }, miss g), none)
  get_entry c g key now (some (timestamp, value)) =
      if ltb c.ttl (now - timestamp)
      then (
        (
          record c { cache = Dict.remove key c.cache; stats = miss (eviction c.stats) },
          miss (eviction g),
        ),
        none,
      )
      else ((record c { stats = hit c.stats }, hit g), value)

  unfoldable pub get : TtlCacheWrapper K V → CacheStats → K → ℕ → State K V × Option V
  unfolding get_entry
  get c g key now = get_entry c g key now (Dict.get key c.cache)

  -- Drops the oldest entry if there is no room for a new key.
  unfoldable pub make_room : TtlCacheWrapper K V → CacheStats → K → Result (State K V)
  unfolding oldest_key eviction
  make_room c g key =
      if leb c.maxsize (length c.cache) && not (Dict.has_key key c.cache)
      then (do
        oldest ← oldest_key c.cache
        ok (record c { cache = Dict.remove oldest c.cache; stats = eviction c.stats }, eviction g))
      else ok (c, g)

  unfoldable pub put : TtlCacheWrapper K V → CacheStats → K → Option V → ℕ → Result (State K V)
  unfolding make_room
  put c g key value now = do
    (c', g') ← make_room c g key
    ok (record c' { cache = Dict.put key (now, value) c'.cache }, g')

  unfoldable pub invalidate : TtlCacheWrapper K V → CacheStats → K → State K V × Bool
  unfolding eviction
  invalidate c g key =
      if Dict.has_key key c.cache
      then (
        (record c { cache = Dict.remove key c.cache; stats = eviction c.stats }, eviction g),
        true,
      )
      else ((c, g), false)

  -- The loop over `to_remove`.
  unfoldable pub remove_all : List K → TtlCacheWrapper K V → CacheStats → State K V × ℕ
  unfolding eviction
  remove_all [] c g = ((c, g), 0)
  remove_all (k ∷ ks) c g =
      let (s, removed) =
        remove_all ks (record c { cache = Dict.remove k c.cache; stats = eviction c.stats })
          (eviction g) in
      (s, suc removed)

  unfoldable pub invalidate_matching : TtlCacheWrapper K V → CacheStats → (K → Bool) → State K V × ℕ
  unfolding remove_all matching
  invalidate_matching c g predicate = remove_all (matching predicate c.cache) c g

  -- `wrapped` of the decorator, over the function that it wraps. The clock is read at the lookup,
  -- at the second look, and at the store.
  recheck : TtlCacheWrapper K V → ℕ → Option (ℕ × Option V) → Option (Option V)
  recheck c now none = none
  recheck c now (some (timestamp, value)) = if leb (now - timestamp) c.ttl then some value else none

  compute :
      (K → Result (Option V))
      → State K V
      → K
      → ℕ
      → Option (Option V)
      → Result (State K V × Option V)
  unfolding put
  compute func s key now (some value) = ok (s, value)
  compute func (c, g) key now none = do
    result ← func key
    s ← put c g key result now
    ok (s, result)

  finish :
      (K → Result (Option V)) → State K V → K → ℕ → ℕ → Option V → Result (State K V × Option V)
  unfolding recheck compute
  finish func s key now₂ now₃ (some result) = ok (s, some result)
  finish func (c, g) key now₂ now₃ none =
      compute func (c, g) key now₃ (recheck c now₂ (Dict.get key c.cache))

  unfoldable pub wrapped :
      (K → Result (Option V))
      → TtlCacheWrapper K V
      → CacheStats
      → K
      → ℕ
      → ℕ
      → ℕ
      → Result (State K V × Option V)
  unfolding get finish
  wrapped func c g key now₁ now₂ now₃ =
      let (s, result) = get c g key now₁ in finish func s key now₂ now₃ result
