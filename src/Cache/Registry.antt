-- ===== src/Cache/Registry.antt =====
-- The registry of all caches, by name, and the global statistics. The caches of a registry have one
-- type of keys and values here.
use tftp_os.Prelude.{ℕ, ◌≡◌, refl, Option, none, some, [], ◌∷◌, length, text_eq, arith}
use tftp_os.Prelude.Text.{Text}
use tftp_os.Dict
use tftp_os.Dict.{Dict}
use tftp_os.Cache.{CacheStats, TtlCacheWrapper, clear}

-- All three counts are set to zero.
unfoldable pub reset : CacheStats → CacheStats
reset s = record s { hits = 0; misses = 0; evictions = 0 }

module _ {K V : Type 0} where
  unfoldable pub clear_each : Dict Text (TtlCacheWrapper K V) → Dict Text (TtlCacheWrapper K V)
  unfolding clear
  clear_each [] = []
  clear_each ((name, c) ∷ registry) = (name, clear c) ∷ clear_each registry

  unfoldable pub clear_all_caches :
      Dict Text (TtlCacheWrapper K V)
      → CacheStats
      → (Dict Text (TtlCacheWrapper K V) × CacheStats) × ℕ
  unfolding clear_each reset
  clear_all_caches registry g = ((clear_each registry, reset g), length registry)

  unfoldable pub get_cache : Dict Text (TtlCacheWrapper K V) → Text → Option (TtlCacheWrapper K V)
  get_cache registry name = Dict.get name registry

  abbrev pub cleared : Option (TtlCacheWrapper K V) → Option (TtlCacheWrapper K V)
  cleared none = none
  cleared (some c) = some (clear c)

  -- Clearing all caches keeps each under its name, empty.
  pub get_cache-clear_all_caches :
      (registry : Dict Text (TtlCacheWrapper K V)) (g : CacheStats) (name : Text)
      → get_cache (clear_all_caches registry g).0.0 name ≡ cleared (get_cache registry name)
  unfolding get_cache clear_all_caches Dict.get
  get_cache-clear_all_caches [] g name = refl
  get_cache-clear_all_caches ((n, c) ∷ registry) g name =
      ground (arith, get_cache-clear_all_caches registry g name)
