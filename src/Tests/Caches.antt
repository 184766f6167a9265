-- ===== src/Tests/Caches.antt =====
-- tftpos/cache.py on a full cache of two entries with a time to live of ten ticks.
use tftp_os.Prelude.{
  ℕ, ◌≡◌, refl, Bool, Option, none, some, [], ◌∷◌, arith, codes, nat_eq, if◌then◌else◌, leb,
  nat_beq,
}
use tftp_os.Result.{Result, ok}
use tftp_os.Dict
use tftp_os.Cache.{
  TtlCacheWrapper, State, no_stats, put, wrapped, make_room, oldest_key, oldest_from, eviction,
}
use tftp_os.Cache.Size.{IsValid, put-IsValid}
use tftp_os.Cache.Memo.{IsMemo, Agrees, wrapped-Agrees}

abbrev cache : TtlCacheWrapper ℕ ℕ
cache = record {
  name = codes "squares";
  maxsize = 2;
  ttl = 10;
  cache = (3, (5, some 9)) ∷ (4, (2, some 16)) ∷ [];
  stats = no_stats;
}

valid : IsValid cache
unfolding Dict.get
valid = record { bounded = omega arith; distinct = (refl, (refl, tt)) }

put_run :
    put cache no_stats 5 (some 25) 6
    ≡ ok (
      record cache { cache = (3, (5, some 9)) ∷ (5, (6, some 25)) ∷ []; stats = eviction no_stats },
      eviction no_stats,
    )
unfolding put make_room oldest_key oldest_from eviction Dict.put Dict.remove Dict.has_key
put_run = refl

put-IsValid_example :
    (s : State ℕ ℕ) × (put cache no_stats 5 (some 25) 6 ≡ ok s)
    × IsValid s.0
    × (s.0.maxsize ≡ cache.maxsize)
put-IsValid_example = put-IsValid cache no_stats 5 (some 25) 6 (omega arith) valid

abbrev small : ℕ → Bool
small k = leb k 3

-- The wrapped function: it answers even numbers and has None for the odd ones.
abbrev halves : ℕ → Result (Option ℕ)
halves n = if nat_beq n 4 then ok (some 2) else ok none

abbrev memo : TtlCacheWrapper ℕ ℕ
memo = record cache { cache = (4, (2, some 2)) ∷ (5, (3, none)) ∷ [] }

memo-IsMemo : IsMemo halves memo
unfolding Dict.get
memo-IsMemo = record {
  valid = record { bounded = omega arith; distinct = (refl, (refl, tt)) };
  room = omega arith;
  entries = λ k t v p. ground arith;
}

wrapped-Agrees_example : Agrees halves (wrapped halves memo no_stats 5 4 4 5) (halves 5)
wrapped-Agrees_example = wrapped-Agrees halves memo no_stats 5 4 4 5 memo-IsMemo
