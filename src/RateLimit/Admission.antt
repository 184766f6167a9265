-- ===== src/RateLimit/Admission.antt =====
-- How many requests of one key a limiter lets through in a window of time.
use tftp_os.Prelude.{
  ℕ, ◌+◌, ◌-◌, ◌*◌, ◌≤◌, ◌<◌, ◌≡◌, refl, Bool, true, false, ◌&&◌, Option, none, some, List, [], ◌∷◌,
  arith, ◌==◌, ==_iff, ==_refl, text_eq, inl, inr, Bool-cases,
}
use tftp_os.Prelude.Text.{Text}
use tftp_os.Prelude.Numbers.{le-mul, sub_self-mul, split_span}
use tftp_os.Dict
use tftp_os.Dict.Laws.{get-put, get-put_self}
use tftp_os.RateLimit.{Bucket, RateLimiter, unit, refilled, take_token, check}
use tftp_os.RateLimit.Bounds.{IsFilled, IsValid, check-IsValid}

abbrev pub one_if : Bool → ℕ
one_if true = 1
one_if false = 0

-- The requests, each with its key and its time, stand in the order of time within the window.
abbrev pub Within : ℕ → ℕ → List (Text × ℕ) → Type 0
Within start finish [] = start ≤ finish
Within start finish ((k, t) ∷ requests) = (start ≤ t) × Within t finish requests

Within-le :
    (start finish : ℕ) (requests : List (Text × ℕ)) → Within start finish requests → start ≤ finish
Within-le start finish [] w = w
Within-le start finish ((k, t) ∷ requests) w = omega (arith, Within-le t finish requests w.1)

module _ (hz : ℕ) where
  -- The requests of `key` that are let through, when those of all keys are checked in turn.
  unfoldable pub admitted : Text → RateLimiter → List (Text × ℕ) → ℕ
  admitted key l [] = 0
  admitted key l ((k, t) ∷ requests) =
      one_if (k == key && (check hz l k t).1) + admitted key (check hz l k t).0 requests

  -- What the key could take at a time, in units.
  level : ℕ → ℕ → Option Bucket → ℕ → ℕ
  level rpm burst none now = burst * unit hz
  level rpm burst (some b) now = refilled hz rpm b now

  module _ (rpm burst : ℕ) where
    level_grows :
        (o : Option Bucket) (s t : ℕ)
        → s ≤ t
        → ((b : Bucket) → o ≡ some b → IsFilled hz burst s b)
        → level rpm burst o t ≤ level rpm burst o s + (t - s) * rpm
    unfolding level refilled
    level_grows none s t le h = omega arith
    level_grows (some b) s t le h =
        omega (arith, split_span b.last_refill s t rpm (h b refl).past le)

    level-le :
        (o : Option Bucket) (s : ℕ)
        → ((b : Bucket) → o ≡ some b → IsFilled hz burst s b)
        → level rpm burst o s ≤ burst * unit hz
    unfolding level refilled
    level-le none s h = omega arith
    level-le (some b) s h = rw (h b refl).capacity (omega arith)

    level-take_token :
        (o : Option Bucket) (t : ℕ)
        → 0 < burst
        → one_if (take_token hz rpm burst o t).1 * unit hz
            + level rpm burst (some (take_token hz rpm burst o t).0) t
          ≤ level rpm burst o t
    unfolding level take_token refilled
    level-take_token none t pos = omega (arith, le-mul burst hz pos, sub_self-mul t rpm)
    level-take_token (some b) t pos = ground arith

  level_of : RateLimiter → Text → ℕ → ℕ
  level_of l key now = level l.requests_per_minute l.burst (Dict.get key l.buckets) now

  -- One check pays for a request that it lets through out of the level of its key, and leaves the
  -- levels of the other keys.
  level_of-check :
      (key : Text) (l : RateLimiter) (k : Text) (s t : ℕ)
      → 0 < l.burst
      → s ≤ t
      → IsValid hz s l
      → one_if (k == key && (check hz l k t).1) * unit hz + level_of (check hz l k t).0 key t
        ≤ level_of l key s + (t - s) * l.requests_per_minute
  unfolding level_of check
  level_of-check key l k s t pos le v =
      let grows =
        level_grows l.requests_per_minute l.burst (Dict.get key l.buckets) s t le (v.at_key key) in
      elim (Bool-cases (k == key)) [
        | inl same ↦
            let e : k ≡ key = (==_iff k key).0 same in
            let taken =
              level-take_token l.requests_per_minute l.burst (Dict.get key l.buckets) t pos in
            rw (e, get-put_self, ==_refl key) (omega (arith, grows, taken))
        | inr other ↦ rw (get-put, other) (omega (arith, grows))
      ]

  admitted-level :
      (key : Text) (l : RateLimiter) (start finish : ℕ) (requests : List (Text × ℕ))
      → 0 < l.burst
      → IsValid hz start l
      → Within start finish requests
      → admitted key l requests * unit hz
        ≤ level_of l key start + (finish - start) * l.requests_per_minute
  unfolding admitted check
  admitted-level key l start finish [] pos v w = omega arith
  admitted-level key l start finish ((k, t) ∷ requests) pos v w = omega (
    arith,
    level_of-check key l k start t pos w.0 v,
    admitted-level key (check hz l k t).0 t finish requests pos (check-IsValid hz l k start t w.0 v)
        w.1,
    split_span start t finish l.requests_per_minute w.0 (Within-le t finish requests w.1),
  )

  -- From any valid state, the requests of one key that are let through in a window are at most the
  -- burst and what the rate adds in the window, counted in units.
  pub admitted-le :
      (key : Text) (l : RateLimiter) (start finish : ℕ) (requests : List (Text × ℕ))
      → 0 < l.burst
      → IsValid hz start l
      → Within start finish requests
      → admitted key l requests * unit hz
        ≤ l.burst * unit hz + (finish - start) * l.requests_per_minute
  unfolding level_of
  admitted-le key l start finish requests pos v w =
      let below =
        level-le l.requests_per_minute l.burst (Dict.get key l.buckets) start (v.at_key key) in
      omega (arith, below, admitted-level key l start finish requests pos v w)
