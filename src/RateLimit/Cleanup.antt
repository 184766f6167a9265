-- ===== src/RateLimit/Cleanup.antt =====
-- `cleanup` forgets the stale buckets and no others, and forgetting them changes no verdict where
-- a bucket fills up within the age.
use tftp_os.Prelude.{
  ℕ, ◌-◌, ◌*◌, ◌≤◌, ◌<◌, ◌≡◌, refl, Bool, false, Option, none, some, List, [], ◌∷◌, arith, ==_iff,
  text_eq, inl, inr, if◌then◌else◌, Bool-cases, ltb, ltb→lt, sym,
}
use tftp_os.Prelude.Text.{Text}
use tftp_os.Prelude.Numbers.{le-mul, mul-div_self}
use tftp_os.Dict
use tftp_os.Dict.{Dict}
use tftp_os.Dict.Laws.{get-remove, among}
use tftp_os.Dict.Distinct.{IsDistinct}
use tftp_os.RateLimit.{
  Bucket, RateLimiter, unit, refilled, take_token, check, remaining, remaining_of, cleanup,
  remove_keys, stale_keys, stale,
}
use tftp_os.RateLimit.Bounds.{IsFilled, IsValid}

get-remove_keys :
    (k : Text) (ks : List Text) (d : Dict Text Bucket)
    → Dict.get k (remove_keys ks d) ≡ (if among k ks then none else Dict.get k d)
unfolding among remove_keys
get-remove_keys k [] d = refl
get-remove_keys k (j ∷ ks) d =
    ground (arith, get-remove_keys k ks (Dict.remove j d), get-remove j k d)

-- What is left of a key's bucket.
abbrev pub fresh : ℕ → ℕ → Option Bucket → Option Bucket
fresh max_age now none = none
fresh max_age now (some b) = if stale max_age now b then none else some b

abbrev is_stale : ℕ → ℕ → Option Bucket → Bool
is_stale max_age now none = false
is_stale max_age now (some b) = stale max_age now b

among-stale_keys :
    (max_age now : ℕ) (k : Text) (d : Dict Text Bucket)
    → IsDistinct d
    → among k (stale_keys max_age now d) ≡ is_stale max_age now (Dict.get k d)
unfolding among stale_keys Dict.get
among-stale_keys max_age now k [] h = refl
among-stale_keys max_age now k ((j, b) ∷ d) h =
    ground (arith, among-stale_keys max_age now k d h.1, ==_iff j k)

-- `cleanup` drops exactly the buckets whose last refill is older than the age, and keeps every
-- other one as it is.
pub get-cleanup :
    (l : RateLimiter) (max_age now : ℕ) (k : Text)
    → IsDistinct l.buckets
    → Dict.get k (cleanup l max_age now).0.buckets ≡ fresh max_age now (Dict.get k l.buckets)
unfolding cleanup
get-cleanup l max_age now k h =
    rw (get-remove_keys, among-stale_keys max_age now k l.buckets h)
      (fresh_lem (Dict.get k l.buckets))
  where
    fresh_lem :
        (o : Option Bucket) → (if is_stale max_age now o then none else o) ≡ fresh max_age now o
    fresh_lem none = refl
    fresh_lem (some b) = refl

rpm-cleanup :
    (l : RateLimiter) (max_age now : ℕ)
    → (cleanup l max_age now).0.requests_per_minute ≡ l.requests_per_minute
unfolding cleanup
rpm-cleanup l max_age now = refl

burst-cleanup : (l : RateLimiter) (max_age now : ℕ) → (cleanup l max_age now).0.burst ≡ l.burst
unfolding cleanup
burst-cleanup l max_age now = refl

module _ (hz : ℕ) where
  forget_full :
      (rpm burst max_age now t : ℕ) (b : Bucket)
      → IsFilled hz burst now b
      → burst * unit hz ≤ max_age * rpm
      → max_age < now - b.last_refill
      → now ≤ t
      → refilled hz rpm b t ≡ burst * unit hz
  unfolding refilled
  forget_full rpm burst max_age now t b f enough old le =
      let grown : max_age * rpm ≤ (t - b.last_refill) * rpm = grind arith in
      rw f.capacity (omega arith)

  fresh-same :
      (rpm burst max_age now t : ℕ) (o : Option Bucket)
      → 0 < hz
      → 0 < burst
      → ((b : Bucket) → o ≡ some b → IsFilled hz burst now b)
      → burst * unit hz ≤ max_age * rpm
      → now ≤ t
      → ((take_token hz rpm burst (fresh max_age now o) t).1 ≡ (take_token hz rpm burst o t).1)
        × (remaining_of hz rpm burst (fresh max_age now o) t ≡ remaining_of hz rpm burst o t)
  unfolding take_token remaining_of stale
  fresh-same rpm burst max_age now t none h pos v enough le = (refl, refl)
  fresh-same rpm burst max_age now t (some b) h pos v enough le =
      elim (Bool-cases (ltb max_age (now - b.last_refill))) [
        | inl old ↦
            let full =
              forget_full rpm burst max_age now t b (v b refl) enough (ltb→lt _ _ old) le in
            let room = le-mul burst hz pos in
            rw (old, full) (ground arith, sym (mul-div_self burst (unit hz) (omega arith)))
        | inr young ↦ rw young (refl, refl)
      ]

  -- Where the rate fills a bucket within `max_age`, `cleanup` changes neither the verdict nor the
  -- count of any later request.
  pub check-cleanup :
      (l : RateLimiter) (max_age now t : ℕ) (k : Text)
      → 0 < hz
      → 0 < l.burst
      → IsDistinct l.buckets
      → IsValid hz now l
      → l.burst * unit hz ≤ max_age * l.requests_per_minute
      → now ≤ t
      → ((check hz (cleanup l max_age now).0 k t).1 ≡ (check hz l k t).1)
        × (remaining hz (cleanup l max_age now).0 k t ≡ remaining hz l k t)
  unfolding check remaining
  check-cleanup l max_age now t k h pos d v enough le =
      let same =
        fresh-same l.requests_per_minute l.burst max_age now t (Dict.get k l.buckets) h pos
          (v.at_key k) enough le in
      (
        rw (rpm-cleanup, burst-cleanup, get-cleanup l max_age now k d) same.0,
        rw (rpm-cleanup, burst-cleanup, get-cleanup l max_age now k d) same.1,
      )
