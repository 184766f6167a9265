-- ===== src/RateLimit/Bounds.antt =====
-- The well-formedness of a limiter: no bucket holds more than its burst.
use tftp_os.Prelude.{ℕ, ◌*◌, ◌≤◌, ◌≡◌, refl, Option, none, some, arith, ==_iff, text_eq}
use tftp_os.Prelude.Text.{Text}
use tftp_os.Dict
use tftp_os.Dict.{Dict}
use tftp_os.Dict.Laws.{get-put}
use tftp_os.RateLimit.{Bucket, RateLimiter, unit, take_token, check}

module _ (hz : ℕ) where
  -- A bucket of a limiter with this burst, at a time not before its last refill.
  pub record IsFilled (burst now : ℕ) (b : Bucket) : Type 0 where
    pub capacity : b.capacity ≡ burst
    pub tokens : b.tokens ≤ burst * unit hz
    pub past : b.last_refill ≤ now

  pub record IsValid (now : ℕ) (l : RateLimiter) : Type 0 where
    pub at_key : (k : Text) (b : Bucket) → Dict.get k l.buckets ≡ some b → IsFilled l.burst now b

  pub take_token-IsFilled :
      (rpm burst : ℕ) (o : Option Bucket) (now then' : ℕ)
      → now ≤ then'
      → ((b : Bucket) → o ≡ some b → IsFilled burst now b)
      → IsFilled burst then' (take_token hz rpm burst o then').0
  unfolding take_token
  take_token-IsFilled rpm burst none now then' le h = omega arith
  take_token-IsFilled rpm burst (some b) now then' le h = ground (arith, h b refl)

  -- A check, allowed or not, keeps every bucket within the burst.
  pub check-IsValid :
      (l : RateLimiter) (key : Text) (now then' : ℕ)
      → now ≤ then'
      → IsValid now l
      → IsValid then' (check hz l key then').0
  unfolding check
  check-IsValid l key now then' le v = record {
    at_key = λ k b p. ground (
      arith,
      get-put key k (take_token hz l.requests_per_minute l.burst (Dict.get key l.buckets) then').0
          l.buckets,
      ==_iff key k,
      v.at_key k b,
      take_token-IsFilled l.requests_per_minute l.burst (Dict.get key l.buckets) now then' le
          (v.at_key key),
    );
  }
