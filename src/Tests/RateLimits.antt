-- ===== src/Tests/RateLimits.antt =====
-- tftpos/rate_limit.py on a limiter of one request in a second and a burst of three. The clock has
-- one tick in a second.
use tftp_os.Prelude.{
  ℕ, ◌+◌, ◌-◌, ◌*◌, ◌≤◌, ◌≡◌, refl, [], ◌∷◌, arith, codes, List, text_eq, text_beq,
}
use tftp_os.Prelude.Text.{Text}
use tftp_os.Dict
use tftp_os.Dict.Distinct.{IsDistinct}
use tftp_os.RateLimit.{
  RateLimiter, unit, ticks, refilled, take_token, check, remaining, retry_after, cleanup,
}
use tftp_os.RateLimit.Bounds.{IsValid}
use tftp_os.RateLimit.Admission.{admitted, admitted-le}
use tftp_os.RateLimit.Cleanup.{check-cleanup}

abbrev client : Text
client = codes "10.0.0.7"

abbrev other : Text
other = codes "10.0.0.8"

-- A bucket that is empty since the tick 4, and one with two tokens since the tick 1.
abbrev limiter : RateLimiter
limiter = record {
  requests_per_minute = 60;
  burst = 3;
  buckets =
      (client, record { tokens = 0; capacity = 3; last_refill = 4 })
      ∷ (other, record { tokens = 120; capacity = 3; last_refill = 1 })
      ∷ [];
}

IsValid-from : (now : ℕ) → 4 ≤ now → IsValid 1 now limiter
unfolding Dict.get
IsValid-from now h = record { at_key = λ k b p. ground arith }

distinct : IsDistinct limiter.buckets
unfolding Dict.get text_beq
distinct = (refl, (refl, tt))

abbrev requests : List (Text × ℕ)
requests = (client, 5) ∷ (client, 5) ∷ (other, 6) ∷ (client, 7) ∷ []

admitted_run : admitted 1 client limiter requests ≡ 2
unfolding admitted check take_token refilled Dict.get Dict.put text_beq
admitted_run = refl

admitted-le_example :
    admitted 1 client limiter requests * unit 1
    ≤ limiter.burst * unit 1 + (9 - 4) * limiter.requests_per_minute
admitted-le_example =
    admitted-le 1 client limiter 4 9 requests (omega arith) (IsValid-from 4 (omega arith))
      (ground arith)

waits : retry_after 1 limiter client 4 ≡ ticks 60 60
unfolding retry_after Dict.get refilled text_beq
waits = refl

check-cleanup_example :
    ((check 1 (cleanup limiter 3 6).0 other 7).1 ≡ (check 1 limiter other 7).1)
    × (remaining 1 (cleanup limiter 3 6).0 other 7 ≡ remaining 1 limiter other 7)
check-cleanup_example =
    check-cleanup 1 limiter 3 6 7 other (omega arith) (omega arith) distinct
      (IsValid-from 6 (omega arith)) (omega arith) (omega arith)
