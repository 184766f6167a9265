-- ===== src/RateLimit/Waiting.antt =====
-- The promises of `remaining` and `retry_after` about the next `check`.
use tftp_os.Prelude.{
  ℕ, ◌+◌, ◌-◌, ◌*◌, ◌≤◌, ◌<◌, ◌≡◌, ◌↔◌, true, Option, none, some, arith, text_eq, Option-cases, inl,
  inr, refl, ◌∙◌, Bool-cases, leb, leb→le,
}
use tftp_os.Prelude.Text.{Text}
use tftp_os.Prelude.Numbers.{
  le-mul, sub_self-mul, split_span, div_sub_self, mul-div_self, lt-div, le-div,
}
use tftp_os.Dict
use tftp_os.Dict.Laws.{get-put_self}
use tftp_os.RateLimit.{
  Bucket, RateLimiter, ticks, unit, refilled, take_token, check, remaining, remaining_of,
  retry_after,
}
use tftp_os.RateLimit.Bounds.{IsFilled, IsValid}
use tftp_os.RateLimit.Admission.{one_if}

module _ (hz : ℕ) where
  refilled_later :
      (rpm burst : ℕ) (b : Bucket) (now t : ℕ)
      → 0 < burst
      → IsFilled hz burst now b
      → now ≤ t
      → refilled hz rpm b now < unit hz
      → (unit hz - refilled hz rpm b now ≤ (t - now) * rpm) ↔ (unit hz ≤ refilled hz rpm b t)
  unfolding refilled
  refilled_later rpm burst b now t pos f le h =
      let span = split_span b.last_refill now t rpm f.past le in
      let room = le-mul burst hz pos in
      rw f.capacity ((λ k. omega (arith, span, room)), (λ k. omega (arith, span, room)))

  -- Where `retry_after` names a wait, a check is let through once that time has passed, and not
  -- before.
  pub check-retry_after :
      (l : RateLimiter) (key : Text) (now t needed rate : ℕ)
      → 0 < l.burst
      → IsValid hz now l
      → now ≤ t
      → retry_after hz l key now ≡ ticks needed rate
      → (needed ≤ (t - now) * rate) ↔ ((check hz l key t).1 ≡ true)
  unfolding check retry_after
  check-retry_after l key now t needed rate pos v le h =
      elim (Option-cases (Dict.get key l.buckets)) [
        | inl e ↦ absurd (ground arith)
        | inr (b, e) ↦
            ground (
              arith,
              refilled_later l.requests_per_minute l.burst b now t pos (v.at_key key b e) le,
            )
      ]

  -- At the time of the refill a bucket has what is stored, if that is within its capacity.
  refilled_now :
      (rpm tokens capacity now : ℕ)
      → tokens ≤ capacity * unit hz
      → refilled hz rpm (record { tokens = tokens; capacity = capacity; last_refill = now }) now
        ≡ tokens
  unfolding refilled
  refilled_now rpm tokens capacity now h = omega (arith, sub_self-mul now rpm)

  refilled-le : (rpm : ℕ) (b : Bucket) (now : ℕ) → refilled hz rpm b now ≤ b.capacity * unit hz
  unfolding refilled
  refilled-le rpm b now = omega arith

  remaining-take_token :
      (rpm burst now : ℕ) (o : Option Bucket)
      → 0 < hz
      → 0 < burst
      → ((b : Bucket) → o ≡ some b → IsFilled hz burst now b)
      → remaining_of hz rpm burst (some (take_token hz rpm burst o now).0) now
          + one_if (take_token hz rpm burst o now).1
        ≡ remaining_of hz rpm burst o now
  unfolding remaining_of refilled take_token
  remaining-take_token rpm burst now none h pos v =
      rw (refilled_now rpm (burst * unit hz - unit hz) burst now (omega arith)) (
        div_sub_self (burst * unit hz) (unit hz) (omega arith) (le-mul burst (unit hz) pos)
        ∙ mul-div_self burst (unit hz) (omega arith))
  remaining-take_token rpm burst now (some b) h pos v =
      let tokens = refilled hz rpm b now in
      let most = refilled-le rpm b now in
      elim (Bool-cases (leb (unit hz) tokens)) [
        | inl enough ↦
            rw (enough, refilled_now rpm (tokens - unit hz) b.capacity now (omega arith))
              (div_sub_self tokens (unit hz) (omega arith) (leb→le _ _ enough))
        | inr short ↦ rw (short, refilled_now rpm tokens b.capacity now most) (omega arith)
      ]

  take_token-remaining :
      (rpm burst now : ℕ) (o : Option Bucket)
      → 0 < hz
      → 0 < burst
      → ((take_token hz rpm burst o now).1 ≡ true) ↔ (1 ≤ remaining_of hz rpm burst o now)
  unfolding remaining_of take_token
  take_token-remaining rpm burst now none h pos = ((λ _. pos), (λ _. refl))
  take_token-remaining rpm burst now (some b) h pos =
      let few = lt-div (refilled hz rpm b now) (unit hz) (omega arith) in
      let many = le-div (refilled hz rpm b now) (unit hz) (omega arith) in ground (arith, few, many)

  -- A check takes one of the tokens that `remaining` reports if it is let through, and none if it
  -- is refused; it is let through exactly when one is reported.
  pub remaining-check :
      (l : RateLimiter) (key : Text) (now : ℕ)
      → 0 < hz
      → 0 < l.burst
      → IsValid hz now l
      → (remaining hz (check hz l key now).0 key now + one_if (check hz l key now).1
          ≡ remaining hz l key now)
        × (((check hz l key now).1 ≡ true) ↔ (1 ≤ remaining hz l key now))
  unfolding check remaining
  remaining-check l key now h pos v =
      let o = Dict.get key l.buckets in
      (
        rw get-put_self
            (remaining-take_token l.requests_per_minute l.burst now o h pos (v.at_key key)),
        take_token-remaining l.requests_per_minute l.burst now o h pos,
      )
