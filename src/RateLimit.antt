-- ===== src/RateLimit.antt =====
-- tftpos/rate_limit.py: token buckets for each key, and the global limiters.
-- Time is a number of ticks of the monotonic clock, `hz` to the second, and is an argument of each
-- method. Rates are whole numbers of requests in a minute. Tokens are counted in units: one token
-- is `unit hz = 60 * hz` units, so that a tick adds `requests_per_minute` units, exactly.
-- A burst is at least 1: at 0 the source would start a bucket at -1 token.
pub mod Bounds
pub mod Admission
pub mod Waiting
pub mod Cleanup
use tftp_os.Prelude.{
  ℕ, ◌+◌, ◌-◌, ◌*◌, ◌/◌, min, Bool, true, false, not, ◌||◌, Option, none, some, List, [], ◌∷◌, ltb,
  leb, if◌then◌else◌, filter, length, codes, starts_with, text_eq,
}
use tftp_os.Prelude.Text.{Text}
use tftp_os.Dict
use tftp_os.Dict.{Dict}

pub data EndpointGroup : Type 0 where
  tftp api auth : EndpointGroup

pub record Bucket : Type 0 where
  pub tokens : ℕ
  pub capacity : ℕ
  pub last_refill : ℕ

pub record RateLimiter : Type 0 where
  pub requests_per_minute : ℕ
  pub burst : ℕ
  pub buckets : Dict Text Bucket

unfoldable pub init : ℕ → ℕ → RateLimiter
init rpm burst = record { requests_per_minute = rpm; burst = burst; buckets = [] }

-- The wait until the next token: none at all, or `needed / rate` ticks, as a fraction.
pub data Wait : Type 0 where
  now_free : Wait
  ticks : ℕ → ℕ → Wait

module _ (hz : ℕ) where
  -- One token, in units.
  abbrev pub unit : ℕ
  unit = 60 * hz

  -- The tokens of a bucket after the refill for the time that has passed.
  unfoldable pub refilled : ℕ → Bucket → ℕ → ℕ
  refilled rpm b now = min (b.capacity * unit) (b.tokens + (now - b.last_refill) * rpm)

  -- The body of `check` on the key's bucket: the bucket to store, and the verdict.
  unfoldable pub take_token : ℕ → ℕ → Option Bucket → ℕ → Bucket × Bool
  unfolding refilled
  take_token rpm burst none now =
      (record { tokens = burst * unit - unit; capacity = burst; last_refill = now }, true)
  take_token rpm burst (some b) now =
      let tokens = refilled rpm b now in
      if leb unit tokens
      then (record b { tokens = tokens - unit; last_refill = now }, true)
      else (record b { tokens = tokens; last_refill = now }, false)

  unfoldable pub check : RateLimiter → Text → ℕ → RateLimiter × Bool
  unfolding take_token
  check l key now =
      let (b, allowed) = take_token l.requests_per_minute l.burst (Dict.get key l.buckets) now in
      (record l { buckets = Dict.put key b l.buckets }, allowed)

  remaining_of : ℕ → ℕ → Option Bucket → ℕ → ℕ
  remaining_of rpm burst none now = burst
  remaining_of rpm burst (some b) now = refilled rpm b now / unit

  unfoldable pub remaining : RateLimiter → Text → ℕ → ℕ
  unfolding remaining_of refilled
  remaining l key now = remaining_of l.requests_per_minute l.burst (Dict.get key l.buckets) now

  retry_after_of : ℕ → Option Bucket → ℕ → Wait
  retry_after_of rpm none now = now_free
  retry_after_of rpm (some b) now =
      let tokens = refilled rpm b now in
      if leb unit tokens
      then now_free
      else if leb rpm 0
      then now_free
      else ticks (unit - tokens) rpm

  unfoldable pub retry_after : RateLimiter → Text → ℕ → Wait
  unfolding retry_after_of refilled
  retry_after l key now = retry_after_of l.requests_per_minute (Dict.get key l.buckets) now

unfoldable pub reset : RateLimiter → RateLimiter
reset l = record l { buckets = [] }

-- The loop over `stale_keys`, and `removed`.
remove_keys : List Text → Dict Text Bucket → Dict Text Bucket
remove_keys [] d = d
remove_keys (k ∷ ks) d = remove_keys ks (Dict.remove k d)

unfoldable pub stale : ℕ → ℕ → Bucket → Bool
stale max_age now b = ltb max_age (now - b.last_refill)

-- The comprehension over `self._buckets.items()`.
unfoldable pub stale_keys : ℕ → ℕ → Dict Text Bucket → List Text
unfolding stale
stale_keys max_age now [] = []
stale_keys max_age now ((k, b) ∷ d) =
    let rest = stale_keys max_age now d in if stale max_age now b then k ∷ rest else rest

-- `max_age` is in ticks.
unfoldable pub cleanup : RateLimiter → ℕ → ℕ → RateLimiter × ℕ
unfolding remove_keys stale_keys
cleanup l max_age now =
    let keys = stale_keys max_age now l.buckets in
    (record l { buckets = remove_keys keys l.buckets }, length keys)

unfoldable pub classify_endpoint : Text → EndpointGroup
unfolding starts_with
classify_endpoint path =
    if starts_with path (codes "/api/v1/boot/") || starts_with path (codes "/api/v1/autoinstall/")
    then tftp
    else if starts_with path (codes "/api/v1/auth/")
    then auth
    else api

-- The module's globals `_limiters` and `_enabled`.
pub record Limiters : Type 0 where
  pub enabled : Bool
  pub tftp_limiter : Option RateLimiter
  pub api_limiter : Option RateLimiter
  pub auth_limiter : Option RateLimiter

abbrev pub unconfigured : Limiters
unconfigured = record {
  enabled = false;
  tftp_limiter = none;
  api_limiter = none;
  auth_limiter = none;
}

-- A rate and a burst for each group.
unfoldable pub configure_rate_limiting : Bool → ℕ × ℕ → ℕ × ℕ → ℕ × ℕ → Limiters → Limiters
unfolding init
configure_rate_limiting enabled (tr, tb) (ar, ab) (ur, ub) g = record {
  enabled = enabled;
  tftp_limiter = some (init tr tb);
  api_limiter = some (init ar ab);
  auth_limiter = some (init ur ub);
}

unfoldable pub get_limiter : EndpointGroup → Limiters → Option RateLimiter
get_limiter tftp g = g.tftp_limiter
get_limiter api g = g.api_limiter
get_limiter auth g = g.auth_limiter

reset_option : Option RateLimiter → Option RateLimiter
reset_option none = none
reset_option (some l) = some (reset l)

unfoldable pub reset_all_limiters : Limiters → Limiters
unfolding reset_option reset
reset_all_limiters g = record g {
  tftp_limiter = reset_option g.tftp_limiter;
  api_limiter = reset_option g.api_limiter;
  auth_limiter = reset_option g.auth_limiter;
}
