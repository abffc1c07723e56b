-- ===== src/RateLimit.antt =====
-- mcp/src/compliance_mcp/ratelimit.py: a token bucket for each requester.
-- Time is the nanosecond count of `time.monotonic`, and tokens are counted in units of which one
-- call costs `one_token`, so that the refill of `per_minute / 60` tokens a second is a whole number
-- of units for each nanosecond. This is the code's arithmetic without the rounding of its floats.
pub mod Bounds
pub mod Fairness
use regulatory_compliance_he.Prelude.{
  Text, lit, decimal, ℕ, zero, suc, ◌+◌, ◌-◌, ◌*◌, ◌/◌, min, Option, none, some, [], ◌++◌, ltb,
  Result, ok, err, if◌then◌else◌,
}
use regulatory_compliance_he.Prelude.Map.{Dict, get, put}

-- 60 seconds of nanoseconds
abbrev pub one_token : ℕ
one_token = 60_000_000_000

pub record TokenBucketLimiter : Type 0 where
  pub per_minute : ℕ
  pub capacity : ℕ
  pub buckets : Dict (ℕ × ℕ)

-- `burst or per_minute`
unfoldable pub or_else : Option ℕ → ℕ → ℕ
or_else none d = d
or_else (some zero) d = d
or_else (some (suc n)) d = suc n

unfoldable pub new : ℕ → Option ℕ → TokenBucketLimiter
unfolding or_else
new per_minute burst = record {
  per_minute = per_minute;
  capacity = or_else burst per_minute * one_token;
  buckets = [];
}

-- `self._buckets.get(key, (self._capacity, now))`
bucket : TokenBucketLimiter → Text → ℕ → ℕ × ℕ
bucket l key now = elim (get l.buckets key) [ none ↦ (l.capacity, now) | some b ↦ b ]

-- The tokens that `key` could spend at the time `now`.
unfoldable pub available : TokenBucketLimiter → Text → ℕ → ℕ
unfolding bucket
available l key now =
    let (tokens, last) = bucket l key now in min l.capacity (tokens + (now - last) * l.per_minute)

pub data RateLimited : Type 0 where
  rate_limit_exceeded : Text → RateLimited

pub limit_message : TokenBucketLimiter → Text → Text
limit_message l key =
    lit "rate limit exceeded for '"
    ++ (key
        ++ (lit "': more than " ++ (decimal (l.capacity / one_token) ++ lit " calls per minute")))

unfoldable pub check :
    TokenBucketLimiter → Text → ℕ → Result RateLimited (Unit {0}) × TokenBucketLimiter
check l key now =
    let tokens = available l key now in
    if ltb tokens one_token
    then (
      err (rate_limit_exceeded (limit_message l key)),
      record l { buckets = put l.buckets key (tokens, now) },
    )
    else (ok tt, record l { buckets = put l.buckets key (tokens - one_token, now) })
