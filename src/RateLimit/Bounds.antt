-- ===== src/RateLimit/Bounds.antt =====
-- The budget that the token bucket of mcp/src/compliance_mcp/ratelimit.py enforces.
use native.Mathlib.Nat.{mul-le-mul_right}
use regulatory_compliance_he.Prelude.{
  Text, ℕ, ◌+◌, ◌-◌, ◌*◌, ◌≤◌, ◌≡◌, inl, inr, List, [], ◌∷◌, Result, ok, err, arith, false,
  Bool-cases, Option-cases, ltb, min, if◌then◌else◌, ◌==◌, eq_iff,
}
use regulatory_compliance_he.Prelude.Map.{get, put, get-put, get-put_self}
use regulatory_compliance_he.RateLimit.{
  TokenBucketLimiter, one_token, bucket, available, RateLimited, check,
}

-- The limiter after a series of calls, each a key and the time of the call.
abbrev pub run : TokenBucketLimiter → List (Text × ℕ) → TokenBucketLimiter
run l [] = l
run l ((key, now) ∷ calls) = run (check l key now).1 calls

abbrev cost : Result RateLimited (Unit {0}) → ℕ
cost (ok _) = 1
cost (err _) = 0

-- How many of the calls with a given key are let through.
abbrev pub accepted : Text → TokenBucketLimiter → List (Text × ℕ) → ℕ
accepted k l [] = 0
accepted k l ((key, now) ∷ calls) =
    (if key == k then cost (check l key now).0 else 0) + accepted k (check l key now).1 calls

-- The calls come in order of time, none before `start` and none after `end`.
abbrev pub Within : ℕ → List (Text × ℕ) → ℕ → Type 0
Within start [] end = start ≤ end
Within start ((key, now) ∷ calls) end = (start ≤ now) × Within now calls end

available-put :
    (l : TokenBucketLimiter) (k : Text) (tokens now : ℕ)
    → available (record l { buckets = put l.buckets k (tokens, now) }) k now
      ≡ min l.capacity (tokens + (now - now) * l.per_minute)
unfolding available
available-put l k tokens now = rw (get-put_self, bucket)

available-le-capacity :
    (l : TokenBucketLimiter) (k : Text) (now : ℕ) → available l k now ≤ l.capacity
unfolding available
available-le-capacity l k now = omega arith

-- A call spends one token if it is let through and none otherwise.
pub available-check_self :
    (l : TokenBucketLimiter) (k : Text) (now : ℕ)
    → available (check l k now).1 k now + cost (check l k now).0 * one_token ≡ available l k now
unfolding check
available-check_self l k now = elim (Bool-cases (ltb (available l k now) one_token)) [
  | inl e ↦
      rw (e, available-put l k (available l k now) now)
        (grind (arith, available-le-capacity l k now))
  | inr e ↦
      rw (e, available-put l k (available l k now - one_token) now)
        (grind (arith, available-le-capacity l k now))
]

available-put_ne :
    (l : TokenBucketLimiter) (j k : Text) (b : ℕ × ℕ) (now : ℕ)
    → (j == k) ≡ false
    → available (record l { buckets = put l.buckets j b }) k now ≡ available l k now
unfolding available
available-put_ne l j k b now h = rw (get-put, h, bucket)

-- The calls of one requester leave the tokens of another alone.
pub available-check_ne :
    (l : TokenBucketLimiter) (j k : Text) (now later : ℕ)
    → (j == k) ≡ false
    → available (check l j now).1 k later ≡ available l k later
unfolding check
available-check_ne l j k now later h = elim (Bool-cases (ltb (available l j now) one_token)) [
  | inl e ↦ rw e (available-put_ne l j k _ later h)
  | inr e ↦ rw e (available-put_ne l j k _ later h)
]

per_minute-check :
    (l : TokenBucketLimiter) (j : Text) (now : ℕ) → (check l j now).1.per_minute ≡ l.per_minute
unfolding check
per_minute-check l j now = ground arith

-- Time refills a bucket by the rate at most.
refill_bound :
    (rate cap tokens last start now : ℕ)
    → start ≤ now
    → min cap (tokens + (now - last) * rate)
      ≤ min cap (tokens + (start - last) * rate) + (now - start) * rate
refill_bound rate cap tokens last start now h =
    let gap : now - last ≤ (start - last) + (now - start) = omega arith in
    omega (arith, mul-le-mul_right rate gap)

available-le-add :
    (l : TokenBucketLimiter) (k : Text) (start now : ℕ)
    → start ≤ now
    → available l k now ≤ available l k start + (now - start) * l.per_minute
unfolding available
available-le-add l k start now h = elim (Option-cases (get l.buckets k)) [
  | inl e ↦ rw (e, bucket) (omega arith)
  | inr (b, e) ↦ rw (e, bucket) (refill_bound l.per_minute l.capacity b.0 b.1 start now h)
]

spent : (l : TokenBucketLimiter) (j k : Text) (now : ℕ) → ℕ
spent l j k now = if j == k then cost (check l j now).0 else 0

available-check :
    (l : TokenBucketLimiter) (j k : Text) (now : ℕ)
    → available (check l j now).1 k now + spent l j k now * one_token ≡ available l k now
unfolding spent
available-check l j k now = elim (Bool-cases (j == k)) [
  | inl e ↦ rw (e, (eq_iff j k).0 e) (available-check_self l k now)
  | inr e ↦ rw e (omega (arith, available-check_ne l j k now now e))
]

Within-le : (start end : ℕ) (calls : List (Text × ℕ)) → Within start calls end → start ≤ end
Within-le start end [] h = h
Within-le start end ((j, now) ∷ calls) (h, w) = omega (arith, Within-le now end calls w)

-- One more call spends what it takes from the bucket.
step_bound :
    (one rate spent_now rest before now_left after start now end : ℕ)
    → start ≤ now
    → now ≤ end
    → after + spent_now * one ≡ now_left
    → now_left ≤ before + (now - start) * rate
    → rest * one ≤ after + (end - now) * rate
    → (spent_now + rest) * one ≤ before + (end - start) * rate
step_bound one rate spent_now rest before now_left after start now end h k e p q =
    let split : end - start ≡ (now - start) + (end - now) = omega arith in
    rw split (omega (arith, e, p, q))

-- What is let through is paid from the tokens at the start and the refill since.
accepted_bound :
    (k : Text) (l : TokenBucketLimiter) (start end : ℕ) (calls : List (Text × ℕ))
    → Within start calls end
    → accepted k l calls * one_token ≤ available l k start + (end - start) * l.per_minute
unfolding spent
accepted_bound k l start end [] h = omega arith
accepted_bound k l start end ((j, now) ∷ calls) (h, w) =
    step_bound one_token l.per_minute (spent l j k now) (accepted k (check l j now).1 calls)
      (available l k start) (available l k now) (available (check l j now).1 k now) start now end h
      (Within-le now end calls w) (available-check l j k now) (available-le-add l k start now h)
      (rw (per_minute-check l j now) at (accepted_bound k (check l j now).1 now end calls w))

-- In a window of time, however the calls of the requesters interleave, a requester's calls that are
-- let through are at most the capacity and what the rate refills in the window.
pub accepted-le-budget :
    (k : Text) (l : TokenBucketLimiter) (start end : ℕ) (calls : List (Text × ℕ))
    → Within start calls end
    → accepted k l calls * one_token ≤ l.capacity + (end - start) * l.per_minute
accepted-le-budget k l start end calls h =
    omega (arith, accepted_bound k l start end calls h, available-le-capacity l k start)
