-- ===== src/RateLimit/Fairness.antt =====
-- The calls of the others at the limiter of mcp/src/compliance_mcp/ratelimit.py.
use regulatory_compliance_he.Prelude.{
  Text, ℕ, ◌≡◌, refl, List, [], ◌∷◌, arith, false, ◌==◌, ◌∙◌, All,
}
use regulatory_compliance_he.RateLimit.{TokenBucketLimiter, available, limit_message, check}
use regulatory_compliance_he.RateLimit.Bounds.{run, available-check_ne}

capacity-check :
    (l : TokenBucketLimiter) (j : Text) (now : ℕ) → (check l j now).1.capacity ≡ l.capacity
unfolding check
capacity-check l j now = ground arith

limit_message-capacity :
    (l m : TokenBucketLimiter) (k : Text)
    → l.capacity ≡ m.capacity
    → limit_message l k ≡ limit_message m k
unfolding limit_message
limit_message-capacity l m k e = rw e

-- The answer to a call turns on the requester's tokens and the capacity.
check_answer :
    (l m : TokenBucketLimiter) (k : Text) (now : ℕ)
    → available l k now ≡ available m k now
    → l.capacity ≡ m.capacity
    → (check l k now).0 ≡ (check m k now).0
unfolding check
check_answer l m k now e c = ground (arith, limit_message-capacity l m k c)

-- Calls of other requesters, however many they are and however they end, do not change the answer that
-- a requester gets.
pub check-run_others :
    (k : Text) (now : ℕ) (l : TokenBucketLimiter) (calls : List (Text × ℕ))
    → All (λ c. (c.0 == k) ≡ false) calls
    → (check (run l calls) k now).0 ≡ (check l k now).0
check-run_others k now l [] h = refl
check-run_others k now l ((j, t) ∷ calls) (h, hs) =
    check-run_others k now (check l j t).1 calls hs
    ∙ check_answer (check l j t).1 l k now (available-check_ne l j k t now h) (capacity-check l j t)
