-- ===== src/Examples/AccessRuns.antt =====
-- The directory and the rate limiter of mcp/src/compliance_mcp on concrete data.
use regulatory_compliance_he.Prelude.{
  Text, lit, ℕ, ◌+◌, ◌-◌, ◌*◌, ◌≤◌, ◌≡◌, ◌↔◌, refl, Option, some, true, false, List, [], ◌∷◌, ok,
  err, arith, lower, strip, ◌==◌,
}
use regulatory_compliance_he.Models.{User, person}
use regulatory_compliance_he.Directory.{
  access_denied, UsersFile, Directory, index, key_of, inactive, load, resolve, require_approver,
}
use regulatory_compliance_he.Directory.Index.{last_named}
use regulatory_compliance_he.Directory.Access.{IsApprover, require_approver-eq-ok}
use regulatory_compliance_he.Directory.Freshness.{IsSnapshot, resolve_deactivated}
use regulatory_compliance_he.RateLimit.{TokenBucketLimiter, one_token, check}
use regulatory_compliance_he.RateLimit.Bounds.{run, accepted, accepted-le-budget}
use regulatory_compliance_he.RateLimit.Fairness.{check-run_others}

abbrev short_hash : Text → Text
short_hash t = t

abbrev ben : User
ben = record {
  id = lit "8";
  upn = lit "ben@bank.example";
  name = lit "Ben";
  groups = lit "compliance-approvers" ∷ [];
  active = true;
  kind = person;
}

abbrev ben_off : User
ben_off = record ben { active = false }

-- The file lists Ben, inactive from its second version on.
abbrev parse_ben : Text → Option (List User)
parse_ben [] = some (ben ∷ [])
parse_ben (c ∷ s) = some (ben_off ∷ [])

abbrev old_file : UsersFile
old_file = record { mtime = 5; raw = [] }

abbrev new_file : UsersFile
new_file = record { mtime = 6; raw = lit "2" }

abbrev before : Directory
before = record { ttl = 60; users = index (ben ∷ []); version = []; mtime = 5; checked_at = 100 }

abbrev ben_name : Text
ben_name = lit " Ben@bank.example "

require_approver-eq-ok_example :
    ((require_approver short_hash parse_ben ben_name 170 old_file before).0 ≡ ok ben) ↔ (
      ((load short_hash parse_ben false 170 old_file before).0 ≡ ok tt)
      × IsApprover (load short_hash parse_ben false 170 old_file before).1 ben_name ben)
require_approver-eq-ok_example =
    require_approver-eq-ok short_hash parse_ben ben_name 170 old_file before ben

before-IsSnapshot : IsSnapshot short_hash parse_ben before
before-IsSnapshot = record {
  raw = [];
  listed = ben ∷ [];
  parsed = refl;
  indexed = refl;
  stamped = refl;
}

ben_named : last_named (key_of ben_name) (ben_off ∷ []) ≡ some ben_off
unfolding key_of lower strip lit ◌==◌
ben_named = refl

resolve_deactivated_example :
    (resolve short_hash parse_ben ben_name 170 new_file before).0
    ≡ err (access_denied (inactive ben_name))
unfolding key_of lower strip lit
resolve_deactivated_example =
    resolve_deactivated short_hash parse_ben ben_name 170 new_file before (ben_off ∷ []) ben_off
      (ground arith) (λ p. ground (arith, p)) refl refl ben_named refl

abbrev two_calls : List (Text × ℕ)
two_calls = (lit "ana", 10) ∷ (lit "ben", 20) ∷ []

abbrev limiter : TokenBucketLimiter
limiter = record { per_minute = 30; capacity = 30 * one_token; buckets = [] }

accepted-le-budget_example :
    accepted (lit "ana") limiter two_calls * one_token
    ≤ limiter.capacity + (60 - 0) * limiter.per_minute
accepted-le-budget_example =
    accepted-le-budget (lit "ana") limiter 0 60 two_calls
      (ground arith, (ground arith, ground arith))

check-run_others_example :
    (check (run limiter two_calls) (lit "eve") 30).0 ≡ (check limiter (lit "eve") 30).0
unfolding ◌==◌ lit
check-run_others_example = check-run_others (lit "eve") 30 limiter two_calls (refl, (refl, tt))
