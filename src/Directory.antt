-- ===== src/Directory.antt =====
-- mcp/src/compliance_mcp/directory.py: the user directory and the role checks. The parse of the
-- users file (JSON and the pydantic model) and SHA-256 are parameters; times are in the units of
-- the clock, and the clock does not run backwards.
pub mod Index
pub mod Access
pub mod Freshness
use regulatory_compliance_he.Prelude.{
  Text, lit, ℕ, ◌+◌, Option, none, some, Bool, true, false, not, ◌&&◌, List, [], ◌∷◌, ◌++◌, take,
  any, Result, ok, err, ◌==◌, is_empty, strip, lower, ltb, nat_eq, if◌then◌else◌,
}
use regulatory_compliance_he.Prelude.Map.{Dict, get, put}
use regulatory_compliance_he.Models.{User, AccountKind, person, service}

abbrev pub analyst_group : Text
analyst_group = lit "compliance-analysts"

abbrev pub approver_group : Text
approver_group = lit "compliance-approvers"

-- `AccessDenied`, and the errors of reading a users file that does not parse.
pub data DirectoryError : Type 0 where
  access_denied : Text → DirectoryError
  load_error : DirectoryError

-- The users file as `stat` and `read_bytes` see it.
pub record UsersFile : Type 0 where
  pub mtime : ℕ
  pub raw : Text

pub record Directory : Type 0 where
  pub ttl : ℕ
  pub users : Dict User
  pub version : Text
  pub mtime : ℕ
  pub checked_at : ℕ

-- The index by lower-case id and by lower-case UPN; a later user takes over a key.
index_from : Dict User → List User → Dict User
index_from index [] = index
index_from index (user ∷ users) =
    index_from (put (put index (lower user.id) user) (lower user.upn) user) users

unfoldable pub index : List User → Dict User
unfolding index_from
index users = index_from [] users

pub member : Text → List Text → Bool
member group groups = any (λ g. g == group) groups

-- `group in user.groups`
unfoldable pub in_group : User → Text → Bool
unfolding member
in_group user group = member group user.groups

abbrev pub is_person : AccountKind → Bool
is_person person = true
is_person service = false

-- What a name is looked up by.
unfoldable pub key_of : Text → Text
key_of requester = lower (strip requester)

pub not_listed : Text → Text
not_listed requester = lit "requester '" ++ (requester ++ lit "' is not in the allowlist")

pub inactive : Text → Text
inactive requester = lit "requester '" ++ (requester ++ lit "' is inactive")

pub not_member : Text → Text → Text
not_member upn group =
    lit "requester '" ++ (upn ++ (lit "' is not a member of '" ++ (group ++ lit "'")))

pub not_person : Text → Text
not_person upn = lit "'" ++ (upn ++ lit "' is a service account and cannot approve")

-- `resolve` after its reload
unfoldable pub check_user : Text → Option User → Result DirectoryError User
check_user requester none = err (access_denied (not_listed requester))
check_user requester (some user) =
    if user.active then ok user else err (access_denied (inactive requester))

unfoldable pub look_up : Dict User → Text → Result DirectoryError User
look_up users requester =
    if is_empty (key_of requester)
    then err (access_denied (lit "requester identity is required on every call"))
    else check_user requester (get users (key_of requester))

unfoldable pub check_group : Text → User → Result DirectoryError User
check_group group user =
    if in_group user group then ok user else err (access_denied (not_member user.upn group))

unfoldable pub check_person : User → Result DirectoryError User
check_person user =
    if is_person user.kind then ok user else err (access_denied (not_person user.upn))

-- A check on the outcome of another; the directory that the first leaves stays.
abbrev pub and_then :
    Result DirectoryError User × Directory
    → (User → Result DirectoryError User)
    → Result DirectoryError User × Directory
and_then (ok user, d) f = (f user, d)
and_then (err e, d) f = (err e, d)

abbrev pub version_after :
    Result DirectoryError (Unit {0}) × Directory → Result DirectoryError Text × Directory
version_after (ok _, d) = (ok d.version, d)
version_after (err e, d) = (err e, d)

abbrev pub after_load :
    Result DirectoryError (Unit {0}) × Directory
    → (Directory → Result DirectoryError User)
    → Result DirectoryError User × Directory
after_load (ok _, d) f = (f d, d)
after_load (err e, d) f = (err e, d)

module _ (sha256 : Text → Text) (parse_users : Text → Option (List User)) where
  -- The directory after a parse of the file.
  install :
      UsersFile → Option (List User) → Directory → Result DirectoryError (Unit {0}) × Directory
  install file none d = (err load_error, d)
  install file (some users) d = (
    ok tt,
    record d { users = index users; version = take 16 (sha256 file.raw); mtime = file.mtime },
  )

  -- `_load`
  unfoldable pub load :
      Bool → ℕ → UsersFile → Directory → Result DirectoryError (Unit {0}) × Directory
  unfolding install
  load force now file d =
      if not force && ltb now (d.checked_at + d.ttl)
      then (ok tt, d)
      else if not force && nat_eq file.mtime d.mtime
      then (ok tt, record d { checked_at = now })
      else install file (parse_users file.raw) (record d { checked_at = now })

  -- `__init__`
  pub new : ℕ → ℕ → UsersFile → Result DirectoryError (Unit {0}) × Directory
  new ttl now file =
      load true now file (record { ttl = ttl; users = []; version = []; mtime = 0; checked_at = 0 })

  unfoldable pub resolve : Text → ℕ → UsersFile → Directory → Result DirectoryError User × Directory
  resolve requester now file d =
      after_load (load false now file d) (λ d'. look_up d'.users requester)

  unfoldable pub require_group :
      Text → Text → ℕ → UsersFile → Directory → Result DirectoryError User × Directory
  require_group requester group now file d =
      and_then (resolve requester now file d) (check_group group)

  unfoldable pub require_approver :
      Text → ℕ → UsersFile → Directory → Result DirectoryError User × Directory
  require_approver requester now file d =
      and_then (require_group requester approver_group now file d) check_person

  -- The property `version`: the reload, then the hash in force.
  unfoldable pub read_version : ℕ → UsersFile → Directory → Result DirectoryError Text × Directory
  read_version now file d = version_after (load false now file d)
