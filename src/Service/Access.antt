-- ===== src/Service/Access.antt =====
-- Whom the wrapper of mcp/src/compliance_mcp/service.py lets through to a body.
use regulatory_compliance_he.Prelude.{
  Text, ◌≡◌, ◌≢◌, ◌⊎◌, refl, ap, subst, sym, ◌∙◌, Option, none, some, false, Memᴰ, List, Result, ok,
  err, inl, inr,
}
use regulatory_compliance_he.Prelude.Map.{Dict}
use regulatory_compliance_he.Json.{Json}
use regulatory_compliance_he.Models.{User, ToolResult}
use regulatory_compliance_he.Audit.Writer.{AuditError, AuditLog, Disk}
use regulatory_compliance_he.Directory.{DirectoryError, Directory, load, read_version}
use regulatory_compliance_he.Directory.Access.{
  IsActiveUser, in_group-Mem, resolve-eq-ok, require_group-eq-ok,
}
use regulatory_compliance_he.RateLimit.{RateLimited, rate_limit_exceeded, TokenBucketLimiter, check}
use regulatory_compliance_he.Drafts.{DraftStore}
use regulatory_compliance_he.Service.Failure.{Failure, other}
use regulatory_compliance_he.Service.Audited.{
  World, Outside, Call, Uncaught, Reply, result, failure, authorise_in, authorise, bodied, rated,
  authorised, attempt, refuse, closed, answered, finish, started, audited,
}

module _ (sha256 : Text → Text) (hmac : Text → Text → Text)
    (parse_users : Text → Option (List User)) (log : AuditLog) (call : Call)
    (body : User → DraftStore → Result Failure ToolResult × DraftStore) (outside : Outside)
    (w : World) where
  abbrev version_read : Result DirectoryError Text × Directory
  version_read = read_version sha256 parse_users outside.version_at outside.file w.directory

  abbrev checked : Result DirectoryError User × Directory
  checked = authorise sha256 hmac parse_users log call body outside version_read.1

  -- The directory as the reload of the identity check leaves it.
  abbrev reload : Result DirectoryError (Unit {0}) × Directory
  reload = load sha256 parse_users false outside.resolve_at outside.file_then version_read.1

  -- A tool that names a group is for its members.
  abbrev pub IsMember : Option Text → User → Type 0
  IsMember none user = Unit
  IsMember (some group) user = Memᴰ group user.groups

  -- The caller's name stands in the directory for this user, who is active and in the group that the
  -- tool asks for, and the limiter lets the call through.
  pub record IsAdmitted (user : User) : Type 0 where
    pub loaded : reload.0 ≡ ok tt
    pub resolved : IsActiveUser reload.1 call.caller.requester user
    pub member : IsMember call.group user
    pub within_rate : (check w.limiter user.upn outside.tick).0 ≡ ok tt

  authorise_in-IsMember :
      (group : Option Text) (user : User)
      → (authorise_in sha256 hmac parse_users log call body outside group version_read.1).0
        ≡ ok user
      → (reload.0 ≡ ok tt) × IsActiveUser reload.1 call.caller.requester user × IsMember group user
  unfolding authorise_in
  authorise_in-IsMember none user e =
      let (loaded, active) =
        (resolve-eq-ok sha256 parse_users call.caller.requester outside.resolve_at outside.file_then
            version_read.1 user).0
          e in
      (loaded, active, tt)
  authorise_in-IsMember (some group) user e =
      let (loaded, active, member) =
        (require_group-eq-ok sha256 parse_users call.caller.requester outside.resolve_at
            outside.file_then version_read.1 user group).0
          e in
      (loaded, active, in_group-Mem user group member)

  authorise-IsAdmitted :
      (user : User)
      → checked.0 ≡ ok user
      → (check w.limiter user.upn outside.tick).0 ≡ ok tt
      → IsAdmitted user
  unfolding authorise
  authorise-IsAdmitted user e rate =
      let (loaded, active, member) = authorise_in-IsMember call.group user e in
      record { loaded = loaded; resolved = active; member = member; within_rate = rate }

  abbrev finished :
      Text → Result Failure (User × ToolResult) × World → Result Uncaught Reply × World
  finished version t = finish sha256 hmac parse_users log call body outside version t

  closed-drafts :
      (f : Failure) (res : Result AuditError (Dict Json) × Disk) (v : World)
      → (closed sha256 hmac parse_users log call body outside f res v).1.drafts ≡ v.drafts
  closed-drafts f (ok rec, disk) v = refl
  closed-drafts f (err e, disk) v = refl

  answered-drafts :
      (version : Text) (r : ToolResult) (res : Result AuditError (Dict Json) × Disk) (v : World)
      → (answered sha256 hmac parse_users log call body outside version r res v).1.drafts ≡ v.drafts
  unfolding refuse
  answered-drafts version r (ok rec, disk) v = refl
  answered-drafts version r (err e, disk) v = closed-drafts other _ (record v { disk = disk })

  finish-drafts :
      (version : Text) (t : Result Failure (User × ToolResult)) (v : World)
      → (finished version (t, v)).1.drafts ≡ v.drafts
  unfolding refuse
  finish-drafts version (ok (user, r)) v = answered-drafts version r _ v
  finish-drafts version (err f) v = closed-drafts f _ v

  closed-failure :
      (f : Failure) (res : Result AuditError (Dict Json) × Disk) (v : World) (r : ToolResult)
      → (closed sha256 hmac parse_users log call body outside f res v).0 ≢ ok (result r)
  closed-failure f (ok rec, disk) v r = λ e. cc e
  closed-failure f (err x, disk) v r = λ e. cc e

  answered-result :
      (version : Text) (s r : ToolResult) (res : Result AuditError (Dict Json) × Disk) (v : World)
      → (answered sha256 hmac parse_users log call body outside version s res v).0 ≡ ok (result r)
      → s ≡ r
  unfolding refuse
  answered-result version s r (ok rec, disk) v e = cc e
  answered-result version s r (err x, disk) v e =
      absurd (closed-failure other _ (record v { disk = disk }) r e)

  finish-result :
      (version : Text) (t : Result Failure (User × ToolResult)) (v : World) (r : ToolResult)
      → (finished version (t, v)).0 ≡ ok (result r)
      → (user : User) × (t ≡ ok (user, r))
  unfolding refuse
  finish-result version (ok (user, s)) v r e =
      (user, ap (λ (x : ToolResult). ok (user, x)) (answered-result version s r _ v e))
  finish-result version (err f) v r e = absurd (closed-failure f _ v r e)

  abbrev ran : User → Result Failure ToolResult → Result Failure (User × ToolResult)
  ran user (ok r) = ok (user, r)
  ran user (err f) = err f

  -- How far a call came, and what it left of the drafts: it was stopped before the body, or the body
  -- ran for a user who was admitted.
  abbrev Came : Result Failure (User × ToolResult) × World → Type 0
  Came t =
      (((f : Failure) × (t.0 ≡ err f)) × (t.1.drafts ≡ w.drafts))
      ⊎ ((user : User) × IsAdmitted user
          × (t.1.drafts ≡ (body user w.drafts).1)
          × (t.0 ≡ ran user (body user w.drafts).0))

  bodied-Came :
      (user : User) (d : Directory) (limiter : TokenBucketLimiter)
      (r : Result Failure ToolResult × DraftStore)
      → IsAdmitted user
      → body user w.drafts ≡ r
      → Came (
          bodied sha256 hmac parse_users log call body outside user r
            (record w { directory = d; limiter = limiter }))
  bodied-Came user d limiter (err f, drafts) a e = inr (
    user,
    a,
    ap (λ (x : Result Failure ToolResult × DraftStore). x.1) (sym e),
    ap (λ (x : Result Failure ToolResult × DraftStore). ran user x.0) (sym e),
  )
  bodied-Came user d limiter (ok r, drafts) a e = inr (
    user,
    a,
    ap (λ (x : Result Failure ToolResult × DraftStore). x.1) (sym e),
    ap (λ (x : Result Failure ToolResult × DraftStore). ran user x.0) (sym e),
  )

  rated-Came :
      (user : User) (d : Directory) (r : Result RateLimited (Unit {0}) × TokenBucketLimiter)
      → checked.0 ≡ ok user
      → check w.limiter user.upn outside.tick ≡ r
      → Came
          (rated sha256 hmac parse_users log call body outside user r (record w { directory = d }))
  rated-Came user d (err (rate_limit_exceeded m), limiter) a e = inl ((_, refl), refl)
  rated-Came user d (ok x, limiter) a e =
      bodied-Came user d limiter (body user w.drafts)
        (authorise-IsAdmitted user a
          (ap (λ (p : Result RateLimited (Unit {0}) × TokenBucketLimiter). p.0) e))
        refl

  authorised-Came :
      (r : Result DirectoryError User × Directory)
      → checked ≡ r
      → Came (
          authorised sha256 hmac parse_users log call body outside r
            (record w { directory = version_read.1 }))
  authorised-Came (err e, d) p = inl ((_, refl), refl)
  authorised-Came (ok user, d) p =
      rated-Came user d (check w.limiter user.upn outside.tick)
        (ap (λ (x : Result DirectoryError User × Directory). x.0) p) refl

  attempt-Came : Came (
      attempt sha256 hmac parse_users log call body outside
        (record w { directory = version_read.1 }))
  unfolding attempt
  attempt-Came = authorised-Came checked refl

  -- What a call leaves of the drafts: they are as they were, or its body ran on them for a user who
  -- was admitted.
  abbrev pub IsGuarded : Result Uncaught Reply × World → Type 0
  IsGuarded res =
      (res.1.drafts ≡ w.drafts)
      ⊎ ((user : User) × IsAdmitted user × (res.1.drafts ≡ (body user w.drafts).1))

  finish-IsGuarded :
      (version : Text) (t : Result Failure (User × ToolResult) × World)
      → Came t
      → IsGuarded (finished version t)
  finish-IsGuarded version (t, v) (inl (f, same)) = inl (finish-drafts version t v ∙ same)
  finish-IsGuarded version (t, v) (inr (user, a, same, answer_)) =
      inr (user, a, finish-drafts version t v ∙ same)

  -- A call leaves the drafts as they were, or its body ran on them for an active user for whom the
  -- caller's name stands in the reloaded directory, who is a member of the group that the tool asks
  -- for, if it asks for one, and whom the limiter let through.
  pub audited-IsGuarded : IsGuarded (audited sha256 hmac parse_users log call body outside w)
  unfolding audited
  audited-IsGuarded = go version_read refl
    where
      go :
          (r : Result DirectoryError Text × Directory)
          → version_read ≡ r
          → IsGuarded (started sha256 hmac parse_users log call body outside r w)
      go (err e, d) p = inl refl
      go (ok version, d) p =
          finish-IsGuarded version
            (attempt sha256 hmac parse_users log call body outside (record w { directory = d }))
            (subst
              (λ x. Came (
                attempt sha256 hmac parse_users log call body outside (record w { directory = x })))
              (ap (λ (x : Result DirectoryError Text × Directory). x.1) p) attempt-Came)

  finish-answer :
      (version : Text) (t : Result Failure (User × ToolResult) × World) (r : ToolResult)
      → Came t
      → (finished version t).0 ≡ ok (result r)
      → (user : User) × IsAdmitted user × ((body user w.drafts).0 ≡ ok r)
  finish-answer version (t, v) r (inl ((f, stopped), same)) e =
      absurd (cc ((finish-result version t v r e).1, stopped))
  finish-answer version (t, v) r (inr (user, a, same, came)) e =
      (user, a, ran-ok user (body user w.drafts).0 (finish-result version t v r e) came)
    where
      ran-ok :
          (u : User) (b : Result Failure ToolResult)
          → ((x : User) × (t ≡ ok (x, r)))
          → t ≡ ran u b
          → b ≡ ok r
      ran-ok u (ok s) (x, p) q = ap ok (cc (p, q))
      ran-ok u (err f) (x, p) q = absurd (cc (p, q))

  audited-result :
      (r : ToolResult)
      → (audited sha256 hmac parse_users log call body outside w).0 ≡ ok (result r)
      → (user : User) × IsAdmitted user × ((body user w.drafts).0 ≡ ok r)
  unfolding audited
  audited-result r e = go version_read refl e
    where
      go :
          (x : Result DirectoryError Text × Directory)
          → version_read ≡ x
          → (started sha256 hmac parse_users log call body outside x w).0 ≡ ok (result r)
          → (user : User) × IsAdmitted user × ((body user w.drafts).0 ≡ ok r)
      go (err f, d) p q = absurd (cc q)
      go (ok version, d) p q =
          finish-answer version
            (attempt sha256 hmac parse_users log call body outside (record w { directory = d })) r
            (subst
              (λ x. Came (
                attempt sha256 hmac parse_users log call body outside (record w { directory = x })))
              (ap (λ (x : Result DirectoryError Text × Directory). x.1) p) attempt-Came)
            q

  -- An answer is what the body has returned for an admitted caller.
  abbrev pub IsEarned : Result Uncaught Reply → Type 0
  IsEarned (ok (result r)) = (user : User) × IsAdmitted user × ((body user w.drafts).0 ≡ ok r)
  IsEarned _ = Unit

  -- If a call is answered and not refused, the caller's name stands in the reloaded directory for an
  -- active user who is a member of the group that the tool asks for, if it asks for one, and whom the
  -- limiter let through; and the answer is what the body has returned for that user.
  pub audited-IsEarned : IsEarned (audited sha256 hmac parse_users log call body outside w).0
  audited-IsEarned = go (audited sha256 hmac parse_users log call body outside w).0 refl
    where
      go :
          (x : Result Uncaught Reply)
          → (audited sha256 hmac parse_users log call body outside w).0 ≡ x
          → IsEarned x
      go (ok (result r)) e = audited-result r e
      go (ok (failure f)) e = tt
      go (err f) e = tt
