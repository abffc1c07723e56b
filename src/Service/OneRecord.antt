-- ===== src/Service/OneRecord.antt =====
-- Each call through the wrapper of mcp/src/compliance_mcp/service.py leaves one record, which tells
-- what the caller was told.
use regulatory_compliance_he.Prelude.{
  Text, lit, ◌≡◌, refl, subst, false, Option, some, List, ◌∷◌, ◌++◌, take, is_empty, Result, ok,
  err,
}
use regulatory_compliance_he.Prelude.Map.{Dict}
use regulatory_compliance_he.Json.{Json}
use regulatory_compliance_he.Models.{User, ToolResult, summary}
use regulatory_compliance_he.Audit.Record.{get_text}
use regulatory_compliance_he.Audit.Writer.{AuditError, AuditLog, Disk, rotated_name}
use regulatory_compliance_he.Audit.Walks.{records_of}
use regulatory_compliance_he.Audit.Preservation.{lines, IsLater, IsLog}
use regulatory_compliance_he.Audit.Rotation.{IsWritten, write-IsWritten}
use regulatory_compliance_he.Directory.{DirectoryError, Directory, read_version}
use regulatory_compliance_he.RateLimit.{RateLimited, rate_limit_exceeded, TokenBucketLimiter, check}
use regulatory_compliance_he.Drafts.{DraftStore}
use regulatory_compliance_he.Service.Failure.{Failure, outcome_of, record_summary, tool_error}
use regulatory_compliance_he.Service.Audited.{
  World, Outside, Call, Uncaught, Reply, result, failure, entry_for, refusal, answer, authorise,
  bodied, rated, authorised, attempt, refuse, closed, answered, finish, started, audited,
}

module _ (sha256 : Text → Text) (hmac : Text → Text → Text)
    (parse_users : Text → Option (List User)) (log : AuditLog) (call : Call)
    (body : User → DraftStore → Result Failure ToolResult × DraftStore) (outside : Outside)
    (mac_written : (k h : Text) → is_empty (hmac k h) ≡ false) where
  -- The outcome and the summary of the record are those of the reply.
  abbrev pub Tells : Reply → Dict Json → Type 0
  Tells (result r) rec =
      (get_text rec "outcome" ≡ some (lit "ok"))
      × (get_text rec "result_summary" ≡ some (take 2000 (summary r)))
  Tells (failure e) rec =
      (f : Failure) × (e ≡ tool_error f)
      × (get_text rec "outcome" ≡ some (outcome_of f))
      × (get_text rec "result_summary" ≡ some (take 2000 (record_summary f)))
      × (get_text rec "requester" ≡ some call.caller.requester)

  -- The reply, and the log with one record of the call more, behind which a marker may stand.
  abbrev pub IsRecorded : Text → World → Result Uncaught Reply × World → Type 0
  IsRecorded version w res =
      (reply : Reply) × (rec : Dict Json) × (markers : List (Dict Json)) × (h : Text) × (res.0
        ≡ ok reply)
      × Tells reply rec
      × (get_text rec "tool" ≡ some call.tool)
      × (get_text rec "session_id" ≡ some call.caller.session_id)
      × (get_text rec "directory_version" ≡ some version)
      × (records_of (lines log res.1.disk) ≡ records_of (lines log w.disk) ++ rec ∷ markers)
      × IsLog sha256 hmac log res.1.disk h

  bodied-disk :
      (user : User) (r : Result Failure ToolResult × DraftStore) (w : World)
      → (bodied sha256 hmac parse_users log call body outside user r w).1.disk ≡ w.disk
  bodied-disk user (err f, drafts) w = refl
  bodied-disk user (ok r, drafts) w = refl

  rated-disk :
      (user : User) (r : Result RateLimited (Unit {0}) × TokenBucketLimiter) (w : World)
      → (rated sha256 hmac parse_users log call body outside user r w).1.disk ≡ w.disk
  rated-disk user (err (rate_limit_exceeded m), limiter) w = refl
  rated-disk user (ok x, limiter) w =
      bodied-disk user (body user w.drafts) (record w { limiter = limiter })

  authorised-disk :
      (r : Result DirectoryError User × Directory) (w : World)
      → (authorised sha256 hmac parse_users log call body outside r w).1.disk ≡ w.disk
  authorised-disk (err e, d) w = refl
  authorised-disk (ok user, d) w =
      rated-disk user (check w.limiter user.upn outside.tick) (record w { directory = d })

  closed-IsRecorded :
      (version : Text) (f : Failure) (res : Result AuditError (Dict Json) × Disk) (w : World)
      → IsWritten sha256 hmac log mac_written (refusal call version f) w.disk res
      → IsRecorded version w (closed sha256 hmac parse_users log call body outside f res w)
  unfolding entry_for
  closed-IsRecorded version f (ok x, disk) w (rec, markers, h, done, same, grown, i) = (
    failure (tool_error f),
    rec,
    markers,
    h,
    refl,
    (f, refl, same.2, same.3, same.0),
    same.1,
    same.4,
    same.5,
    grown,
    i,
  )
  closed-IsRecorded version f (err e, disk) w (rec, markers, h, done, same, grown, i) =
      absurd (cc done)

  answered-IsRecorded :
      (version : Text) (user : User) (r : ToolResult) (res : Result AuditError (Dict Json) × Disk)
      (w : World)
      → IsWritten sha256 hmac log mac_written (answer call version user r) w.disk res
      → IsRecorded version w
          (answered sha256 hmac parse_users log call body outside version r res w)
  unfolding entry_for
  answered-IsRecorded version user r (ok x, disk) w (rec, markers, h, done, same, grown, i) =
      (result r, rec, markers, h, refl, (same.2, same.3), same.1, same.4, same.5, grown, i)
  answered-IsRecorded version user r (err e, disk) w (rec, markers, h, done, same, grown, i) =
      absurd (cc done)

  finish-IsRecorded :
      (version : Text) (r : Result Failure (User × ToolResult)) (w : World) (h : Text)
      → IsLater (rotated_name log outside.source.stamp) w.disk
      → IsLog sha256 hmac log w.disk h
      → IsRecorded version w (finish sha256 hmac parse_users log call body outside version (r, w))
  unfolding refuse
  finish-IsRecorded version (ok (user, r)) w h later i = answered-IsRecorded version user r _ w (
      write-IsWritten sha256 hmac log mac_written outside.source (answer call version user r) w.disk
        h later i)
  finish-IsRecorded version (err f) w h later i = closed-IsRecorded version f _ w (
      write-IsWritten sha256 hmac log mac_written outside.source (refusal call version f) w.disk h
        later i)

  finish_elsewhere :
      (version : Text) (w v : World) (res : Result Uncaught Reply × World)
      → v.disk ≡ w.disk
      → IsRecorded version v res
      → IsRecorded version w res
  finish_elsewhere version w v res e
        (reply, rec, markers, h, done, tells, tool, session, directory, grown, i) =
      (reply, rec, markers, h, done, tells, tool, session, directory, rw (← e) grown, i)

  started-IsRecorded :
      (version : Text) (r : Result DirectoryError Text × Directory) (w : World) (h : Text)
      → r.0 ≡ ok version
      → IsLater (rotated_name log outside.source.stamp) w.disk
      → IsLog sha256 hmac log w.disk h
      → IsRecorded version w (started sha256 hmac parse_users log call body outside r w)
  unfolding attempt
  started-IsRecorded version (err e, d) w h p later i = absurd (cc p)
  started-IsRecorded version (ok v, d) w h p later i =
      let here = record w { directory = d } in
      let tried =
        authorised sha256 hmac parse_users log call body outside
          (authorise sha256 hmac parse_users log call body outside d) here in
      let kept = authorised-disk (authorise sha256 hmac parse_users log call body outside d) here in
      subst (λ x. IsRecorded x w (finish sha256 hmac parse_users log call body outside v tried))
        (cc p)
        (finish_elsewhere v w tried.1 (finish sha256 hmac parse_users log call body outside v tried)
          kept (finish-IsRecorded v tried.0 tried.1 h (rw kept later) (rw kept i)))

  -- If the directory can be read and the log is intact, a call always replies, and leaves exactly
  -- one record of the call (behind which the marker of a rotation may stand) in a log that is intact
  -- again. The record names the tool, the session and the version of the directory; it says `ok`
  -- with the summary of the answer if the caller got an answer, and otherwise `denied` or `error`
  -- with the reason for the error that the caller got. A MAC is assumed not to be empty, and a new
  -- name of a rotated file to be later than the old ones.
  pub audited-IsRecorded :
      (version : Text) (w : World) (h : Text)
      → (read_version sha256 parse_users outside.version_at outside.file w.directory).0 ≡ ok version
      → IsLater (rotated_name log outside.source.stamp) w.disk
      → IsLog sha256 hmac log w.disk h
      → IsRecorded version w (audited sha256 hmac parse_users log call body outside w)
  unfolding audited
  audited-IsRecorded version w h readable later i =
      started-IsRecorded version
        (read_version sha256 parse_users outside.version_at outside.file w.directory) w h readable
        later i
