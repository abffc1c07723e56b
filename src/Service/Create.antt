-- ===== src/Service/Create.antt =====
-- `draft_create` of mcp/src/compliance_mcp/service.py, the one tool that writes.
use regulatory_compliance_he.Prelude.{
  Text, lit, ℕ, Option, none, some, Bool, ◌||◌, List, [], ◌++◌, is_blank, Result, ok, err,
  if◌then◌else◌,
}
use regulatory_compliance_he.Prelude.Map.{get}
use regulatory_compliance_he.Models.{
  User, Control, Ticket, EvidenceManifest, DraftKind, kind_value, Draft, ToolResult,
  draft_create_result,
}
use regulatory_compliance_he.Drafts.{DraftStore, DraftError, Stamp}
use regulatory_compliance_he.Drafts
use regulatory_compliance_he.DraftChecks.{CheckError, draft_rejected, recompute_error, check_draft}
use regulatory_compliance_he.Service.Failure.{Failure, rejected, invalid, other}
use regulatory_compliance_he.Service.Evidence.{compute_manifest}
use regulatory_compliance_he.Service.Request.{Config}

module _ (sha256 : Text → Text) (manifest_json : EvidenceManifest → Text)
    (ticket_json : Ticket → Text) (control_json : Control → Text) (wide : ℕ → Bool)
    (c : Config) where
  hash_or_error : Result Failure (Option EvidenceManifest) → Result CheckError (Option Text)
  hash_or_error (err e) = err recompute_error
  hash_or_error (ok none) = ok none
  hash_or_error (ok (some m)) = ok (some m.manifest_sha256)

  -- The hash of the evidence that a control and a period have now.
  unfoldable pub recompute_hash : Text → Text → Text → Result CheckError (Option Text)
  unfolding hash_or_error
  recompute_hash control start end =
      hash_or_error (compute_manifest sha256 manifest_json ticket_json c.systems control start end)

  -- The answer after the write.
  unfoldable pub created :
      DraftKind → Result DraftError Draft × DraftStore → Result Failure ToolResult × DraftStore
  created kind (err e, drafts) = (err other, drafts)
  created kind (ok d, drafts) = (
    ok (
        draft_create_result
          (lit "draft "
            ++ (d.draft_id ++ (lit " (" ++ (kind_value kind ++ lit ") queued for human review"))))
          d.draft_id d.status),
    drafts,
  )

  unfoldable pub checked :
      Result CheckError (Unit {0})
      → Result Failure ToolResult × DraftStore
      → DraftStore
      → Result Failure ToolResult × DraftStore
  checked (ok _) next drafts = next
  checked (err (draft_rejected m)) next drafts = (err (rejected m), drafts)
  checked (err recompute_error) next drafts = (err other, drafts)

  unfoldable pub draft_create_body :
      User
      → Stamp
      → DraftKind
      → Text
      → Text
      → List Text
      → DraftStore
      → Result Failure ToolResult × DraftStore
  draft_create_body user stamp kind title body related_ids drafts =
      if is_blank title || is_blank body
      then (err (invalid (lit "title and body are required")), drafts)
      else checked (check_draft wide kind title body related_ids (get c.releases) recompute_hash)
          (created kind (Drafts.create sha256 stamp kind title body user.upn related_ids [] drafts))
          drafts
