-- ===== src/Export.antt =====
-- mcp/src/compliance_mcp/evidence_export.py: the evidence pack of an approved index. A pack is the
-- list of its files in the order in which they are written, without the coding of the zip format.
pub mod Pack
pub mod Cover
pub mod Approved
use regulatory_compliance_he.Prelude.{
  Text, lit, Option, none, some, Bool, true, false, not, ◌||◌, List, [], ◌∷◌, ◌++◌, map, keep, join,
  last?, contains, sort_by, ◌==◌, is_empty, Result, ok, err, ◌>>=◌, if◌then◌else◌,
}
use regulatory_compliance_he.Prelude.Map.{Dict, put}
use regulatory_compliance_he.Prelude.Sorted.{in_order}
use regulatory_compliance_he.Json.{Json, str, obj, Members, end, member}
use regulatory_compliance_he.Json.Pretty.{pretty}
use regulatory_compliance_he.Models.{
  DraftKind, evidence_pack_index, policy_mapping, control_finding_note, attestation_escalation,
  kind_value, DraftStatus, pending, approved, rejected, status_value, Decision, Draft,
  PolicyVersionRef, EvidenceManifest,
}
use regulatory_compliance_he.DraftChecks.Patterns.{index_title}
use regulatory_compliance_he.Store.FrontMatter.{split_at, splitlines}

-- `ExportRefused`, and the exception of a file that cannot be read.
pub data ExportError : Type 0 where
  export_refused : Text → ExportError
  os_error : ExportError

-- `period_from_title`: the control, the start and the end.
abbrev pub period_from_title : Text → Option (Text × Text × Text)
period_from_title title = index_title title

-- `audit_lines_for`, with the text of the active log file, if there is one. `splitlines` also divides
-- the lines at the separators that the JSON printer leaves as they are.
unfoldable pub audit_lines_for : Text → Option Text → List Text
audit_lines_for draft_id none = []
audit_lines_for draft_id (some file) = keep (λ line. contains draft_id line) (splitlines file)

abbrev is_part : Text → Bool
is_part part = not (is_empty part || (part == lit "."))

abbrev or_empty : Option Text → Text
or_empty none = []
or_empty (some t) = t

-- `Path(source).name`
pub base_name : Text → Text
base_name source = or_empty (last? (keep is_part (split_at b'/' source)))

abbrev pub policy_path : PolicyVersionRef → Text
policy_path ref = lit "policies/" ++ base_name ref.source

abbrev pub sums_name : Text
sums_name = lit "SHA256SUMS"

abbrev pub not_an_index : Draft → Text
not_an_index draft =
    lit "draft "
    ++ (draft.draft_id
        ++ (lit " is a " ++ (kind_value draft.kind ++ lit ", not an evidence index")))

abbrev pub not_approved : Draft → Text
not_approved draft =
    lit "draft "
    ++ (draft.draft_id
        ++ (lit " is "
            ++ (status_value draft.status ++ lit "; only approved indexes can be exported")))

abbrev pub changed : PolicyVersionRef → Text
changed ref =
    lit "policy document "
    ++ (ref.source ++ lit " no longer matches the hash recorded in the manifest")

abbrev pub is_index : DraftKind → Bool
is_index evidence_pack_index = true
is_index _ = false

-- The decision of a draft that is approved.
unfoldable pub approval : DraftStatus → Option Decision → Option Decision
approval approved decision = decision
approval _ decision = none

-- `cover`
unfoldable pub cover_of : Draft → Decision → EvidenceManifest → Text → Text → Json
cover_of draft decision manifest exporter exported_at = obj (
    member (lit "draft_id") (str draft.draft_id) (
      member (lit "title") (str draft.title) (
        member (lit "control_id") (str manifest.control.control_id) (
          member (lit "period")
            (obj (
              member (lit "start") (str manifest.period_start)
                (member (lit "end") (str manifest.period_end) end)))
            (member (lit "manifest_sha256") (str manifest.manifest_sha256) (
              member (lit "requested_by") (str draft.requester) (
                member (lit "approved_by") (str decision.by) (
                  member (lit "approved_at") (str decision.at) (
                    member (lit "approval_note") (str decision.note) (
                      member (lit "exported_by") (str exporter)
                        (member (lit "exported_at") (str exported_at) end)))))))))))

-- The hash is that of the bytes, which are given by the text that they encode; `read` gives the
-- files of the data directory, and `manifest_json` what pydantic prints with an indent of 2.
module _ (sha256 : Text → Text) (manifest_json : EvidenceManifest → Text)
    (read : Text → Option Text) where
  unfoldable pub checked_content :
      PolicyVersionRef → Option Text → Dict Text → Result ExportError (Dict Text)
  checked_content ref none files = err os_error
  checked_content ref (some content) files =
      if sha256 content == ref.sha256
      then ok (put files (policy_path ref) content)
      else err (export_refused (changed ref))

  -- The loop over the policy documents.
  unfoldable pub add_policies : List PolicyVersionRef → Dict Text → Result ExportError (Dict Text)
  add_policies [] files = ok files
  add_policies (ref ∷ refs) files =
      checked_content ref (read ref.source) files >>= λ more. add_policies refs more

  -- The line of a file in `SHA256SUMS`.
  abbrev pub sum_line : Text × Text → Text
  sum_line m = sha256 m.1 ++ (lit "  " ++ (m.0 ++ lit "\n"))

  unfoldable pub sums_of : Dict Text → Text
  sums_of files = join [] (map sum_line files)

  unfoldable pub first_files : Draft → EvidenceManifest → List Text → Dict Text
  first_files draft manifest audit_lines =
      (lit "index.md", draft.body)
      ∷ (lit "manifest.json", manifest_json manifest)
      ∷ (lit "audit-excerpt.jsonl", join (lit "\n") audit_lines ++ lit "\n")
      ∷ []

  abbrev pub with_cover : Json → Dict Text → Dict Text
  with_cover cover files = put files (lit "COVER.json") (pretty 0 cover ++ lit "\n")

  abbrev pub with_sums : Dict Text → Dict Text
  with_sums files = put files sums_name (sums_of (in_order files))

  unfoldable pub pack_of :
      Draft → Decision → EvidenceManifest → List Text → Text → Text → Result ExportError (Dict Text)
  pack_of draft decision manifest audit_lines exporter exported_at =
      add_policies manifest.policy_versions (first_files draft manifest audit_lines) >>= λ files.
      ok (
        in_order
          (with_sums (with_cover (cover_of draft decision manifest exporter exported_at) files)))

  -- `build_pack`
  unfoldable pub build_pack :
      Draft → EvidenceManifest → List Text → Text → Text → Result ExportError (Dict Text)
  build_pack draft manifest audit_lines exporter exported_at =
      if not (is_index draft.kind)
      then err (export_refused (not_an_index draft))
      else elim (approval draft.status draft.decision) [
        | none ↦ err (export_refused (not_approved draft))
        | some decision ↦ pack_of draft decision manifest audit_lines exporter exported_at
      ]
