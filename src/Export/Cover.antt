-- ===== src/Export/Cover.antt =====
-- The cover and the checksums of a pack of mcp/src/compliance_mcp/evidence_export.py, as its recipient
-- reads them.
use mathlib.Core.List.{append-nil, append_assoc}
use regulatory_compliance_he.Prelude.{
  Text, lit, ◌≡◌, refl, sym, ap, ◌∙◌, Option, none, some, String, map, join, if◌then◌else◌, List,
  [], ◌∷◌, ◌++◌, ◌==◌,
}
use regulatory_compliance_he.Prelude.Map.{Dict}
use regulatory_compliance_he.Json.{Json, str, obj, Members, end, member}
use regulatory_compliance_he.Models.{Decision, Draft, EvidenceManifest}
use regulatory_compliance_he.Export.{cover_of, sum_line, sums_of}

-- The value of a member of an object.
abbrev pub value_at : Members → Text → Option Json
value_at end key = none
value_at (member k v m) key = if k == key then some v else value_at m key

abbrev pub members_of : Json → Members
members_of (obj m) = m
members_of _ = end

abbrev pub HasText : Json → String → Text → Type 0
HasText v key t = value_at (members_of v) (lit key) ≡ some (str t)

-- A cover that names the draft, the period, who asked, who approved and when, and who exports and when.
pub record IsCover (draft : Draft) (decision : Decision) (manifest : EvidenceManifest)
    (exporter exported_at : Text) (cover : Json) : Type 0 where
  pub draft_id : HasText cover "draft_id" draft.draft_id
  pub title : HasText cover "title" draft.title
  pub control_id : HasText cover "control_id" manifest.control.control_id
  pub period :
      value_at (members_of cover) (lit "period")
      ≡ some (
          obj (
            member
              (lit "start")
              (str manifest.period_start)
              (member (lit "end") (str manifest.period_end) end)))
  pub manifest_sha256 : HasText cover "manifest_sha256" manifest.manifest_sha256
  pub requested_by : HasText cover "requested_by" draft.requester
  pub approved_by : HasText cover "approved_by" decision.by
  pub approved_at : HasText cover "approved_at" decision.at
  pub approval_note : HasText cover "approval_note" decision.note
  pub exported_by : HasText cover "exported_by" exporter
  pub exported_on : HasText cover "exported_at" exported_at

pub cover_of-IsCover :
    (draft : Draft) (decision : Decision) (manifest : EvidenceManifest)
    (exporter exported_at : Text)
    → IsCover draft decision manifest exporter exported_at
        (cover_of draft decision manifest exporter exported_at)
unfolding cover_of lit ◌==◌
cover_of-IsCover draft decision manifest exporter exported_at = record {
  draft_id = refl;
  title = refl;
  control_id = refl;
  period = refl;
  manifest_sha256 = refl;
  requested_by = refl;
  approved_by = refl;
  approved_at = refl;
  approval_note = refl;
  exported_by = refl;
  exported_on = refl;
}

-- A text of one line for each file: the hash of its content, two spaces and its name.
abbrev pub AreSums : (Text → Text) → Dict Text → Text → Type 0
AreSums sha256 [] sums = sums ≡ []
AreSums sha256 ((name, content) ∷ files) sums =
    (rest : Text) × (sums ≡ sha256 content ++ (lit "  " ++ (name ++ (lit "\n" ++ rest))))
    × AreSums sha256 files rest

module _ (sha256 : Text → Text) (manifest_json : EvidenceManifest → Text)
    (read : Text → Option Text) where
  join_lines : (l : Text) (ls : List Text) → join [] (l ∷ ls) ≡ l ++ join [] ls
  unfolding join
  join_lines l [] = sym (append-nil l)
  join_lines l (m ∷ ls) = refl

  pub sums_of-AreSums :
      (files : Dict Text) → AreSums sha256 files (sums_of sha256 manifest_json read files)
  unfolding sums_of join lit
  sums_of-AreSums [] = refl
  sums_of-AreSums ((name, content) ∷ files) = (
    sums_of sha256 manifest_json read files,
    join_lines (sum_line sha256 manifest_json read (name, content))
          (map (sum_line sha256 manifest_json read) files)
        ∙ append_assoc (sha256 content) (lit "  " ++ (name ++ lit "\n"))
            (sums_of sha256 manifest_json read files)
        ∙ ap (λ (t : Text). sha256 content ++ (lit "  " ++ t))
            (append_assoc name (lit "\n") (sums_of sha256 manifest_json read files)),
    sums_of-AreSums files,
  )
