-- ===== src/Service/Tools.antt =====
-- The bodies of the tools of mcp/src/compliance_mcp/service.py: a body reads the systems of record
-- and the drafts, and only `draft_create` writes.
use regulatory_compliance_he.Prelude.{
  Text, lit, decimal, ℕ, suc, Option, none, some, Bool, not, ◌&&◌, ◌||◌, List, ◌∷◌, ◌++◌, map,
  length, is_empty, is_blank, Result, ok, err, if◌then◌else◌, ◌>>=◌,
}
use regulatory_compliance_he.Prelude.Int.{ℤ, pos, negsuc, leb_ℤ}
use regulatory_compliance_he.Prelude.Map.{get}
use regulatory_compliance_he.Models.{
  User, Control, Ticket, AttestationDue, EvidenceManifest, status_value, ToolResult,
  policy_lookup_result, policy_get_result, policy_list_result, control_lookup_result,
  control_test_results_result, regulatory_releases_result, regulatory_release_get_result,
  ticket_search_result, attestations_due_result, evidence_bundle_result, draft_list_result,
  draft_get_result,
}
use regulatory_compliance_he.Drafts.{DraftStore, DraftError, Stamp}
use regulatory_compliance_he.Drafts
use regulatory_compliance_he.Store.Dates.{Date, parse_iso_date}
use regulatory_compliance_he.Store.Policies.{current, search}
use regulatory_compliance_he.Store.Controls
use regulatory_compliance_he.Store.Tickets
use regulatory_compliance_he.Store.Feed
use regulatory_compliance_he.Store.Attestations.{due}
use regulatory_compliance_he.Service.Failure.{Failure, invalid, missing, other}
use regulatory_compliance_he.Service.Evidence.{present, validate_range, compute_manifest}
use regulatory_compliance_he.Service.Request.{
  Request, policy_lookup, policy_get, policy_list, control_lookup, control_test_results,
  regulatory_releases, regulatory_release_get, ticket_search, attestations_due, evidence_bundle,
  draft_create, draft_list, draft_get, Config, Today, clamp, found_word, is_some, or_empty,
  policy_summary, release_summary, counted, policy_for, policy_get_summary, singleton,
}
use regulatory_compliance_he.Service.Create.{draft_create_body}

module _ (sha256 : Text → Text) (manifest_json : EvidenceManifest → Text)
    (ticket_json : Ticket → Text) (control_json : Control → Text) (wide : ℕ → Bool)
    (c : Config) where
  pub control_lookup_body : Text → Text → Result Failure ToolResult
  control_lookup_body control_id query =
      if not (is_empty control_id)
      then (let control = get c.systems.controls control_id in
          ok (
            control_lookup_result
              (lit "control " ++ (control_id ++ (lit " " ++ found_word (is_some control))))
              (singleton control)))
      else if is_blank query
      then err (invalid (lit "control_id or query is required"))
      else (let hits = Controls.search control_json c.systems.controls query in
          ok (
            control_lookup_result
              (counted (length hits) (lit " control(s) for '" ++ (query ++ lit "'"))) hits))

  -- The date that the window starts from.
  day_of : Option Text → Today → Result Failure (Text × Date)
  day_of none today = ok (today.text, today.date)
  day_of (some t) today = elim (parse_iso_date t) [ none ↦ err other | some d ↦ ok (t, d) ]

  due_rows : ℤ → Date → Result Failure (List AttestationDue)
  due_rows within_days day = elim (due c.attestations within_days day) [
    | ok rows ↦ ok rows
    | err e ↦ err other
  ]

  show_ℤ : ℤ → Text
  show_ℤ (pos n) = decimal n
  show_ℤ (negsuc n) = b'-' ∷ decimal (suc n)

  pub attestations_due_body : ℤ → Option Text → Today → Result Failure ToolResult
  attestations_due_body within_days today now =
      if not (leb_ℤ (pos 0) within_days) || not (leb_ℤ within_days (pos 366))
      then err (invalid (lit "within_days must be between 0 and 366"))
      else if is_some (present today) && not c.allow_clock_override
      then err (invalid (lit "overriding today's date is disabled in this environment"))
      else (validate_range today none >>= λ _. day_of (present today) now >>= λ as_of.
          due_rows within_days as_of.1 >>= λ rows. ok (
            attestations_due_result
              (counted (length rows) (
                lit " attestation(s) due within "
                ++ (show_ℤ within_days ++ (lit " days of " ++ as_of.0))))
              rows))

  evidence_summary : Text → Text → Text → EvidenceManifest → Text
  evidence_summary control_id start end m =
      lit "evidence for "
      ++ (control_id
          ++ (lit " "
              ++ (start
                  ++ (lit ".."
                      ++ (end
                          ++ (lit ": "
                              ++ (counted (length m.policy_versions) (lit " policy versions, ")
                                  ++ (counted (length m.test_results) (lit " tests, ")
                                      ++ (counted (length m.change_tickets) (lit " tickets, ")
                                          ++ counted (length m.gaps) (lit " gap(s)"))))))))))

  evidence_answer : Text → Text → Text → Option EvidenceManifest → Result Failure ToolResult
  evidence_answer control_id start end none = err (missing (lit "unknown control " ++ control_id))
  evidence_answer control_id start end (some m) =
      ok (evidence_bundle_result (evidence_summary control_id start end m) m)

  pub evidence_bundle_body : Text → Text → Text → Result Failure ToolResult
  evidence_bundle_body control_id start end = validate_range (some start) (some end) >>= λ _.
      compute_manifest sha256 manifest_json ticket_json c.systems control_id start end >>= λ m.
      evidence_answer control_id start end m

  -- The body of a tool that writes nothing.
  unfoldable pub read_body : Request → Today → DraftStore → Result Failure ToolResult
  read_body (policy_lookup query limit) today drafts =
      if is_blank query
      then err (invalid (lit "query is required"))
      else (let hits = search c.systems.policies query (clamp limit) in
          ok (
            policy_lookup_result
              (counted (length hits) (lit " section(s) for '" ++ (query ++ lit "'"))) hits))
  read_body (policy_get policy_id as_of) today drafts = validate_range as_of none >>= λ _.
      (let doc = policy_for c.systems.policies policy_id (present as_of) in
        ok (policy_get_result (policy_get_summary policy_id (present as_of) doc) doc))
  read_body policy_list today drafts =
      let items = map policy_summary (current c.systems.policies) in
      ok (policy_list_result (counted (length items) (lit " current policies")) items)
  read_body (control_lookup control_id query) today drafts = control_lookup_body control_id query
  read_body (control_test_results control_id start end) today drafts =
      validate_range start end >>= λ _.
      (let rows = Controls.results c.systems.tests control_id start end in
        ok (
          control_test_results_result
            (counted (length rows) (
              lit " test result(s) for "
              ++ (control_id ++ (lit " " ++ (or_empty start ++ (lit ".." ++ or_empty end))))))
            rows))
  read_body (regulatory_releases since source) today drafts =
      validate_range (some since) none >>= λ _.
      (let rows = map release_summary (Feed.since c.releases since source) in
        ok (
          regulatory_releases_result (counted (length rows) (lit " release(s) since " ++ since))
            rows))
  read_body (regulatory_release_get release_id) today drafts =
      let release = get c.releases release_id in
      ok (
        regulatory_release_get_result
          (lit "release " ++ (release_id ++ (lit " " ++ found_word (is_some release)))) release)
  read_body (ticket_search query control_id start end) today drafts =
      validate_range start end >>= λ _.
      (let rows = Tickets.search ticket_json c.systems.tickets query control_id start end in
        ok (ticket_search_result (counted (length rows) (lit " ticket(s)")) rows))
  read_body (attestations_due within_days day) today drafts =
      attestations_due_body within_days day today
  read_body (evidence_bundle control_id start end) today drafts =
      evidence_bundle_body control_id start end
  read_body (draft_list status) today drafts =
      let rows = Drafts.list drafts status in
      ok (
        draft_list_result
          (counted (length rows) (lit " " ++ (status_value status ++ lit " draft(s)"))) rows)
  read_body (draft_get draft_id) today drafts =
      let draft = Drafts.get drafts draft_id in
      ok (
        draft_get_result (lit "draft " ++ (draft_id ++ (lit " " ++ found_word (is_some draft))))
          draft)
  -- not reached: see `run_body`
  read_body (draft_create kind title body related_ids) today drafts = err other

  unfoldable pub run_body :
      Request → User → Today → DraftStore → Result Failure ToolResult × DraftStore
  run_body (draft_create kind title body related_ids) user today drafts =
      draft_create_body sha256 manifest_json ticket_json control_json wide c user today.stamp kind
        title body related_ids drafts
  run_body request user today drafts = (read_body request today drafts, drafts)
