-- ===== src/Review/FourEyes.antt =====
-- Who decides on a draft through mcp/src/compliance_mcp/review_cli.py, and what a refusal changes.
use regulatory_compliance_he.Prelude.{
  Text, ℕ, zero, suc, ◌≡◌, refl, ap, Option, none, some, false, List, Result, ok, err, Bool-cases,
  inl, inr, lower, ◌==◌,
}
use regulatory_compliance_he.Prelude.Map.{Dict}
use regulatory_compliance_he.Json.{Json}
use regulatory_compliance_he.Models.{User, Draft}
use regulatory_compliance_he.Audit.Record.{Entry}
use regulatory_compliance_he.Audit.Writer.{AuditError, AuditLog, Disk}
use regulatory_compliance_he.Audit.Append.{write}
use regulatory_compliance_he.Directory.{
  DirectoryError, access_denied, load_error, Directory, require_approver,
}
use regulatory_compliance_he.Drafts.{DraftStore, DraftError, conflict, decide}
use regulatory_compliance_he.Drafts.Decisions.{conflict_unchanged}
use regulatory_compliance_he.Drafts
use regulatory_compliance_he.Review.{
  ReviewIdentityMode, Args, World, Outside, Refusal, refused, crashed, Crash, decision_of,
  approver_identity, decided_entry, refused_entry, decided, found, authorised, identified, attempt,
  wrote, versioned, recorded, closed, review,
}

module _ (sha256 : Text → Text) (hmac : Text → Text → Text)
    (parse_users : Text → Option (List User)) (username : Text → Result Text Text)
    (mode : ReviewIdentityMode) (log : AuditLog) (args : Args) (outside : Outside) (w : World) where
  abbrev decision : User → Result DraftError Draft × DraftStore
  decision approver =
      decide args.draft_id (decision_of args) approver.upn args.note outside.now w.drafts

  -- The decision of an approver: a name that the identity mode gives and the approver check accepts,
  -- who did not ask for the draft; the drafts are those after the decision.
  pub record IsDecidedBy (approver : User) (draft : Draft) (after : DraftStore) : Type 0 where
    pub upn : Text
    pub identified_as : approver_identity username mode args ≡ ok upn
    pub may_approve :
        (require_approver sha256 parse_users upn outside.checked_at outside.file w.directory).0
        ≡ ok approver
    pub asked : Draft
    pub stored : Drafts.get w.drafts args.draft_id ≡ some asked
    pub other_person : (lower asked.requester == lower approver.upn) ≡ false
    pub decided_as : decision approver ≡ (ok draft, after)

  -- Where the `try` block ends.
  abbrev Ends : Result Refusal (User × Draft) × World → Type 0
  Ends (ok (approver, draft), v) = IsDecidedBy approver draft v.drafts
  Ends (err (refused m), v) = v.drafts ≡ w.drafts
  Ends (err crashed, v) = Unit

  abbrev run_decided :
      User → Result DraftError Draft × DraftStore → World → Result Refusal (User × Draft) × World
  run_decided approver r v =
      decided sha256 hmac parse_users username mode log args outside approver r v

  decided-Ends :
      (approver : User) (r : Result DraftError Draft × DraftStore) (v : World)
      → decision approver ≡ r
      → ((draft : Draft) (after : DraftStore)
          → decision approver ≡ (ok draft, after)
          → IsDecidedBy approver draft after)
      → Ends (run_decided approver r v)
  decided-Ends approver (ok draft, drafts) v e make = make draft drafts e
  decided-Ends approver (err (conflict m), drafts) v e make =
      conflict_unchanged args.draft_id (decision_of args) approver.upn args.note outside.now
        w.drafts m drafts e
  decided-Ends approver (err (Drafts.value_error m), drafts) v e make = tt
  decided-Ends approver (err Drafts.integrity_error, drafts) v e make = tt
  decided-Ends approver (err Drafts.assertion_error, drafts) v e make = tt

  found-Ends :
      (upn : Text) (approver : User) (o : Option Draft) (d : Directory)
      → approver_identity username mode args ≡ ok upn
      → (require_approver sha256 parse_users upn outside.checked_at outside.file w.directory).0
        ≡ ok approver
      → Drafts.get w.drafts args.draft_id ≡ o
      → Ends (
          found sha256 hmac parse_users username mode log args outside approver o
            (record w { directory = d }))
  found-Ends upn approver none d named checked e = refl
  found-Ends upn approver (some asked) d named checked e =
      elim (Bool-cases (lower asked.requester == lower approver.upn)) [
        | inl own ↦ rw own refl
        | inr other ↦ rw other (
            decided-Ends approver (decision approver) (record w { directory = d }) refl
              (λ draft after p. record {
                upn = upn;
                identified_as = named;
                may_approve = checked;
                asked = asked;
                stored = e;
                other_person = other;
                decided_as = p;
              }))
      ]

  authorised-Ends :
      (upn : Text) (r : Result DirectoryError User × Directory)
      → approver_identity username mode args ≡ ok upn
      → require_approver sha256 parse_users upn outside.checked_at outside.file w.directory ≡ r
      → Ends (authorised sha256 hmac parse_users username mode log args outside r w)
  authorised-Ends upn (err (access_denied m), d) named e = refl
  authorised-Ends upn (err load_error, d) named e = tt
  authorised-Ends upn (ok approver, d) named e =
      found-Ends upn approver (Drafts.get w.drafts args.draft_id) d named
        (ap (λ (x : Result DirectoryError User × Directory). x.0) e) refl

  identified-Ends :
      (r : Result Text Text)
      → approver_identity username mode args ≡ r
      → Ends (identified sha256 hmac parse_users username mode log args outside r w)
  identified-Ends (err m) e = refl
  identified-Ends (ok upn) e =
      authorised-Ends upn
        (require_approver sha256 parse_users upn outside.checked_at outside.file w.directory) e refl

  -- What an exit code means for the drafts.
  abbrev pub IsProper : Result Crash ℕ × World → Type 0
  IsProper (ok zero, v) = (approver : User) × (draft : Draft) × IsDecidedBy approver draft v.drafts
  IsProper (ok (suc n), v) = v.drafts ≡ w.drafts
  IsProper (err x, v) = Unit

  wrote-IsProper :
      (code : ℕ) (r : Result AuditError (Dict Json) × Disk) (v : World)
      → IsProper (ok code, v)
      → IsProper (wrote sha256 hmac parse_users username mode log args outside code r v)
  wrote-IsProper zero (ok rec, disk) v p = p
  wrote-IsProper (suc n) (ok rec, disk) v p = p
  wrote-IsProper code (err e, disk) v p = tt

  versioned-IsProper :
      (code : ℕ) (entry : Text → Entry) (r : Result DirectoryError Text × Directory) (v : World)
      → IsProper (ok code, v)
      → IsProper (versioned sha256 hmac parse_users username mode log args outside code entry r v)
  versioned-IsProper code entry (err e, d) v p = tt
  versioned-IsProper zero entry (ok version, d) v p =
      wrote-IsProper zero (write sha256 hmac log outside.source (entry version) v.disk)
        (record v { directory = d }) p
  versioned-IsProper (suc n) entry (ok version, d) v p =
      wrote-IsProper (suc n) (write sha256 hmac log outside.source (entry version) v.disk)
        (record v { directory = d }) p

  closed-IsProper :
      (t : Result Refusal (User × Draft)) (v : World)
      → Ends (t, v)
      → IsProper (closed sha256 hmac parse_users username mode log args outside (t, v))
  unfolding recorded
  closed-IsProper (ok (approver, draft)) v p =
      versioned-IsProper 0 (λ x. decided_entry args x approver draft) _ v (approver, draft, p)
  closed-IsProper (err (refused m)) v p = versioned-IsProper 2 (λ x. refused_entry args x m) _ v p
  closed-IsProper (err crashed) v p = tt

  -- The command exits with 0 only if a person in the approver group, who is not the one that asked
  -- for the draft, decided on it, and the store took that decision; with another exit code the drafts
  -- are as they were.
  pub review-IsProper : IsProper (review sha256 hmac parse_users username mode log args outside w)
  unfolding review attempt
  review-IsProper =
      closed-IsProper
        (identified sha256 hmac parse_users username mode log args outside
          (approver_identity username mode args) w).0
        (identified sha256 hmac parse_users username mode log args outside
          (approver_identity username mode args) w).1
        (identified-Ends (approver_identity username mode args) refl)
