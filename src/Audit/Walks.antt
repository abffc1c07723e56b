-- ===== src/Audit/Walks.antt =====
-- `verify` of mcp/src/compliance_mcp/audit.py, over the files in order, against the chain of records.
use regulatory_compliance_he.Prelude.{
  Text, lit, decimal, ℕ, suc, ◌+◌, ◌≡◌, ◌↔◌, refl, ap, ◌∙◌, List, [], ◌∷◌, ◌++◌, length,
  length-append, arith, ok, Result-cases, inl, inr,
}
use regulatory_compliance_he.Prelude.Map.{Dict}
use regulatory_compliance_he.Json.{Json}
use regulatory_compliance_he.Audit.Writer.{Line, entry, blank, malformed}
use regulatory_compliance_he.Audit.Verifier.{Walk, check_record, walk_lines, walk_files}
use regulatory_compliance_he.Audit.Chain.{IsChain, check_record-eq-ok}

-- The records of a file.
abbrev pub records_of : List Line → List (Dict Json)
records_of [] = []
records_of (entry n d ∷ ls) = d ∷ records_of ls
records_of (blank n ∷ ls) = records_of ls
records_of (malformed n ∷ ls) = records_of ls

-- Every line parses.
abbrev pub IsReadable : List Line → Type 0
IsReadable [] = Unit
IsReadable (entry n d ∷ ls) = IsReadable ls
IsReadable (blank n ∷ ls) = IsReadable ls
IsReadable (malformed n ∷ ls) = ⊥

-- The lines of all files, in their order.
abbrev pub all_lines : List (Text × List Line) → List Line
all_lines [] = []
all_lines ((name, lines) ∷ fs) = lines ++ all_lines fs

pub records_of-append : (xs ys : List Line) → records_of (xs ++ ys) ≡ records_of xs ++ records_of ys
records_of-append [] ys = refl
records_of-append (entry n d ∷ xs) ys =
    ap (λ (r : List (Dict Json)). d ∷ r) (records_of-append xs ys)
records_of-append (blank n ∷ xs) ys = records_of-append xs ys
records_of-append (malformed n ∷ xs) ys = records_of-append xs ys

pub IsReadable-append :
    (xs ys : List Line) → IsReadable (xs ++ ys) ↔ (IsReadable xs × IsReadable ys)
IsReadable-append [] ys = (λ h. (tt, h), λ h. h.1)
IsReadable-append (entry n d ∷ xs) ys = IsReadable-append xs ys
IsReadable-append (blank n ∷ xs) ys = IsReadable-append xs ys
IsReadable-append (malformed n ∷ xs) ys = (λ h. absurd h, λ h. h.0)

pub count-append :
    (xs ys : List Line)
    → length (records_of (xs ++ ys)) ≡ length (records_of xs) + length (records_of ys)
count-append xs ys =
    ap length (records_of-append xs ys) ∙ length-append (records_of xs) (records_of ys)

-- The walk that has read records up to a new head.
abbrev pub advance : Walk → Text → ℕ → Walk
advance w head n = record w { prev = head; count = w.count + n }

advance-advance :
    (w v u : Walk) (n m : ℕ)
    → v ≡ advance w v.prev n
    → u ≡ advance v u.prev m
    → u ≡ advance w u.prev (n + m)
advance-advance w v u n m e f = ground arith

module _ (sha256 : Text → Text) (hmac : Text → Text → Text) (key : Text) where
  pub IsChain-append :
      (prev : Text) (xs ys : List (Dict Json)) (head : Text)
      → IsChain sha256 hmac key prev (xs ++ ys) head
        ↔ ((mid : Text) × IsChain sha256 hmac key prev xs mid × IsChain sha256 hmac key mid ys head)
  IsChain-append prev [] ys head = (λ c. (prev, refl, c), λ h. rw (h.1) (h.2))
  IsChain-append prev (r ∷ xs) ys head = (
    λ (hash, link, rest).
        let (mid, before, after) = (IsChain-append hash xs ys head).0 rest in
        (mid, (hash, link, before), after),
    λ (mid, (hash, link, before), after).
        (hash, link, (IsChain-append hash xs ys head).1 (mid, before, after)),
  )

  walk_lines_complete :
      (name : Text) (lineno : ℕ) (lines : List Line) (w : Walk) (head : Text)
      → IsReadable lines
      → IsChain sha256 hmac key w.prev (records_of lines) head
      → walk_lines sha256 hmac key name lineno lines w
        ≡ ok (advance w head (length (records_of lines)))
  unfolding walk_lines
  walk_lines_complete name lineno [] w head r c = ground arith
  walk_lines_complete name lineno (blank n ∷ ls) w head r c =
      walk_lines_complete name (suc lineno) ls w head r c
  walk_lines_complete name lineno (malformed n ∷ ls) w head r c = absurd r
  walk_lines_complete name lineno (entry n d ∷ ls) w head r (hash, link, rest) =
      rw
        ((check_record-eq-ok sha256 hmac key w (name ++ (lit ":" ++ decimal lineno)) d hash).1 link)
        (walk_lines_complete name (suc lineno) ls (record w { prev = hash; count = suc w.count })
            head r rest
          ∙ ap (λ (n : ℕ). ok (record w { prev = head; count = n })) (omega arith))

  walk_lines_sound :
      (name : Text) (lineno : ℕ) (lines : List Line) (w w' : Walk)
      → walk_lines sha256 hmac key name lineno lines w ≡ ok w'
      → IsReadable lines
        × IsChain sha256 hmac key w.prev (records_of lines) w'.prev
        × (w' ≡ advance w w'.prev (length (records_of lines)))
  unfolding walk_lines
  walk_lines_sound name lineno [] w w' e = (tt, ground arith, ground arith)
  walk_lines_sound name lineno (blank n ∷ ls) w w' e = walk_lines_sound name (suc lineno) ls w w' e
  walk_lines_sound name lineno (malformed n ∷ ls) w w' e = cc
  walk_lines_sound name lineno (entry n d ∷ ls) w w' e =
      elim (Result-cases (check_record sha256 hmac key w (name ++ (lit ":" ++ decimal lineno)) d)) [
        | inl (hash, p) ↦
            let (r, c, same) =
              walk_lines_sound name (suc lineno) ls (record w { prev = hash; count = suc w.count })
                w' (rw (p, walk_lines) at e) in
            (
              r,
              (
                hash,
                (check_record-eq-ok sha256 hmac key w (name ++ (lit ":" ++ decimal lineno)) d
                      hash).0
                    p,
                c,
              ),
              same ∙ ap (λ (m : ℕ). record w { prev = w'.prev; count = m }) (omega arith),
            )
        | inr (x, p) ↦ absurd (cc (e, p))
      ]

  pub walk_files_complete :
      (fs : List (Text × List Line)) (w : Walk) (head : Text)
      → IsReadable (all_lines fs)
      → IsChain sha256 hmac key w.prev (records_of (all_lines fs)) head
      → walk_files sha256 hmac key fs w ≡ ok (advance w head (length (records_of (all_lines fs))))
  unfolding walk_files
  walk_files_complete [] w head r c = ground arith
  walk_files_complete ((name, lines) ∷ fs) w head r c =
      let (r₁, r₂) = (IsReadable-append lines (all_lines fs)).0 r in
      let (mid, before, after) =
        (IsChain-append w.prev (records_of lines) (records_of (all_lines fs)) head).0
          (rw records_of-append at c) in
      rw (walk_lines_complete name 1 lines w mid r₁ before) (
        walk_files_complete fs (advance w mid (length (records_of lines))) head r₂ after
        ∙ ap (λ (n : ℕ). ok (record w { prev = head; count = n }))
            (omega (arith, count-append lines (all_lines fs))))

  pub walk_files_sound :
      (fs : List (Text × List Line)) (w w' : Walk)
      → walk_files sha256 hmac key fs w ≡ ok w'
      → IsReadable (all_lines fs)
        × IsChain sha256 hmac key w.prev (records_of (all_lines fs)) w'.prev
        × (w' ≡ advance w w'.prev (length (records_of (all_lines fs))))
  unfolding walk_files
  walk_files_sound [] w w' e = (tt, ground arith, ground arith)
  walk_files_sound ((name, lines) ∷ fs) w w' e =
      elim (Result-cases (walk_lines sha256 hmac key name 1 lines w)) [
        | inl (v, p) ↦
            let (r₁, before, same₁) = walk_lines_sound name 1 lines w v p in
            let (r₂, after, same₂) = walk_files_sound fs v w' (rw (p, walk_files) at e) in
            (
              (IsReadable-append lines (all_lines fs)).1 (r₁, r₂),
              rw records_of-append (
                  (IsChain-append w.prev (records_of lines) (records_of (all_lines fs)) w'.prev).1
                    (v.prev, before, after)),
              rw (count-append lines (all_lines fs)) (advance-advance w v w' _ _ same₁ same₂),
            )
        | inr (x, p) ↦ absurd (cc (e, p))
      ]
