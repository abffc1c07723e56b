-- ===== src/Eval/Scores.antt =====
-- What the scores of eval/validate_extraction.py are worth.
use regulatory_compliance_he.Prelude.{
  Text, ℕ, subst, nat_eq, ◌+◌, ◌≤◌, ◌≡◌, refl, inl, inr, Option, none, some, List, [], ◌∷◌, map,
  length, max, lower, arith, Bool-cases, Result-cases, ok, ◌>>=◌, >>=-eq-ok,
}
use regulatory_compliance_he.Prelude.Map.{Dict}
use regulatory_compliance_he.Json.{Json}
use regulatory_compliance_he.Eval.{
  Gold, Output, quote_value, as_text, is_truthy, first_match, Tally, count_date, count_match, tally,
  absent, count_absent, Ratio, Score, date_ratio, score_of, start, score,
}

-- What the loop keeps: hits are dates, and dates are of found obligations.
pub record IsCounted (n : ℕ) (t : Tally) : Type 0 where
  pub hits : t.date_hits ≤ t.date_total
  pub dates : t.date_total ≤ t.found
  pub within : t.found ≤ n

count_match-IsCounted :
    (g : Gold) (m : Option (Dict Json)) (n : ℕ) (t : Tally)
    → IsCounted n t
    → IsCounted (n + 1) (count_match g m t)
unfolding count_match count_date
count_match-IsCounted g none n t c = ground (arith, c)
count_match-IsCounted g (some []) n t c = ground (arith, c)
count_match-IsCounted g (some (k ∷ m)) n t c = dated g.date
  where
    dated :
        (d : Option Text)
        → IsCounted (n + 1) (count_date (k ∷ m) d (record t { found = t.found + 1 }))
    dated none = ground (arith, c)
    dated (some []) = ground (arith, c)
    dated (some (x ∷ s)) = ground (arith, c)

tally-IsCounted :
    (output : Output) (gold : List Gold) (n k : ℕ) (t r : Tally)
    → n + length gold ≡ k
    → tally output gold t ≡ ok r
    → IsCounted n t
    → IsCounted k r
unfolding tally
tally-IsCounted output [] n k t r e h c = ground (arith, e, h, c)
tally-IsCounted output (g ∷ gs) n k t r e h c =
    let (m, found, rest) =
      >>=-eq-ok (first_match (lower g.quote) output) (λ m. tally output gs (count_match g m t)) h in
    tally-IsCounted output gs (n + 1) k (count_match g m t) r (omega (arith, e)) rest
      (count_match-IsCounted g m n t c)

absent-le : (text : Text) (q : Json) (k : ℕ) → absent text q ≡ ok k → k ≤ 1
unfolding absent
absent-le text q k h = elim (Bool-cases (is_truthy q)) [
  | inr e ↦ ground (arith, e, h)
  | inl e ↦ elim (Result-cases (as_text q)) [
    | inl (t, f) ↦ ground (arith, e, f, h)
    | inr (x, f) ↦ ground (arith, e, f, h)
  ]
]

count_absent-le :
    (text : Text) (qs : List Json) (n : ℕ) → count_absent text qs ≡ ok n → n ≤ length qs
unfolding count_absent
count_absent-le text [] n h = ground (arith, h)
count_absent-le text (q ∷ qs) n h =
    let (k, e, rest) =
      >>=-eq-ok (absent text q) (λ k. count_absent text qs >>= λ n. ok (k + n)) h in
    let (m, f, sum) = >>=-eq-ok (count_absent text qs) (λ n. ok (k + n)) rest in
    ground (arith, sum, absent-le text q k e, count_absent-le text qs m f)

length-map : (output : Output) → length (map quote_value output) ≡ length output
length-map [] = refl
length-map (o ∷ os) = omega (arith, length-map os)

-- A number between 0 and 1.
abbrev pub IsShare : Ratio → Type 0
IsShare r = (r.num ≤ r.den) × (1 ≤ r.den)

abbrev pub AreShares : Score → Type 0
AreShares s = IsShare s.recall × IsShare s.hallucination × IsShare s.date_accuracy

date_ratio-IsShare : (hits total : ℕ) → hits ≤ total → IsShare (date_ratio hits total)
unfolding date_ratio
date_ratio-IsShare hits total h = ground arith

score_of-AreShares :
    (t : Tally) (missing n_gold n_output : ℕ) (s : Score)
    → score_of t missing n_gold n_output ≡ ok s
    → IsCounted n_gold t
    → missing ≤ n_output
    → AreShares s
unfolding score_of
score_of-AreShares t missing n_gold n_output s h c few = elim (Bool-cases (nat_eq n_gold 0)) [
  | inl z ↦ absurd (ground (arith, z, h))
  | inr nz ↦
      let same : record {
        recall = record { num = t.found; den = n_gold };
        hallucination = record { num = missing; den = max 1 n_output };
        date_accuracy = date_ratio t.date_hits t.date_total;
        n_gold = n_gold;
        n_output = n_output;
      }
          ≡ s =
        cc (rw nz at h) in
      subst AreShares same (
        (c.within, ground (arith, nz)),
        (omega (arith, few), omega arith),
        date_ratio-IsShare t.date_hits t.date_total c.hits,
      )
]

-- Every score that is given lies between 0 and 1: the recall, the share of invented quotes and the
-- accuracy of the dates, whatever a model has put out.
pub score-AreShares :
    (release_text : Text) (gold : List Gold) (output : Output) (s : Score)
    → score release_text gold output ≡ ok s
    → AreShares s
unfolding score
score-AreShares release_text gold output s h =
    let (t, e, rest) =
      >>=-eq-ok (tally output gold start)
        (λ t. count_absent (lower release_text) (map quote_value output) >>= λ missing.
          score_of t missing (length gold) (length output))
        h in
    let (missing, f, last) =
      >>=-eq-ok (count_absent (lower release_text) (map quote_value output))
        (λ missing. score_of t missing (length gold) (length output)) rest in
    let counted =
      tally-IsCounted output gold 0 (length gold) start t (omega arith) e (ground arith) in
    let few = count_absent-le (lower release_text) (map quote_value output) missing f in
    score_of-AreShares t missing (length gold) (length output) s last counted
      (omega (arith, few, length-map output))
