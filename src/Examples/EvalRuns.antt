-- ===== src/Examples/EvalRuns.antt =====
-- The scorer of eval/validate_extraction.py, and the read of the last line of a log by audit.py, on
-- concrete data.
use regulatory_compliance_he.Prelude.{
  Text, lit, ◌≡◌, refl, inr, none, some, true, all, List, [], ◌∷◌, ◌++◌, map, length, contains,
  starts_with, lower, ok, ◌==◌,
}
use regulatory_compliance_he.Prelude.Map.{Dict, get}
use regulatory_compliance_he.Json.{Json, str}
use regulatory_compliance_he.Audit.Tail.{newline, count, is_white, is_written_line, tail_line}
use regulatory_compliance_he.Eval.{
  Gold, Score, as_text, quote_value, is_truthy, is_match, first_match, count_match, count_date,
  is_date, tally, absent, count_absent, date_ratio, score_of, score, as_output,
}
use regulatory_compliance_he.Audit.LastLine.{tail_line_lem}
use regulatory_compliance_he.Eval.Scores.{AreShares, score-AreShares}
use regulatory_compliance_he.Eval.GoldSet.{score-as_output}

abbrev gift_limit : Gold
gift_limit = record {
  type = lit "requirement";
  quote = lit "Raise the limit";
  date = some (lit "2027-01-01");
}

abbrev records : Gold
records = record { type = lit "record-keeping"; quote = lit "keep a record"; date = none }

abbrev release : Text
release = lit "Firms raise the limit and keep a record."

-- One quote of the release, and one that is invented.
abbrev output : List (Dict Json)
output =
    ((lit "quote", str (lit "raise the limit")) ∷ (lit "date", str (lit "2027-01-01")) ∷ [])
    ∷ ((lit "quote", str (lit "fire everyone")) ∷ [])
    ∷ []

abbrev half : Score
half = record {
  recall = record { num = 1; den = 2 };
  hallucination = record { num = 1; den = 2 };
  date_accuracy = record { num = 1; den = 1 };
  n_gold = 2;
  n_output = 2;
}

scored : score release (gift_limit ∷ records ∷ []) output ≡ ok half
unfolding score tally first_match as_text quote_value is_truthy is_match count_match count_date
    is_date absent count_absent score_of date_ratio get lit ◌==◌ contains starts_with lower
scored = refl

score-AreShares_example : AreShares half
score-AreShares_example = score-AreShares release (gift_limit ∷ records ∷ []) output half scored

score-as_output_example :
    (s : Score) × (score release
        (gift_limit ∷ records ∷ [])
        (map as_output (gift_limit ∷ records ∷ []))
      ≡ ok s)
    × (s.recall.num ≡ length (gift_limit ∷ records ∷ []))
    × (s.recall.den ≡ length (gift_limit ∷ records ∷ []))
score-as_output_example = score-as_output release gift_limit (records ∷ [])

one_line : count (lit "{}") ≡ 0
unfolding count lit
one_line = refl

one_written : is_written_line (lit "{}") ≡ true
unfolding lit all is_white
one_written = refl

tail_line_lem_example :
    tail_line ((lit "{\"seq\": 1}" ++ newline ∷ []) ++ (lit "{}" ++ newline ∷ [])) ≡ some (lit "{}")
tail_line_lem_example =
    tail_line_lem (lit "{\"seq\": 1}" ++ newline ∷ []) (lit "{}") (newline ∷ [])
      (inr (lit "{\"seq\": 1}", refl)) one_line one_written (inr refl)
