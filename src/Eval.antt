-- ===== src/Eval.antt =====
-- eval/validate_extraction.py: the score of an extraction against the gold set of a release. The
-- output of a model is a list of dictionaries; a ratio is kept as its two numbers.
pub mod Scores
pub mod GoldSet
use regulatory_compliance_he.Prelude.{
  Text, lit, ℕ, zero, ◌+◌, Option, none, some, Bool, true, false, not, ◌&&◌, ◌||◌, List, [], ◌∷◌,
  map, length, max, contains, lower, is_empty, ◌==◌, ltb, nat_eq, Result, ok, err, ◌>>=◌,
  if◌then◌else◌,
}
use regulatory_compliance_he.Prelude.Map.{Dict, get}
use regulatory_compliance_he.Json.{Json, null, boolean, number, str, arr, obj, nil, end}
use regulatory_compliance_he.Prelude.Int.{pos}

-- `AttributeError` of a quote that is no text, `ZeroDivisionError` of a gold set with nothing in it.
pub data EvalError : Type 0 where
  attribute_error zero_division : EvalError

-- An obligation of the gold set.
pub record Gold : Type 0 where
  pub type : Text
  pub quote : Text
  pub date : Option Text

abbrev pub Output : Type 0
Output = List (Dict Json)

-- `o.get("quote", "")`
unfoldable pub quote_value : Dict Json → Json
quote_value o = elim (get o (lit "quote")) [ none ↦ str [] | some v ↦ v ]

unfoldable pub as_text : Json → Result EvalError Text
as_text (str t) = ok t
as_text _ = err attribute_error

-- `bool(v)` of a JSON value
unfoldable pub is_truthy : Json → Bool
is_truthy null = false
is_truthy (boolean b) = b
is_truthy (number (pos zero)) = false
is_truthy (number n) = true
is_truthy (str []) = false
is_truthy (arr nil) = false
is_truthy (obj end) = false
is_truthy _ = true

-- `gq in q.lower() or q.lower() in gq and len(q) > 20`
unfoldable pub is_match : Text → Text → Bool
is_match gq q = contains gq (lower q) || (contains (lower q) gq && ltb 20 (length q))

-- The first obligation of the output that matches.
unfoldable pub first_match : Text → Output → Result EvalError (Option (Dict Json))
first_match gq [] = ok none
first_match gq (o ∷ os) =
    let rest = first_match gq os in
    as_text (quote_value o) >>= λ q. if is_match gq q then ok (some o) else rest

pub record Tally : Type 0 where
  pub found : ℕ
  pub date_total : ℕ
  pub date_hits : ℕ

-- `match.get("date") == g["date"]`
unfoldable pub is_date : Option Json → Text → Bool
is_date (some (str d)) date = d == date
is_date _ date = false

unfoldable pub count_date : Dict Json → Option Text → Tally → Tally
count_date m none t = t
count_date m (some []) t = t
count_date m (some (c ∷ s)) t = record t {
  date_total = t.date_total + 1;
  date_hits = t.date_hits + (if is_date (get m (lit "date")) (c ∷ s) then 1 else 0);
}

-- An empty dictionary counts as no match.
unfoldable pub count_match : Gold → Option (Dict Json) → Tally → Tally
count_match g none t = t
count_match g (some []) t = t
count_match g (some (k ∷ m)) t = count_date (k ∷ m) g.date (record t { found = t.found + 1 })

unfoldable pub tally : Output → List Gold → Tally → Result EvalError Tally
tally output [] t = ok t
tally output (g ∷ gs) t =
    first_match (lower g.quote) output >>= λ m. tally output gs (count_match g m t)

-- 1 for a quote that the release does not have.
unfoldable pub absent : Text → Json → Result EvalError ℕ
absent text q =
    if is_truthy q then (as_text q >>= λ t. ok (if contains (lower t) text then 0 else 1)) else ok 0

unfoldable pub count_absent : Text → List Json → Result EvalError ℕ
count_absent text [] = ok 0
count_absent text (q ∷ qs) = absent text q >>= λ k. count_absent text qs >>= λ n. ok (k + n)

pub record Ratio : Type 0 where
  pub num : ℕ
  pub den : ℕ

pub record Score : Type 0 where
  pub recall : Ratio
  pub hallucination : Ratio
  pub date_accuracy : Ratio
  pub n_gold : ℕ
  pub n_output : ℕ

unfoldable pub date_ratio : ℕ → ℕ → Ratio
date_ratio hits total =
    if nat_eq total 0 then record { num = 1; den = 1 } else record { num = hits; den = total }

unfoldable pub score_of : Tally → ℕ → ℕ → ℕ → Result EvalError Score
score_of t missing n_gold n_output =
    if nat_eq n_gold 0
    then err zero_division
    else ok (record {
      recall = record { num = t.found; den = n_gold };
      hallucination = record { num = missing; den = max 1 n_output };
      date_accuracy = date_ratio t.date_hits t.date_total;
      n_gold = n_gold;
      n_output = n_output;
    })

abbrev pub start : Tally
start = record { found = 0; date_total = 0; date_hits = 0 }

-- `score`
unfoldable pub score : Text → List Gold → Output → Result EvalError Score
score release_text gold output = tally output gold start >>= λ t.
    count_absent (lower release_text) (map quote_value output) >>= λ missing.
    score_of t missing (length gold) (length output)

-- The gold set as an output, by which the scorer tests itself.
unfoldable pub date_value : Option Text → Json
date_value none = null
date_value (some d) = str d

unfoldable pub as_output : Gold → Dict Json
as_output g =
    (lit "type", str g.type) ∷ (lit "quote", str g.quote) ∷ (lit "date", date_value g.date) ∷ []
