-- ===== src/Eval/GoldSet.antt =====
-- The gold set of eval/validate_extraction.py, scored as if a model had put it out.
use regulatory_compliance_he.Prelude.{
  Text, lit, ℕ, nat_eq, any, All, All-map, ◌+◌, ◌≤◌, ◌≡◌, refl, ap, inl, inr, Option, none, some,
  Bool, true, List, [], ◌∷◌, map, length, max, contains, lower, starts_with, arith, ◌==◌,
  Bool-cases, ok, if◌then◌else◌,
}
use regulatory_compliance_he.Prelude.Map.{Dict, get}
use regulatory_compliance_he.Json.{Json, str}
use regulatory_compliance_he.Eval.{
  Gold, Output, quote_value, as_text, is_truthy, is_match, first_match, Tally, count_date,
  count_match, tally, absent, count_absent, Score, date_ratio, score_of, start, score, date_value,
  as_output,
}

score_of_total :
    (t : Tally) (missing n_gold n_output : ℕ)
    → 1 ≤ n_gold
    → (s : Score) × (score_of t missing n_gold n_output ≡ ok s)
      × (s.recall.num ≡ t.found)
      × (s.recall.den ≡ n_gold)
unfolding score_of
score_of_total t missing n_gold n_output h = elim (Bool-cases (nat_eq n_gold 0)) [
  | inl z ↦ absurd (ground (arith, z, h))
  | inr nz ↦ (
    record {
      recall = record { num = t.found; den = n_gold };
      hallucination = record { num = missing; den = max 1 n_output };
      date_accuracy = date_ratio t.date_hits t.date_total;
      n_gold = n_gold;
      n_output = n_output;
    },
    rw nz refl,
    refl,
    refl,
  )
]

starts_with_refl : (s : Text) → starts_with s s ≡ true
unfolding starts_with
starts_with_refl [] = refl
starts_with_refl (c ∷ s) = ground (arith, starts_with_refl s)

contains_refl : (s : Text) → contains s s ≡ true
unfolding contains
contains_refl [] = starts_with_refl []
contains_refl (c ∷ s) = ground (arith, starts_with_refl (c ∷ s))

is_match_refl : (q : Text) → is_match (lower q) q ≡ true
unfolding is_match
is_match_refl q = ground (arith, contains_refl (lower q))

-- An obligation of the output matches, and is no empty dictionary.
abbrev HasMatch : Output → Gold → Type 0
HasMatch output g =
    (k : Text × Json) × (m : Dict Json) × (first_match (lower g.quote) output ≡ ok (some (k ∷ m)))

matching : Gold → Gold → Bool
matching g x = is_match (lower g.quote) x.quote

as_text-as_output : (g : Gold) → as_text (quote_value (as_output g)) ≡ ok g.quote
unfolding as_text quote_value as_output get lit ◌==◌
as_text-as_output g = refl

as_output-cons : (g : Gold) → (k : Text × Json) × (m : Dict Json) × (as_output g ≡ k ∷ m)
unfolding as_output
as_output-cons g = (
  (lit "type", str g.type),
  (lit "quote", str g.quote) ∷ (lit "date", date_value g.date) ∷ [],
  refl,
)

first_match-as_output :
    (g : Gold) (gold : List Gold) → any (matching g) gold ≡ true → HasMatch (map as_output gold) g
unfolding first_match any matching
first_match-as_output g [] h = absurd (cc h)
first_match-as_output g (x ∷ gold) h = elim (Bool-cases (is_match (lower g.quote) x.quote)) [
  | inl e ↦
      let (k, m, same) = as_output-cons x in
      (k, m, rw (as_text-as_output x, e) (ap (λ (d : Dict Json). ok (some d)) same))
  | inr e ↦
      let (k, m, f) = first_match-as_output g gold (ground (arith, e, h)) in
      (k, m, rw (as_text-as_output x, e) f)
]

-- Each obligation of the gold set matches one of it, itself at the latest.
any-matching : (gold : List Gold) → All (λ g. any (matching g) gold ≡ true) gold
unfolding any matching
any-matching [] = tt
any-matching (x ∷ gold) = (
  ground (arith, is_match_refl x.quote),
  All-map (λ g. any (matching g) gold ≡ true) (λ g. any (matching g) (x ∷ gold) ≡ true)
      (λ g h. ground (arith, h)) gold (any-matching gold),
)

count_date-found :
    (m : Dict Json) (d : Option Text) (t : Tally) → (count_date m d t).found ≡ t.found
unfolding count_date
count_date-found m none t = refl
count_date-found m (some []) t = refl
count_date-found m (some (c ∷ s)) t = refl

tally-found :
    (output : Output) (gold : List Gold) (t : Tally)
    → All (HasMatch output) gold
    → (r : Tally) × (tally output gold t ≡ ok r) × (r.found ≡ t.found + length gold)
unfolding tally count_match
tally-found output [] t h = (t, refl, omega arith)
tally-found output (g ∷ gold) t ((k, m, e), hs) =
    let next = count_date (k ∷ m) g.date (record t { found = t.found + 1 }) in
    let (r, f, sum) = tally-found output gold next hs in
    (
      r,
      rw e f,
      omega (arith, sum, count_date-found (k ∷ m) g.date (record t { found = t.found + 1 })),
    )

absent-as_output :
    (text : Text) (g : Gold) → (n : ℕ) × (absent text (quote_value (as_output g)) ≡ ok n)
unfolding absent
absent-as_output text g = elim (Bool-cases (is_truthy (quote_value (as_output g)))) [
  | inl e ↦ (if contains (lower g.quote) text then 0 else 1, rw (e, as_text-as_output g) refl)
  | inr e ↦ (0, rw e refl)
]

count_absent-as_output :
    (text : Text) (gold : List Gold)
    → (n : ℕ) × (count_absent text (map quote_value (map as_output gold)) ≡ ok n)
unfolding count_absent
count_absent-as_output text [] = (0, refl)
count_absent-as_output text (g ∷ gold) =
    let (k, e) = absent-as_output text g in
    let (n, f) = count_absent-as_output text gold in (k + n, rw (e, f) refl)

-- The self-test of the scorer: the gold set of a release, scored as an output, has full recall.
pub score-as_output :
    (release_text : Text) (g : Gold) (gold : List Gold)
    → (s : Score) × (score release_text (g ∷ gold) (map as_output (g ∷ gold)) ≡ ok s)
      × (s.recall.num ≡ length (g ∷ gold))
      × (s.recall.den ≡ length (g ∷ gold))
unfolding score
score-as_output release_text g gold =
    let all_gold = g ∷ gold in
    let output = map as_output all_gold in
    let matched =
      All-map (λ x. any (matching x) all_gold ≡ true) (HasMatch output)
        (λ x h. first_match-as_output x all_gold h) all_gold (any-matching all_gold) in
    let (t, e, sum) = tally-found output all_gold start matched in
    let (n, f) = count_absent-as_output (lower release_text) all_gold in
    let (s, last, num, den) = score_of_total t n (length all_gold) (length output) (omega arith) in
    (s, rw (e, f) last, omega (arith, num, sum), den)
