-- ===== src/Store/Policies.antt =====
-- `PolicyRepository` of mcp/src/compliance_mcp/store.py, over the policies that it has parsed.
pub mod Versions
pub mod Current
use regulatory_compliance_he.Prelude.{
  Text, lit, ℕ, zero, suc, ◌+◌, ◌-◌, Option, none, some, Bool, true, false, not, ◌&&◌, ◌||◌, List,
  [], ◌∷◌, ◌++◌, map, keep, any, take, last?, lower, starts_with, drop, length, leb, ltb, nat_eq,
  ◌==◌, text_le, text_lt, sort_by, if◌then◌else◌, ◌≡◌, refl,
}
use mathlib.Core.List.{reverse}
use regulatory_compliance_he.Prelude.Map.{Dict, get, put, values}
use regulatory_compliance_he.Models.{PolicyStatus, PolicySection, Policy, PolicyHit}

abbrev pub is_approved : Policy → Bool
is_approved d = elim d.status [ PolicyStatus.approved ↦ true | _ ↦ false ]

abbrev pub is_newer : Policy → Option Policy → Bool
is_newer d none = true
is_newer d (some old) = text_lt old.effective_date d.effective_date

-- One step of the loop of `current`.
unfoldable pub keep_latest : Dict Policy → Policy → Dict Policy
keep_latest latest d =
    if is_approved d && is_newer d (get latest d.policy_id)
    then put latest d.policy_id d
    else latest

unfoldable pub latest_from : Dict Policy → List Policy → Dict Policy
latest_from latest [] = latest
latest_from latest (d ∷ docs) = latest_from (keep_latest latest d) docs

abbrev pub id_order : Policy → Policy → Bool
id_order a b = text_le a.policy_id b.policy_id

abbrev pub date_order : Policy → Policy → Bool
date_order a b = text_le a.effective_date b.effective_date

-- `current`
unfoldable pub current : List Policy → List Policy
current docs = sort_by id_order (values (latest_from [] docs))

-- `versions`
unfoldable pub versions : List Policy → Text → List Policy
versions docs policy_id = sort_by date_order (keep (λ d. d.policy_id == policy_id) docs)

abbrev pub in_force : Text → Policy → Bool
in_force as_of d = is_approved d && text_le d.effective_date as_of

-- `version_as_of`
unfoldable pub version_as_of : List Policy → Text → Text → Option Policy
version_as_of docs policy_id as_of = last? (keep (in_force as_of) (versions docs policy_id))

is_alnum : ℕ → Bool
is_alnum c = (leb b'a' c && leb c b'z') || (leb b'0' c && leb c b'9')

word : Text → List Text
word [] = []
word (c ∷ acc) = reverse (c ∷ acc) ∷ []

words_from : Text → Text → List Text
unfolding is_alnum word
words_from [] acc = word acc
words_from (c ∷ s) acc =
    let longer = words_from s (c ∷ acc) in
    let fresh = words_from s [] in if is_alnum c then longer else word acc ++ fresh

-- `[t for t in re.findall(r"[a-z0-9]+", query.lower()) if len(t) > 2]`
pub terms_of : Text → List Text
unfolding words_from
terms_of query = keep (λ t. ltb 2 (length t)) (words_from (lower query) [])

-- `s.count(t)` for a text that is not empty: matches that do not overlap, from the left; `skip` is
-- what is left of the last match.
count_from : Text → ℕ → Text → ℕ
count_from t skip [] = 0
count_from t (suc skip) (c ∷ s) = count_from t skip s
count_from t zero (c ∷ s) =
    let found = suc (count_from t (length t - 1) s) in
    let rest = count_from t zero s in if starts_with (c ∷ s) t then found else rest

pub count : Text → Text → ℕ
count s t = count_from t zero s

total : Text → List Text → ℕ
total haystack [] = 0
total haystack (t ∷ terms) = count haystack t + total haystack terms

pub citation_of : Policy → PolicySection → Text
citation_of d section =
    d.policy_id
    ++ (lit " v"
        ++ (d.version
            ++ (lit " (effective "
                ++ (d.effective_date
                    ++ (lit "), section '"
                        ++ (section.heading ++ (lit "', source " ++ d.source)))))))

unfoldable pub hit_of : Policy → PolicySection → PolicyHit
hit_of d section = record {
  policy_id = d.policy_id;
  version = d.version;
  effective_date = d.effective_date;
  title = d.title;
  heading = section.heading;
  text = section.text;
  citation = citation_of d section;
}

-- How often the terms occur in the heading and the text of a section.
unfoldable pub score : List Text → PolicySection → ℕ
unfolding total
score terms section = total (lower (section.heading ++ (lit " " ++ section.text))) terms

unfoldable pub score_sections : List Text → Policy → List PolicySection → List (ℕ × PolicyHit)
score_sections terms d [] = []
score_sections terms d (section ∷ sections) =
    let rest = score_sections terms d sections in
    if nat_eq (score terms section) 0 then rest else (score terms section, hit_of d section) ∷ rest

unfoldable pub score_policies : List Text → List Policy → List (ℕ × PolicyHit)
score_policies terms [] = []
score_policies terms (d ∷ docs) = score_sections terms d d.sections ++ score_policies terms docs

-- The best score first; ties keep the order of the policies and their sections.
abbrev pub better : ℕ × PolicyHit → ℕ × PolicyHit → Bool
better a b = leb b.0 a.0

-- `search`
unfoldable pub search : List Policy → Text → ℕ → List PolicyHit
search docs query limit =
    map (λ p. p.1) (take limit (sort_by better (score_policies (terms_of query) (current docs))))

search_tests :
    (terms_of (lit "Do the KYC-2 checks") ≡ lit "the" ∷ lit "kyc" ∷ lit "checks" ∷ [])
    × (count (lit "aaaaa") (lit "aa") ≡ 2)
unfolding terms_of lower count lit keep count_from starts_with
search_tests = (refl, refl)
