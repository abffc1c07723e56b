-- ===== src/Store/Dates/Range.antt =====
-- `_in_range` of mcp/src/compliance_mcp/store.py against the calendar.
use regulatory_compliance_he.Prelude.{
  Text, ◌≤◌, ◌≡◌, refl, ◌↔◌, some, true, false, is_empty, arith, [], ◌∷◌, text_le,
}
use regulatory_compliance_he.Store.Dates.{Date, parse_iso_date, ordinal, in_range}
use regulatory_compliance_he.Store.Dates.Lexical.{text_lt-ordinal}

parsed-not_empty : (t : Text) (a : Date) → parse_iso_date t ≡ some a → is_empty t ≡ false
unfolding parse_iso_date
parsed-not_empty [] a p = absurd (cc p)
parsed-not_empty (c ∷ t) a p = refl

text_le-ordinal :
    (s t : Text) (a b : Date)
    → parse_iso_date s ≡ some a
    → parse_iso_date t ≡ some b
    → (text_le s t ≡ true) ↔ (ordinal a ≤ ordinal b)
text_le-ordinal s t a b p q =
    let after = text_lt-ordinal t s b a q p in
    (λ e. ground (arith, e, after), λ e. ground (arith, e, after))

-- With both bounds given, all three real dates of the shape YYYY-MM-DD, a day passes the test on texts
-- exactly if it is no earlier in the calendar than the start and no later than the end, which count.
pub in_range-ordinal :
    (day start end : Text) (d s e : Date)
    → parse_iso_date day ≡ some d
    → parse_iso_date start ≡ some s
    → parse_iso_date end ≡ some e
    → (in_range day (some start) (some end) ≡ true)
      ↔ ((ordinal s ≤ ordinal d) × (ordinal d ≤ ordinal e))
unfolding in_range
in_range-ordinal day start end d s e p q r =
    let low = text_le-ordinal start day s d q p in
    let high = text_le-ordinal day end d e p r in
    let started = parsed-not_empty start s q in
    let ended = parsed-not_empty end e r in
    (
      λ h. ground (arith, h, low, high, started, ended),
      λ h. ground (arith, h, low, high, started, ended),
    )
