-- ===== src/Wire/Words.antt =====
-- The wire words of LookupOutcome.
use abstraction_model.Base.{
  Bytes, ap, arith, codes, equal, equal_iff, refl, some, sym, ◌↔◌, ◌∙◌, ◌≡◌,
}
use abstraction_model.Wire.{
  LookupOutcome, forbidden, invalid, parse_outcome, resolved, unavailable, unsupported_mapping,
  wire_name,
}

parse_outcome-eq-some :
    (word : Bytes) (o : LookupOutcome) → parse_outcome word ≡ some o → wire_name o ≡ word
unfolding parse_outcome wire_name
parse_outcome-eq-some word o e = ground (
  arith,
  equal_iff word (codes "resolved"),
  equal_iff word (codes "invalid"),
  equal_iff word (codes "unavailable"),
  equal_iff word (codes "unsupported_mapping"),
  equal_iff word (codes "forbidden"),
)

parse_outcome-wire_name : (o : LookupOutcome) → parse_outcome (wire_name o) ≡ some o
unfolding parse_outcome wire_name equal
parse_outcome-wire_name resolved = refl
parse_outcome-wire_name invalid = refl
parse_outcome-wire_name unavailable = refl
parse_outcome-wire_name unsupported_mapping = refl
parse_outcome-wire_name forbidden = refl

-- ParseLookupOutcome reads exactly the five wire words, each as the member that String prints it
-- for.
pub parse_outcome_iff :
    (word : Bytes) (o : LookupOutcome) → (parse_outcome word ≡ some o) ↔ (wire_name o ≡ word)
parse_outcome_iff word o =
    (parse_outcome-eq-some word o, (λ e. ap parse_outcome (sym e) ∙ parse_outcome-wire_name o))
