-- ===== src/Tokenization/Selection.antt =====
-- The choice of the spans to act on (app/tokenization/selection.py).
pub mod Laws
use aiprivacy_gateway.Common.{
  ℕ, Bool, compare, List, [], ◌∷◌, Text, compare_text, Comparison, and_then, descending, on, sorted,
  length, keep, ltb, leb, if◌then◌else◌, any,
}
use aiprivacy_gateway.Domain.Errors.{Result, ok, err, ◌>>◌, ◌>>=◌, invalid_request}
use aiprivacy_gateway.Domain.Entity.{DetectedEntity, span_length}
use aiprivacy_gateway.Policy.Snapshot.{PolicySnapshot, min_score_for}

-- Earliest first; then longest, then most confident, then by type name.
abbrev pub selection_order : Comparison DetectedEntity
selection_order = and_then (on (λ e. e.start) compare) (
    and_then (on span_length (descending compare))
      (and_then (on (λ e. e.score) (descending compare)) (on (λ e. e.entity_type) compare_text)))

unfoldable pub validate_spans : Text → List DetectedEntity → Result (Unit {0})
validate_spans text [] = ok tt
validate_spans text (entity ∷ entities) =
    let rest = validate_spans text entities in
    if ltb (length text) entity.end then err invalid_request else rest

-- The loop, with the end of the last span kept.
unfoldable pub sweep : ℕ → List DetectedEntity → List DetectedEntity
sweep boundary [] = []
sweep boundary (entity ∷ rest) =
    let kept = entity ∷ sweep entity.end rest in
    let dropped = sweep boundary rest in if ltb entity.start boundary then dropped else kept

unfoldable pub resolve_overlaps : List DetectedEntity → List DetectedEntity
unfolding sweep sorted
resolve_overlaps entities = sweep 0 (sorted selection_order entities)

abbrev pub is_confident : PolicySnapshot → DetectedEntity → Bool
is_confident policy e = leb (min_score_for policy e.entity_type) e.score

unfoldable pub select_entities :
    Text → List DetectedEntity → PolicySnapshot → Result (List DetectedEntity)
unfolding validate_spans resolve_overlaps min_score_for
select_entities text entities policy = do
  validate_spans text entities
  ok (resolve_overlaps (keep (is_confident policy) entities))
