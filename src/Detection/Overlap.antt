-- ===== src/Detection/Overlap.antt =====
-- Deterministic overlap resolution (app/detection/overlap.py).
pub mod Greedy
pub mod Laws
pub mod Permutation
use aiprivacy_gateway.Common.{
  ℕ, compare, List, [], ◌∷◌, ◌++◌, Text, compare_text, Comparison, and_then, descending, on, any,
  sorted, Option, none, some, if◌then◌else◌,
}
use aiprivacy_gateway.Domain.Entity.{DetectedEntity, overlaps, span_length}
use aiprivacy_gateway.Detection.Entities.{lookup_or, severity_unknown}

-- `entity.recognizer or ""`
abbrev pub recognizer_name : Option Text → Text
recognizer_name none = []
recognizer_name (some name) = name

module _ (priority : List (Text × ℕ)) where
  unfoldable pub severity : DetectedEntity → ℕ
  severity e = lookup_or e.entity_type severity_unknown priority

  -- The order of the tuples that `dominance_key` returns: a smaller tuple wins.
  abbrev pub dominance : Comparison DetectedEntity
  dominance = and_then (on severity (descending compare)) (
      and_then (on (λ e. e.score) (descending compare)) (
        and_then (on span_length (descending compare)) (
          and_then (on (λ e. e.start) compare) (
            and_then (on (λ e. e.entity_type) compare_text)
              (on (λ e. recognizer_name e.recognizer) compare_text)))))

-- The key `(entity.start, entity.end, entity.entity_type)` of the result.
abbrev pub position : Comparison DetectedEntity
position =
    and_then (on (λ e. e.start) compare)
      (and_then (on (λ e. e.end) compare) (on (λ e. e.entity_type) compare_text))

-- The loop over the ordered candidates.
unfoldable pub select_greedy : List DetectedEntity → List DetectedEntity → List DetectedEntity
select_greedy kept [] = kept
select_greedy kept (candidate ∷ rest) =
    select_greedy (if any (overlaps candidate) kept then kept else kept ++ candidate ∷ []) rest

unfoldable pub resolve_overlaps : List (Text × ℕ) → List DetectedEntity → List DetectedEntity
unfolding select_greedy sorted
resolve_overlaps priority entities =
    sorted position (select_greedy [] (sorted (dominance priority) entities))
