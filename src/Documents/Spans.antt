-- ===== src/Documents/Spans.antt =====
-- From the detections in segments to the spans of a document (app/documents/analysis/spans.py).
pub mod Laws
pub mod Resolution
use aiprivacy_gateway.Common.{
  ℕ, max, compare, Bool, true, false, ◌&&◌, ◌==◌, List, [], ◌∷◌, ◌++◌, map, Text, text_eq, keep,
  any, leb, sorted, Option, none, some, if◌then◌else◌, not,
}
use aiprivacy_gateway.Domain.Errors.{Result, ok, err, ◌>>=◌, internal_error, value_error}
use aiprivacy_gateway.Domain.Entity.{DetectedEntity, block}
use aiprivacy_gateway.Policy.Snapshot.{PolicySnapshot, action_for, min_score_for}
use aiprivacy_gateway.Detection.Overlap.{position}
use aiprivacy_gateway.Detection.Overlap
use aiprivacy_gateway.Tokenization.Tokenizer.{is_action}
use aiprivacy_gateway.Documents.Segmentation.{Segment}
use aiprivacy_gateway.Documents.Segmentation

pub record GlobalDetection : Type 0 where
  pub entity : DetectedEntity
  pub segments : List ℕ

-- Equality of `key`: the type and the range.
abbrev pub same_key : DetectedEntity → DetectedEntity → Bool
same_key x y = text_eq x.entity_type y.entity_type && (x.start == y.start && x.end == y.end)

-- One detection in the document's coordinates. The constructor's check that the span is not empty is
-- written out; a score passed its check when the detection was made.
unfoldable pub promote : Segment → DetectedEntity → Result GlobalDetection
unfolding Segmentation.to_global
promote segment entity = do
  start ← Segmentation.to_global segment entity.start
  end ← Segmentation.to_global segment entity.end
  (if leb end start
      then err value_error
      else ok (record {
        entity = record {
          entity_type = entity.entity_type;
          start = start;
          end = end;
          score = entity.score;
          recognizer = none;
        };
        segments = segment.index ∷ [];
      }))

unfoldable pub to_global : Segment → List DetectedEntity → Result (List GlobalDetection)
unfolding promote
to_global segment [] = ok []
to_global segment (entity ∷ entities) = do
  promoted ← promote segment entity
  rest ← to_global segment entities
  ok (promoted ∷ rest)

-- `set(xs) | set(ys)` as a list without repetition.
unfoldable pub union : List ℕ → List ℕ → List ℕ
union [] ys = ys
union (x ∷ xs) ys = let rest = union xs ys in if any (λ y. y == x) rest then rest else x ∷ rest

unfoldable pub merge : GlobalDetection → GlobalDetection → GlobalDetection
unfolding union sorted
merge existing detection = record {
  entity = record {
    entity_type = detection.entity.entity_type;
    start = detection.entity.start;
    end = detection.entity.end;
    score = max existing.entity.score detection.entity.score;
    recognizer = none;
  };
  segments = sorted compare (union existing.segments detection.segments);
}

-- One round of the loop: `merged` is the dict's values in the order in which their keys came.
unfoldable pub merge_into : List GlobalDetection → GlobalDetection → List GlobalDetection
merge_into [] detection = detection ∷ []
merge_into (existing ∷ merged) detection =
    let later = existing ∷ merge_into merged detection in
    if same_key existing.entity detection.entity then merge existing detection ∷ merged else later

unfoldable pub merge_all : List GlobalDetection → List GlobalDetection → List GlobalDetection
unfolding merge_into
merge_all merged [] = merged
merge_all merged (detection ∷ detections) = merge_all (merge_into merged detection) detections

unfoldable pub coalesce : List GlobalDetection → List GlobalDetection
unfolding merge_all sorted
coalesce detections = sorted (λ x y. position x.entity y.entity) (merge_all [] detections)

unfoldable pub select_confident : PolicySnapshot → List GlobalDetection → List GlobalDetection
unfolding min_score_for
select_confident policy detections =
    keep (λ d. leb (min_score_for policy d.entity.entity_type) d.entity.score) detections

-- `provenance[…]`: the dict keeps the last of equal keys, and a missing key is a KeyError.
unfoldable pub provenance : List GlobalDetection → DetectedEntity → Option (List ℕ)
provenance [] entity = none
provenance (d ∷ detections) entity = elim (provenance detections entity) [
  | some segments ↦ some segments
  | none ↦ if same_key d.entity entity then some d.segments else none
]

unfoldable pub attach : List GlobalDetection → List DetectedEntity → Result (List GlobalDetection)
unfolding provenance
attach detections [] = ok []
attach detections (entity ∷ kept) =
    let rest = attach detections kept in
    elim (provenance detections entity) [
      | none ↦ err internal_error
      | some segments ↦
          rest >>= λ found. ok (record { entity = entity; segments = segments } ∷ found)
    ]

unfoldable pub resolve : List (Text × ℕ) → List GlobalDetection → Result (List GlobalDetection)
unfolding attach
resolve priority detections =
    attach detections (Overlap.resolve_overlaps priority (map (λ d. d.entity) detections))

unfoldable pub blocked_entity_type : PolicySnapshot → List GlobalDetection → Option Text
unfolding action_for
blocked_entity_type policy [] = none
blocked_entity_type policy (d ∷ detections) =
    let rest = blocked_entity_type policy detections in
    if is_action (action_for policy d.entity.entity_type) block
    then some d.entity.entity_type
    else rest
