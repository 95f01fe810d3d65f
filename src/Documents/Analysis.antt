-- ===== src/Documents/Analysis.antt =====
-- Detection over a whole document (app/documents/analysis/analyzer.py, its models, and `label` of
-- spans.py). The detector, the policies and the source of the segments are parameters. The segments'
-- detections run concurrently in the code and are pure here. Which of several failures a task group
-- reports, and in which order, is a parameter too: it cancels the tasks that still run.
pub mod Models
pub mod Detection
pub mod Outcome
use aiprivacy_gateway.Common.{
  ℕ, Bool, true, false, ◌||◌, ◌&&◌, not, List, [], ◌∷◌, ◌++◌, Text, length, slice, ltb, leb, Option,
  none, some, if◌then◌else◌,
}
use aiprivacy_gateway.Domain.Errors.{
  GatewayError, is_gateway_error, detector_unavailable, Result, ok, err, ◌>>=◌, ◌>>◌, value_error,
  entity_limit_exceeded, policy_violation,
}
use aiprivacy_gateway.Domain.Entity.{DetectedEntity, EntityAction, block, score_one}
use aiprivacy_gateway.Domain.Summary.{TypeCounts, add_count}
use aiprivacy_gateway.Policy.Snapshot.{PolicySnapshot, action_for}
use aiprivacy_gateway.Tokenization.Tokenizer.{is_action}
use aiprivacy_gateway.Documents.Extraction.{ExtractedDocument, pages_covering}
use aiprivacy_gateway.Documents.Segmentation.{Segment}
use aiprivacy_gateway.Documents.Spans.{
  GlobalDetection, to_global, coalesce, select_confident, resolve, blocked_entity_type,
}

pub record LabeledSpan : Type 0 where
  pub entity_type : Text
  pub start : ℕ
  pub end : ℕ
  pub score : ℕ
  pub action : EntityAction
  pub pages : List ℕ
  pub segments : List ℕ

abbrev pub is_empty {ℓ} : {A : Type ℓ} → List A → Bool
is_empty [] = true
is_empty (_ ∷ _) = false

-- The constructor, with the checks of `__post_init__`.
unfoldable pub labeled_span : LabeledSpan → Result LabeledSpan
labeled_span span =
    if leb span.end span.start
    then err value_error
    else if ltb score_one span.score
    then err value_error
    else if is_action span.action block
    then err value_error
    else if is_empty span.pages
    then err value_error
    else if is_empty span.segments
    then err value_error
    else ok span

pub record SegmentedDocument : Type 0 where
  pub document : ExtractedDocument
  pub segments : List Segment

abbrev pub text_of : SegmentedDocument → Segment → Text
text_of segmented segment = slice segment.start segment.end segmented.document.text

pub record AnalyzedDocument : Type 0 where
  pub tenant_id : ℕ
  pub document_id : ℕ
  pub segmented : SegmentedDocument
  pub spans : List LabeledSpan
  pub policy : PolicySnapshot

-- The loop of `__post_init__`.
unfoldable pub spans_fit : ℕ → ℕ → List LabeledSpan → Bool
spans_fit limit previous_end [] = true
spans_fit limit previous_end (span ∷ spans) =
    not (ltb span.start previous_end)
    && (not (ltb limit span.end) && spans_fit limit span.end spans)

unfoldable pub analyzed_document : AnalyzedDocument → Result AnalyzedDocument
unfolding spans_fit
analyzed_document analyzed =
    if spans_fit (length analyzed.segmented.document.text) 0 analyzed.spans
    then ok analyzed
    else err value_error

-- `counts_by_entity_type`: the counts of the spans, added up from `counts`.
unfoldable pub counts_by_entity_type : TypeCounts → List LabeledSpan → TypeCounts
unfolding add_count
counts_by_entity_type counts [] = counts
counts_by_entity_type counts (span ∷ spans) =
    counts_by_entity_type (add_count span.entity_type 1 counts) spans

module _ (document : ExtractedDocument) (policy : PolicySnapshot) where
  unfoldable pub label_one : GlobalDetection → Result LabeledSpan
  unfolding pages_covering labeled_span action_for
  label_one d = do
    pages ← pages_covering document d.entity.start d.entity.end
    labeled_span (record {
      entity_type = d.entity.entity_type;
      start = d.entity.start;
      end = d.entity.end;
      score = d.entity.score;
      action = action_for policy d.entity.entity_type;
      pages = pages;
      segments = d.segments;
    })

  unfoldable pub label : List GlobalDetection → Result (List LabeledSpan)
  unfolding label_one
  label [] = ok []
  label (d ∷ detections) = do span ← label_one d; spans ← label detections; ok (span ∷ spans)

-- The second loop of `_detect`, over the segments and their detections together.
unfoldable pub promote_each :
    List Segment → List (List DetectedEntity) → Result (List GlobalDetection)
unfolding to_global
promote_each (segment ∷ segments) (found ∷ later) = do
  promoted ← to_global segment found
  rest ← promote_each segments later
  ok (promoted ++ rest)
promote_each _ _ = ok []

-- What the analyzer is built from, and the resolver's table of priorities.
pub record AnalyzerParts : Type 0 where
  pub snapshot_for : ℕ → Result PolicySnapshot
  pub segment_source : ℕ → ℕ → ℕ → Result SegmentedDocument
  pub detector : Text → Result (List DetectedEntity)
  pub max_entities : ℕ
  pub priority : List (Text × ℕ)
  pub task_group : List GatewayError → List GatewayError

-- `_first_failure`, over the leaves of the group: an exception that is no domain error is replaced.
unfoldable pub first_failure : List GatewayError → GatewayError
first_failure [] = detector_unavailable
first_failure (failure ∷ failures) =
    let rest = first_failure failures in if is_gateway_error failure then failure else rest

-- The exceptions of the tasks, and their results.
abbrev pub failures_of {ℓ} : {A : Type ℓ} → List (Result A) → List GatewayError
failures_of [] = []
failures_of (err failure ∷ tasks) = failure ∷ failures_of tasks
failures_of (ok _ ∷ tasks) = failures_of tasks

abbrev pub results_of {ℓ} : {A : Type ℓ} → List (Result A) → List A
results_of [] = []
results_of (err _ ∷ tasks) = results_of tasks
results_of (ok result ∷ tasks) = result ∷ results_of tasks

unfoldable pub enforce_budget : ℕ → List GlobalDetection → Result (Unit {0})
enforce_budget max_entities detections =
    if ltb max_entities (length detections) then err entity_limit_exceeded else ok tt

unfoldable pub reject_blocked : PolicySnapshot → List GlobalDetection → Result (Unit {0})
unfolding blocked_entity_type
reject_blocked policy detections = elim (blocked_entity_type policy detections) [
  | none ↦ ok tt
  | some _ ↦ err policy_violation
]

module _ (parts : AnalyzerParts) where
  -- What the task of each segment returns or raises.
  unfoldable pub detect_each :
      SegmentedDocument → List Segment → List (Result (List DetectedEntity))
  detect_each segmented [] = []
  detect_each segmented (segment ∷ segments) =
      parts.detector (text_of segmented segment) ∷ detect_each segmented segments

  -- `_detect`
  unfoldable pub detect_segments : SegmentedDocument → List Segment → Result (List GlobalDetection)
  unfolding detect_each promote_each first_failure
  detect_segments segmented segments =
      let tasks = detect_each segmented segments in
      elim (failures_of tasks) [
        | [] ↦ promote_each segments (results_of tasks)
        | failure ∷ failures ↦ err (first_failure (parts.task_group (failure ∷ failures)))
      ]

  -- What `analyze` does with the detections.
  unfoldable pub decide :
      ℕ → ℕ → PolicySnapshot → SegmentedDocument → List GlobalDetection → Result AnalyzedDocument
  unfolding coalesce select_confident resolve label enforce_budget reject_blocked analyzed_document
  decide tenant_id document_id policy segmented detections = do
    resolved ← resolve parts.priority (select_confident policy (coalesce detections))
    _ ← enforce_budget parts.max_entities resolved
    _ ← reject_blocked policy resolved
    spans ← label segmented.document policy resolved
    analyzed_document (record {
      tenant_id = tenant_id;
      document_id = document_id;
      segmented = segmented;
      spans = spans;
      policy = policy;
    })

  unfoldable pub analyze : ℕ → ℕ → ℕ → Result AnalyzedDocument
  unfolding detect_segments decide
  analyze tenant_id user_id document_id = do
    policy ← parts.snapshot_for tenant_id
    segmented ← parts.segment_source tenant_id user_id document_id
    detections ← detect_segments segmented segmented.segments
    decide tenant_id document_id policy segmented detections
