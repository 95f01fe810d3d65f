-- ===== src/Documents/Analysis/Outcome.antt =====
-- What `analyze` of app/documents/analysis/analyzer.py returns.
use aiprivacy_gateway.Common.{
  ℕ, suc, ◌≤◌, ◌<◌, ◌≡◌, refl, ap, ◌⊎◌, inl, inr, Bool, true, false, ◌&&◌, List, [], ◌∷◌, map, Text,
  length, any, keep, All, AllPairs, All-imp, All-intro, All-keep, keep-All, All-map, All-of_map,
  leb, ltb, none, Bool-cases, Option-cases, arith,
}
use aiprivacy_gateway.Domain.Errors.{
  GatewayError, Result, ok, err, entity_limit_exceeded, policy_violation,
}
use aiprivacy_gateway.Domain.Entity.{DetectedEntity, IsValid, block, score_one}
use aiprivacy_gateway.Detection.Overlap.{resolve_overlaps}
use aiprivacy_gateway.Detection.Overlap.Laws.{
  Before, resolve_overlaps-ordered, All-resolve_overlaps,
}
use aiprivacy_gateway.Policy.Snapshot.{PolicySnapshot, action_for, min_score_for}
use aiprivacy_gateway.Tokenization.Selection.{is_confident}
use aiprivacy_gateway.Tokenization.Tokenizer.{is_action}
use aiprivacy_gateway.Documents.Extraction.{PageRef, ExtractedDocument, pages_cover, pages_covering}
use aiprivacy_gateway.Documents.Segmentation.{Segment}
use aiprivacy_gateway.Documents.Spans.{
  GlobalDetection, coalesce, select_confident, resolve, blocked_entity_type,
}
use aiprivacy_gateway.Documents.Spans.Resolution.{resolve_total}
use aiprivacy_gateway.Documents.Analysis.{
  LabeledSpan, is_empty, labeled_span, SegmentedDocument, AnalyzedDocument, spans_fit,
  analyzed_document, label_one, label, AnalyzerParts, enforce_budget, reject_blocked, decide,
  analyze,
}
use aiprivacy_gateway.Documents.Analysis.Models.{IsPlaced, All-coalesce, attach-IsPlaced}
use aiprivacy_gateway.Documents.Analysis.Detection.{
  IsDetector, IsTaskGroup, IsFailure, detect_segments_total,
}

-- In a document that its pages cover, every span that is not empty touches a page.
pages_cover-any :
    (expected start end total : ℕ) (pages : List PageRef)
    → pages_cover expected pages total ≡ true
    → expected ≤ start
    → start < end
    → end ≤ total
    → any (λ (p : PageRef). ltb p.start end && ltb start p.end) pages ≡ true
unfolding pages_cover
pages_cover-any expected start end total [] h a b c = absurd (ground (arith, h, a, b, c))
pages_cover-any expected start end total (p ∷ pages) h a b c =
    ground (arith, h, a, b, c, pages_cover-any p.end start end total pages)

is_empty-keep :
    {A B : Type 0} (f : A → B) (p : A → Bool) (xs : List A)
    → any p xs ≡ true
    → is_empty (map f (keep p xs)) ≡ false
is_empty-keep f p [] h = cc
is_empty-keep f p (x ∷ xs) h = ground (arith, h, is_empty-keep f p xs)

pages_covering_named :
    (document : ExtractedDocument) (start end : ℕ)
    → pages_cover 0 document.pages (length document.text) ≡ true
    → start < end
    → end ≤ length document.text
    → (pages : List ℕ) × (pages_covering document start end ≡ ok pages) × (is_empty pages ≡ false)
unfolding pages_covering
pages_covering_named document start end h a b = (
  map (λ (p : PageRef). p.number)
      (keep (λ (p : PageRef). ltb p.start end && ltb start p.end) document.pages),
  ground (arith, a),
  is_empty-keep (λ (p : PageRef). p.number) (λ (p : PageRef). ltb p.start end && ltb start p.end)
      document.pages
      (pages_cover-any 0 start end (length document.text) document.pages h (omega arith) a b),
)

-- What analysis promises of a span.
pub record IsLabeled (document : ExtractedDocument) (policy : PolicySnapshot) (span : LabeledSpan)
    : Type 0 where
  pub forward : span.start < span.end
  pub inside : span.end ≤ length document.text
  pub scored : span.score ≤ score_one
  pub confident : leb (min_score_for policy span.entity_type) span.score ≡ true
  pub decided : span.action ≡ action_for policy span.entity_type
  pub permitted : is_action span.action block ≡ false
  pub paged : is_empty span.pages ≡ false
  pub named : is_empty span.segments ≡ false

module _ (document : ExtractedDocument) (policy : PolicySnapshot)
    (covered : pages_cover 0 document.pages (length document.text) ≡ true) where
  -- The span of a detection.
  abbrev Labels : GlobalDetection → LabeledSpan → Type 0
  Labels d span =
      IsLabeled document policy span × (span.start ≡ d.entity.start) × (span.end ≡ d.entity.end)

  label_one_total :
      (d : GlobalDetection)
      → IsPlaced (length document.text) d
      → is_confident policy d.entity ≡ true
      → is_action (action_for policy d.entity.entity_type) block ≡ false
      → (span : LabeledSpan) × (label_one document policy d ≡ ok span) × Labels d span
  unfolding label_one labeled_span
  label_one_total d p sure free =
      let (pages, found, paged) =
        pages_covering_named document d.entity.start d.entity.end covered p.valid.forward
          p.inside in
      let span : LabeledSpan = record {
        entity_type = d.entity.entity_type;
        start = d.entity.start;
        end = d.entity.end;
        score = d.entity.score;
        action = action_for policy d.entity.entity_type;
        pages = pages;
        segments = d.segments;
      } in
      let forward : leb d.entity.end d.entity.start ≡ false = ground (arith, p.valid.forward) in
      let scored : ltb score_one d.entity.score ≡ false = ground (arith, p.valid.scored) in
      (
        span,
        rw (found, forward, scored, free, paged, p.named) refl,
        (
          record {
            forward = p.valid.forward;
            inside = p.inside;
            scored = p.valid.scored;
            confident = sure;
            decided = refl;
            permitted = free;
            paged = paged;
            named = p.named;
          },
          refl,
          refl,
        ),
      )

  -- For detections in order that are not blocked, `label` returns as many spans, and they fit.
  label_total :
      (previous_end : ℕ) (ds : List GlobalDetection)
      → All (IsPlaced (length document.text)) ds
      → All (λ (d : GlobalDetection). is_confident policy d.entity ≡ true) ds
      → All
          (λ (d : GlobalDetection).
            is_action (action_for policy d.entity.entity_type) block ≡ false)
          ds
      → All (λ (d : GlobalDetection). previous_end ≤ d.entity.start) ds
      → AllPairs Before (map (λ (d : GlobalDetection). d.entity) ds)
      → (spans : List LabeledSpan) × (label document policy ds ≡ ok spans)
        × (spans_fit (length document.text) previous_end spans ≡ true)
        × (length spans ≡ length ds)
        × All (IsLabeled document policy) spans
  unfolding label spans_fit
  label_total previous_end [] p sure free later before = ([], refl, refl, refl, tt)
  label_total previous_end (d ∷ ds) p sure free later before =
      let (span, made, labels) = label_one_total d p.0 sure.0 free.0 in
      let (spans, done, fit, size, all) =
        label_total d.entity.end ds p.1 sure.1 free.1
          (All-of_map (λ (e : DetectedEntity). d.entity.end ≤ e.start)
            (λ (d : GlobalDetection). d.entity) ds before.0)
          before.1 in
      let fit' : spans_fit (length document.text) span.end spans ≡ true = rw labels.2 fit in
      (
        span ∷ spans,
        rw (made, done) refl,
        ground (arith, fit', labels.1, labels.2, later.0, p.0.inside),
        ap suc size,
        (labels.0, all),
      )

select_confident-IsPlaced :
    (limit : ℕ) (policy : PolicySnapshot) (ds : List GlobalDetection)
    → All (IsPlaced limit) ds
    → All (IsPlaced limit) (select_confident policy ds)
unfolding select_confident
select_confident-IsPlaced limit policy ds h = All-keep (IsPlaced limit) _ ds h

select_confident-All :
    (policy : PolicySnapshot) (ds : List GlobalDetection)
    → All
        (λ (d : GlobalDetection). is_confident policy d.entity ≡ true)
        (select_confident policy ds)
unfolding select_confident
select_confident-All policy ds =
    keep-All (λ (d : GlobalDetection). is_confident policy d.entity ≡ true) _ ds (λ d h. h)

resolve-IsPlaced :
    (limit : ℕ) (priority : List (Text × ℕ)) (ds out : List GlobalDetection)
    → All (IsPlaced limit) ds
    → resolve priority ds ≡ ok out
    → map (λ (d : GlobalDetection). d.entity) out
      ≡ resolve_overlaps priority (map (λ (d : GlobalDetection). d.entity) ds)
    → All (IsPlaced limit) out
unfolding resolve
resolve-IsPlaced limit priority ds out h done same =
    attach-IsPlaced limit ds _ out h
      (All-resolve_overlaps priority (λ e. IsValid e × (e.end ≤ limit))
        (map (λ (d : GlobalDetection). d.entity) ds)
        (All-map _ (λ (d : GlobalDetection). d.entity) ds
          (All-imp ds (λ d p. (p.valid, p.inside)) h)))
      done same

blocked_none :
    (policy : PolicySnapshot) (ds : List GlobalDetection)
    → blocked_entity_type policy ds ≡ none
    → All
        (λ (d : GlobalDetection). is_action (action_for policy d.entity.entity_type) block ≡ false)
        ds
unfolding blocked_entity_type
blocked_none policy [] h = tt
blocked_none policy (d ∷ ds) h =
    elim (Bool-cases (is_action (action_for policy d.entity.entity_type) block)) [
      | inl e ↦ absurd (let h' = rw e at h in cc)
      | inr e ↦ let h' = rw e at h in (e, blocked_none policy ds h')
    ]

-- What analysis promises of a document: within the budget, every span as labelled by the policy,
-- in order and within the text.
pub record IsAnalyzed (max_entities : ℕ) (policy : PolicySnapshot) (segmented : SegmentedDocument)
    (a : AnalyzedDocument) : Type 0 where
  pub same_policy : a.policy ≡ policy
  pub same_document : a.segmented ≡ segmented
  pub budget : length a.spans ≤ max_entities
  pub fit : spans_fit (length segmented.document.text) 0 a.spans ≡ true
  pub labeled : All (IsLabeled segmented.document policy) a.spans

module _ (parts : AnalyzerParts) (detects : IsDetector parts.detector)
    (group : IsTaskGroup parts.task_group) where
  -- An analysis that ended: with a sound document, or over the budget, or with a blocked type.
  abbrev pub Decided : PolicySnapshot → SegmentedDocument → Result AnalyzedDocument → Type 0
  Decided policy segmented r =
      ((a : AnalyzedDocument) × (r ≡ ok a) × IsAnalyzed parts.max_entities policy segmented a)
      ⊎ ((r ≡ err entity_limit_exceeded) ⊎ (r ≡ err policy_violation))

  decide_total :
      (tenant_id document_id : ℕ) (policy : PolicySnapshot) (segmented : SegmentedDocument)
      (ds : List GlobalDetection)
      → pages_cover 0 segmented.document.pages (length segmented.document.text) ≡ true
      → All (IsPlaced (length segmented.document.text)) ds
      → Decided policy segmented (decide parts tenant_id document_id policy segmented ds)
  unfolding decide
  decide_total tenant_id document_id policy segmented ds covered placed =
      let limit = length segmented.document.text in
      let confident = select_confident policy (coalesce ds) in
      let placed' : All (IsPlaced limit) confident =
        select_confident-IsPlaced limit policy (coalesce ds) (All-coalesce limit ds placed) in
      let (resolved, done, same, _) = resolve_total parts.priority confident in
      let candidates = map (λ (d : GlobalDetection). d.entity) confident in
      let valid : All IsValid candidates =
        All-map IsValid (λ (d : GlobalDetection). d.entity) confident
          (All-imp confident (λ d p. p.valid) placed') in
      let ordered : AllPairs Before (map (λ (d : GlobalDetection). d.entity) resolved) =
        rw same (resolve_overlaps-ordered parts.priority candidates valid) in
      let sure : All (λ (d : GlobalDetection). is_confident policy d.entity ≡ true) resolved =
        All-of_map (λ e. is_confident policy e ≡ true) (λ (d : GlobalDetection). d.entity) resolved
          (rw same (
            All-resolve_overlaps parts.priority (λ e. is_confident policy e ≡ true) candidates
              (All-map (λ e. is_confident policy e ≡ true) (λ (d : GlobalDetection). d.entity)
                confident (select_confident-All policy (coalesce ds))))) in
      let placed_kept =
        resolve-IsPlaced limit parts.priority confident resolved placed' done same in
      elim (Bool-cases (ltb parts.max_entities (length resolved))) [
        | inl over ↦ inr (inl (rw (done, enforce_budget, over) refl))
        | inr within ↦ elim (Option-cases (blocked_entity_type policy resolved)) [
          | inr (_, found) ↦
              inr (inr (rw (done, enforce_budget, within, reject_blocked, found) refl))
          | inl free ↦
              let (spans, labels, fit, size, all) =
                label_total segmented.document policy covered 0 resolved placed_kept sure
                  (blocked_none policy resolved free) (All-intro resolved (λ _. omega arith))
                  ordered in
              inl (
                record {
                  tenant_id = tenant_id;
                  document_id = document_id;
                  segmented = segmented;
                  spans = spans;
                  policy = policy;
                },
                rw
                    (
                      done, enforce_budget, within, reject_blocked, free, labels, analyzed_document,
                      fit,
                    )
                    refl,
                record {
                  same_policy = refl;
                  same_document = refl;
                  budget = ground (arith, size, within);
                  fit = fit;
                  labeled = all;
                },
              )
        ]
      ]

  -- If the policy and the segments are found: for a document that its pages cover and segments
  -- within it, a detector whose detections are valid and inside the text it was given, and a
  -- task group that raises only failures of its tasks, and at least one if there is one:
  -- analysis returns a document whose spans are in order, within the budget and the text,
  -- confident, with a page and a segment, and acted on as the policy says but never blocked; or
  -- it raises the error for too many entities or for a blocked type; or the detector failed on
  -- a text, and analysis raises its error if it is a domain error, and the error for an
  -- unavailable detector if it is not.
  pub analyze_outcome :
      (tenant_id user_id document_id : ℕ) (policy : PolicySnapshot) (segmented : SegmentedDocument)
      → parts.snapshot_for tenant_id ≡ ok policy
      → parts.segment_source tenant_id user_id document_id ≡ ok segmented
      → pages_cover 0 segmented.document.pages (length segmented.document.text) ≡ true
      → All
          (λ (s : Segment). (s.start < s.end) × (s.end ≤ length segmented.document.text))
          segmented.segments
      → Decided policy segmented (analyze parts tenant_id user_id document_id)
        ⊎ ((e : GatewayError) × IsFailure parts.detector e
            × (analyze parts tenant_id user_id document_id ≡ err e))
  unfolding analyze
  analyze_outcome tenant_id user_id document_id policy segmented p s covered within =
      elim (detect_segments_total parts detects group segmented segmented.segments within) [
        | inr (e, failed, rest) ↦ inr (e, failed, rw (p, s, rest) refl)
        | inl (ds, done, placed) ↦ inl (
            rw (p, s, done) (decide_total tenant_id document_id policy segmented ds covered placed))
      ]
