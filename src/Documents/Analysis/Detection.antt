-- ===== src/Documents/Analysis/Detection.antt =====
-- What the detector of app/documents/analysis/analyzer.py makes of the segments: the promoted
-- detections of all of them, or the error of a task group.
use aiprivacy_gateway.Common.{
  ◌-◌, ◌≤◌, ◌<◌, ◌≡◌, refl, ◌⊎◌, inl, inr, true, false, List, [], ◌∷◌, ◌++◌, Text, length, drop,
  All, All-imp, All-append, Bool-cases, List-cases, subst, arith, length-take,
}
use aiprivacy_gateway.Domain.Errors.{
  GatewayError, is_gateway_error, detector_unavailable, Result, ok, err, Result-cases,
}
use aiprivacy_gateway.Domain.Entity.{DetectedEntity, IsValid}
use aiprivacy_gateway.Documents.Segmentation.{Segment}
use aiprivacy_gateway.Documents.Spans.{GlobalDetection}
use aiprivacy_gateway.Documents.Analysis.{
  SegmentedDocument, text_of, AnalyzerParts, first_failure, failures_of, results_of, detect_each,
  promote_each, detect_segments,
}
use aiprivacy_gateway.Documents.Analysis.Models.{IsPlaced, to_global-IsPlaced}

-- A detector whose detections are valid and lie in the text that it was given.
abbrev pub IsDetector : (Text → Result (List DetectedEntity)) → Type 0
IsDetector detector =
    (text : Text) (es : List DetectedEntity)
    → detector text ≡ ok es
    → All (λ (e : DetectedEntity). IsValid e × (e.end ≤ length text)) es

-- A task group raises some of the failures of its tasks, at least one if there is one.
abbrev pub IsTaskGroup : (List GatewayError → List GatewayError) → Type 1
IsTaskGroup task_group =
    ((P : GatewayError → Type 0) (failures : List GatewayError)
      → All P failures
      → All P (task_group failures))
    × ((failure : GatewayError) (failures : List GatewayError)
        → (first : GatewayError) × (rest : List GatewayError) × (task_group (failure ∷ failures)
            ≡ first ∷ rest))

-- The error of a text that the detector fails on: its own if it is a domain error, else that of an
-- unavailable detector.
abbrev pub IsFailure : (Text → Result (List DetectedEntity)) → GatewayError → Type 0
IsFailure detector e =
    (text : Text) × (failure : GatewayError) × (detector text ≡ err failure)
    × (((is_gateway_error failure ≡ true) × (e ≡ failure))
        ⊎ ((is_gateway_error failure ≡ false) × (e ≡ detector_unavailable)))

first_failure-IsFailure :
    (detector : Text → Result (List DetectedEntity)) (first : GatewayError)
    (rest : List GatewayError)
    → All (λ (f : GatewayError). (text : Text) × (detector text ≡ err f)) (first ∷ rest)
    → IsFailure detector (first_failure (first ∷ rest))
unfolding first_failure
first_failure-IsFailure detector first [] all = elim (Bool-cases (is_gateway_error first)) [
  | inl e ↦ (all.0.0, first, all.0.1, inl (e, rw e refl))
  | inr e ↦ (all.0.0, first, all.0.1, inr (e, rw e refl))
]
first_failure-IsFailure detector first (second ∷ rest) all =
    elim (Bool-cases (is_gateway_error first)) [
      | inl e ↦ (all.0.0, first, all.0.1, inl (e, rw e refl))
      | inr e ↦ rw (e, first_failure) (first_failure-IsFailure detector second rest all.1)
    ]

module _ (parts : AnalyzerParts) (detects : IsDetector parts.detector)
    (group : IsTaskGroup parts.task_group) where
  -- The tasks that fail, fail on a text.
  failures_of-detect_each :
      (segmented : SegmentedDocument) (segments : List Segment)
      → All
          (λ (f : GatewayError). (text : Text) × (parts.detector text ≡ err f))
          (failures_of (detect_each parts segmented segments))
  unfolding detect_each
  failures_of-detect_each segmented [] = tt
  failures_of-detect_each segmented (s ∷ segments) =
      elim (Result-cases (parts.detector (text_of segmented s))) [
        | inr (e, failed) ↦
            rw failed ((text_of segmented s, failed), failures_of-detect_each segmented segments)
        | inl (es, found) ↦ rw found (failures_of-detect_each segmented segments)
      ]

  -- If no task fails, the detections of all segments are promoted.
  promote_each_total :
      (segmented : SegmentedDocument) (segments : List Segment)
      → All (λ (s : Segment). (s.start < s.end) × (s.end ≤ length segmented.document.text)) segments
      → failures_of (detect_each parts segmented segments) ≡ []
      → (ds : List GlobalDetection) × (promote_each segments
            (results_of (detect_each parts segmented segments))
          ≡ ok ds)
        × All (IsPlaced (length segmented.document.text)) ds
  unfolding detect_each promote_each
  promote_each_total segmented [] h none_failed = ([], refl, tt)
  promote_each_total segmented (s ∷ segments) h none_failed =
      elim (Result-cases (parts.detector (text_of segmented s))) [
        | inr (e, failed) ↦ absurd (let h' = rw failed at none_failed in cc)
        | inl (es, found) ↦
            let width : length (text_of segmented s) ≤ s.end - s.start =
              omega (arith, length-take (s.end - s.start) (drop s.start segmented.document.text)) in
            let within =
              All-imp es (λ e p. (p.0, omega (arith, width, p.1)))
                (detects (text_of segmented s) es found) in
            let (promoted, done, placed) =
              to_global-IsPlaced (length segmented.document.text) s es h.0.0 h.0.1 within in
            let (ds, rest, placed') =
              promote_each_total segmented segments h.1 (rw found at none_failed) in
            (
              promoted ++ ds,
              rw (found, promote_each, done, rest) refl,
              All-append _ promoted ds placed placed',
            )
      ]

  pub detect_segments_total :
      (segmented : SegmentedDocument) (segments : List Segment)
      → All (λ (s : Segment). (s.start < s.end) × (s.end ≤ length segmented.document.text)) segments
      → ((ds : List GlobalDetection) × (detect_segments parts segmented segments ≡ ok ds)
          × All (IsPlaced (length segmented.document.text)) ds)
        ⊎ ((e : GatewayError) × IsFailure parts.detector e
            × (detect_segments parts segmented segments ≡ err e))
  unfolding detect_segments
  detect_segments_total segmented segments h =
      elim (List-cases (failures_of (detect_each parts segmented segments))) [
        | inl e ↦
            let (ds, done, placed) = promote_each_total segmented segments h e in
            inl (ds, rw (e, detect_segments) done, placed)
        | inr (failure, failures, e) ↦
            let all = failures_of-detect_each segmented segments in
            let raised =
              group.0 (λ (f : GatewayError). (text : Text) × (parts.detector text ≡ err f))
                (failure ∷ failures) (subst (All _) e all) in
            let (first, rest, is_first) = group.1 failure failures in
            inr (
              first_failure (first ∷ rest),
              first_failure-IsFailure parts.detector first rest (subst (All _) is_first raised),
              rw (e, detect_segments, is_first) refl,
            )
      ]
