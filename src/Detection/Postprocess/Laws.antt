-- ===== src/Detection/Postprocess/Laws.antt =====
-- What `finalize` (app/detection/postprocess.py) returns.
use aiprivacy_gateway.Common.{
  ℕ, ◌≤◌, ◌<◌, ◌≡◌, ◌⊎◌, ◌∙◌, sym, subst, Bool, true, false, ◌&&◌, List, map, keep, Text, length,
  All, AllPairs, All-imp, All-map, AllPairs-map, any, any-map, any_mono, length-map, leb, Option,
  arith, inl, inr,
}
use aiprivacy_gateway.Domain.Errors.{GatewayError, ok, err, entity_limit_exceeded, ◌>>=◌}
use aiprivacy_gateway.Domain.Entity.{DetectedEntity, overlaps}
use aiprivacy_gateway.Detection.Characters.{Characters}
use aiprivacy_gateway.Detection.Config.{DetectionConfig}
use aiprivacy_gateway.Detection.Overlap.{severity, dominance, resolve_overlaps}
use aiprivacy_gateway.Detection.Overlap.Greedy.{beats}
use aiprivacy_gateway.Detection.Overlap.Laws.{
  Before, All-resolve_overlaps, resolve_overlaps-ordered, resolve_overlaps-beats,
}
use aiprivacy_gateway.Detection.Postprocess.{
  Candidate, without_recognizer, is_admitted, report, finalize,
}
use aiprivacy_gateway.Detection.Postprocess.Admission.{
  IsReportable, entity_of, admitted, collect-admitted, admitted-All, admitted_kept,
}

-- `e` covers a part of the span of `x`, and its type is at least as severe.
abbrev pub guards : List (Text × ℕ) → DetectedEntity → DetectedEntity → Bool
guards priority x e = overlaps x e && leb (severity priority x) (severity priority e)

guards_of_beats :
    (priority : List (Text × ℕ)) (x e : DetectedEntity)
    → beats (dominance priority) x e ≡ true
    → guards priority x e ≡ true
guards_of_beats priority x e h = ground arith

module _ (u : Characters) (text : Text) (config : DetectionConfig)
    (requested : Option (List Text)) where
  IsReportable-without :
      (e : DetectedEntity)
      → IsReportable u text config requested e
      → IsReportable u text config requested (without_recognizer e)
  IsReportable-without e h = record {
    valid = record { forward = h.valid.forward; scored = h.valid.scored };
    inside = h.inside;
    allowed = h.allowed;
    confident = h.confident;
    checked = h.checked;
    unlisted = h.unlisted;
  }

  -- The result of the loop and of overlap resolution, before the cap.
  abbrev resolved : List Candidate → List DetectedEntity
  resolved cs = resolve_overlaps config.entity_priority (admitted u text config requested cs)

  pub finalize-report :
      (diagnostic : Bool) (cs : List Candidate)
      → finalize u text config requested diagnostic cs
        ≡ report u text config requested diagnostic (resolved cs)
  unfolding finalize
  finalize-report diagnostic cs = rw (collect-admitted u text config requested cs)

  report-eq :
      (diagnostic : Bool) (es : List DetectedEntity) {out : List DetectedEntity}
      → report u text config requested diagnostic es ≡ ok out
      → (length es ≤ config.max_entities) × ((out ≡ es) ⊎ (out ≡ map without_recognizer es))
  unfolding report
  report-eq diagnostic es h = ground arith

  -- What is reported satisfies what the resolved list does, if that does not speak of recognizers.
  report-carries {ℓ} :
      (P : List DetectedEntity → Type ℓ)
      → ((es : List DetectedEntity) → P es → P (map without_recognizer es))
      → (diagnostic : Bool) (es : List DetectedEntity) {out : List DetectedEntity}
      → report u text config requested diagnostic es ≡ ok out
      → P es
      → P out
  report-carries P strips diagnostic es h p = elim ((report-eq diagnostic es h).1) [
    | inl e ↦ subst P (sym e) p
    | inr e ↦ subst P (sym e) (strips es p)
  ]

  module _ (diagnostic : Bool) (cs : List Candidate) {out : List DetectedEntity}
      (done : finalize u text config requested diagnostic cs ≡ ok out) where
    reported : report u text config requested diagnostic (resolved cs) ≡ ok out
    reported = sym (finalize-report diagnostic cs) ∙ done

    -- Every entity that finalize returns is a valid span of the text, of an allowed type,
    -- with a value that passes its validator and is not allowlisted, and with a score of at
    -- least its threshold (or 1); each ends before the next ones begin, and there are at most
    -- max_entities of them.
    pub finalize_sound :
        All (IsReportable u text config requested) out
        × AllPairs Before out
        × (length out ≤ config.max_entities)
    finalize_sound = (
      report-carries (All (IsReportable u text config requested))
          (λ es h. All-map _ without_recognizer es (All-imp es IsReportable-without h)) diagnostic
          (resolved cs) reported
          (All-resolve_overlaps config.entity_priority _ _
            (admitted-All u text config requested cs)),
      report-carries (AllPairs Before) (AllPairs-map Before without_recognizer) diagnostic
          (resolved cs) reported
          (resolve_overlaps-ordered config.entity_priority _
            (All-imp _ (λ e h. h.valid) (admitted-All u text config requested cs))),
      report-carries (λ es. length es ≤ config.max_entities) (λ es h. rw length-map h) diagnostic
          (resolved cs) reported (report-eq diagnostic (resolved cs) reported).0,
    )

    -- If finalize returns, a returned entity covers a part of the span of each admitted
    -- candidate, and has a type that is at least as severe.
    pub finalize-guards :
        All
          (λ c.
            any (guards config.entity_priority (entity_of u text config requested c)) out ≡ true)
          (keep (is_admitted u text config requested) cs)
    unfolding severity
    finalize-guards =
        admitted_kept u text config requested
          (λ x. any (guards config.entity_priority x) out ≡ true) cs
          (report-carries
            (λ es.
              All (λ x. any (guards config.entity_priority x) es ≡ true)
                (admitted u text config requested cs))
            (λ es h. All-imp _ (λ x k. rw any-map k) h) diagnostic (resolved cs) reported
            (All-imp _
              (λ x h. any_mono _ _ (resolved cs) (guards_of_beats config.entity_priority x) h)
              (resolve_overlaps-beats config.entity_priority _
                (All-imp _ (λ e h. h.valid) (admitted-All u text config requested cs)))))

  -- finalize fails only with the error for too many entities, and only when overlap resolution
  -- left more than max_entities.
  pub finalize-eq-err :
      (diagnostic : Bool) (cs : List Candidate) {e : GatewayError}
      → finalize u text config requested diagnostic cs ≡ err e
      → (e ≡ entity_limit_exceeded) × (config.max_entities < length (resolved cs))
  unfolding report
  finalize-eq-err diagnostic cs h = ground (arith, finalize-report diagnostic cs)

  -- The result of finalize without diagnosis is the result with it, less the names of the
  -- recognizers, errors included.
  pub finalize_diagnostic :
      (cs : List Candidate)
      → finalize u text config requested false cs
        ≡ (finalize u text config requested true cs >>= λ es. ok (map without_recognizer es))
  unfolding report
  finalize_diagnostic cs = ground (arith, finalize-report true cs, finalize-report false cs)
