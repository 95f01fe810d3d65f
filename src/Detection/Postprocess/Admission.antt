-- ===== src/Detection/Postprocess/Admission.antt =====
-- The loop of `finalize` (app/detection/postprocess.py), as lemmas on what it admits.
use aiprivacy_gateway.Common.{
  ◌≤◌, min, ◌≡◌, refl, true, false, List, [], ◌∷◌, map, keep, All-map, All-of_map, keep-All, Text,
  length, slice, All, pos, to_ℕ, max_ℤ, min_ℤ, Option, arith, Bool-cases, inl, inr,
}
use aiprivacy_gateway.Domain.Errors.{ok}
use aiprivacy_gateway.Domain.Entity.{DetectedEntity, IsValid, detected_entity, score_one}
use aiprivacy_gateway.Detection.Characters.{Characters}
use aiprivacy_gateway.Detection.Checksums.{value_is_valid}
use aiprivacy_gateway.Detection.Config.{DetectionConfig, threshold_for, is_allowlisted}
use aiprivacy_gateway.Detection.Postprocess.{Candidate, is_allowed_type, is_admitted, collect}

module _ (u : Characters) (text : Text) (config : DetectionConfig)
    (requested : Option (List Text)) where
  -- What the detector promises of each entity that it reports. A score is clamped to 1, so a
  -- threshold above 1 counts as 1.
  pub record IsReportable (e : DetectedEntity) : Type 0 where
    pub valid : IsValid e
    pub inside : e.end ≤ length text
    pub allowed : is_allowed_type config requested e.entity_type ≡ true
    pub confident : min (threshold_for config e.entity_type) score_one ≤ e.score
    pub checked : value_is_valid u e.entity_type (slice e.start e.end text) ≡ true
    pub unlisted : is_allowlisted u config (slice e.start e.end text) ≡ false

  -- The entity that an admitted candidate becomes.
  abbrev pub entity_of : Candidate → DetectedEntity
  entity_of c = record {
    entity_type = c.entity_type;
    start = to_ℕ c.start;
    end = to_ℕ c.end;
    score = to_ℕ (min_ℤ (max_ℤ c.score (pos 0)) (pos score_one));
    recognizer = c.recognizer;
  }

  admitted-ok :
      (c : Candidate)
      → is_admitted u text config requested c ≡ true
      → detected_entity c.entity_type c.start c.end
          (min_ℤ (max_ℤ c.score (pos 0)) (pos score_one))
          c.recognizer
        ≡ ok (entity_of c)
  unfolding is_admitted detected_entity
  admitted-ok c h = ground arith

  admitted-IsReportable :
      (c : Candidate) → is_admitted u text config requested c ≡ true → IsReportable (entity_of c)
  unfolding is_admitted
  admitted-IsReportable c h = ground arith

  -- The entities of the admitted candidates, in the candidates' order.
  pub admitted : List Candidate → List DetectedEntity
  admitted cs = map entity_of (keep (is_admitted u text config requested) cs)

  pub collect-admitted :
      (cs : List Candidate) → collect u text config requested cs ≡ ok (admitted cs)
  unfolding collect admitted
  collect-admitted [] = refl
  collect-admitted (c ∷ cs) = elim (Bool-cases (is_admitted u text config requested c)) [
    | inl e ↦ rw (e, admitted-ok c e, collect-admitted cs)
    | inr e ↦ rw e (collect-admitted cs)
  ]

  pub admitted-All : (cs : List Candidate) → All IsReportable (admitted cs)
  unfolding admitted
  admitted-All cs = All-map IsReportable entity_of (keep (is_admitted u text config requested) cs) (
      keep-All (λ c. IsReportable (entity_of c)) (is_admitted u text config requested) cs
        admitted-IsReportable)

  -- What holds of all the entities holds of the entity of each admitted candidate.
  pub admitted_kept {ℓ} :
      (P : DetectedEntity → Type ℓ) (cs : List Candidate)
      → All P (admitted cs)
      → All (λ c. P (entity_of c)) (keep (is_admitted u text config requested) cs)
  unfolding admitted
  admitted_kept P cs h = All-of_map P entity_of (keep (is_admitted u text config requested) cs) h
