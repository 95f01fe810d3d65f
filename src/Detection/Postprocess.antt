-- ===== src/Detection/Postprocess.antt =====
-- From raw recognizer hits to the detector's result (app/detection/postprocess.py).
pub mod Admission
pub mod Laws
use aiprivacy_gateway.Common.{
  ℕ, Bool, true, false, ◌&&◌, List, [], ◌∷◌, map, Text, mem_text, length, slice, ltb, ℤ, pos, leb_ℤ,
  ltb_ℤ, max_ℤ, min_ℤ, to_ℕ, Option, none, some, if◌then◌else◌,
}
use aiprivacy_gateway.Domain.Errors.{Result, ok, err, ◌>>=◌, entity_limit_exceeded}
use aiprivacy_gateway.Domain.Entity.{DetectedEntity, detected_entity, score_one}
use aiprivacy_gateway.Detection.Characters.{Characters}
use aiprivacy_gateway.Detection.Checksums.{value_is_valid}
use aiprivacy_gateway.Detection.Config.{DetectionConfig, threshold_for, is_allowlisted}
use aiprivacy_gateway.Detection.Overlap.{resolve_overlaps}

-- A raw hit: its range and score may be anything.
pub record Candidate : Type 0 where
  pub entity_type : Text
  pub start : ℤ
  pub end : ℤ
  pub score : ℤ
  pub recognizer : Option Text

unfoldable pub span_is_valid : Candidate → ℕ → Bool
span_is_valid c text_length =
    leb_ℤ (pos 0) c.start && (ltb_ℤ c.start c.end && leb_ℤ c.end (pos text_length))

unfoldable pub score_is_reportable : Candidate → DetectionConfig → Bool
score_is_reportable c config = leb_ℤ (pos (threshold_for config c.entity_type)) c.score

-- `config.enabled_entities & requested_entities`
unfoldable pub is_allowed_type : DetectionConfig → Option (List Text) → Text → Bool
is_allowed_type config none type = mem_text type config.enabled_entities
is_allowed_type config (some requested) type =
    mem_text type config.enabled_entities && mem_text type requested

-- The recognizer's name is for diagnosis only.
abbrev pub without_recognizer : DetectedEntity → DetectedEntity
without_recognizer e = record e { recognizer = none }

module _ (u : Characters) (text : Text) (config : DetectionConfig)
    (requested_entities : Option (List Text)) where
  -- The tests of the loop's body, in their order.
  unfoldable pub is_admitted : Candidate → Bool
  unfolding is_allowed_type span_is_valid score_is_reportable
  is_admitted c =
      let value = slice (to_ℕ c.start) (to_ℕ c.end) text in
      if is_allowed_type config requested_entities c.entity_type
      then if span_is_valid c (length text)
        then if value_is_valid u c.entity_type value
          then if is_allowlisted u config value then false else score_is_reportable c config
          else false
        else false
      else false

  unfoldable pub collect : List Candidate → Result (List DetectedEntity)
  unfolding is_admitted
  collect [] = ok []
  collect (c ∷ candidates) =
      let rest = collect candidates in
      if is_admitted c
      then (detected_entity c.entity_type c.start c.end
            (min_ℤ (max_ℤ c.score (pos 0)) (pos score_one)) c.recognizer
          >>= λ entity. rest >>= λ kept. ok (entity ∷ kept))
      else rest

  -- The cap, and what is reported of the recognizers.
  unfoldable pub report : Bool → List DetectedEntity → Result (List DetectedEntity)
  report diagnostic resolved =
      if ltb config.max_entities (length resolved)
      then err entity_limit_exceeded
      else if diagnostic
      then ok resolved
      else ok (map without_recognizer resolved)

  unfoldable pub finalize : Bool → List Candidate → Result (List DetectedEntity)
  unfolding collect report
  finalize diagnostic candidates = do
    kept ← collect candidates
    report diagnostic (resolve_overlaps config.entity_priority kept)
