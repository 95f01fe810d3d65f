-- ===== src/Detection/Config.antt =====
-- The detector's configuration (app/detection/config.py).
use aiprivacy_gateway.Common.{
  ℕ, max, Bool, true, false, List, [], ◌∷◌, map, Text, mem_text, keep, ltb, if◌then◌else◌,
}
use aiprivacy_gateway.Domain.Errors.{Result, ok, err, value_error}
use aiprivacy_gateway.Domain.Entity.{score_one}
use aiprivacy_gateway.Detection.Entities.{lookup_or}
use aiprivacy_gateway.Detection.Characters.{Characters, strip}

pub record DetectionConfig : Type 0 where
  pub supported_languages : List Text
  pub enabled_entities : List Text
  pub entity_thresholds : List (Text × ℕ)
  pub entity_priority : List (Text × ℕ)
  pub min_score : ℕ
  pub allowlist : List Text
  pub max_entities : ℕ
  pub spacy_model : Text

abbrev is_empty : {A : Type 0} → List A → Bool
is_empty [] = true
is_empty (_ ∷ _) = false

-- The effective minimum score: the per-type value or the floor.
unfoldable pub threshold_for : DetectionConfig → Text → ℕ
threshold_for config entity_type =
    max config.min_score (lookup_or entity_type config.min_score config.entity_thresholds)

module _ (u : Characters) where
  unfoldable pub normalize_allowlist_value : Text → Text
  normalize_allowlist_value value = u.casefold (strip u value)

  unfoldable pub normalized_allowlist : List Text → List Text
  unfolding normalize_allowlist_value
  normalized_allowlist values =
      keep (λ value. if is_empty value then false else true) (map normalize_allowlist_value values)

  -- The constructor: the checks of `__post_init__`, and the allowlist in its comparison form.
  unfoldable pub detection_config : DetectionConfig → Result DetectionConfig
  unfolding normalized_allowlist
  detection_config c =
      if ltb score_one c.min_score
      then err value_error
      else if ltb c.max_entities 1
      then err value_error
      else if is_empty c.supported_languages
      then err value_error
      else ok (record c { allowlist = normalized_allowlist c.allowlist })

  unfoldable pub is_allowlisted : DetectionConfig → Text → Bool
  unfolding normalize_allowlist_value
  is_allowlisted config value =
      if is_empty config.allowlist
      then false
      else mem_text (normalize_allowlist_value value) config.allowlist

  unfoldable pub with_allowlist : DetectionConfig → List Text → Result DetectionConfig
  unfolding detection_config
  with_allowlist config values = detection_config (record config { allowlist = values })

unfoldable pub supports_language : DetectionConfig → Text → Bool
supports_language config language = mem_text language config.supported_languages
