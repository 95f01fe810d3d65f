-- ===== src/Domain/Entity.antt =====
-- `DetectedEntity` and `EntityAction` of app/domain/models.py. A score is a float in [0, 1]; every
-- such float is a multiple of 2^-1074, and is written here as that multiple.
use aiprivacy_gateway.Common.{
  ℕ, ◌-◌, ◌≤◌, ◌<◌, ◌^◌, ◌≡◌, Bool, ◌&&◌, Option, Text, arith, ltb, ℤ, leb_ℤ, ltb_ℤ, to_ℕ,
  if◌then◌else◌, pos,
}
use aiprivacy_gateway.Domain.Errors.{Result, ok, err, value_error}

abbrev pub score_one : ℕ
score_one = 2 ^ 1074

pub record DetectedEntity : Type 0 where
  pub entity_type : Text
  pub start : ℕ
  pub end : ℕ
  pub score : ℕ
  pub recognizer : Option Text

-- What `__post_init__` leaves.
pub record IsValid (e : DetectedEntity) : Type 0 where
  pub forward : e.start < e.end
  pub scored : e.score ≤ score_one

abbrev pub span_length : DetectedEntity → ℕ
span_length e = e.end - e.start

abbrev pub overlaps : DetectedEntity → DetectedEntity → Bool
overlaps e other = ltb e.start other.end && ltb other.start e.end

-- The constructor, with the checks of `__post_init__` on the numbers that it is given.
unfoldable pub detected_entity : Text → ℤ → ℤ → ℤ → Option Text → Result DetectedEntity
detected_entity type start end score recognizer =
    if ltb_ℤ start (pos 0)
    then err value_error
    else if leb_ℤ end start
    then err value_error
    else if ltb_ℤ score (pos 0)
    then err value_error
    else if ltb_ℤ (pos score_one) score
    then err value_error
    else ok (record {
      entity_type = type;
      start = to_ℕ start;
      end = to_ℕ end;
      score = to_ℕ score;
      recognizer = recognizer;
    })

pub data EntityAction : Type 0 where
  allow tokenize redact pseudonymize block : EntityAction

pub data UnknownTokenAction : Type 0 where
  preserve redact fail : UnknownTokenAction

-- An entity that the constructor returns starts before it ends and has a score of at most 1.
pub detected_entity-IsValid :
    (type : Text) (start end score : ℤ) (recognizer : Option Text) {e : DetectedEntity}
    → detected_entity type start end score recognizer ≡ ok e
    → IsValid e
unfolding detected_entity
detected_entity-IsValid type (pos s) (pos t) (pos v) recognizer h = ground arith
detected_entity-IsValid type s t v recognizer h = ground arith
