-- ===== src/Audit/Records.antt =====
-- `AuditRecord` of app/audit/models.py, with its checks. The time of the record and the latencies are
-- left out, since the clock is not modelled; counts are natural numbers, so that none is negative.
pub mod Laws
use aiprivacy_gateway.Common.{
  ℕ, Bool, true, false, ◌&&◌, ◌||◌, not, List, [], ◌∷◌, all, Text, codes, length, ltb, leb, ◌==◌,
  Option, none, some, if◌then◌else◌,
}
use aiprivacy_gateway.Domain.Errors.{Result, ok, err, ◌>>=◌, value_error}
use aiprivacy_gateway.Domain.Summary.{TypeCounts, PrivacySummary}

pub record AuditRecord : Type 0 where
  pub tenant_id : ℕ
  pub request_id : ℕ
  pub status_code : ℕ
  pub api_key_id : Option ℕ
  pub session_id_hash : Option Text
  pub policy_id : Option ℕ
  pub policy_version : Option ℕ
  pub provider_alias : Option Text
  pub model_alias : Option Text
  pub input_character_count : ℕ
  pub output_character_count : ℕ
  pub entity_counts : TypeCounts
  pub actions : TypeCounts
  pub blocked : Bool
  pub block_reason_code : Option Text
  pub error_code : Option Text
  pub prompt_hmac : Option Text
  pub response_hmac : Option Text
  pub outbound_hmac : Option Text
  pub outbound_scan : Option Text

abbrev pub max_key_chars : ℕ
max_key_chars = 64

abbrev pub max_provider_alias_chars : ℕ
max_provider_alias_chars = 64

abbrev pub max_model_alias_chars : ℕ
max_model_alias_chars = 128

abbrev pub max_code_chars : ℕ
max_code_chars = 64

abbrev pub max_digest_chars : ℕ
max_digest_chars = 128

abbrev pub min_digest_chars : ℕ
min_digest_chars = 32

abbrev pub is_between : ℕ → ℕ → ℕ → Bool
is_between low high n = leb low n && leb n high

abbrev pub is_ascii_letter_or_digit : ℕ → Bool
is_ascii_letter_or_digit c = is_between 48 57 c || is_between 65 90 c || is_between 97 122 c

-- `_CODE_PATTERN`, `_COUNT_KEY_PATTERN` and `_HEX_PATTERN`
unfoldable pub matches_code : Text → Bool
matches_code text =
    is_between 1 64 (length text)
    && all (λ c. is_ascii_letter_or_digit c || c == b'.' || c == b'_' || c == b':' || c == b'-')
        text

unfoldable pub matches_count_key : Text → Bool
matches_count_key text =
    is_between 1 64 (length text) && all (λ c. is_ascii_letter_or_digit c || c == b'_') text

unfoldable pub matches_hex : Text → Bool
matches_hex text = leb 1 (length text) && all (λ c. is_between 48 57 c || is_between 97 102 c) text

unfoldable pub require_code : Option Text → ℕ → Result (Unit {0})
unfolding matches_code
require_code none maximum = ok tt
require_code (some value) maximum =
    if ltb maximum (length value) || not (matches_code value) then err value_error else ok tt

unfoldable pub require_digest : Option Text → ℕ → Result (Unit {0})
unfolding matches_hex
require_digest none maximum = ok tt
require_digest (some value) maximum =
    if not (is_between min_digest_chars maximum (length value)) || not (matches_hex value)
    then err value_error
    else ok tt

unfoldable pub validated_counts : TypeCounts → Result TypeCounts
unfolding matches_count_key
validated_counts [] = ok []
validated_counts ((key, count) ∷ counts) =
    let rest = validated_counts counts in
    if matches_count_key key
    then (rest >>= λ validated. ok ((key, count) ∷ validated))
    else err value_error

unfoldable pub require_status : ℕ → Result (Unit {0})
require_status status_code = if is_between 100 599 status_code then ok tt else err value_error

-- The constructor.
unfoldable pub audit_record : AuditRecord → Result AuditRecord
unfolding require_status require_code require_digest validated_counts
audit_record record' = do
  _ ← require_status record'.status_code
  _ ← require_code record'.provider_alias max_provider_alias_chars
  _ ← require_code record'.model_alias max_model_alias_chars
  _ ← require_code record'.block_reason_code max_code_chars
  _ ← require_code record'.error_code max_code_chars
  _ ← require_digest record'.session_id_hash max_key_chars
  _ ← require_digest record'.prompt_hmac max_digest_chars
  _ ← require_digest record'.response_hmac max_digest_chars
  _ ← require_digest record'.outbound_hmac max_digest_chars
  _ ← require_code record'.outbound_scan max_code_chars
  _ ← validated_counts record'.entity_counts
  _ ← validated_counts record'.actions
  ok record'

unfoldable pub counts_from_summary : PrivacySummary → TypeCounts × TypeCounts
counts_from_summary summary = (
  summary.entity_types,
  (codes "detected", summary.detected)
      ∷ (codes "tokenized", summary.tokenized)
      ∷ (codes "redacted", summary.redacted)
      ∷ (codes "pseudonymized", summary.pseudonymized)
      ∷ (codes "blocked", summary.blocked)
      ∷ (codes "allowed", summary.allowed)
      ∷ (codes "restored", summary.restored)
      ∷ (codes "unknown_tokens", summary.unknown_tokens)
      ∷ [],
)
