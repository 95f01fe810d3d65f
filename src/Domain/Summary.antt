-- ===== src/Domain/Summary.antt =====
-- `PrivacySummary` of app/domain/models.py: counts only.
use aiprivacy_gateway.Common.{ℕ, ◌+◌, List, [], ◌∷◌, Text, text_eq, if◌then◌else◌}

-- A dict from entity type names to counts, in the order in which the names came.
abbrev pub TypeCounts : Type 0
TypeCounts = List (Text × ℕ)

-- `counts[name] = counts.get(name, 0) + n`
unfoldable pub add_count : Text → ℕ → TypeCounts → TypeCounts
add_count name n [] = (name, n) ∷ []
add_count name n ((k, m) ∷ rest) =
    let later = (k, m) ∷ add_count name n rest in
    if text_eq k name then (k, m + n) ∷ rest else later

pub record PrivacySummary : Type 0 where
  pub detected : ℕ
  pub tokenized : ℕ
  pub redacted : ℕ
  pub pseudonymized : ℕ
  pub blocked : ℕ
  pub allowed : ℕ
  pub restored : ℕ
  pub unknown_tokens : ℕ
  pub entity_types : TypeCounts

abbrev pub empty_summary : PrivacySummary
empty_summary = record {
  detected = 0;
  tokenized = 0;
  redacted = 0;
  pseudonymized = 0;
  blocked = 0;
  allowed = 0;
  restored = 0;
  unknown_tokens = 0;
  entity_types = [];
}

unfoldable pub merge_counts : TypeCounts → TypeCounts → TypeCounts
unfolding add_count
merge_counts combined [] = combined
merge_counts combined ((name, n) ∷ rest) = merge_counts (add_count name n combined) rest

unfoldable pub merged_with : PrivacySummary → PrivacySummary → PrivacySummary
unfolding merge_counts
merged_with s other = record {
  detected = s.detected + other.detected;
  tokenized = s.tokenized + other.tokenized;
  redacted = s.redacted + other.redacted;
  pseudonymized = s.pseudonymized + other.pseudonymized;
  blocked = s.blocked + other.blocked;
  allowed = s.allowed + other.allowed;
  restored = s.restored + other.restored;
  unknown_tokens = s.unknown_tokens + other.unknown_tokens;
  entity_types = merge_counts s.entity_types other.entity_types;
}
