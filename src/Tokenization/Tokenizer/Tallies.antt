-- ===== src/Tokenization/Tokenizer/Tallies.antt =====
-- The counts of `_summarize` (app/tokenization/tokenizer.py).
use aiprivacy_gateway.Common.{ℕ, ◌+◌, ◌≡◌, refl, false, [], ◌∷◌, Text, length, arith}
use aiprivacy_gateway.Domain.Entity.{allow, tokenize, redact, pseudonymize, block}
use aiprivacy_gateway.Domain.Summary.{TypeCounts, add_count}
use aiprivacy_gateway.Tokenization.Tokenizer.{Plan, has_block, count_action, count_types, summarize}

-- The sum of the counts.
abbrev pub total : TypeCounts → ℕ
total [] = 0
total ((name, n) ∷ rest) = n + total rest

total-add_count :
    (name : Text) (n : ℕ) (counts : TypeCounts) → total (add_count name n counts) ≡ total counts + n
unfolding add_count
total-add_count name n [] = omega arith
total-add_count name n ((k, m) ∷ rest) = ground (arith, total-add_count name n rest)

total-count_types :
    (counts : TypeCounts) (plan : Plan)
    → total (count_types counts plan) ≡ total counts + length plan
unfolding count_types
total-count_types counts [] = omega arith
total-count_types counts ((e, a) ∷ plan) = omega (
  arith,
  total-count_types (add_count e.entity_type 1 counts) plan,
  total-add_count e.entity_type 1 counts,
)

count_action-sum :
    (plan : Plan)
    → has_block plan ≡ false
    → count_action tokenize plan
        + count_action redact plan
        + count_action pseudonymize plan
        + count_action allow plan
      ≡ length plan
unfolding count_action
count_action-sum [] h = refl
count_action-sum ((e, allow) ∷ plan) h = omega (arith, count_action-sum plan h)
count_action-sum ((e, tokenize) ∷ plan) h = omega (arith, count_action-sum plan h)
count_action-sum ((e, redact) ∷ plan) h = omega (arith, count_action-sum plan h)
count_action-sum ((e, pseudonymize) ∷ plan) h = omega (arith, count_action-sum plan h)
count_action-sum ((e, block) ∷ plan) h = cc

-- For a plan without blocked spans the counts by action add up to the number of its spans, and so
-- do the counts by type.
pub summarize-total :
    (plan : Plan)
    → has_block plan ≡ false
    → ((summarize plan).tokenized
          + (summarize plan).redacted
          + (summarize plan).pseudonymized
          + (summarize plan).allowed
        ≡ (summarize plan).detected)
      × (total (summarize plan).entity_types ≡ (summarize plan).detected)
unfolding summarize
summarize-total plan h = (count_action-sum plan h, omega (arith, total-count_types [] plan))
