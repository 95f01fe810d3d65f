-- ===== src/Examples/Tokenization.antt =====
-- The tokenization theorems at a text with one e-mail address.
use aiprivacy_gateway.Common.{
  ℕ, ◌+◌, ◌≤◌, ◌<◌, ◌≡◌, ◌≢◌, ◌⊎◌, ◌↔◌, inl, inr, refl, Bool, true, false, List, [], ◌∷◌, keep,
  Text, codes, length, All, AllPairs, any, Option, none, some, arith,
}
use mathlib.Core.List.{reverse}
use aiprivacy_gateway.Domain.Errors.{ok, err, entity_limit_exceeded, policy_violation}
use aiprivacy_gateway.Domain.Entity.{DetectedEntity, IsValid, block}
use aiprivacy_gateway.Policy.Snapshot.{action_for}
use aiprivacy_gateway.Detection.Overlap.Laws.{Before}
use aiprivacy_gateway.Tokenization.Grammar.{
  Token, find_tokens, format_token, parse_token, render_redaction, format_redaction,
}
use aiprivacy_gateway.Tokenization.Grammar.Parse.{parse_token-iff-format_token}
use aiprivacy_gateway.Tokenization.Grammar.Scan.{
  Layout, IsClear, is_plain, render_layout, matches_of, find_tokens-render_layout,
}
use aiprivacy_gateway.Tokenization.Selection.{is_confident, select_entities}
use aiprivacy_gateway.Tokenization.Selection.Laws.{select_entities_sound}
use aiprivacy_gateway.Tokenization.Pseudonyms.{SameShape, surrogate_for, surrogate_for-SameShape}
use aiprivacy_gateway.Tokenization.Tokenizer.{Edit, plan_for, requests, splice, transform}
use aiprivacy_gateway.Tokenization.Tokenizer.Refusals.{HasBlocked, minted_from, transform_refused}
use aiprivacy_gateway.Examples.Data.{
  plain_platform, email, ssn, span, identifier, email_token, small_policy, counting_vault,
}

abbrev layout : Layout
layout = (codes "to ", email_token) ∷ []

layout-IsClear : All IsClear layout
unfolding is_plain aiprivacy_gateway.Tokenization.Grammar.is_valid_entity_type
    aiprivacy_gateway.Common.text_eq aiprivacy_gateway.Tokenization.Grammar.mem_chars
    aiprivacy_gateway.Tokenization.Grammar.is_valid_token_id
layout-IsClear = ((refl, refl, refl), tt)

end_is_plain : is_plain (codes "!") ≡ true
unfolding is_plain
end_is_plain = refl

find_tokens-render_layout_example :
    find_tokens (render_layout layout (codes "!")) ≡ matches_of 0 layout
find_tokens-render_layout_example =
    find_tokens-render_layout layout (codes "!") layout-IsClear end_is_plain

parse_token-iff-format_token_example :
    (parse_token (codes "x") ≡ some (record { entity_type = email; token_id = identifier }))
    ↔ (format_token email identifier ≡ ok (codes "x"))
parse_token-iff-format_token_example = parse_token-iff-format_token (codes "x") email identifier

placeholder : format_redaction ssn ≡ ok (render_redaction ssn)
unfolding format_redaction aiprivacy_gateway.Common.text_eq
    aiprivacy_gateway.Tokenization.Grammar.mem_chars
placeholder = refl

abbrev text : Text
text = codes "to ab cd"

abbrev entities : List DetectedEntity
entities = span email 3 5 ∷ span email 4 8 ∷ []

entities-IsValid : All IsValid entities
entities-IsValid = (
  record { forward = omega arith; scored = omega arith },
  (record { forward = omega arith; scored = omega arith }, tt),
)

select_entities_run : select_entities text entities small_policy ≡ ok (span email 3 5 ∷ [])
unfolding select_entities aiprivacy_gateway.Common.text_eq
select_entities_run = refl

select_entities_sound_example :
    All (λ e. e.end ≤ length text) (span email 3 5 ∷ [])
    × All (λ e. is_confident small_policy e ≡ true) (span email 3 5 ∷ [])
    × All IsValid (span email 3 5 ∷ [])
    × AllPairs Before (span email 3 5 ∷ [])
select_entities_sound_example =
    select_entities_sound text entities small_policy select_entities_run entities-IsValid

abbrev apart : List DetectedEntity
apart = span email 3 5 ∷ span ssn 6 8 ∷ []

surrogate_for-SameShape_example :
    SameShape plain_platform text (surrogate_for plain_platform email text (codes "00"))
surrogate_for-SameShape_example =
    surrogate_for-SameShape plain_platform email text (codes "00") (λ b. omega arith)

abbrev edits : List Edit
edits =
    record { start = 6; stop = 8; text = codes "Y" }
    ∷ record { start = 3; stop = 5; text = codes "XX" }
    ∷ []

splice_run : splice text edits ≡ codes "to XX Y"
unfolding splice mathlib.Core.List.flatten
splice_run = refl

apart_run : select_entities text apart small_policy ≡ ok apart
unfolding select_entities aiprivacy_gateway.Common.text_eq
apart_run = refl

transform_refused_example :
    ((length apart ≤ small_policy.max_entities)
      × All (λ (e : DetectedEntity). action_for small_policy e.entity_type ≢ block) apart
      × (transform plain_platform [] 1 2 text counting_vault small_policy apart 0
          ≡ minted_from plain_platform [] 1 2 text counting_vault small_policy apart 0 apart_run))
    ⊎ (((small_policy.max_entities < length apart)
          × (transform plain_platform [] 1 2 text counting_vault small_policy apart 0
              ≡ (err entity_limit_exceeded, 0)))
        ⊎ ((length apart ≤ small_policy.max_entities)
            × HasBlocked small_policy apart
            × (transform plain_platform [] 1 2 text counting_vault small_policy apart 0
                ≡ (err policy_violation, 0))))
transform_refused_example =
    transform_refused plain_platform [] 1 2 text counting_vault small_policy apart 0 apart_run

nothing_run : select_entities text [] small_policy ≡ ok []
unfolding select_entities
nothing_run = refl

nothing_requested : requests plain_platform [] 1 2 text (plan_for small_policy []) ≡ []
unfolding requests plan_for
nothing_requested = refl
