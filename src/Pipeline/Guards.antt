-- ===== src/Pipeline/Guards.antt =====
-- The guards that run over a whole request before anything is written or sent
-- (app/pipeline/guards.py).
pub mod Laws
use aiprivacy_gateway.Common.{
  ℕ, ◌+◌, min, Bool, ◌||◌, true, false, List, [], ◌∷◌, Text, length, ltb, Option, none, some,
  if◌then◌else◌,
}
use aiprivacy_gateway.Domain.Errors.{
  Result, ok, err, ◌>>=◌, ◌>>◌, value_error, request_too_large, entity_limit_exceeded,
  policy_violation, provider_response_invalid,
}
use aiprivacy_gateway.Domain.Entity.{DetectedEntity, block}
use aiprivacy_gateway.Policy.Snapshot.{PolicySnapshot, action_for}
use aiprivacy_gateway.Tokenization.Selection.{select_entities}
use aiprivacy_gateway.Tokenization.Tokenizer.{is_action}
use aiprivacy_gateway.Restoration.{ProviderResponse}

pub data MessageRole : Type 0 where
  system user assistant : MessageRole

pub record ChatMessage : Type 0 where
  pub role : MessageRole
  pub content : Text

abbrev pub Selections : Type 0
Selections = List (List DetectedEntity)

unfoldable pub enforce_message_sizes : List ChatMessage → ℕ → Result (Unit {0})
enforce_message_sizes [] max_chars = ok tt
enforce_message_sizes (message ∷ messages) max_chars =
    let rest = enforce_message_sizes messages max_chars in
    if ltb max_chars (length message.content) then err request_too_large else rest

unfoldable pub entity_budget : PolicySnapshot → ℕ → ℕ
entity_budget policy deployment_max_entities = min policy.max_entities deployment_max_entities

-- `zip(…, strict=True)` raises a ValueError where one of the two is longer.
unfoldable pub select_request_entities :
    List ChatMessage → List (List DetectedEntity) → PolicySnapshot → Result Selections
unfolding select_entities
select_request_entities [] [] policy = ok []
select_request_entities [] (entities ∷ detections) policy = err value_error
select_request_entities (message ∷ messages) [] policy = err value_error
select_request_entities (message ∷ messages) (entities ∷ detections) policy = do
  selected ← select_entities message.content entities policy
  rest ← select_request_entities messages detections policy
  ok (selected ∷ rest)

-- `sum(len(selected) for selected in selections)`
unfoldable pub entity_count : Selections → ℕ
entity_count [] = 0
entity_count (selected ∷ selections) = length selected + entity_count selections

unfoldable pub enforce_entity_budget : Selections → ℕ → Result ℕ
unfolding entity_count
enforce_entity_budget selections budget =
    if ltb budget (entity_count selections)
    then err entity_limit_exceeded
    else ok (entity_count selections)

unfoldable pub validate_provider_response : ProviderResponse → Result ProviderResponse
validate_provider_response response = elim response.content [
  | none ↦ err provider_response_invalid
  | some content ↦ ok response
]

-- The inner loop of `reject_blocked_entities`, for one message.
unfoldable pub reject_blocked : PolicySnapshot → List DetectedEntity → Result (Unit {0})
unfolding action_for
reject_blocked policy [] = ok tt
reject_blocked policy (e ∷ selected) =
    let rest = reject_blocked policy selected in
    if is_action (action_for policy e.entity_type) block then err policy_violation else rest

unfoldable pub reject_blocked_entities : PolicySnapshot → Selections → Result (Unit {0})
unfolding reject_blocked
reject_blocked_entities policy [] = ok tt
reject_blocked_entities policy (selected ∷ selections) =
    reject_blocked policy selected >> reject_blocked_entities policy selections
