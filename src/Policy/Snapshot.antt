-- ===== src/Policy/Snapshot.antt =====
-- `EntityRule`, `PolicyDocument` and `PolicySnapshot` of app/policy/models.py. The dicts of a document
-- are lists of pairs with distinct keys.
pub mod Laws
use aiprivacy_gateway.Common.{
  ℕ, Bool, true, false, List, [], ◌∷◌, Text, text_eq, mem_text, keep, on, compare_text, sorted,
  Option, none, some, if◌then◌else◌, Comparison,
}
use aiprivacy_gateway.Domain.Entity.{EntityAction, tokenize, UnknownTokenAction}

pub record EntityRule : Type 0 where
  pub action : EntityAction
  pub min_score : ℕ
  pub enabled : Bool

pub record PolicyDocument : Type 0 where
  pub name : Text
  pub session_ttl_seconds : ℕ
  pub max_entities : ℕ
  pub providers : List (Text × List Text)
  pub entities : List (Text × EntityRule)
  pub unknown_output_token_action : UnknownTokenAction

pub record PolicySnapshot : Type 0 where
  pub policy_id : ℕ
  pub tenant_id : ℕ
  pub version : ℕ
  pub name : Text
  pub session_ttl_seconds : ℕ
  pub max_entities : ℕ
  pub unknown_output_token_action : UnknownTokenAction
  pub entities : List (Text × EntityRule)
  pub providers : List (Text × List Text)

abbrev pub unknown_entity_action : EntityAction
unknown_entity_action = tokenize

abbrev pub unknown_entity_min_score : ℕ
unknown_entity_min_score = 0

module _ {V : Type 0} where
  -- `index.get(key)`
  unfoldable pub lookup : Text → List (Text × V) → Option V
  lookup key [] = none
  lookup key ((k, v) ∷ rest) = if text_eq k key then some v else lookup key rest

  abbrev pub by_key : Comparison (Text × V)
  by_key = on (λ (k, v). k) compare_text

unfoldable pub from_document : PolicyDocument → ℕ → ℕ → ℕ → PolicySnapshot
unfolding sorted
from_document document policy_id tenant_id version = record {
  policy_id = policy_id;
  tenant_id = tenant_id;
  version = version;
  name = document.name;
  session_ttl_seconds = document.session_ttl_seconds;
  max_entities = document.max_entities;
  unknown_output_token_action = document.unknown_output_token_action;
  entities = sorted by_key (keep (λ (n, rule). rule.enabled) document.entities);
  providers = sorted by_key document.providers;
}

abbrev pub action_of : Option EntityRule → EntityAction
action_of none = unknown_entity_action
action_of (some rule) = rule.action

abbrev pub min_score_of : Option EntityRule → ℕ
min_score_of none = unknown_entity_min_score
min_score_of (some rule) = rule.min_score

unfoldable pub action_for : PolicySnapshot → Text → EntityAction
unfolding lookup
action_for policy entity_type = action_of (lookup entity_type policy.entities)

unfoldable pub min_score_for : PolicySnapshot → Text → ℕ
unfolding lookup
min_score_for policy entity_type = min_score_of (lookup entity_type policy.entities)

abbrev is_some : {A : Type 0} → Option A → Bool
is_some none = false
is_some (some _) = true

unfoldable pub allows_provider : PolicySnapshot → Text → Bool
unfolding lookup
allows_provider policy provider_alias = is_some (lookup provider_alias policy.providers)

abbrev lists_model : Option (List Text) → Text → Bool
lists_model none model_alias = false
lists_model (some models) model_alias = mem_text model_alias models

-- Only when the provider is allowed and lists this model.
unfoldable pub allows_model : PolicySnapshot → Text → Text → Bool
unfolding lookup
allows_model policy provider_alias model_alias =
    lists_model (lookup provider_alias policy.providers) model_alias
