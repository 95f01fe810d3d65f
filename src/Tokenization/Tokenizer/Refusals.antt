-- ===== src/Tokenization/Tokenizer/Refusals.antt =====
-- The refusals of `Tokenizer.transform` (app/tokenization/tokenizer.py) and the vault.
use aiprivacy_gateway.Common.{
  ℕ, ◌≤◌, ◌<◌, ◌≡◌, ◌≢◌, ◌∙◌, refl, true, false, List, [], ◌∷◌, All, Text, length, ltb, arith, ◌⊎◌,
  inl, inr, Bool-cases,
}
use aiprivacy_gateway.Domain.Errors.{
  GatewayError, Result, ok, err, entity_limit_exceeded, policy_violation,
}
use aiprivacy_gateway.Domain.Entity.{
  DetectedEntity, EntityAction, allow, tokenize, redact, pseudonymize, block,
}
use aiprivacy_gateway.Policy.Snapshot.{PolicySnapshot, action_for}
use aiprivacy_gateway.Tokenization.Selection.{select_entities}
use aiprivacy_gateway.Tokenization.Platform.{Platform, Bytes}
use aiprivacy_gateway.Tokenization.Vault.{Vault}
use aiprivacy_gateway.Tokenization.Tokenizer.{
  TransformedText, is_action, build, plan_for, has_block, requests, apply_plan, apply_selected,
  transform, mint,
}

-- The policy blocks the type of one of the spans.
abbrev pub HasBlocked : PolicySnapshot → List DetectedEntity → Type 0
HasBlocked policy [] = ⊥
HasBlocked policy (e ∷ selected) =
    (action_for policy e.entity_type ≡ block) ⊎ HasBlocked policy selected

pub is_action-block :
    (action : EntityAction)
    → ((is_action action block ≡ true) × (action ≡ block))
      ⊎ ((is_action action block ≡ false) × (action ≢ block))
is_action-block allow = inr (refl, λ h. cc)
is_action-block tokenize = inr (refl, λ h. cc)
is_action-block redact = inr (refl, λ h. cc)
is_action-block pseudonymize = inr (refl, λ h. cc)
is_action-block block = inl (refl, refl)

has_block_cases :
    (policy : PolicySnapshot) (selected : List DetectedEntity)
    → ((has_block (plan_for policy selected) ≡ false)
        × All (λ (e : DetectedEntity). action_for policy e.entity_type ≢ block) selected)
      ⊎ ((has_block (plan_for policy selected) ≡ true) × HasBlocked policy selected)
unfolding plan_for
has_block_cases policy [] = inl (refl, tt)
has_block_cases policy (e ∷ selected) = elim (is_action-block (action_for policy e.entity_type)) [
  | inl (h, is_block) ↦ inr (ground (arith, h), inl is_block)
  | inr (h, free) ↦ elim (has_block_cases policy selected) [
    | inl (later, rest) ↦ inl (ground (arith, h, later), (free, rest))
    | inr (later, found) ↦ inr (ground (arith, h, later), inr found)
  ]
]

module _ (lib : Platform) (key : Bytes) (tenant_id session_id : ℕ) (text : Text) {S : Type 0}
    (vault : Vault S) (policy : PolicySnapshot) where
  module _ (entities : List DetectedEntity) (s : S) where
    -- A span past the end of the text: an invalid request, and no vault call.
    transform_of_invalid :
        {e : GatewayError}
        → select_entities text entities policy ≡ err e
        → transform lib key tenant_id session_id text vault policy entities s ≡ (err e, s)
    unfolding transform
    transform_of_invalid h = rw (h, transform)

    module _ {selected : List DetectedEntity}
        (found : select_entities text entities policy ≡ ok selected) where
      transform_of_selected :
          transform lib key tenant_id session_id text vault policy entities s
          ≡ apply_selected lib key tenant_id session_id text vault policy selected s
      unfolding transform
      transform_of_selected = rw (found, transform)

      -- The mappings of all selected spans minted, and the text built with them.
      abbrev pub minted_from : Result TransformedText × S
      minted_from = (
        build lib key tenant_id session_id text (plan_for policy selected)
            (mint lib key tenant_id session_id text vault policy.session_ttl_seconds
              (plan_for policy selected) s).0,
        (mint lib key tenant_id session_id text vault policy.session_ttl_seconds
            (plan_for policy selected) s).1,
      )

      -- Once selection has succeeded, one of three: the selected spans are within the limit
      -- of the policy, it blocks the type of none of them, and the transform mints and
      -- splices all of them; they are more than the limit, the error for too many entities
      -- is raised and the store stays as it was; they are within it, the type of one of
      -- them is blocked, the error for a blocked type is raised and the store stays as it
      -- was.
      pub transform_refused :
          ((length selected ≤ policy.max_entities)
            × All (λ (e : DetectedEntity). action_for policy e.entity_type ≢ block) selected
            × (transform lib key tenant_id session_id text vault policy entities s ≡ minted_from))
          ⊎ (((policy.max_entities < length selected)
                × (transform lib key tenant_id session_id text vault policy entities s
                    ≡ (err entity_limit_exceeded, s)))
              ⊎ ((length selected ≤ policy.max_entities)
                  × HasBlocked policy selected
                  × (transform lib key tenant_id session_id text vault policy entities s
                      ≡ (err policy_violation, s))))
      unfolding apply_selected apply_plan
      transform_refused = elim (Bool-cases (ltb policy.max_entities (length selected))) [
        | inl e ↦ inr (inl (ground (arith, e), transform_of_selected ∙ rw e refl))
        | inr e ↦ elim (has_block_cases policy selected) [
          | inl (b, free) ↦ inl (ground (arith, e), free, transform_of_selected ∙ rw (e, b) refl)
          | inr (b, found) ↦
              inr (inr (ground (arith, e), found, transform_of_selected ∙ rw (e, b) refl))
        ]
      ]

      -- Once selection has succeeded, if no selected span needs a mapping then the vault is
      -- not called: the store stays as it was.
      pub transform_unmapped :
          requests lib key tenant_id session_id text (plan_for policy selected) ≡ []
          → (transform lib key tenant_id session_id text vault policy entities s).1 ≡ s
      unfolding apply_selected apply_plan mint
      transform_unmapped h = ground (arith, transform_of_selected)
