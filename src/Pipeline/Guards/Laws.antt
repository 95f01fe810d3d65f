-- ===== src/Pipeline/Guards/Laws.antt =====
-- The guards (app/pipeline/guards.py) before the tokenizer.
use aiprivacy_gateway.Common.{
  ℕ, ◌≤◌, min, ◌≡◌, refl, false, List, [], ◌∷◌, Text, length, ltb, All, All-zip, arith, inl, inr,
}
use aiprivacy_gateway.Domain.Errors.{ok, Result-cases}
use aiprivacy_gateway.Domain.Entity.{DetectedEntity}
use aiprivacy_gateway.Policy.Snapshot.{PolicySnapshot}
use aiprivacy_gateway.Tokenization.Platform.{Platform, Bytes}
use aiprivacy_gateway.Tokenization.Vault.{Vault}
use aiprivacy_gateway.Tokenization.Tokenizer.{
  plan_for, has_block, mint, build, apply_plan, apply_selected,
}
use aiprivacy_gateway.Pipeline.Guards.{
  Selections, entity_budget, entity_count, enforce_entity_budget, reject_blocked,
  reject_blocked_entities,
}

reject_blocked-has_block :
    (policy : PolicySnapshot) (selected : List DetectedEntity)
    → reject_blocked policy selected ≡ ok tt
    → has_block (plan_for policy selected) ≡ false
unfolding reject_blocked plan_for
reject_blocked-has_block policy [] h = refl
reject_blocked-has_block policy (e ∷ selected) h =
    ground (arith, reject_blocked-has_block policy selected)

reject_blocked_entities-has_block :
    (policy : PolicySnapshot) (selections : Selections)
    → reject_blocked_entities policy selections ≡ ok tt
    → All (λ selected. has_block (plan_for policy selected) ≡ false) selections
unfolding reject_blocked_entities
reject_blocked_entities-has_block policy [] h = tt
reject_blocked_entities-has_block policy (selected ∷ selections) h =
    elim (Result-cases (reject_blocked policy selected)) [
      | inl (u, e) ↦ (
        reject_blocked-has_block policy selected e,
        reject_blocked_entities-has_block policy selections (rw (e, reject_blocked_entities) at h),
      )
      | inr (x, e) ↦ absurd (ground (arith, h, e))
    ]

entity_count-bound :
    (selections : Selections) (budget : ℕ)
    → entity_count selections ≤ budget
    → All (λ selected. length selected ≤ budget) selections
unfolding entity_count
entity_count-bound [] budget h = tt
entity_count-bound (selected ∷ selections) budget h =
    (omega (arith, h), entity_count-bound selections budget (omega (arith, h)))

pub enforce_entity_budget-bound :
    (selections : Selections) (budget : ℕ) {count : ℕ}
    → enforce_entity_budget selections budget ≡ ok count
    → entity_count selections ≤ budget
unfolding enforce_entity_budget
enforce_entity_budget-bound selections budget h = ground arith

module _ (lib : Platform) (key : Bytes) (tenant_id session_id : ℕ) {S : Type 0} (vault : Vault S)
    (policy : PolicySnapshot) where
  -- The tokenizer on selected spans without its two refusals.
  abbrev pub Unrefused : Text → List DetectedEntity → S → Type 0
  Unrefused text selected s =
      apply_selected lib key tenant_id session_id text vault policy selected s ≡ (
        build lib key tenant_id session_id text (plan_for policy selected)
            (mint lib key tenant_id session_id text vault policy.session_ttl_seconds
              (plan_for policy selected) s).0,
        (mint lib key tenant_id session_id text vault policy.session_ttl_seconds
            (plan_for policy selected) s).1,
      )

  apply_selected-Unrefused :
      (text : Text) (selected : List DetectedEntity) (s : S)
      → length selected ≤ policy.max_entities
      → has_block (plan_for policy selected) ≡ false
      → Unrefused text selected s
  unfolding apply_selected apply_plan
  apply_selected-Unrefused text selected s h k =
      let g : ltb policy.max_entities (length selected) ≡ false = ground arith in
      rw (g, apply_selected, k) refl

  -- After the budget and the block guard have passed on the selections of a request, the
  -- tokenizer refuses none of them for its number of spans or for a blocked type: each goes on
  -- to minting and splicing, for every text and store.
  pub guards-Unrefused :
      (selections : Selections) (deployment_max_entities : ℕ) {count : ℕ} (text : Text) (s : S)
      → enforce_entity_budget selections (entity_budget policy deployment_max_entities) ≡ ok count
      → reject_blocked_entities policy selections ≡ ok tt
      → All (λ selected. Unrefused text selected s) selections
  unfolding entity_budget
  guards-Unrefused selections deployment_max_entities text s h k =
      let small = entity_count-bound selections (min policy.max_entities deployment_max_entities) (
        enforce_entity_budget-bound selections (min policy.max_entities deployment_max_entities)
          h) in
      All-zip selections
        (λ selected a b. apply_selected-Unrefused text selected s (omega (arith, a)) b) small
        (reject_blocked_entities-has_block policy selections k)
