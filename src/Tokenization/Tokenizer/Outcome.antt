-- ===== src/Tokenization/Tokenizer/Outcome.antt =====
-- The tokenizer (app/tokenization/tokenizer.py) on spans that stay or become tokens, over a vault that
-- has given its tokens.
use mathlib.Core.List.{reverse}
use aiprivacy_gateway.Common.{
  ℕ, ◌<◌, ◌≤◌, ◌≡◌, refl, sym, ap, subst, ◌∙◌, false, List, [], ◌∷◌, map, Text, length, ltb, All,
  AllPairs, All-imp, All-intro, AllPairs-of_map, arith,
}
use aiprivacy_gateway.Domain.Errors.{Result, ok}
use aiprivacy_gateway.Domain.Entity.{
  DetectedEntity, IsValid, EntityAction, allow, tokenize, redact, pseudonymize, block,
}
use aiprivacy_gateway.Detection.Overlap.Laws.{Before}
use aiprivacy_gateway.Policy.Snapshot.{PolicySnapshot, action_for}
use aiprivacy_gateway.Tokenization.Platform.{Platform, Bytes}
use aiprivacy_gateway.Tokenization.Vault.{Vault, Pairwise, IsGranted}
use aiprivacy_gateway.Tokenization.Selection.{select_entities}
use aiprivacy_gateway.Tokenization.Selection.Laws.{select_entities_sound}
use aiprivacy_gateway.Tokenization.Tokenizer.{
  Plan, Planned, TransformedText, plan_for, has_block, splice, mappings_of, summarize, edits_of,
  requests, assign, mint, build, apply_plan, apply_selected, transform,
}
use aiprivacy_gateway.Tokenization.Tokenizer.Assignment.{
  IsReversible, Cut, edits_of_cuts, IsOrdered, IsMade, IsAssigned, assign_total, edits_of-reverse,
  sorted-reverse,
}

All-plan_for :
    (policy : PolicySnapshot) (P : DetectedEntity × EntityAction → Type 0)
    (selected : List DetectedEntity)
    → All (λ (e : DetectedEntity). P (e, action_for policy e.entity_type)) selected
    → All P (plan_for policy selected)
unfolding plan_for
All-plan_for policy P [] h = tt
All-plan_for policy P (e ∷ selected) h = (h.0, All-plan_for policy P selected h.1)

spans-plan_for :
    (policy : PolicySnapshot) (selected : List DetectedEntity)
    → map (λ (p : DetectedEntity × EntityAction). p.0) (plan_for policy selected) ≡ selected
unfolding plan_for
spans-plan_for policy [] = refl
spans-plan_for policy (e ∷ selected) = ap (λ l. e ∷ l) (spans-plan_for policy selected)

has_block-reversible :
    (plan : Plan)
    → All (λ (p : DetectedEntity × EntityAction). IsReversible p.1) plan
    → has_block plan ≡ false
has_block-reversible [] h = refl
has_block-reversible ((e, allow) ∷ plan) h = has_block-reversible plan h.1
has_block-reversible ((e, tokenize) ∷ plan) h = has_block-reversible plan h.1
has_block-reversible ((e, redact) ∷ plan) h = absurd h.0
has_block-reversible ((e, pseudonymize) ∷ plan) h = absurd h.0
has_block-reversible ((e, block) ∷ plan) h = absurd h.0

increasing :
    (es : List DetectedEntity)
    → All IsValid es
    → AllPairs Before es
    → AllPairs (λ (x y : DetectedEntity). x.start < y.start) es
increasing [] valid apart = tt
increasing (e ∷ es) valid apart =
    let forward = valid.0.forward in
    (All-imp es (λ y b. omega (arith, b, forward)) apart.0, increasing es valid.1 apart.1)

module _ (lib : Platform) (key : Bytes) (tenant_id session_id : ℕ) (text : Text)
    (policy : PolicySnapshot) (entities selected : List DetectedEntity)
    (valid : All IsValid entities) (done : select_entities text entities policy ≡ ok selected)
    (reversible : All
      (λ (e : DetectedEntity). IsReversible (action_for policy e.entity_type))
      selected)
    (Q : Text → Text → Type 0) (tokens : List Text)
    (granted : Pairwise
      (IsGranted Q)
      (requests lib key tenant_id session_id text (plan_for policy selected))
      tokens) where
  abbrev plan : Plan
  plan = plan_for policy selected

  assigned :
      (planned : List Planned) × (cuts : List Cut) × IsAssigned lib key tenant_id session_id text Q
        0 plan
        (assign lib key tenant_id session_id text plan tokens)
        planned
        cuts
  assigned =
      let (inside, _, forward, apart) = select_entities_sound text entities policy done valid in
      assign_total lib key tenant_id session_id text Q 0 plan tokens
        (All-plan_for policy _ selected reversible)
        (All-plan_for policy _ selected (All-imp selected (λ e (v : IsValid e). v.forward) forward))
        (All-plan_for policy _ selected inside) (All-intro plan (λ p. omega arith))
        (AllPairs-of_map Before (λ (p : DetectedEntity × EntityAction). p.0) plan
          (subst (AllPairs Before) (sym (spans-plan_for policy selected)) apart))
        (omega arith) granted

  -- The text that is built: the tokens in place of their spans.
  pub built :
      (out : TransformedText) × (cuts : List Cut) × (build lib key tenant_id session_id text plan
          (assign lib key tenant_id session_id text plan tokens)
        ≡ ok out)
      × (out.text ≡ splice text (reverse (edits_of_cuts cuts)))
      × All (IsMade Q text) cuts
      × IsOrdered text 0 cuts
  unfolding build
  built =
      let (planned, cuts, a) = assigned in
      let (_, _, forward, apart) = select_entities_sound text entities policy done valid in
      let starts : AllPairs (λ (x y : Planned). x.entity.start < y.entity.start) planned =
        AllPairs-of_map (λ (x y : DetectedEntity). x.start < y.start) (λ (p : Planned). p.entity)
          planned
          (subst (AllPairs (λ (x y : DetectedEntity). x.start < y.start))
            (sym (a.spans ∙ spans-plan_for policy selected)) (increasing selected forward apart)) in
      let edited =
        ap (edits_of lib text) (sorted-reverse planned starts)
        ∙ edits_of-reverse lib text planned (edits_of_cuts cuts) a.edited in
      (
        record {
          text = splice text (reverse (edits_of_cuts cuts));
          mappings = mappings_of planned;
          summary = summarize plan;
        },
        cuts,
        rw (a.returned, edited) refl,
        refl,
        a.made,
        a.ordered,
      )

  -- Within the limit on spans, and with the tokens that minting gives, it is what is returned.
  pub transform-built :
      {S : Type 0} (vault : Vault S) (s s' : S)
      → length selected ≤ policy.max_entities
      → mint lib key tenant_id session_id text vault policy.session_ttl_seconds plan s
        ≡ (assign lib key tenant_id session_id text plan tokens, s')
      → transform lib key tenant_id session_id text vault policy entities s ≡ (ok built.0, s')
  unfolding transform apply_selected apply_plan
  transform-built vault s s' few minted =
      let within : ltb policy.max_entities (length selected) ≡ false = ground (arith, few) in
      rw
        (
          done,
          transform,
          within,
          apply_selected,
          has_block-reversible plan (All-plan_for policy _ selected reversible),
          apply_plan,
          minted,
        )
        (ap (λ (r : Result TransformedText). (r, s')) built.2)
