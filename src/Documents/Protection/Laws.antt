-- ===== src/Documents/Protection/Laws.antt =====
-- The spans that app/documents/protection.py acts on, and its refusals.
use aiprivacy_gateway.Common.{
  ℕ, ◌≤◌, ◌<◌, ◌≡◌, refl, sym, ap, ◌∙◌, inl, inr, Bool, true, List, [], ◌∷◌, map, Text, length,
  length-map, keep, ltb, any, All, AllPairs, All-imp, All-map, AllPairs-map, sorted, Bool-cases,
  arith,
}
use aiprivacy_gateway.Domain.Errors.{Result, ok, err, Result-cases, policy_violation}
use aiprivacy_gateway.Domain.Entity.{DetectedEntity, IsValid, block}
use aiprivacy_gateway.Domain.Summary.{PrivacySummary}
use aiprivacy_gateway.Detection.Overlap.Laws.{Before}
use aiprivacy_gateway.Policy.Snapshot.{PolicySnapshot, action_for, min_score_for}
use aiprivacy_gateway.Tokenization.Selection.{select_entities, is_confident}
use aiprivacy_gateway.Tokenization.Selection.Laws.{select_entities-ordered}
use aiprivacy_gateway.Tokenization.Platform.{Platform, Bytes}
use aiprivacy_gateway.Tokenization.Vault.{Vault}
use aiprivacy_gateway.Tokenization.Tokenizer.{
  TransformedText, Plan, Planned, is_action, plan_for, summarize, build, rightmost, edits_of,
  splice, mappings_of, has_block, apply_plan, apply_selected, transform,
}
use aiprivacy_gateway.Documents.Analysis.{LabeledSpan, spans_fit, AnalyzedDocument}
use aiprivacy_gateway.Documents.Analysis.Outcome.{IsAnalyzed}
use aiprivacy_gateway.Documents.Protection.{
  with_budget, detection_of, as_detections, verify_every_span_was_acted_on, ProtectorParts,
  detect_instruction, reject_blocked_instruction, prepare, transform_document, protect,
}

length-plan_for :
    (policy : PolicySnapshot) (es : List DetectedEntity) → length (plan_for policy es) ≡ length es
unfolding plan_for
length-plan_for policy [] = refl
length-plan_for policy (e ∷ es) = omega (arith, length-plan_for policy es)

keep-eq_self : {A : Type 0} (p : A → Bool) (xs : List A) → All (λ x. p x ≡ true) xs → keep p xs ≡ xs
keep-eq_self p [] h = refl
keep-eq_self p (x ∷ xs) h = rw (h.0, keep-eq_self p xs h.1) refl

-- Spans that fit are in order and apart.
spans_fit-after :
    (limit previous_end : ℕ) (spans : List LabeledSpan)
    → All (λ (s : LabeledSpan). s.start < s.end) spans
    → spans_fit limit previous_end spans ≡ true
    → All (λ (s : LabeledSpan). previous_end ≤ s.start) spans
unfolding spans_fit
spans_fit-after limit previous_end [] v h = tt
spans_fit-after limit previous_end (s ∷ spans) v h =
    let first : previous_end ≤ s.start = ground (arith, h) in
    (
      first,
      All-imp spans (λ t k. omega (arith, first, v.0, k))
          (spans_fit-after limit s.end spans v.1 (ground (arith, h))),
    )

spans_fit-Before :
    (limit previous_end : ℕ) (spans : List LabeledSpan)
    → All (λ (s : LabeledSpan). s.start < s.end) spans
    → spans_fit limit previous_end spans ≡ true
    → AllPairs (λ (s t : LabeledSpan). s.end ≤ t.start) spans
unfolding spans_fit
spans_fit-Before limit previous_end [] v h = tt
spans_fit-Before limit previous_end (s ∷ spans) v h =
    let later : spans_fit limit s.end spans ≡ true = ground (arith, h) in
    (spans_fit-after limit s.end spans v.1 later, spans_fit-Before limit s.end spans v.1 later)

confident_with_budget :
    (policy : PolicySnapshot) (n : ℕ) (e : DetectedEntity)
    → is_confident policy e ≡ true
    → is_confident (with_budget policy n) e ≡ true
unfolding with_budget min_score_for
confident_with_budget policy n e h = h

module _ (lib : Platform) (key : Bytes) (tenant_id session_id : ℕ) (text : Text) {S : Type 0}
    (vault : Vault S) (policy : PolicySnapshot) where
  build-summary :
      (plan : Plan) (minted : Result (List Planned)) (t : TransformedText)
      → build lib key tenant_id session_id text plan minted ≡ ok t
      → t.summary ≡ summarize plan
  unfolding build
  build-summary plan (err _) t h = absurd (cc)
  build-summary plan (ok planned) t h =
      elim (Result-cases (edits_of lib text (sorted rightmost planned))) [
        | inr (_, e) ↦ absurd (let h' = rw e at h in cc)
        | inl (edits, e) ↦
            let h' = rw e at h in
            let same : record {
              text = splice text edits;
              mappings = mappings_of planned;
              summary = summarize plan;
            }
                ≡ t =
              cc in
            ap (λ (r : TransformedText). r.summary) (sym same)
      ]

  detected-length : (plan : Plan) → (summarize plan).detected ≡ length plan
  unfolding summarize
  detected-length plan = refl

  transform-detected :
      (es selected : List DetectedEntity) (s s' : S) (t : TransformedText)
      → select_entities text es policy ≡ ok selected
      → transform lib key tenant_id session_id text vault policy es s ≡ (ok t, s')
      → t.summary.detected ≡ length selected
  unfolding transform apply_selected apply_plan
  transform-detected es selected s s' t found h =
      elim (Bool-cases (ltb policy.max_entities (length selected))) [
        | inl e ↦ absurd (let h' = rw (found, transform, e) at h in cc)
        | inr e ↦ elim (Bool-cases (has_block (plan_for policy selected))) [
          | inl b ↦ absurd (let h' = rw (found, transform, e, b) at h in cc)
          | inr b ↦
              let h' = rw (found, transform, e, b) at h in
              ap (λ (r : PrivacySummary). r.detected)
                (build-summary (plan_for policy selected) _ t
                  (ap (λ (r : Result TransformedText × S). r.0) h'))
              ∙ detected-length (plan_for policy selected)
              ∙ length-plan_for policy selected
        ]
      ]

module _ {S : Type 0} (parts : ProtectorParts S) where
  -- If the spans of an analysed document fit it as analysis promises, then whenever its
  -- transform returns, the check that every span was acted on passes.
  pub protection_drops_nothing :
      (max_entities session_id : ℕ) (instruction : Text) (analyzed : AnalyzedDocument) (s s' : S)
      (t : TransformedText)
      → IsAnalyzed max_entities analyzed.policy analyzed.segmented analyzed
      → transform_document parts analyzed.tenant_id session_id analyzed.document_id instruction
          analyzed s
        ≡ (ok t, s')
      → verify_every_span_was_acted_on analyzed t ≡ ok tt
  unfolding transform_document verify_every_span_was_acted_on as_detections
  protection_drops_nothing max_entities session_id instruction analyzed s s' t sound h =
      let policy = with_budget analyzed.policy parts.max_entities in
      let document = analyzed.segmented.document in
      let entities = map detection_of analyzed.spans in
      let forward = All-imp analyzed.spans (λ (x : LabeledSpan) l. l.forward) sound.labeled in
      let valid : All IsValid entities = All-map IsValid detection_of analyzed.spans (
        All-imp analyzed.spans
          (λ (x : LabeledSpan) l. record { forward = l.forward; scored = l.scored })
          sound.labeled) in
      let ordered : AllPairs Before entities =
        AllPairs-map Before detection_of analyzed.spans
          (spans_fit-Before (length document.text) 0 analyzed.spans forward sound.fit) in
      let inside : All (λ (e : DetectedEntity). e.end ≤ length document.text) entities =
        All-map _ detection_of analyzed.spans
          (All-imp analyzed.spans (λ (x : LabeledSpan) l. l.inside) sound.labeled) in
      let sure : All (λ e. is_confident policy e ≡ true) entities =
        All-map _ detection_of analyzed.spans (
          All-imp analyzed.spans
            (λ (x : LabeledSpan) l.
              confident_with_budget analyzed.policy parts.max_entities (detection_of x) l.confident)
            sound.labeled) in
      let selected : select_entities document.text entities policy ≡ ok entities =
        select_entities-ordered document.text entities policy valid ordered inside
        ∙ ap (λ r. ok r) (keep-eq_self (is_confident policy) entities sure) in
      let size : t.summary.detected ≡ length analyzed.spans =
        transform-detected parts.platform parts.key analyzed.tenant_id session_id document.text
          parts.vault policy entities entities s s' t selected h
        ∙ length-map detection_of analyzed.spans in
      ground (arith, size)

  module _ (tenant_id user_id session_id document_id : ℕ) (instruction : Text) (s : S)
      {analyzed : AnalyzedDocument} {entities : List DetectedEntity}
      (found : parts.analyze tenant_id user_id document_id ≡ ok analyzed)
      (detected : detect_instruction parts instruction ≡ ok entities) where
    -- If analysis returns and a detection in the instruction has a blocked type, protection
    -- is refused and the store of the vault stays as it was.
    pub protect-blocked :
        any
            (λ (e : DetectedEntity). is_action (action_for analyzed.policy e.entity_type) block)
            entities
          ≡ true
        → protect parts tenant_id session_id document_id instruction user_id s
          ≡ (err policy_violation, s)
    unfolding protect prepare
    protect-blocked h = rw (found, detected, protect, reject_blocked_instruction, h) refl
