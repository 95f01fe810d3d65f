-- ===== src/Documents/Protection/Outcome.antt =====
-- What `protect` of app/documents/protection.py returns.
use aiprivacy_gateway.Common.{
  ℕ, ◌≡◌, ◌≢◌, ◌⊎◌, refl, ap, ◌∙◌, sym, subst, inl, inr, true, false, ◌==◌, ==_iff, List, [], ◌∷◌,
  map, Text, length, All, any, Option, none, some, Bool-cases, arith,
}
use aiprivacy_gateway.Domain.Errors.{Result, ok, err, >>=-ok, Result-cases}
use aiprivacy_gateway.Domain.Entity.{DetectedEntity, block}
use aiprivacy_gateway.Policy.Snapshot.{PolicySnapshot, action_for}
use aiprivacy_gateway.Tokenization.Tokenizer.{TransformedText, is_action, transform}
use aiprivacy_gateway.Tokenization.Tokenizer.Refusals.{is_action-block}
use aiprivacy_gateway.Documents.Analysis.{AnalyzedDocument, is_empty}
use aiprivacy_gateway.Documents.Protection.{
  with_budget, ProtectedDocument, protected_document, detection_of, as_detections,
  verify_every_span_was_acted_on, reject_blocked_instruction, ProtectorParts, detect_instruction,
  prepare, transform_document, transform_instruction, combined, finish, protect,
}

any-block :
    (policy : PolicySnapshot) (es : List DetectedEntity)
    → any (λ (e : DetectedEntity). is_action (action_for policy e.entity_type) block) es ≡ false
    → All (λ (e : DetectedEntity). action_for policy e.entity_type ≢ block) es
any-block policy [] h = tt
any-block policy (e ∷ es) h = elim (is_action-block (action_for policy e.entity_type)) [
  | inl (k, _) ↦ absurd (ground (arith, h, k))
  | inr (k, free) ↦ (free, any-block policy es (ground (arith, h, k)))
]

reject_blocked_instruction-ok :
    (es : List DetectedEntity) (policy : PolicySnapshot)
    → reject_blocked_instruction es policy ≡ ok tt
    → All (λ (e : DetectedEntity). action_for policy e.entity_type ≢ block) es
unfolding reject_blocked_instruction
reject_blocked_instruction-ok es policy h =
    elim (Bool-cases
      (any (λ (e : DetectedEntity). is_action (action_for policy e.entity_type) block) es)) [
        | inl e ↦ absurd (let h' = rw e at h in cc)
        | inr e ↦ any-block policy es e
      ]

protected_document-ok :
    (built document : ProtectedDocument) → protected_document built ≡ ok document → built ≡ document
unfolding protected_document
protected_document-ok built document h = elim (Bool-cases (is_empty built.text)) [
  | inl e ↦ absurd (let h' = rw e at h in cc)
  | inr e ↦ let h' = rw e at h in cc
]

module _ {S : Type 0} (parts : ProtectorParts S) where
  -- The detections in the instruction: none in a blank one, else those of the detector.
  abbrev pub IsDetected : Text → List DetectedEntity → Type 0
  IsDetected instruction entities =
      ((parts.is_blank instruction ≡ true) × (entities ≡ []))
      ⊎ ((parts.is_blank instruction ≡ false) × (parts.detector instruction ≡ ok entities))

  detect_instruction-IsDetected :
      (instruction : Text) (entities : List DetectedEntity)
      → detect_instruction parts instruction ≡ ok entities
      → IsDetected instruction entities
  unfolding detect_instruction
  detect_instruction-IsDetected instruction entities h =
      elim (Bool-cases (parts.is_blank instruction)) [
        | inl e ↦ let h' = rw e at h in inl (e, cc)
        | inr e ↦ let h' = rw e at h in inr (e, h')
      ]

  module _ (tenant_id session_id document_id : ℕ) (instruction : Text) where
    -- The text that stands for the instruction: itself where nothing was detected in it, else what
    -- the tokenizer made of it.
    abbrev pub IsInstruction : PolicySnapshot → List DetectedEntity → Text → Type 0
    IsInstruction policy entities shown =
        ((entities ≡ []) × (shown ≡ instruction))
        ⊎ ((s : S) × (t : TransformedText) × ((transform parts.platform parts.key tenant_id
                session_id instruction parts.vault policy entities s).0
              ≡ ok t)
            × (shown ≡ t.text))

    -- A document whose text the tokenizer made of the analysed one with all its spans, and whose
    -- instruction was protected under the same policy.
    abbrev pub IsProtected : ℕ → S → ProtectedDocument → Type 0
    IsProtected user_id s document =
        (analyzed : AnalyzedDocument) × (entities : List DetectedEntity) × (t : TransformedText)
        × (parts.analyze tenant_id user_id document_id ≡ ok analyzed)
        × IsDetected instruction entities
        × All (λ (e : DetectedEntity). action_for analyzed.policy e.entity_type ≢ block) entities
        × ((transform parts.platform parts.key tenant_id session_id analyzed.segmented.document.text
              parts.vault (with_budget analyzed.policy parts.max_entities)
              (map detection_of analyzed.spans) s).0
            ≡ ok t)
        × (t.summary.detected ≡ length analyzed.spans)
        × (document.text ≡ t.text)
        × IsInstruction analyzed.policy entities document.instruction
        × (document.policy_version ≡ analyzed.policy.version)

    transform_instruction-IsInstruction :
        (policy : PolicySnapshot) (entities : List DetectedEntity) (s : S)
        (analyzed : AnalyzedDocument) (t : TransformedText) (instructed : Option TransformedText)
        → (transform_instruction parts tenant_id session_id document_id instruction policy entities
            s).0
          ≡ ok instructed
        → IsInstruction policy entities
            (combined parts tenant_id session_id document_id instruction analyzed t
              instructed).instruction
    unfolding transform_instruction
    transform_instruction-IsInstruction policy [] s analyzed t none h = inl (refl, refl)
    transform_instruction-IsInstruction policy [] s analyzed t (some i) h = absurd (cc)
    transform_instruction-IsInstruction policy (e ∷ entities) s analyzed t instructed h =
        let (i, done, is_some) =
          >>=-ok
            (transform parts.platform parts.key tenant_id session_id instruction parts.vault policy
              (e ∷ entities) s).0
            (λ i. ok (some i)) instructed h in
        let same : some i ≡ instructed = cc in
        subst
          (λ o.
            IsInstruction policy (e ∷ entities)
              (combined parts tenant_id session_id document_id instruction analyzed t
                o).instruction)
          same (inr (s, i, done, refl))

    verify-ok :
        (analyzed : AnalyzedDocument) (t : TransformedText)
        → verify_every_span_was_acted_on analyzed t ≡ ok tt
        → t.summary.detected ≡ length analyzed.spans
    unfolding verify_every_span_was_acted_on
    verify-ok analyzed t h = elim (Bool-cases (t.summary.detected == length analyzed.spans)) [
      | inl e ↦ (==_iff _ _).0 e
      | inr e ↦ absurd (let h' = rw e at h in cc)
    ]

    combined-text :
        (analyzed : AnalyzedDocument) (t : TransformedText) (instructed : Option TransformedText)
        → ((combined parts tenant_id session_id document_id instruction analyzed t instructed).text
            ≡ t.text)
          × ((combined parts tenant_id session_id document_id instruction analyzed t
                instructed).policy_version
              ≡ analyzed.policy.version)
    combined-text analyzed t none = (refl, refl)
    combined-text analyzed t (some i) = (refl, refl)

    -- What `finish` returned was made of the transform of the document.
    abbrev Finished :
        AnalyzedDocument → List DetectedEntity → Result TransformedText → ProtectedDocument → Type 0
    Finished analyzed entities answer document =
        (t : TransformedText) × (answer ≡ ok t)
        × (t.summary.detected ≡ length analyzed.spans)
        × (document.text ≡ t.text)
        × IsInstruction analyzed.policy entities document.instruction
        × (document.policy_version ≡ analyzed.policy.version)

    finish-ok :
        (analyzed : AnalyzedDocument) (entities : List DetectedEntity)
        (answer : Result TransformedText × S) (document : ProtectedDocument)
        → (finish parts tenant_id session_id document_id instruction analyzed entities answer).0
          ≡ ok document
        → Finished analyzed entities answer.0 document
    unfolding finish
    finish-ok analyzed entities (err e, s) document h = absurd (cc)
    finish-ok analyzed entities (ok t, s) document h =
        elim (Result-cases (verify_every_span_was_acted_on analyzed t)) [
          | inr (_, e) ↦ absurd (let h' = rw (e, finish) at h in cc)
          | inl (u, e) ↦
              let h' = rw (e, finish) at h in
              let (instructed, done, built) =
                >>=-ok
                  (transform_instruction parts tenant_id session_id document_id instruction
                    analyzed.policy entities s).0
                  (λ instructed. protected_document (
                    combined parts tenant_id session_id document_id instruction analyzed t
                      instructed))
                  document h' in
              let same = protected_document-ok _ document built in
              let (text, version) = combined-text analyzed t instructed in
              (
                t,
                refl,
                verify-ok analyzed t e,
                ap (λ (d : ProtectedDocument). d.text) (sym same) ∙ text,
                subst
                    (λ (d : ProtectedDocument).
                      IsInstruction analyzed.policy entities d.instruction)
                    same
                    (transform_instruction-IsInstruction analyzed.policy entities s analyzed t
                      instructed done),
                ap (λ (d : ProtectedDocument). d.policy_version) (sym same) ∙ version,
              )
        ]

    -- Whenever protection returns a document: the analysis was found and the instruction,
    -- unless it is blank, was read by the detector, with no detection of a blocked type; the
    -- text is what the tokenizer made of the analysed text with all its spans, under the
    -- policy with the ceiling for documents, and it counted as many spans; the instruction is
    -- the given one where nothing was detected in it, else what the tokenizer made of it
    -- under the policy; and the version is that of the policy.
    pub protect-IsProtected :
        (user_id : ℕ) (s : S) (document : ProtectedDocument)
        → (protect parts tenant_id session_id document_id instruction user_id s).0 ≡ ok document
        → IsProtected user_id s document
    unfolding protect prepare transform_document as_detections
    protect-IsProtected user_id s document h =
        elim (Result-cases (prepare parts tenant_id user_id document_id instruction)) [
          | inr (_, e) ↦ absurd (let h' = rw (e, protect) at h in cc)
          | inl ((analyzed, entities), e) ↦
              let h' = rw (e, protect) at h in
              let (a, found, checks) =
                >>=-ok (parts.analyze tenant_id user_id document_id) _ (analyzed, entities) e in
              let (es, detected, checked) =
                >>=-ok (detect_instruction parts instruction) _ (analyzed, entities) checks in
              let (u, free, last) =
                >>=-ok (reject_blocked_instruction es a.policy) (λ _. ok (a, es))
                  (analyzed, entities) checked in
              let same_a : a ≡ analyzed = cc in
              let same_e : es ≡ entities = cc in
              let (t, transformed, whole, text, instructed, version) =
                finish-ok analyzed entities
                  (transform_document parts tenant_id session_id document_id instruction analyzed s)
                  document h' in
              (
                analyzed,
                entities,
                t,
                found ∙ ap (λ x. ok x) same_a,
                detect_instruction-IsDetected instruction entities
                    (detected ∙ ap (λ x. ok x) same_e),
                subst
                    (λ (x : AnalyzedDocument).
                      All (λ (e : DetectedEntity). action_for x.policy e.entity_type ≢ block)
                        entities)
                    same_a
                    (subst
                      (λ xs.
                        All (λ (e : DetectedEntity). action_for a.policy e.entity_type ≢ block) xs)
                      same_e (reject_blocked_instruction-ok es a.policy free)),
                transformed,
                whole,
                text,
                instructed,
                version,
              )
        ]
