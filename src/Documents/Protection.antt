-- ===== src/Documents/Protection.antt =====
-- The protection of an analysed document and of the caller's instruction
-- (app/documents/protection.py). The analysis and the detector are parameters.
pub mod Laws
pub mod Outcome
use aiprivacy_gateway.Common.{
  ℕ, Bool, true, false, List, [], ◌∷◌, map, Text, length, Option, none, some, any, if◌then◌else◌,
  ◌==◌,
}
use aiprivacy_gateway.Domain.Errors.{
  Result, ok, err, ◌>>=◌, value_error, internal_error, policy_violation,
}
use aiprivacy_gateway.Domain.Entity.{DetectedEntity, block}
use aiprivacy_gateway.Domain.Summary.{PrivacySummary, merged_with}
use aiprivacy_gateway.Policy.Snapshot.{PolicySnapshot, action_for}
use aiprivacy_gateway.Tokenization.Platform.{Platform, Bytes}
use aiprivacy_gateway.Tokenization.Vault.{Vault}
use aiprivacy_gateway.Tokenization.Tokenizer.{TransformedText, is_action, transform}
use aiprivacy_gateway.Documents.Analysis.{LabeledSpan, is_empty, AnalyzedDocument}

-- `_DocumentEntityBudget`: the snapshot with another ceiling.
unfoldable pub with_budget : PolicySnapshot → ℕ → PolicySnapshot
with_budget snapshot document_max_entities = record {
  policy_id = snapshot.policy_id;
  tenant_id = snapshot.tenant_id;
  version = snapshot.version;
  name = snapshot.name;
  session_ttl_seconds = snapshot.session_ttl_seconds;
  max_entities = document_max_entities;
  unknown_output_token_action = snapshot.unknown_output_token_action;
  entities = snapshot.entities;
  providers = snapshot.providers;
}

pub record ProtectedDocument : Type 0 where
  pub tenant_id : ℕ
  pub session_id : ℕ
  pub document_id : ℕ
  pub text : Text
  pub instruction : Text
  pub summary : PrivacySummary
  pub policy_version : ℕ

-- The constructor, with the check of `__post_init__`.
unfoldable pub protected_document : ProtectedDocument → Result ProtectedDocument
protected_document document = if is_empty document.text then err value_error else ok document

abbrev pub detection_of : LabeledSpan → DetectedEntity
detection_of span = record {
  entity_type = span.entity_type;
  start = span.start;
  end = span.end;
  score = span.score;
  recognizer = none;
}

-- `_as_detections`. The spans passed the constructor's checks when they were labelled.
unfoldable pub as_detections : AnalyzedDocument → List DetectedEntity
as_detections analyzed = map detection_of analyzed.spans

unfoldable pub verify_every_span_was_acted_on :
    AnalyzedDocument → TransformedText → Result (Unit {0})
verify_every_span_was_acted_on analyzed transformed =
    if transformed.summary.detected == length analyzed.spans then ok tt else err internal_error

unfoldable pub reject_blocked_instruction : List DetectedEntity → PolicySnapshot → Result (Unit {0})
unfolding action_for
reject_blocked_instruction entities policy =
    if any (λ (e : DetectedEntity). is_action (action_for policy e.entity_type) block) entities
    then err policy_violation
    else ok tt

-- What the protector is built from; `key` is the key of the fingerprints.
pub record ProtectorParts (S : Type 0) : Type 0 where
  pub analyze : ℕ → ℕ → ℕ → Result AnalyzedDocument
  pub is_blank : Text → Bool
  pub detector : Text → Result (List DetectedEntity)
  pub max_entities : ℕ
  pub platform : Platform
  pub key : Bytes
  pub vault : Vault S

module _ {S : Type 0} (parts : ProtectorParts S) where
  unfoldable pub detect_instruction : Text → Result (List DetectedEntity)
  detect_instruction instruction =
      if parts.is_blank instruction then ok [] else parts.detector instruction

  -- The steps before the first vault call.
  unfoldable pub prepare : ℕ → ℕ → ℕ → Text → Result (AnalyzedDocument × List DetectedEntity)
  unfolding detect_instruction reject_blocked_instruction
  prepare tenant_id user_id document_id instruction = do
    analyzed ← parts.analyze tenant_id user_id document_id
    entities ← detect_instruction instruction
    _ ← reject_blocked_instruction entities analyzed.policy
    ok (analyzed, entities)

  module _ (tenant_id session_id document_id : ℕ) (instruction : Text) where
    -- The transform of the document's text.
    unfoldable pub transform_document : AnalyzedDocument → S → Result TransformedText × S
    unfolding transform as_detections with_budget
    transform_document analyzed s =
        transform parts.platform parts.key tenant_id session_id analyzed.segmented.document.text
          parts.vault (with_budget analyzed.policy parts.max_entities) (as_detections analyzed) s

    -- The transform of the instruction, if it holds an entity.
    unfoldable pub transform_instruction :
        PolicySnapshot → List DetectedEntity → S → Result (Option TransformedText) × S
    unfolding transform
    transform_instruction policy [] s = (ok none, s)
    transform_instruction policy (e ∷ entities) s =
        let (answer, s') =
          transform parts.platform parts.key tenant_id session_id instruction parts.vault policy
            (e ∷ entities) s in
        (answer >>= λ t. ok (some t), s')

    abbrev pub combined :
        AnalyzedDocument → TransformedText → Option TransformedText → ProtectedDocument
    combined analyzed transformed none = record {
      tenant_id = tenant_id;
      session_id = session_id;
      document_id = document_id;
      text = transformed.text;
      instruction = instruction;
      summary = transformed.summary;
      policy_version = analyzed.policy.version;
    }
    combined analyzed transformed (some instructed) = record {
      tenant_id = tenant_id;
      session_id = session_id;
      document_id = document_id;
      text = transformed.text;
      instruction = instructed.text;
      summary = merged_with transformed.summary instructed.summary;
      policy_version = analyzed.policy.version;
    }

    -- `protect` after the document's transform.
    unfoldable pub finish :
        AnalyzedDocument
        → List DetectedEntity
        → Result TransformedText × S
        → Result ProtectedDocument × S
    unfolding verify_every_span_was_acted_on transform_instruction merged_with protected_document
    finish analyzed entities (err e, s) = (err e, s)
    finish analyzed entities (ok transformed, s) =
        let (answer, s') = transform_instruction analyzed.policy entities s in
        elim (verify_every_span_was_acted_on analyzed transformed) [
          | err e ↦ (err e, s)
          | ok _ ↦ (
            answer >>= λ instructed. protected_document (combined analyzed transformed instructed),
            s',
          )
        ]

    unfoldable pub protect : ℕ → S → Result ProtectedDocument × S
    unfolding prepare transform_document finish
    protect user_id s = elim (prepare tenant_id user_id document_id instruction) [
      | err e ↦ (err e, s)
      | ok (analyzed, entities) ↦ finish analyzed entities (transform_document analyzed s)
    ]
