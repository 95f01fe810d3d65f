-- ===== src/Documents/Pipeline.antt =====
-- One document through protection, transmission and restoration (app/documents/pipeline.py). `V` is
-- the store of the vault, `W` the world of the providers; the audit service is that of Audit.Service.
-- The clock and the logs are left out.
pub mod Attested
pub mod Protected
use aiprivacy_gateway.Common.{
  ℕ, Bool, true, false, List, [], ◌∷◌, Text, codes, length, ltb, Option, none, some, if◌then◌else◌,
}
use aiprivacy_gateway.Domain.Errors.{
  GatewayError, Result, ok, err, ◌>>=◌, value_error, request_too_large, policy_violation,
}
use aiprivacy_gateway.Domain.Summary.{PrivacySummary, merged_with}
use aiprivacy_gateway.Policy.Snapshot.{PolicySnapshot}
use aiprivacy_gateway.Restoration.{RestoredOutput, restore}
use aiprivacy_gateway.Pipeline.Guards.{MessageRole, ChatMessage}
use aiprivacy_gateway.Auth.RateLimit.{Principal}
use aiprivacy_gateway.Outbound.Request.{ProtectedChatRequest, protected_chat_request}
use aiprivacy_gateway.Outbound.Scan.{ScanVerdict, clean, blocked}
use aiprivacy_gateway.Outbound.Gateway.{
  GatewayParts, Attestation, Transmission, Sent, transmitted, outbound_blocked, raised, send,
  authorize,
}
use aiprivacy_gateway.Documents.Protection.{ProtectorParts, ProtectedDocument, protect}
use aiprivacy_gateway.Audit.Records.{AuditRecord, audit_record, counts_from_summary}
use aiprivacy_gateway.Audit.Service.{AuditConfig, AuditService, submit}

pub record DocumentPipeline (V W : Type 0) : Type 0 where
  pub protection : ProtectorParts V
  pub resolve_policy : ℕ → Text → Text → Result PolicySnapshot
  pub outbound : GatewayParts W
  pub session_digest : ℕ → ℕ → Text
  pub response_digest : ℕ → Text → Text
  pub max_response_chars : ℕ
  pub audit : AuditConfig
  pub instruction_max_chars : ℕ

-- The check of the constructor.
unfoldable pub document_pipeline :
    {V W : Type 0} → DocumentPipeline V W → Result (DocumentPipeline V W)
document_pipeline parts = if ltb parts.instruction_max_chars 1 then err value_error else ok parts

-- The arguments of `run`.
pub record DocumentCall : Type 0 where
  pub principal : Principal
  pub request_id : ℕ
  pub session_id : ℕ
  pub user_id : ℕ
  pub document_id : ℕ
  pub provider : Text
  pub model : Text
  pub instruction : Text

pub record DocumentAnswer : Type 0 where
  pub request_id : ℕ
  pub session_id : ℕ
  pub document_id : ℕ
  pub provider : Text
  pub model : Text
  pub text : Text
  pub privacy : PrivacySummary
  pub outbound_hmac : Text

unfoldable pub enforce_instruction_size : Text → ℕ → Result (Unit {0})
enforce_instruction_size instruction limit =
    if ltb limit (length instruction) then err request_too_large else ok tt

abbrev pub verdict_text : ScanVerdict → Text
verdict_text clean = codes "clean"
verdict_text blocked = codes "blocked"

-- `_protected_request`
unfoldable pub protected_request : DocumentCall → ProtectedDocument → Result ProtectedChatRequest
unfolding protected_chat_request
protected_request call protected = protected_chat_request (record {
  request_id = call.request_id;
  tenant_id = call.principal.tenant_id;
  session_id = call.session_id;
  provider_alias = call.provider;
  model_alias = call.model;
  messages =
      record { role = MessageRole.system; content = protected.instruction }
      ∷ (record { role = MessageRole.user; content = protected.text } ∷ []);
  policy_version = protected.policy_version;
})

-- The stores that a run leaves: of the vault, of the providers and of the audit service.
abbrev pub Left : Type 0 → Type 0 → Type 0
Left V W = V × W × AuditService

module _ {V W : Type 0} (parts : DocumentPipeline V W) (call : DocumentCall)
    (policy : PolicySnapshot) where
  abbrev pub tenant_id : ℕ
  tenant_id = call.principal.tenant_id

  -- The record that `_attest` writes; `response_text` is there for an answered call only.
  abbrev pub attested : PrivacySummary → Attestation → Bool → ℕ → Option Text → AuditRecord
  attested summary attestation is_blocked request_characters response_text =
      let (entity_counts, actions) = counts_from_summary summary in
      record {
        tenant_id = tenant_id;
        request_id = call.request_id;
        status_code = if is_blocked then 422 else 200;
        api_key_id = some call.principal.api_key_id;
        session_id_hash = some (parts.session_digest tenant_id call.session_id);
        policy_id = some policy.policy_id;
        policy_version = some policy.version;
        provider_alias = some call.provider;
        model_alias = some call.model;
        input_character_count = request_characters;
        output_character_count = elim response_text [ none ↦ 0 | some text ↦ length text ];
        entity_counts = entity_counts;
        actions = actions;
        blocked = is_blocked;
        block_reason_code = if is_blocked then some (codes "outbound_scan") else none;
        error_code = none;
        prompt_hmac = some attestation.prompt_hmac;
        response_hmac = elim response_text [
          | none ↦ none
          | some text ↦ some (parts.response_digest tenant_id text)
        ];
        outbound_hmac = some attestation.payload_hmac;
        outbound_scan = some (verdict_text attestation.scan.verdict);
      }

  unfoldable pub attest : AuditRecord → AuditService → Result (Unit {0}) × AuditService
  unfolding audit_record submit
  attest item audit = elim (audit_record item) [
    | err e ↦ (err e, audit)
    | ok admitted ↦ submit parts.audit admitted audit
  ]

  -- After restoration.
  unfoldable pub answer_restored :
      ProtectedDocument
      → Transmission
      → Result RestoredOutput
      → AuditService
      → Result DocumentAnswer × AuditService
  unfolding attest merged_with counts_from_summary
  answer_restored protected transmission (err e) audit = (err e, audit)
  answer_restored protected transmission (ok restored) audit =
      let summary = merged_with protected.summary restored.summary in
      let (written, audit') =
        attest
          (attested summary transmission.attestation false (length protected.text)
            (some restored.text))
          audit in
      (
        written >>= λ _. ok (record {
          request_id = call.request_id;
          session_id = call.session_id;
          document_id = call.document_id;
          provider = call.provider;
          model = restored.model;
          text = restored.text;
          privacy = summary;
          outbound_hmac = transmission.attestation.payload_hmac;
        }),
        audit',
      )

  -- What `send` returned or raised.
  unfoldable pub finish_sent :
      ProtectedDocument → W × Sent → V → AuditService → Result DocumentAnswer × Left V W
  unfolding restore answer_restored attest counts_from_summary
  finish_sent protected (world, raised e) s audit = (err e, (s, world, audit))
  finish_sent protected (world, outbound_blocked attestation) s audit =
      let (written, audit') =
        attest (attested protected.summary attestation true (length protected.text) none) audit in
      (written >>= λ _. err policy_violation, (s, world, audit'))
  finish_sent protected (world, transmitted transmission) s audit =
      let (restored, s') =
        restore parts.protection.is_blank parts.max_response_chars tenant_id call.session_id
          parts.protection.vault policy.unknown_output_token_action transmission.response s in
      let (answer, audit') = answer_restored protected transmission restored audit in
      (answer, (s', world, audit'))

  unfoldable pub send_request :
      ProtectedDocument
      → Result ProtectedChatRequest
      → V
      → W
      → AuditService
      → Result DocumentAnswer × Left V W
  unfolding send finish_sent
  send_request protected (err e) s world audit = (err e, (s, world, audit))
  send_request protected (ok request) s world audit =
      finish_sent protected (send parts.outbound request policy none world) s audit

  unfoldable pub send_protected :
      Result ProtectedDocument → V → W → AuditService → Result DocumentAnswer × Left V W
  unfolding send_request protected_request
  send_protected (err e) s world audit = (err e, (s, world, audit))
  send_protected (ok protected) s world audit =
      send_request protected (protected_request call protected) s world audit

module _ {V W : Type 0} (parts : DocumentPipeline V W) (call : DocumentCall) where
  -- The steps before the document is opened.
  unfoldable pub admit : Result PolicySnapshot
  unfolding enforce_instruction_size authorize
  admit = do
    _ ← enforce_instruction_size call.instruction parts.instruction_max_chars
    policy ← parts.resolve_policy call.principal.tenant_id call.provider call.model
    _ ← authorize parts.outbound call.provider
    ok policy

  unfoldable pub run : V → W → AuditService → Result DocumentAnswer × Left V W
  unfolding admit protect send_protected
  run s world audit = elim admit [
    | err e ↦ (err e, (s, world, audit))
    | ok policy ↦
        let (protected, s') =
          protect parts.protection call.principal.tenant_id call.session_id call.document_id
            call.instruction call.user_id s in
        send_protected parts call policy protected s' world audit
  ]
