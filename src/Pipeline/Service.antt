-- ===== src/Pipeline/Service.antt =====
-- One chat request from its admission to the restored answer (app/pipeline/service.py, with
-- app/pipeline/session.py). `V` is the store of the vault and `W` the world of the providers. The
-- deadlines of `run_stage`, the bound on concurrent calls, the sampling parameters of a request, the
-- preview, the metrics and the audit record are left out: a dependency returns its result or a domain
-- error.
pub mod Stages
pub mod Ordering
use aiprivacy_gateway.Common.{ℕ, Bool, List, [], ◌∷◌, Text, Option, none, some, ◌==◌, if◌then◌else◌}
use aiprivacy_gateway.Domain.Errors.{
  GatewayError, Result, ok, err, ◌>>=◌, invalid_request, value_error, policy_violation,
}
use aiprivacy_gateway.Domain.Entity.{DetectedEntity}
use aiprivacy_gateway.Domain.Summary.{PrivacySummary, empty_summary, merged_with}
use aiprivacy_gateway.Policy.Snapshot.{PolicySnapshot}
use aiprivacy_gateway.Tokenization.Platform.{Platform, Bytes}
use aiprivacy_gateway.Tokenization.Vault.{Vault}
use aiprivacy_gateway.Tokenization.Tokenizer.{TransformedText, transform}
use aiprivacy_gateway.Restoration.{ProviderResponse, RestoredOutput, restore}
use aiprivacy_gateway.Pipeline.Guards.{
  MessageRole, ChatMessage, enforce_message_sizes, entity_budget, select_request_entities,
  enforce_entity_budget, reject_blocked_entities, validate_provider_response,
}
use aiprivacy_gateway.Outbound.Request.{ProtectedChatRequest, protected_chat_request}
use aiprivacy_gateway.Outbound.Registry.{get}
use aiprivacy_gateway.Outbound.Gateway.{
  GatewayParts, Invoker, Sent, transmitted, outbound_blocked, raised, Transmission, send,
}

pub record ChatRequest : Type 0 where
  pub provider : Text
  pub model : Text
  pub session_id : Option ℕ
  pub messages : List ChatMessage

-- `fresh` is the random identifier of a new session, and the nil UUID is 0.
unfoldable pub resolve_session_id : ℕ → Option ℕ → Result ℕ
resolve_session_id fresh none = ok fresh
resolve_session_id fresh (some requested) =
    if requested == 0 then err invalid_request else ok requested

-- What the pipeline is built from, with its settings.
pub record PipelineParts (V W : Type 0) : Type 0 where
  pub resolve_policy : ℕ → Text → Text → Result PolicySnapshot
  pub detector : Text → Result (List DetectedEntity)
  pub platform : Platform
  pub key : Bytes
  pub vault : Vault V
  pub gateway : GatewayParts W
  pub is_blank : Text → Bool
  pub max_message_chars : ℕ
  pub max_entities_per_request : ℕ
  pub max_response_chars : ℕ

pub record Completed : Type 0 where
  pub restored : RestoredOutput
  pub summary : PrivacySummary
  pub transmission : Transmission

-- `_complete`: the adapter's answer, validated.
abbrev pub complete : {W : Type 0} → Invoker W
complete adapter request world =
    let (world', response) = adapter.complete request world in
    (world', response >>= validate_provider_response)

module _ {V W : Type 0} (parts : PipelineParts V W) where
  unfoldable pub detect : List ChatMessage → Result (List (List DetectedEntity))
  detect [] = ok []
  detect (message ∷ messages) = do
    entities ← parts.detector message.content
    rest ← detect messages
    ok (entities ∷ rest)

  unfoldable pub guard_request :
      List ChatMessage → List (List DetectedEntity) → PolicySnapshot → Result (Unit {0})
  unfolding select_request_entities enforce_entity_budget reject_blocked_entities entity_budget
  guard_request messages detections snapshot = do
    selections ← select_request_entities messages detections snapshot
    _ ← enforce_entity_budget selections (entity_budget snapshot parts.max_entities_per_request)
    reject_blocked_entities snapshot selections

  module _ (tenant_id session_id : ℕ) (snapshot : PolicySnapshot) where
    -- The loop of `_tokenize`; `summary` is its variable.
    unfoldable pub tokenize_messages :
        PrivacySummary
        → List ChatMessage
        → List (List DetectedEntity)
        → V
        → Result (List ChatMessage × PrivacySummary) × V
    unfolding transform merged_with
    tokenize_messages summary [] [] s = (ok ([], summary), s)
    tokenize_messages summary (message ∷ messages) (entities ∷ detections) s =
        let (answer, s') =
          transform parts.platform parts.key tenant_id session_id message.content parts.vault
            snapshot entities s in
        elim answer [
          | err e ↦ (err e, s')
          | ok transformed ↦
              let (rest, s'') =
                tokenize_messages (merged_with summary transformed.summary) messages detections
                  s' in
              (
                rest >>= λ done.
                    ok
                      (record { role = message.role; content = transformed.text } ∷ done.0, done.1),
                s'',
              )
        ]
    tokenize_messages summary _ _ s = (err value_error, s)

    -- After transmission: the restored answer and the counts of both directions.
    unfoldable pub restore_answer : PrivacySummary → Transmission → V → Result Completed × V
    unfolding restore merged_with
    restore_answer summary transmission s =
        let (answer, s') =
          restore parts.is_blank parts.max_response_chars tenant_id session_id parts.vault
            snapshot.unknown_output_token_action transmission.response s in
        (
          answer >>= λ restored. ok (record {
            restored = restored;
            summary = merged_with summary restored.summary;
            transmission = transmission;
          }),
          s',
        )

    -- `send` and what follows it.
    unfoldable pub finish_sent : PrivacySummary → W × Sent → V → Result Completed × (V × W)
    unfolding restore_answer
    finish_sent summary (world, raised e) s = (err e, (s, world))
    finish_sent summary (world, outbound_blocked attestation) s = (err policy_violation, (s, world))
    finish_sent summary (world, transmitted transmission) s =
        let (answer, s') = restore_answer summary transmission s in (answer, (s', world))

    unfoldable pub send_protected :
        Result (ProtectedChatRequest × PrivacySummary) → V → W → Result Completed × (V × W)
    unfolding finish_sent send
    send_protected (err e) s world = (err e, (s, world))
    send_protected (ok (request, summary)) s world =
        finish_sent summary (send parts.gateway request snapshot (some complete) world) s

    abbrev pub request_of : ℕ → ChatRequest → List ChatMessage → ProtectedChatRequest
    request_of request_id request messages = record {
      request_id = request_id;
      tenant_id = tenant_id;
      session_id = session_id;
      provider_alias = request.provider;
      model_alias = request.model;
      messages = messages;
      policy_version = snapshot.version;
    }

    -- The steps of `_run` before the first vault call.
    unfoldable pub prepare : ChatRequest → Result (List (List DetectedEntity))
    unfolding get detect guard_request
    prepare request = do
      _ ← get parts.gateway.normalize parts.gateway.providers request.provider
      detections ← detect request.messages
      _ ← guard_request request.messages detections snapshot
      ok detections

    unfoldable pub tokenize_request :
        ℕ
        → ChatRequest
        → List (List DetectedEntity)
        → V
        → Result (ProtectedChatRequest × PrivacySummary) × V
    unfolding tokenize_messages protected_chat_request
    tokenize_request request_id request detections s =
        let (answer, s') = tokenize_messages empty_summary request.messages detections s in
        (
          answer >>= λ done.
              (protected_chat_request (request_of request_id request done.0) >>= λ protected.
              ok (protected, done.1)),
          s',
        )

    unfoldable pub run : ℕ → ChatRequest → V → W → Result Completed × (V × W)
    unfolding prepare tokenize_request send_protected
    run request_id request s world = elim (prepare request) [
      | err e ↦ (err e, (s, world))
      | ok detections ↦
          let (answer, s') = tokenize_request request_id request detections s in
          send_protected answer s' world
    ]

  -- `invoke` without the audit record: admission, the policy, and `_run`.
  unfoldable pub admit : ℕ → ℕ → ChatRequest → Result (ℕ × PolicySnapshot)
  unfolding enforce_message_sizes resolve_session_id
  admit tenant_id fresh request = do
    _ ← enforce_message_sizes request.messages parts.max_message_chars
    session_id ← resolve_session_id fresh request.session_id
    snapshot ← parts.resolve_policy tenant_id request.provider request.model
    ok (session_id, snapshot)

  unfoldable pub invoke : ℕ → ℕ → ℕ → ChatRequest → V → W → Result Completed × (V × W)
  unfolding admit run
  invoke tenant_id request_id fresh request s world = elim (admit tenant_id fresh request) [
    | err e ↦ (err e, (s, world))
    | ok (session_id, snapshot) ↦ run tenant_id session_id snapshot request_id request s world
  ]
