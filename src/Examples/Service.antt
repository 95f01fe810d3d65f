-- ===== src/Examples/Service.antt =====
-- One request through the whole pipeline.
use aiprivacy_gateway.Common.{ℕ, ◌≡◌, ◌⊎◌, false, [], ◌∷◌, codes, none}
use aiprivacy_gateway.Domain.Errors.{ok}
use aiprivacy_gateway.Policy.Snapshot.{PolicySnapshot}
use aiprivacy_gateway.Pipeline.Guards.{MessageRole}
use aiprivacy_gateway.Pipeline.Service.{ChatRequest, PipelineParts, invoke}
use aiprivacy_gateway.Pipeline.Service.Stages.{IsAdmitted}
use aiprivacy_gateway.Pipeline.Service.Ordering.{Prepared, invoke-ordered}
use aiprivacy_gateway.Examples.Data.{small_policy, first_letter, plain_platform, counting_vault}
use aiprivacy_gateway.Examples.Outbound.{gateway}

abbrev parts : PipelineParts ℕ ℕ
parts = record {
  resolve_policy = λ tenant_id provider model. ok small_policy;
  detector = first_letter;
  platform = plain_platform;
  key = [];
  vault = counting_vault;
  gateway = gateway;
  is_blank = λ text. false;
  max_message_chars = 10;
  max_entities_per_request = 5;
  max_response_chars = 10;
}

abbrev request : ChatRequest
request = record {
  provider = codes "mock";
  model = codes "m";
  session_id = none;
  messages = record { role = MessageRole.user; content = codes "ab" } ∷ [];
}

invoke-ordered_example :
    ((invoke parts 2 1 9 request 0 5).1 ≡ (0, 5))
    ⊎ ((session_id : ℕ) × (snapshot : PolicySnapshot) × IsAdmitted parts 2 9 request session_id
          snapshot
        × Prepared parts 2 session_id snapshot request 0 5 (invoke parts 2 1 9 request 0 5).1.1)
invoke-ordered_example = invoke-ordered parts 2 1 9 request 0 5
