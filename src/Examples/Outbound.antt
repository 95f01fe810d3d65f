-- ===== src/Examples/Outbound.antt =====
-- The theorems on the way to a provider, at small requests.
use aiprivacy_gateway.Common.{
  ℕ, ◌+◌, ◌<◌, ◌≡◌, ◌↔◌, inl, inr, refl, sym, ◌∙◌, Bool, true, false, List, [], ◌∷◌, Text, codes,
  length, All, Option, none, some, arith, ltb→lt,
}
use aiprivacy_gateway.Domain.Errors.{ok}
use aiprivacy_gateway.Policy.Snapshot.{PolicySnapshot}
use aiprivacy_gateway.Tokenization.Grammar.{TokenMatch, render_token}
use aiprivacy_gateway.Tokenization.Grammar.Scan.{Layout, IsClear, is_plain, render_layout}
use aiprivacy_gateway.Pipeline.Guards.{MessageRole, ChatMessage}
use aiprivacy_gateway.Outbound.Request.{ProtectedChatRequest}
use aiprivacy_gateway.Outbound.Serialization.{outbound_parts}
use aiprivacy_gateway.Outbound.Serialization.Laws.{IsShort, serialize_outbound-injective}
use aiprivacy_gateway.Outbound.Scan.{clean, touches, scan_outbound}
use aiprivacy_gateway.Outbound.Scan.Laws.{is_leak, CleanText, scan_outbound-clean}
use aiprivacy_gateway.Outbound.Registry.{LlmProvider, ProviderRegistry, from_providers}
use aiprivacy_gateway.Outbound.Gateway.{GatewayParts, Transmission, transmitted, send}
use aiprivacy_gateway.Outbound.Gateway.Laws.{
  IsCleanRequest, IsEvidence, send-unclean, send-transmitted,
}
use aiprivacy_gateway.Examples.Data.{email, span, email_token, small_policy, first_letter}

abbrev request_with : Text → ProtectedChatRequest
request_with content = record {
  request_id = 1;
  tenant_id = 2;
  session_id = 3;
  provider_alias = codes "mock";
  model_alias = codes "m";
  messages = record { role = MessageRole.user; content = content } ∷ [];
  policy_version = 3;
}

abbrev harmless : ProtectedChatRequest
harmless = request_with (codes "b")

outbound_parts-IsShort : All IsShort (outbound_parts (λ t. t) (λ n. n ∷ []) harmless)
unfolding outbound_parts aiprivacy_gateway.Outbound.Serialization.message_parts
outbound_parts-IsShort = (
  omega arith,
  (omega arith, (omega arith, (omega arith, (omega arith, (omega arith, (omega arith, tt)))))),
)

singleton-injective : (m n : ℕ) → m ∷ [] ≡ n ∷ [] → m ≡ n
singleton-injective m n h = cc

serialize_outbound-injective_example :
    (harmless.provider_alias ≡ harmless.provider_alias)
    × (harmless.model_alias ≡ harmless.model_alias)
    × (harmless.policy_version ≡ harmless.policy_version)
    × (harmless.messages ≡ harmless.messages)
serialize_outbound-injective_example =
    serialize_outbound-injective (λ t. t) (λ n. n ∷ []) (λ s t h. h) singleton-injective harmless
      harmless outbound_parts-IsShort outbound_parts-IsShort refl

abbrev messages_of : ProtectedChatRequest → List ChatMessage
messages_of request = request.messages

abbrev never_blank : Text → Bool
never_blank text = false

scan_outbound-clean_example :
    (scan_outbound never_blank first_letter small_policy (messages_of harmless)
      ≡ ok (record { verdict = clean; findings = [] }))
    ↔ All
        (λ (m : ChatMessage). CleanText never_blank first_letter small_policy m.content)
        (messages_of harmless)
scan_outbound-clean_example =
    scan_outbound-clean never_blank first_letter small_policy (messages_of harmless)

abbrev layout : Layout
layout = (codes "ab ", email_token) ∷ []

layout-IsClear : All IsClear layout
unfolding is_plain aiprivacy_gateway.Tokenization.Grammar.is_valid_entity_type
    aiprivacy_gateway.Common.text_eq aiprivacy_gateway.Tokenization.Grammar.mem_chars
    aiprivacy_gateway.Tokenization.Grammar.is_valid_token_id
layout-IsClear = ((refl, refl, refl), tt)

end_is_plain : is_plain (codes "!") ≡ true
unfolding is_plain
end_is_plain = refl

leak_found : is_leak small_policy (render_layout layout (codes "!")) (span email 0 2) ≡ true
unfolding render_token aiprivacy_gateway.Outbound.Scan.reserved aiprivacy_gateway.Common.text_eq
    aiprivacy_gateway.Tokenization.Grammar.mem_chars aiprivacy_gateway.Policy.Snapshot.min_score_for
    aiprivacy_gateway.Policy.Snapshot.action_for
leak_found = refl

-- An adapter that counts its calls.
abbrev adapter : LlmProvider ℕ
adapter = record {
  alias = codes "mock";
  complete = λ request calls.
      (calls + 1, ok (record { content = some (codes "x"); model = some (codes "m") }));
}

abbrev registry : ProviderRegistry ℕ
registry = (codes "mock", adapter) ∷ []

registry_run : from_providers (λ t. t) (adapter ∷ []) ≡ ok registry
unfolding from_providers aiprivacy_gateway.Policy.Snapshot.lookup
registry_run = refl

abbrev pub gateway : GatewayParts ℕ
gateway = record {
  is_blank = never_blank;
  detect = first_letter;
  utf8 = λ t. t;
  decimal = λ n. n ∷ [];
  outbound_digest = λ tenant_id payload. payload;
  prompt_digest = λ tenant_id segments. [];
  normalize = λ t. t;
  providers = registry;
}

leaking_scan :
    scan_outbound never_blank first_letter small_policy (messages_of (request_with (codes "ab")))
    ≡ ok (record { verdict = aiprivacy_gateway.Outbound.Scan.blocked; findings = email ∷ [] })
unfolding scan_outbound aiprivacy_gateway.Common.text_eq
leaking_scan = refl

leaking : IsCleanRequest gateway small_policy (request_with (codes "ab")) → ⊥
leaking h =
    let cleared =
      (scan_outbound-clean never_blank first_letter small_policy
          (messages_of (request_with (codes "ab")))).1
        h in
    absurd (let same = sym leaking_scan ∙ cleared in cc)

send-unclean_example : (send gateway (request_with (codes "ab")) small_policy none 5).0 ≡ 5
send-unclean_example = send-unclean gateway small_policy (request_with (codes "ab")) none 5 leaking

abbrev sent : Transmission
sent = record {
  response = record { content = some (codes "x"); model = some (codes "m") };
  attestation = record {
    payload_hmac =
        aiprivacy_gateway.Outbound.Serialization.serialize_outbound (λ t. t) (λ n. n ∷ []) harmless;
    prompt_hmac = [];
    scan = record { verdict = clean; findings = [] };
  };
  provider_alias = codes "mock";
}

send_run : send gateway harmless small_policy none 5 ≡ (6, transmitted sent)
unfolding send aiprivacy_gateway.Common.text_eq
send_run = refl

send-transmitted_example :
    IsCleanRequest gateway small_policy harmless
    × IsEvidence gateway small_policy harmless none 5 6 sent
send-transmitted_example = send-transmitted gateway small_policy harmless none 5 6 sent send_run
