-- ===== src/Outbound/Serialization.antt =====
-- The canonical bytes of a request (app/outbound/serialization.py). The framing is that of the
-- fingerprints, UTF-8 and the decimal notation of a number are parameters.
pub mod Laws
use aiprivacy_gateway.Common.{ℕ, List, [], ◌∷◌, ◌++◌, map, Text, codes, length}
use aiprivacy_gateway.Tokenization.Platform.{Bytes, to_bytes}
use aiprivacy_gateway.Pipeline.Guards.{MessageRole, ChatMessage}
use aiprivacy_gateway.Outbound.Request.{ProtectedChatRequest}

-- `_frame`: each part behind its length in four bytes.
unfoldable pub frame_parts : List Bytes → Bytes
unfolding to_bytes
frame_parts [] = []
frame_parts (part ∷ parts) = to_bytes 4 (length part) ++ (part ++ frame_parts parts)

abbrev pub serialization_version : Bytes
serialization_version = codes "sgw:outbound:v1"

abbrev pub role_text : MessageRole → Text
role_text MessageRole.system = codes "system"
role_text MessageRole.user = codes "user"
role_text MessageRole.assistant = codes "assistant"

unfoldable pub outbound_segments : ProtectedChatRequest → List Text
outbound_segments request = map (λ m. m.content) request.messages

module _ (utf8 : Text → Bytes) (decimal : ℕ → Bytes) where
  unfoldable pub message_parts : List ChatMessage → List Bytes
  message_parts [] = []
  message_parts (message ∷ messages) =
      utf8 (role_text message.role) ∷ (utf8 message.content ∷ message_parts messages)

  unfoldable pub outbound_parts : ProtectedChatRequest → List Bytes
  unfolding message_parts
  outbound_parts request =
      serialization_version
      ∷ (utf8 request.provider_alias
          ∷ (utf8 request.model_alias
              ∷ (decimal request.policy_version
                  ∷ (decimal (length request.messages) ∷ message_parts request.messages))))

  unfoldable pub serialize_outbound : ProtectedChatRequest → Bytes
  unfolding outbound_parts frame_parts
  serialize_outbound request = frame_parts (outbound_parts request)
