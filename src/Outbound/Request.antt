-- ===== src/Outbound/Request.antt =====
-- `ProtectedChatRequest` of app/domain/models.py, the only request that an adapter accepts. The
-- sampling parameters, which pass through unread, are left out.
use aiprivacy_gateway.Common.{ℕ, ◌≡◌, List, [], ◌∷◌, Text}
use aiprivacy_gateway.Domain.Errors.{Result, ok, err, value_error}
use aiprivacy_gateway.Pipeline.Guards.{ChatMessage}

pub record ProtectedChatRequest : Type 0 where
  pub request_id : ℕ
  pub tenant_id : ℕ
  pub session_id : ℕ
  pub provider_alias : Text
  pub model_alias : Text
  pub messages : List ChatMessage
  pub policy_version : ℕ

abbrev check_messages : List ChatMessage → ProtectedChatRequest → Result ProtectedChatRequest
check_messages [] request = err value_error
check_messages (_ ∷ _) request = ok request

-- The constructor, with the check of `__post_init__`.
unfoldable pub protected_chat_request : ProtectedChatRequest → Result ProtectedChatRequest
protected_chat_request request = check_messages request.messages request

check_messages-ok :
    (messages : List ChatMessage) (built request : ProtectedChatRequest)
    → check_messages messages built ≡ ok request
    → built ≡ request
check_messages-ok [] built request h = absurd (cc)
check_messages-ok (_ ∷ _) built request h = cc

-- A request that was built is the one that was given.
pub protected_chat_request-ok :
    (built request : ProtectedChatRequest)
    → protected_chat_request built ≡ ok request
    → built ≡ request
unfolding protected_chat_request
protected_chat_request-ok built request h = check_messages-ok built.messages built request h
