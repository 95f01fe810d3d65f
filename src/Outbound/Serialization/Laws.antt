-- ===== src/Outbound/Serialization/Laws.antt =====
-- What the bytes of app/outbound/serialization.py determine.
use aiprivacy_gateway.Common.{
  ℕ, ◌/◌, ◌%◌, ◌<◌, ◌≡◌, refl, sym, List, [], ◌∷◌, ◌++◌, Text, length, append-cancel, All, arith,
}
use aiprivacy_gateway.Tokenization.Platform.{Bytes, to_bytes}
use aiprivacy_gateway.Pipeline.Guards.{MessageRole, ChatMessage}
use aiprivacy_gateway.Outbound.Request.{ProtectedChatRequest}
use aiprivacy_gateway.Outbound.Serialization.{
  frame_parts, role_text, message_parts, outbound_parts, serialize_outbound,
}

-- A part whose length fits the prefix.
abbrev pub IsShort : Bytes → Type 0
IsShort part = length part < 4294967296

to_bytes_four :
    (n : ℕ)
    → to_bytes 4 n
      ≡ (n / 256 / 256 / 256) % 256 ∷ ((n / 256 / 256) % 256 ∷ ((n / 256) % 256 ∷ (n % 256 ∷ [])))
unfolding to_bytes
to_bytes_four n = refl

digits_determine :
    (m n : ℕ)
    → m < 4294967296
    → n < 4294967296
    → (m / 256 / 256 / 256) % 256 ≡ (n / 256 / 256 / 256) % 256
    → (m / 256 / 256) % 256 ≡ (n / 256 / 256) % 256
    → (m / 256) % 256 ≡ (n / 256) % 256
    → m % 256 ≡ n % 256
    → m ≡ n
digits_determine m n a b c d e f = omega arith

-- Two frames with a first part that are equal have equal first parts and equal rests.
frame_parts-cons :
    (p q xs ys : Bytes)
    → IsShort p
    → IsShort q
    → to_bytes 4 (length p) ++ (p ++ xs) ≡ to_bytes 4 (length q) ++ (q ++ ys)
    → (p ≡ q) × (xs ≡ ys)
frame_parts-cons p q xs ys a b h =
    let h' = rw (to_bytes_four (length p), to_bytes_four (length q)) at h in
    let n : length p ≡ length q = digits_determine (length p) (length q) a b (cc) (cc) (cc) (cc) in
    append-cancel p q xs ys n (cc)

frame_parts-nil : (q ys : Bytes) → [] ≡ to_bytes 4 (length q) ++ ys → ⊥
frame_parts-nil q ys h = let h' = rw (to_bytes_four (length q)) at h in cc

-- From the framed bytes the parts can be told, whatever they hold: if no part is 2^32 bytes long,
-- two lists of parts with the same bytes are the same.
pub frame_parts_injective :
    (ps qs : List Bytes)
    → All IsShort ps
    → All IsShort qs
    → frame_parts ps ≡ frame_parts qs
    → ps ≡ qs
unfolding frame_parts
frame_parts_injective [] [] a b h = refl
frame_parts_injective [] (q ∷ qs) a b h = absurd (frame_parts-nil q _ h)
frame_parts_injective (p ∷ ps) [] a b h = absurd (frame_parts-nil p _ (sym h))
frame_parts_injective (p ∷ ps) (q ∷ qs) a b h =
    let (same, rest) = frame_parts-cons p q (frame_parts ps) (frame_parts qs) a.0 b.0 h in
    let later = frame_parts_injective ps qs a.1 b.1 rest in rw (same, later) refl

role_text-injective : (r s : MessageRole) → role_text r ≡ role_text s → r ≡ s
role_text-injective MessageRole.system MessageRole.system h = refl
role_text-injective MessageRole.user MessageRole.user h = refl
role_text-injective MessageRole.assistant MessageRole.assistant h = refl
role_text-injective MessageRole.system MessageRole.user h = cc
role_text-injective MessageRole.system MessageRole.assistant h = cc
role_text-injective MessageRole.user MessageRole.system h = cc
role_text-injective MessageRole.user MessageRole.assistant h = cc
role_text-injective MessageRole.assistant MessageRole.system h = cc
role_text-injective MessageRole.assistant MessageRole.user h = cc

module _ (utf8 : Text → Bytes) (decimal : ℕ → Bytes)
    (utf8_injective : (s t : Text) → utf8 s ≡ utf8 t → s ≡ t)
    (decimal_injective : (m n : ℕ) → decimal m ≡ decimal n → m ≡ n) where
  message_parts-injective :
      (xs ys : List ChatMessage)
      → message_parts utf8 decimal xs ≡ message_parts utf8 decimal ys
      → xs ≡ ys
  unfolding message_parts
  message_parts-injective [] [] h = refl
  message_parts-injective [] (y ∷ ys) h = cc
  message_parts-injective (x ∷ xs) [] h = cc
  message_parts-injective (x ∷ xs) (y ∷ ys) h =
      let role =
        role_text-injective x.role y.role
          (utf8_injective (role_text x.role) (role_text y.role) (cc)) in
      let content = utf8_injective x.content y.content (cc) in
      let rest = message_parts-injective xs ys (cc) in ground (arith, role, content, rest)

  -- If UTF-8 and the decimal notation tell texts and numbers apart, and every part is shorter
  -- than 2^32 bytes, then two requests with the same bytes have the same aliases, policy
  -- version and messages.
  pub serialize_outbound-injective :
      (r s : ProtectedChatRequest)
      → All IsShort (outbound_parts utf8 decimal r)
      → All IsShort (outbound_parts utf8 decimal s)
      → serialize_outbound utf8 decimal r ≡ serialize_outbound utf8 decimal s
      → (r.provider_alias ≡ s.provider_alias)
        × (r.model_alias ≡ s.model_alias)
        × (r.policy_version ≡ s.policy_version)
        × (r.messages ≡ s.messages)
  unfolding serialize_outbound outbound_parts
  serialize_outbound-injective r s a b h =
      let parts =
        frame_parts_injective (outbound_parts utf8 decimal r) (outbound_parts utf8 decimal s) a b
          h in
      (
        utf8_injective r.provider_alias s.provider_alias (cc),
        utf8_injective r.model_alias s.model_alias (cc),
        decimal_injective r.policy_version s.policy_version (cc),
        message_parts-injective r.messages s.messages (cc),
      )
