-- ===== src/Tokenization/Fingerprint.antt =====
-- Keyed fingerprints of a value in a session (app/tokenization/fingerprint.py).
use aiprivacy_gateway.Common.{ℕ, List, [], ◌∷◌, ◌++◌, Text, length}
use aiprivacy_gateway.Tokenization.Platform.{Platform, Bytes, to_bytes}

-- Each part behind its length in four bytes.
unfoldable pub frame : List Bytes → Bytes
unfolding to_bytes
frame [] = []
frame (part ∷ parts) = to_bytes 4 (length part) ++ (part ++ frame parts)

module _ (p : Platform) (key : Bytes) where
  unfoldable pub fingerprint : ℕ → ℕ → Text → Text → Text
  unfolding frame
  fingerprint tenant_id session_id entity_type normalized_value = p.hmac_sha256_hex key (
      frame (
        p.uuid_bytes tenant_id
        ∷ p.uuid_bytes session_id
        ∷ p.utf8 entity_type
        ∷ p.utf8 normalized_value
        ∷ []))
