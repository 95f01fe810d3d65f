-- ===== src/Vault/Redis/Sealed.antt =====
-- The identity that an answer of app/vault/redis_vault.py was sealed under.
use aiprivacy_gateway.Common.{ℕ, ◌≡◌, refl, sym, subst, ◌≤◌, List, Text, length, All, All-imp, some}
use aiprivacy_gateway.Domain.Errors.{ok}
use aiprivacy_gateway.Tokenization.Platform.{Bytes}
use aiprivacy_gateway.Tokenization.Grammar.{Token, parse_token}
use aiprivacy_gateway.Vault.Crypto.{VaultAad, VaultKeyRing, seal, unseal}
use aiprivacy_gateway.Vault.Crypto.Sealing.{unseal-seal, unseal-moved}
use aiprivacy_gateway.Vault.Records.{VaultRecord, record_from_bytes}
use aiprivacy_gateway.Vault.Redis.{RedisStore, VaultParts}
use aiprivacy_gateway.Vault.Redis.Resolved.{resolve_many-IsReadFrom}
use aiprivacy_gateway.Vault.Redis.TokenVault.{session_prefix, token_key, aad_of, resolve_many}

-- Bytes that were sealed for an identity, under a ring whose key the vault still holds.
abbrev pub IsSealed : VaultParts → Bytes → VaultAad → Bytes → Type 0
IsSealed parts raw aad plaintext =
    (ring : VaultKeyRing) × (nonce : Bytes) × (parts.ring.key ring.active_key_id
      ≡ ring.key ring.active_key_id)
    × (length nonce ≡ 12)
    × (seal parts.crypto ring nonce plaintext aad ≡ ok raw)

-- A pair whose original was sealed for this tenant, this session and this token.
abbrev pub IsOwned : VaultParts → ℕ → ℕ → Text × Text → Type 0
IsOwned parts tenant_id session_id (token, value) =
    (parsed : Token) × (raw : Bytes) × (plaintext : Bytes) × (found : VaultRecord) × (parse_token
        token
      ≡ some parsed)
    × IsSealed parts raw (aad_of parts tenant_id session_id parsed.entity_type parsed.token_id)
        plaintext
    × (record_from_bytes parts.records plaintext ≡ ok found)
    × (found.token ≡ token)
    × (found.original_value ≡ value)

module _ (parts : VaultParts)
    (decode : (t : Text) → parts.crypto.decode_utf8 (parts.crypto.utf8 t) ≡ some t)
    (opens : (key nonce plaintext bound ciphertext : Bytes)
      → parts.crypto.encrypt key nonce plaintext bound ≡ some ciphertext
      → (parts.crypto.decrypt key nonce ciphertext bound ≡ some plaintext)
        × (16 ≤ length ciphertext))
    (utf8_injective : (s t : Text) → parts.crypto.utf8 s ≡ parts.crypto.utf8 t → s ≡ t)
    (uuid_injective : (m n : ℕ) → parts.crypto.uuid_text m ≡ parts.crypto.uuid_text n → m ≡ n)
    (authentic : (key nonce plaintext bound other ciphertext found : Bytes)
      → parts.crypto.encrypt key nonce plaintext bound ≡ some ciphertext
      → parts.crypto.decrypt key nonce ciphertext other ≡ some found
      → bound ≡ other) where
  same_identity :
      (aad : VaultAad) (tenant_id session_id : ℕ) (entity_type token_id : Text)
      → (aad.tenant_id ≡ tenant_id)
        × (aad.session_id ≡ session_id)
        × (aad.entity_type ≡ entity_type)
        × (aad.token_id ≡ token_id)
      → aad ≡ aad_of parts tenant_id session_id entity_type token_id
  same_identity aad tenant_id session_id entity_type token_id (a, b, c, d) =
      rw (sym a, sym b, sym c, sym d) refl

  -- A sealed value that is opened under an identity was sealed for it, with the plaintext found.
  IsSealed-opened :
      (raw plaintext found : Bytes) (aad other : VaultAad)
      → IsSealed parts raw aad plaintext
      → unseal parts.crypto parts.ring raw other ≡ ok found
      → IsSealed parts raw other found
  IsSealed-opened raw plaintext found aad other (ring, nonce, kept, twelve, sealed) opened =
      let moved =
        unseal-moved parts.crypto decode opens utf8_injective uuid_injective authentic ring
          parts.ring nonce plaintext aad other raw found kept twelve sealed opened in
      let same : aad ≡ other =
        same_identity aad other.tenant_id other.session_id other.entity_type other.token_id moved in
      let back =
        unseal-seal parts.crypto decode opens ring parts.ring nonce plaintext aad raw kept twelve
          sealed in
      let opened' =
        subst (λ a. unseal parts.crypto parts.ring raw a ≡ ok found) (sym same) opened in
      let text : plaintext ≡ found = cc in
      (
        ring,
        nonce,
        kept,
        twelve,
        subst (λ a. seal parts.crypto ring nonce found a ≡ ok raw) same
            (subst (λ p. seal parts.crypto ring nonce p aad ≡ ok raw) text sealed),
      )

  -- Suppose AES-GCM decrypts what it encrypted, adds a tag of at least 16 bytes and opens it
  -- under no other associated data, UTF-8 decodes what it encoded and tells texts apart, and
  -- the text of a UUID tells UUIDs apart. If every value that Redis holds under a token key of
  -- the session was sealed by a vault with a nonce of 12 bytes and a key that is still held,
  -- for any tenant, session, type and token, then each original that is answered was sealed for
  -- the tenant and the session that ask and for the token it answers.
  pub resolve_many-IsOwned :
      {R : Type 0} (redis : RedisStore R) (tenant_id session_id : ℕ) (tokens : List Text) (r : R)
      (pairs : List (Text × Text))
      → ((token_id : Text) (raw : Bytes)
          → redis.get
              (parts.crypto.utf8
                (token_key parts (session_prefix parts tenant_id session_id) token_id))
              (redis.connect r).1
            ≡ some raw
          → (aad : VaultAad) × (plaintext : Bytes) × IsSealed parts raw aad plaintext)
      → (resolve_many parts redis tenant_id session_id tokens r).0 ≡ ok pairs
      → All (IsOwned parts tenant_id session_id) pairs
  resolve_many-IsOwned redis tenant_id session_id tokens r pairs honest h =
      All-imp pairs
        (λ pair is_read.
          let (parsed, raw, (parse, stored), (found, kept, opened, payload, token, value)) =
            is_read in
          let (aad, plaintext, sealed) = honest parsed.token_id raw stored in
          (
            parsed,
            raw,
            found,
            kept,
            parse,
            IsSealed-opened raw plaintext found aad
                (aad_of parts tenant_id session_id parsed.entity_type parsed.token_id) sealed
                opened,
            payload,
            token,
            value,
          ))
        (resolve_many-IsReadFrom parts tenant_id session_id redis tokens r pairs h)
