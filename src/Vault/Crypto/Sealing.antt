-- ===== src/Vault/Crypto/Sealing.antt =====
-- Sealing and opening a vault record (app/vault/crypto.py): what opens, and under which identity.
use aiprivacy_gateway.Common.{
  ℕ, ◌≤◌, ◌≡◌, refl, sym, ap, ◌∙◌, inl, inr, Text, length, some, Option-cases,
}
use aiprivacy_gateway.Domain.Errors.{ok, Result-cases}
use aiprivacy_gateway.Tokenization.Platform.{Bytes}
use aiprivacy_gateway.Vault.Crypto.{
  CryptoLibrary, VaultAad, VaultKeyRing, aad_bytes, envelope_to_bytes, encrypt_bound, decrypt_bound,
  seal, unseal,
}
use aiprivacy_gateway.Vault.Crypto.Laws.{aad_bytes-injective, envelope_from_bytes-to_bytes}

module _ (lib : CryptoLibrary) where
  encrypt_bound-ok :
      (key nonce plaintext : Bytes) (aad : VaultAad) (ciphertext : Bytes)
      → encrypt_bound lib key nonce plaintext aad ≡ ok ciphertext
      → (bound : Bytes) × (aad_bytes lib aad ≡ ok bound)
        × (lib.encrypt key nonce plaintext bound ≡ some ciphertext)
  unfolding encrypt_bound
  encrypt_bound-ok key nonce plaintext aad ciphertext h = elim (Result-cases (aad_bytes lib aad)) [
    | inr (raised, e) ↦ let h' = rw (e, encrypt_bound) at h in absurd (cc)
    | inl (bound, e) ↦ elim (Option-cases (lib.encrypt key nonce plaintext bound)) [
      | inl e' ↦ let h' = rw (e, encrypt_bound, e') at h in absurd (cc)
      | inr (c, e') ↦ let h' = rw (e, encrypt_bound, e') at h in (bound, e, cc)
    ]
  ]

  -- What a sealed record was made of.
  seal-ok :
      (ring : VaultKeyRing) (nonce plaintext : Bytes) (aad : VaultAad) (raw : Bytes)
      → seal lib ring nonce plaintext aad ≡ ok raw
      → (key : Bytes) × (ciphertext : Bytes) × (ring.key ring.active_key_id ≡ ok key)
        × (encrypt_bound lib key nonce plaintext aad ≡ ok ciphertext)
        × (envelope_to_bytes lib (record {
          version = 1;
          key_id = ring.active_key_id;
          nonce = nonce;
          ciphertext = ciphertext;
        })
            ≡ ok raw)
  unfolding seal
  seal-ok ring nonce plaintext aad raw h = elim (Result-cases (ring.key ring.active_key_id)) [
    | inr (raised, e) ↦ let h' = rw e at h in absurd (cc)
    | inl (key, e) ↦ elim (Result-cases (encrypt_bound lib key nonce plaintext aad)) [
      | inr (raised, e') ↦ let h' = rw (e, e') at h in absurd (cc)
      | inl (ciphertext, e') ↦ let h' = rw (e, e') at h in (key, ciphertext, e, e', h')
    ]
  ]

  module _ (decode : (t : Text) → lib.decode_utf8 (lib.utf8 t) ≡ some t)
      (opens : (key nonce plaintext bound ciphertext : Bytes)
        → lib.encrypt key nonce plaintext bound ≡ some ciphertext
        → (lib.decrypt key nonce ciphertext bound ≡ some plaintext)
          × (16 ≤ length ciphertext)) where
    -- A sealed record is opened with the key and the ciphertext that it was sealed to.
    unseal-built :
        (ring later : VaultKeyRing) (nonce plaintext : Bytes) (aad : VaultAad) (raw : Bytes)
        → later.key ring.active_key_id ≡ ring.key ring.active_key_id
        → length nonce ≡ 12
        → seal lib ring nonce plaintext aad ≡ ok raw
        → (key : Bytes) × (ciphertext : Bytes) × (bound : Bytes) × (aad_bytes lib aad ≡ ok bound)
          × (lib.encrypt key nonce plaintext bound ≡ some ciphertext)
          × ((other : VaultAad)
              → unseal lib later raw other
                ≡ decrypt_bound lib key
                    (record {
                      version = 1;
                      key_id = ring.active_key_id;
                      nonce = nonce;
                      ciphertext = ciphertext;
                    })
                    other)
    unfolding unseal
    unseal-built ring later nonce plaintext aad raw kept twelve h =
        let (key, ciphertext, active, encrypted, built) = seal-ok ring nonce plaintext aad raw h in
        let (bound, aad_is, made) = encrypt_bound-ok key nonce plaintext aad ciphertext encrypted in
        let tag = (opens key nonce plaintext bound ciphertext made).1 in
        let parsed =
          envelope_from_bytes-to_bytes lib decode ring.active_key_id nonce ciphertext raw twelve tag
            built in
        (key, ciphertext, bound, aad_is, made, λ other. rw (parsed, kept, active) refl)

    -- If UTF-8 decodes what it encoded, and AES-GCM decrypts what it encrypted and adds a tag
    -- of at least 16 bytes, then a record that was sealed with a nonce of 12 bytes is opened
    -- under the same identity to the same plaintext, also by a later key ring that still
    -- holds the key.
    pub unseal-seal :
        (ring later : VaultKeyRing) (nonce plaintext : Bytes) (aad : VaultAad) (raw : Bytes)
        → later.key ring.active_key_id ≡ ring.key ring.active_key_id
        → length nonce ≡ 12
        → seal lib ring nonce plaintext aad ≡ ok raw
        → unseal lib later raw aad ≡ ok plaintext
    unfolding decrypt_bound
    unseal-seal ring later nonce plaintext aad raw kept twelve h =
        let (key, ciphertext, bound, aad_is, made, built) =
          unseal-built ring later nonce plaintext aad raw kept twelve h in
        built aad ∙ rw (aad_is, (opens key nonce plaintext bound ciphertext made).0) refl

    module _ (utf8_injective : (s t : Text) → lib.utf8 s ≡ lib.utf8 t → s ≡ t)
        (uuid_injective : (m n : ℕ) → lib.uuid_text m ≡ lib.uuid_text n → m ≡ n)
        (authentic : (key nonce plaintext bound other ciphertext found : Bytes)
          → lib.encrypt key nonce plaintext bound ≡ some ciphertext
          → lib.decrypt key nonce ciphertext other ≡ some found
          → bound ≡ other) where
      -- If UTF-8 decodes what it encoded and tells texts apart, the text of a UUID tells
      -- UUIDs apart, and AES-GCM decrypts what it encrypted, adds a tag of at least 16
      -- bytes and opens it under no other associated data: a record that was sealed with a
      -- nonce of 12 bytes, and is opened under some identity by a ring that still holds the
      -- key, was sealed for it, with the same tenant, session, entity type and token
      -- identifier.
      pub unseal-moved :
          (ring later : VaultKeyRing) (nonce plaintext : Bytes) (aad other : VaultAad)
          (raw found : Bytes)
          → later.key ring.active_key_id ≡ ring.key ring.active_key_id
          → length nonce ≡ 12
          → seal lib ring nonce plaintext aad ≡ ok raw
          → unseal lib later raw other ≡ ok found
          → (aad.tenant_id ≡ other.tenant_id)
            × (aad.session_id ≡ other.session_id)
            × (aad.entity_type ≡ other.entity_type)
            × (aad.token_id ≡ other.token_id)
      unfolding decrypt_bound
      unseal-moved ring later nonce plaintext aad other raw found kept twelve h opened =
          let (key, ciphertext, bound, aad_is, made, built) =
            unseal-built ring later nonce plaintext aad raw kept twelve h in
          let opened' = sym (built other) ∙ opened in
          elim (Result-cases (aad_bytes lib other)) [
            | inr (raised, e) ↦ let h' = rw e at opened' in absurd (cc)
            | inl (bound', e) ↦ elim (Option-cases (lib.decrypt key nonce ciphertext bound')) [
              | inl e' ↦ let h' = rw (e, e') at opened' in absurd (cc)
              | inr (text, e') ↦
                  let same = authentic key nonce plaintext bound bound' ciphertext text made e' in
                  aad_bytes-injective lib utf8_injective uuid_injective aad other bound aad_is
                    (e ∙ ap (λ r. ok r) (sym same))
            ]
          ]
