-- ===== src/Vault/Crypto.antt =====
-- Envelope encryption of vault records (app/vault/crypto.py), with the explicit key ring of
-- app/vault/keys.py. UTF-8, the text of a UUID and AES-GCM are parameters. A byte is a number, and
-- the nonce that `os.urandom` draws is an argument.
pub mod Laws
pub mod Sealing
use aiprivacy_gateway.Common.{
  ℕ, ◌+◌, Bool, ◌&&◌, List, [], ◌∷◌, ◌++◌, Text, codes, text_eq, length, take, drop, ltb, leb, ◌==◌,
  Option, none, some, if◌then◌else◌,
}
use aiprivacy_gateway.Common.Dict.{dict_get}
use aiprivacy_gateway.Domain.Errors.{
  Result, ok, err, ◌>>=◌, value_error, vault_encryption_failed, overflow_error, struct_error,
}
use aiprivacy_gateway.Tokenization.Platform.{Bytes, to_bytes}

-- `encrypt` and `decrypt` take the key, the nonce, the text and the associated data. `none` stands
-- for an exception, which is InvalidTag or ValueError where `decrypt` raises it.
pub record CryptoLibrary : Type 0 where
  pub utf8 : Text → Bytes
  pub decode_utf8 : Bytes → Option Text
  pub uuid_text : ℕ → Text
  pub encrypt : Bytes → Bytes → Bytes → Bytes → Option Bytes
  pub decrypt : Bytes → Bytes → Bytes → Bytes → Option Bytes

abbrev pub envelope_magic : Bytes
envelope_magic = codes "SGWV"

abbrev pub envelope_version : ℕ
envelope_version = 1

abbrev pub nonce_bytes : ℕ
nonce_bytes = 12

abbrev pub gcm_tag_bytes : ℕ
gcm_tag_bytes = 16

abbrev pub max_key_id_bytes : ℕ
max_key_id_bytes = 255

abbrev pub header_size : ℕ
header_size = 6

abbrev pub aad_domain : Bytes
aad_domain = codes "sgw.vault.aad.v1"

pub record VaultAad : Type 0 where
  pub tenant_id : ℕ
  pub session_id : ℕ
  pub entity_type : Text
  pub token_id : Text

pub record Envelope : Type 0 where
  pub version : ℕ
  pub key_id : Text
  pub nonce : Bytes
  pub ciphertext : Bytes

-- The ring as the cipher sees it: `key` raises for an identifier that it does not know.
pub record VaultKeyRing : Type 0 where
  pub active_key_id : Text
  pub key : Text → Result Bytes

abbrev pub vault_key_bytes : ℕ
vault_key_bytes = 32

unfoldable pub validated : Bytes → Result Bytes
validated key = if length key == vault_key_bytes then ok key else err vault_encryption_failed

-- The dict comprehension of `StaticKeyRing`.
unfoldable pub validated_keys : List (Text × Bytes) → Result (List (Text × Bytes))
unfolding validated
validated_keys [] = ok []
validated_keys ((key_id, value) ∷ keys) = do
  key ← validated value
  rest ← validated_keys keys
  ok ((key_id, key) ∷ rest)

unfoldable pub key_of : List (Text × Bytes) → Text → Result Bytes
key_of keys key_id = elim (dict_get text_eq key_id keys) [
  | none ↦ err vault_encryption_failed
  | some key ↦ ok key
]

unfoldable pub static_key_ring : List (Text × Bytes) → Text → Result VaultKeyRing
unfolding validated_keys key_of
static_key_ring keys active_key_id = elim (dict_get text_eq active_key_id keys) [
  | none ↦ err value_error
  | some _ ↦ validated_keys keys >>= λ valid.
      ok (record { active_key_id = active_key_id; key = key_of valid })
]

-- Each field behind its length in two bytes, which raises OverflowError for a longer field.
unfoldable pub join_fields : List Bytes → Result Bytes
unfolding to_bytes
join_fields [] = ok []
join_fields (field ∷ fields) =
    let later = join_fields fields in
    if ltb (length field) 65536
    then (later >>= λ rest. ok (to_bytes 2 (length field) ++ (field ++ rest)))
    else err overflow_error

-- The checks of `Envelope.from_bytes` after the header was read, and its slices.
unfoldable pub open_envelope : (Bytes → Option Text) → Bytes → ℕ → ℕ → Bytes → Result Envelope
open_envelope decode_utf8 magic version key_id_length rest =
    if text_eq magic envelope_magic
    then if version == envelope_version
      then if key_id_length == 0
        then err vault_encryption_failed
        else if ltb (header_size + length rest)
            (header_size + key_id_length + nonce_bytes + gcm_tag_bytes)
        then err vault_encryption_failed
        else elim (decode_utf8 (take key_id_length rest)) [
          | none ↦ err vault_encryption_failed
          | some key_id ↦ ok (record {
            version = version;
            key_id = key_id;
            nonce = take nonce_bytes (drop key_id_length rest);
            ciphertext = drop nonce_bytes (drop key_id_length rest);
          })
        ]
      else err vault_encryption_failed
    else err vault_encryption_failed

-- `Envelope.from_bytes`. The header is the first six bytes.
unfoldable pub envelope_from_bytes : (Bytes → Option Text) → Bytes → Result Envelope
unfolding open_envelope
envelope_from_bytes decode_utf8 (a ∷ b ∷ c ∷ d ∷ version ∷ key_id_length ∷ rest) =
    open_envelope decode_utf8 (a ∷ b ∷ c ∷ d ∷ []) version key_id_length rest
envelope_from_bytes decode_utf8 _ = err vault_encryption_failed

module _ (lib : CryptoLibrary) where
  abbrev pub aad_fields : VaultAad → List Bytes
  aad_fields aad =
      aad_domain
      ∷ ((envelope_version ∷ [])
          ∷ (lib.utf8 (lib.uuid_text aad.tenant_id)
              ∷ (lib.utf8 (lib.uuid_text aad.session_id)
                  ∷ (lib.utf8 aad.entity_type ∷ (lib.utf8 aad.token_id ∷ [])))))

  -- `VaultAad.to_bytes`
  unfoldable pub aad_bytes : VaultAad → Result Bytes
  unfolding join_fields
  aad_bytes aad = join_fields (aad_fields aad)

  -- `Envelope.to_bytes`. The header has one byte for the version.
  unfoldable pub envelope_to_bytes : Envelope → Result Bytes
  envelope_to_bytes e =
      let key_id = lib.utf8 e.key_id in
      if ltb 0 (length key_id) && leb (length key_id) max_key_id_bytes
      then if ltb e.version 256
        then ok
            (envelope_magic ++ e.version ∷ length key_id ∷ (key_id ++ (e.nonce ++ e.ciphertext)))
        else err struct_error
      else err vault_encryption_failed

  -- `AESGCM(key).encrypt(…)` under its `except Exception`, and `AESGCM(key).decrypt(…)`.
  unfoldable pub encrypt_bound : Bytes → Bytes → Bytes → VaultAad → Result Bytes
  encrypt_bound key nonce plaintext aad = elim (aad_bytes aad) [
    | err _ ↦ err vault_encryption_failed
    | ok bound ↦ elim (lib.encrypt key nonce plaintext bound) [
      | none ↦ err vault_encryption_failed
      | some ciphertext ↦ ok ciphertext
    ]
  ]

  unfoldable pub decrypt_bound : Bytes → Envelope → VaultAad → Result Bytes
  decrypt_bound key e aad = aad_bytes aad >>= λ bound.
      elim (lib.decrypt key e.nonce e.ciphertext bound) [
        | none ↦ err vault_encryption_failed
        | some plaintext ↦ ok plaintext
      ]

  module _ (ring : VaultKeyRing) where
    unfoldable pub seal : Bytes → Bytes → VaultAad → Result Bytes
    unfolding encrypt_bound envelope_to_bytes
    seal nonce plaintext aad = do
      key ← ring.key ring.active_key_id
      ciphertext ← encrypt_bound key nonce plaintext aad
      envelope_to_bytes (record {
        version = envelope_version;
        key_id = ring.active_key_id;
        nonce = nonce;
        ciphertext = ciphertext;
      })

    unfoldable pub unseal : Bytes → VaultAad → Result Bytes
    unfolding envelope_from_bytes decrypt_bound
    unseal raw aad = do
      e ← envelope_from_bytes lib.decode_utf8 raw
      key ← ring.key e.key_id
      decrypt_bound key e aad
