-- ===== src/Examples/RedisVault.antt =====
-- The Redis vault over a small cipher and a store that never fails: sealing, opening, resolving.
use aiprivacy_gateway.Common.{
  ℕ, ◌≡◌, ◌≤◌, refl, sym, ap, subst, ◌∙◌, inl, inr, Bool, true, false, ◌&&◌, List, [], ◌∷◌, ◌++◌,
  AllPairs, Text, codes, text_eq, text_eq_iff, length, length-append, take, drop, take-append_left,
  drop-append_left, All, keep, any, ◌==◌, ==_iff, Option, none, some, if◌then◌else◌, Bool-cases,
  arith,
}
use aiprivacy_gateway.Common.Dict.{dict_get, dict_set}
use aiprivacy_gateway.Domain.Errors.{Result, ok, err}
use aiprivacy_gateway.Tokenization.Platform.{Bytes}
use aiprivacy_gateway.Tokenization.Vault.{VaultWriteRequest}
use aiprivacy_gateway.Tokenization.Grammar.Scan.{token_text}
use aiprivacy_gateway.Vault.Crypto.{CryptoLibrary, VaultAad, VaultKeyRing, key_of, seal, unseal}
use aiprivacy_gateway.Vault.Crypto.Sealing.{unseal-seal, unseal-moved}
use aiprivacy_gateway.Vault.Records.{JsonValue, JsonDocument, object, string, number, RecordLibrary}
use aiprivacy_gateway.Vault.Redis.{
  Delivery, RedisStore, Fresh, VaultParts, deduplicate, identity, get_elem?,
}
use aiprivacy_gateway.Vault.Redis.Answers.{Typed, get_or_create_many-Typed}
use aiprivacy_gateway.Vault.Redis.Identities.{Apart, Names, deduplicate_sound}
use aiprivacy_gateway.Vault.Redis.Sealed.{IsSealed, IsOwned, resolve_many-IsOwned}
use aiprivacy_gateway.Vault.Redis.TokenVault.{
  session_prefix, token_key, aad_of, get_or_create_many, resolve_many,
}
use aiprivacy_gateway.Examples.Data.{email, identifier, email_token}

abbrev sixteen : Bytes
sixteen = codes "................"

abbrev twelve : Bytes
twelve = codes "............"

abbrev strip : Bytes → Bytes → Option Bytes
strip bound [] = none
strip bound (n ∷ rest) =
    if n == length bound && text_eq (take n rest) bound then some (drop n rest) else none

-- The ciphertext is a tag, the associated data and the plaintext.
abbrev library : CryptoLibrary
library = record {
  utf8 = λ t. t;
  decode_utf8 = λ b. some b;
  uuid_text = λ n. n ∷ [];
  encrypt = λ key nonce plaintext bound. some (sixteen ++ length bound ∷ (bound ++ plaintext));
  decrypt = λ key nonce ciphertext bound. strip bound (drop 16 ciphertext);
}

strip-built :
    (bound plaintext : Bytes) → strip bound (length bound ∷ (bound ++ plaintext)) ≡ some plaintext
strip-built bound plaintext =
    rw
      (
        (==_iff (length bound) (length bound)).1 refl,
        take-append_left bound plaintext,
        (text_eq_iff bound bound).1 refl,
        drop-append_left bound plaintext,
      )
      refl

library_opens :
    (key nonce plaintext bound ciphertext : Bytes)
    → library.encrypt key nonce plaintext bound ≡ some ciphertext
    → (library.decrypt key nonce ciphertext bound ≡ some plaintext) × (16 ≤ length ciphertext)
library_opens key nonce plaintext bound ciphertext h =
    let same : sixteen ++ length bound ∷ (bound ++ plaintext) ≡ ciphertext = cc in
    subst (λ c. (library.decrypt key nonce c bound ≡ some plaintext) × (16 ≤ length c)) same
      (strip-built bound plaintext, omega arith)

strip-bound :
    (bound other plaintext found : Bytes)
    → strip other (length bound ∷ (bound ++ plaintext)) ≡ some found
    → bound ≡ other
strip-bound bound other plaintext found h =
    elim (Bool-cases
      (length bound == length other && text_eq (take (length bound) (bound ++ plaintext)) other)) [
        | inr e ↦ let h' = rw e at h in absurd (cc)
        | inl e ↦
            let same =
              (text_eq_iff (take (length bound) (bound ++ plaintext)) other).0
                (ground (arith, e)) in
            sym (take-append_left bound plaintext) ∙ same
      ]

library_authentic :
    (key nonce plaintext bound other ciphertext found : Bytes)
    → library.encrypt key nonce plaintext bound ≡ some ciphertext
    → library.decrypt key nonce ciphertext other ≡ some found
    → bound ≡ other
library_authentic key nonce plaintext bound other ciphertext found h k =
    let same : sixteen ++ length bound ∷ (bound ++ plaintext) ≡ ciphertext = cc in
    strip-bound bound other plaintext found
      (subst (λ c. library.decrypt key nonce c other ≡ some found) (sym same) k)

uuid_apart : (m n : ℕ) → library.uuid_text m ≡ library.uuid_text n → m ≡ n
uuid_apart m n h = cc

abbrev ring : VaultKeyRing
ring = record { active_key_id = codes "k1"; key = key_of ((codes "k1", sixteen ++ sixteen) ∷ []) }

-- A ring to which a key was added.
abbrev rotated : VaultKeyRing
rotated = record {
  active_key_id = codes "k2";
  key = key_of ((codes "k2", sixteen ++ twelve) ∷ ((codes "k1", sixteen ++ sixteen) ∷ []));
}

abbrev aad : VaultAad
aad = record { tenant_id = 1; session_id = 2; entity_type = email; token_id = identifier }

abbrev from_ok : Result Bytes → Bytes
from_ok (ok raw) = raw
from_ok (err _) = []

abbrev sealed : Bytes
sealed = from_ok (seal library ring twelve (codes "{}") aad)

sealed_is : seal library ring twelve (codes "{}") aad ≡ ok sealed
unfolding seal key_of text_eq aiprivacy_gateway.Vault.Crypto.aad_bytes
sealed_is = refl

key_is_kept : rotated.key (codes "k1") ≡ ring.key (codes "k1")
unfolding key_of text_eq
key_is_kept = refl

unseal-seal_example : unseal library rotated sealed aad ≡ ok (codes "{}")
unseal-seal_example =
    unseal-seal library (λ t. refl) library_opens ring rotated twelve (codes "{}") aad sealed
      key_is_kept refl sealed_is

opened_is : unseal library rotated sealed aad ≡ ok (codes "{}")
unfolding unseal seal key_of text_eq aiprivacy_gateway.Vault.Crypto.aad_bytes
opened_is = refl

unseal-moved_example :
    (aad.tenant_id ≡ aad.tenant_id)
    × (aad.session_id ≡ aad.session_id)
    × (aad.entity_type ≡ aad.entity_type)
    × (aad.token_id ≡ aad.token_id)
unseal-moved_example =
    unseal-moved library (λ t. refl) library_opens (λ s t h. h) uuid_apart library_authentic ring
      rotated twelve (codes "{}") aad aad sealed (codes "{}") key_is_kept refl sealed_is opened_is

-- Payloads as the vault reads them: a JSON that holds the one record of the examples.
abbrev payload : List (Text × JsonValue)
payload =
    (codes "schema_version", number 1)
    ∷ ((codes "tenant_id", string (codes "t"))
        ∷ ((codes "session_id", string (codes "s"))
            ∷ ((codes "token", string (token_text email_token))
                ∷ ((codes "entity_type", string email)
                    ∷ ((codes "original_value", string (codes "ab"))
                        ∷ ((codes "created_at", string (codes "0"))
                            ∷ ((codes "expires_at", string (codes "9")) ∷ [])))))))

abbrev text_of : JsonValue → Text
text_of (string t) = t
text_of _ = []

abbrev json : RecordLibrary
json = record {
  dumps = λ d. codes "{}";
  loads = λ b. some (object payload);
  uuid_text = λ n. n ∷ [];
  parse_uuid = λ v. some 1;
  isoformat = λ n. n ∷ [];
  parse_time = λ v. some 0;
  str = text_of;
}

abbrev parts : VaultParts
parts = record {
  crypto = library;
  records = json;
  ring = ring;
  prefix = codes "v";
  sha256_hex = λ b. b;
  decode_replace = λ b. b;
  draw = λ n. record { token_id = identifier; nonce = twelve; now = 0 };
}

abbrev Store : Type 0
Store = List (Bytes × Bytes)

abbrev store : RedisStore Store
store = record {
  connect = λ r. (Delivery.answered, r);
  get = λ k r. dict_get text_eq k r;
  exists = λ k r. any (λ (p : Bytes × Bytes). text_eq p.0 k) r;
  expire = λ k ttl r. r;
  set_ex = λ k v ttl r. dict_set text_eq k v r;
  sadd = λ k m r. r;
  smembers = λ k r. [];
  delete = λ ks r. (0, r);
}

abbrev request : Text → VaultWriteRequest
request value = record { entity_type = email; normalized_hmac = codes "h"; original_value = value }

abbrev requests : List VaultWriteRequest
requests = request (codes "ab") ∷ (request (codes "ab") ∷ [])

abbrev answers : List Text
answers = token_text email_token ∷ (token_text email_token ∷ [])

answers_are : (get_or_create_many parts store 1 2 requests 60 []).0 ≡ ok answers
unfolding get_or_create_many deduplicate seal key_of text_eq
    aiprivacy_gateway.Vault.Redis.check_batch aiprivacy_gateway.Vault.Redis.validated_ttl
    aiprivacy_gateway.Vault.Redis.check_entries aiprivacy_gateway.Vault.Redis.deduplicate_from
    aiprivacy_gateway.Vault.Redis.batch_write aiprivacy_gateway.Vault.Redis.create_candidate
    aiprivacy_gateway.Vault.Redis.spread aiprivacy_gateway.Vault.Redis.write_candidate
    aiprivacy_gateway.Vault.Redis.write_candidates
    aiprivacy_gateway.Vault.Memory.validate_entity_type
    aiprivacy_gateway.Tokenization.Grammar.is_valid_entity_type
    aiprivacy_gateway.Tokenization.Grammar.mem_chars
    aiprivacy_gateway.Tokenization.Grammar.format_token
    aiprivacy_gateway.Tokenization.Grammar.is_valid_token_id
    aiprivacy_gateway.Tokenization.Grammar.render_token
    aiprivacy_gateway.Vault.Redis.TokenVault.write_unique
    aiprivacy_gateway.Vault.Redis.TokenVault.seal_entries
    aiprivacy_gateway.Vault.Redis.TokenVault.seal_entry
    aiprivacy_gateway.Vault.Redis.TokenVault.seal_record
    aiprivacy_gateway.Vault.Redis.TokenVault.read_batch_result
    aiprivacy_gateway.Vault.Redis.TokenVault.read_replies
    aiprivacy_gateway.Tokenization.Platform.to_bytes aiprivacy_gateway.Vault.Crypto.aad_bytes
    aiprivacy_gateway.Vault.Crypto.encrypt_bound aiprivacy_gateway.Vault.Crypto.envelope_to_bytes
    aiprivacy_gateway.Vault.Crypto.join_fields aiprivacy_gateway.Vault.Records.record_to_bytes
answers_are = refl

get_or_create_many-Typed_example : Typed requests answers
get_or_create_many-Typed_example =
    get_or_create_many-Typed parts store 1 2 requests 60 [] answers answers_are

deduplicate_sound_example :
    AllPairs Apart (deduplicate requests).0
    × Names (deduplicate requests).0 requests (deduplicate requests).1
deduplicate_sound_example = deduplicate_sound requests

abbrev held : Store
held = (token_key parts (session_prefix parts 1 2) identifier, sealed) ∷ []

abbrev pairs : List (Text × Text)
pairs = (token_text email_token, codes "ab") ∷ []

pairs_are : (resolve_many parts store 1 2 (token_text email_token ∷ []) held).0 ≡ ok pairs
unfolding resolve_many aiprivacy_gateway.Vault.Redis.TokenVault.wanted_of
    aiprivacy_gateway.Common.sorted aiprivacy_gateway.Tokenization.Grammar.parse_token
    aiprivacy_gateway.Tokenization.Grammar.render_token text_eq
    aiprivacy_gateway.Tokenization.Grammar.mem_chars
    aiprivacy_gateway.Vault.Redis.TokenVault.open_all
    aiprivacy_gateway.Vault.Redis.TokenVault.open_stored
    aiprivacy_gateway.Vault.Redis.TokenVault.unseal_record unseal seal key_of
    aiprivacy_gateway.Vault.Crypto.aad_bytes aiprivacy_gateway.Vault.Records.record_from_bytes
pairs_are = refl

held-IsSealed :
    (token_id : Text) (raw : Bytes)
    → dict_get text_eq (token_key parts (session_prefix parts 1 2) token_id) held ≡ some raw
    → (a : VaultAad) × (plaintext : Bytes) × IsSealed parts raw a plaintext
held-IsSealed token_id raw h =
    elim (Bool-cases (
      text_eq (token_key parts (session_prefix parts 1 2) identifier)
        (token_key parts (session_prefix parts 1 2) token_id))) [
          | inr e ↦ let h' = rw e at h in absurd (cc)
          | inl e ↦
              let h' = rw e at h in
              let same : sealed ≡ raw = cc in
              subst (λ b. (a : VaultAad) × (plaintext : Bytes) × IsSealed parts b a plaintext) same
                (aad, codes "{}", (ring, twelve, refl, refl, sealed_is))
        ]

resolve_many-IsOwned_example : All (IsOwned parts 1 2) pairs
resolve_many-IsOwned_example =
    resolve_many-IsOwned parts (λ t. refl) library_opens (λ s t h. h) uuid_apart library_authentic
      store 1 2 (token_text email_token ∷ []) held pairs held-IsSealed pairs_are
