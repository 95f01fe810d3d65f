-- ===== src/Vault/Redis/TokenVault.antt =====
-- The operations of `RedisTokenVault` (app/vault/redis_vault.py). A tenant and a session are numbers,
-- and a set of tokens is a list without repeats. The client does not decode responses, so values
-- are bytes and `_as_binary` returns them as they are.
use aiprivacy_gateway.Common.{
  ℕ, suc, ◌+◌, ◌*◌, not, List, [], ◌∷◌, ◌++◌, map, Text, codes, text_eq, length, keep, ◌==◌, Option,
  none, some, if◌then◌else◌, sorted, compare_text, starts_with, contains,
}
use aiprivacy_gateway.Domain.Errors.{Result, ok, err, ◌>>=◌, vault_encryption_failed}
use aiprivacy_gateway.Tokenization.Platform.{Bytes}
use aiprivacy_gateway.Tokenization.Grammar.{Token, is_valid_token_id, format_token, parse_token}
use aiprivacy_gateway.Tokenization.Vault.{VaultWriteRequest, Vault}
use aiprivacy_gateway.Vault.Crypto.{VaultAad, seal, unseal}
use aiprivacy_gateway.Vault.Records.{
  VaultRecord, record_to_bytes, record_from_bytes, record_schema_version,
}
use aiprivacy_gateway.Vault.Redis.{
  RedisStore, Fresh, VaultParts, Candidate, token_segment, deduplicate, spread, check_batch, send,
  batch_write,
}

module _ (parts : VaultParts) where
  abbrev pub session_prefix : ℕ → ℕ → Text
  session_prefix tenant_id session_id =
      parts.prefix
      ++ (codes ":"
          ++ (parts.crypto.uuid_text tenant_id ++ (codes ":" ++ parts.crypto.uuid_text session_id)))

  abbrev pub token_key : Text → Text → Text
  token_key session token_id = session ++ (token_segment ++ token_id)

  abbrev pub fingerprint_key : Text → Text → Text → Text
  fingerprint_key session entity_type normalized_hmac =
      session
      ++ (codes ":fingerprint:"
          ++ (entity_type ++ (codes ":" ++ parts.sha256_hex (parts.crypto.utf8 normalized_hmac))))

  abbrev pub meta_key : Text → Text
  meta_key session = session ++ codes ":meta"

  abbrev pub aad_of : ℕ → ℕ → Text → Text → VaultAad
  aad_of tenant_id session_id entity_type token_id = record {
    tenant_id = tenant_id;
    session_id = session_id;
    entity_type = entity_type;
    token_id = token_id;
  }

  -- `_seal`, with the time in microseconds.
  unfoldable pub seal_record : ℕ → ℕ → VaultWriteRequest → Text → Fresh → ℕ → Result Bytes
  seal_record tenant_id session_id entry token fresh ttl_seconds =
      seal parts.crypto parts.ring fresh.nonce
        (record_to_bytes parts.records (record {
          tenant_id = tenant_id;
          session_id = session_id;
          token = token;
          entity_type = entry.entity_type;
          original_value = entry.original_value;
          created_at = fresh.now;
          expires_at = fresh.now + ttl_seconds * 1000000;
          schema_version = record_schema_version;
        }))
        (aad_of tenant_id session_id entry.entity_type fresh.token_id)

  -- The body of the loop that seals the entries.
  unfoldable pub seal_entry : ℕ → ℕ → ℕ → Fresh → VaultWriteRequest → Result Candidate
  seal_entry tenant_id session_id ttl fresh entry =
      let session = session_prefix tenant_id session_id in
      format_token entry.entity_type fresh.token_id >>= λ token.
      seal_record tenant_id session_id entry token fresh ttl >>= λ envelope. ok (record {
        fingerprint_key =
            parts.crypto.utf8 (fingerprint_key session entry.entity_type entry.normalized_hmac);
        candidate_key = parts.crypto.utf8 (token_key session fresh.token_id);
        candidate_id = parts.crypto.utf8 fresh.token_id;
        envelope = envelope;
      })

  unfoldable pub seal_entries : ℕ → ℕ → ℕ → ℕ → List VaultWriteRequest → Result (List Candidate)
  seal_entries tenant_id session_id ttl drawn [] = ok []
  seal_entries tenant_id session_id ttl drawn (entry ∷ entries) =
      seal_entry tenant_id session_id ttl (parts.draw drawn) entry >>= λ c.
      seal_entries tenant_id session_id ttl (suc drawn) entries >>= λ cs. ok (c ∷ cs)

  -- The loop of `_read_batch_result`, over a reply of the right length.
  unfoldable pub read_replies : List (Bytes × ℕ) → List VaultWriteRequest → Result (List Text × ℕ)
  read_replies (reply ∷ raw) (entry ∷ unique) =
      let token_id = parts.decode_replace reply.0 in
      let rest = read_replies raw unique in
      if is_valid_token_id token_id
      then (format_token entry.entity_type token_id >>= λ token.
          rest >>= λ others. ok (token ∷ others.0, reply.1 + others.1))
      else err vault_encryption_failed
  read_replies _ _ = ok ([], 0)

  unfoldable pub read_batch_result :
      List (Bytes × ℕ) → List VaultWriteRequest → Result (List Text × ℕ)
  read_batch_result raw unique =
      if length raw == length unique then read_replies raw unique else err vault_encryption_failed

  -- `_unseal`
  unfoldable pub unseal_record : ℕ → ℕ → Text → Text → Bytes → Result VaultRecord
  unseal_record tenant_id session_id entity_type token_id raw =
      unseal parts.crypto parts.ring raw (aad_of tenant_id session_id entity_type token_id)
      >>= λ plaintext. record_from_bytes parts.records plaintext

  -- The tokens that parse, each with what it parsed to.
  unfoldable pub wanted_of : List Text → List (Text × Token)
  wanted_of [] = []
  wanted_of (token ∷ tokens) = elim (parse_token token) [
    | none ↦ wanted_of tokens
    | some parsed ↦ (token, parsed) ∷ wanted_of tokens
  ]

  -- What one stored value says of a token: its original, unless the record is of another token.
  unfoldable pub open_stored : ℕ → ℕ → Text × Token → Bytes → Result (Text × Text)
  open_stored tenant_id session_id (token, parsed) raw =
      unseal_record tenant_id session_id parsed.entity_type parsed.token_id raw >>= λ found.
      if text_eq found.token token
      then ok (token, found.original_value)
      else err vault_encryption_failed

  -- The loop of `resolve_many` over the tokens and the values that MGET returned for them.
  unfoldable pub open_all :
      ℕ → ℕ → List ((Text × Token) × Option Bytes) → Result (List (Text × Text))
  open_all tenant_id session_id [] = ok []
  open_all tenant_id session_id ((want, none) ∷ rows) = open_all tenant_id session_id rows
  open_all tenant_id session_id ((want, some raw) ∷ rows) =
      open_stored tenant_id session_id want raw >>= λ pair.
      open_all tenant_id session_id rows >>= λ pairs. ok (pair ∷ pairs)

  module _ {R : Type 0} (redis : RedisStore R) where
    -- What follows the checks of `get_or_create_many`, for the distinct entries.
    unfoldable pub write_unique :
        ℕ → ℕ → List VaultWriteRequest → ℕ → R → Result (List Text × ℕ) × R
    write_unique tenant_id session_id unique ttl r =
        let session = session_prefix tenant_id session_id in
        let meta = parts.crypto.utf8 (meta_key session) in
        let record_prefix = parts.crypto.utf8 (session ++ token_segment) in
        elim (seal_entries tenant_id session_id ttl 0 unique) [
          | err e ↦ (err e, r)
          | ok cs ↦
              let (raw, world) = send redis (batch_write redis meta ttl record_prefix cs) r in
              (raw >>= λ replies. read_batch_result replies unique, world)
        ]

    unfoldable pub get_or_create_many :
        ℕ → ℕ → List VaultWriteRequest → ℕ → R → Result (List Text) × R
    get_or_create_many tenant_id session_id entries ttl_seconds r =
        elim (check_batch entries ttl_seconds) [
          | err e ↦ (err e, r)
          | ok ttl ↦ elim entries [
            | [] ↦ (ok [], r)
            | entry ∷ rest ↦
                let (unique, positions) = deduplicate (entry ∷ rest) in
                let (made, world) = write_unique tenant_id session_id unique ttl r in
                (made >>= λ m. spread m.0 positions, world)
          ]
        ]

    abbrev pub mget : ℕ → ℕ → List (Text × Token) → R → List ((Text × Token) × Option Bytes)
    mget tenant_id session_id wanted r =
        map
          (λ (want : Text × Token). (
            want,
            redis.get
                (parts.crypto.utf8
                  (token_key (session_prefix tenant_id session_id) want.1.token_id))
                r,
          ))
          wanted

    unfoldable pub resolve_many : ℕ → ℕ → List Text → R → Result (List (Text × Text)) × R
    resolve_many tenant_id session_id tokens r = elim (wanted_of (sorted compare_text tokens)) [
      | [] ↦ (ok [], r)
      | want ∷ wanted ↦
          let (rows, world) =
            send redis (λ w. (mget tenant_id session_id (want ∷ wanted) w, w)) r in
          (rows >>= λ found. open_all tenant_id session_id found, world)
    ]

    abbrev pub redis_vault : Vault R
    redis_vault = record { get_or_create_many = get_or_create_many; resolve_many = resolve_many }

    abbrev delete_keys : List Text → R → ℕ × R
    delete_keys keys r = redis.delete (map (λ k. parts.crypto.utf8 k) keys) r

    -- The transaction of `delete_session`: the result is that of the first command, if there are
    -- records.
    unfoldable pub delete_owned : Text → List Text → List Text → R → ℕ × R
    delete_owned session record_keys index_keys r =
        let first : ℕ × R = elim record_keys [ [] ↦ (0, r) | k ∷ ks ↦ delete_keys (k ∷ ks) r ] in
        let second : R = elim index_keys [
          | [] ↦ first.1
          | k ∷ ks ↦ (delete_keys (k ∷ ks) first.1).1
        ] in
        (first.0, (delete_keys (meta_key session ∷ []) second).1)

    unfoldable pub delete_session : ℕ → ℕ → R → Result ℕ × R
    delete_session tenant_id session_id r =
        let session = session_prefix tenant_id session_id in
        let (members, world) =
          send redis (λ w. (redis.smembers (parts.crypto.utf8 (meta_key session)) w, w)) r in
        elim members [
          | err e ↦ (err e, world)
          | ok found ↦
              let owned =
                keep (starts_with (session ++ codes ":")) (map parts.decode_replace found) in
              let record_keys = keep (contains token_segment) owned in
              let index_keys = keep (λ k. not (contains token_segment k)) owned in
              send redis (delete_owned session record_keys index_keys) world
        ]
