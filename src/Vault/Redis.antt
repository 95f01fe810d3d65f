-- ===== src/Vault/Redis.antt =====
-- The Redis vault of app/vault/redis_vault.py: `_deduplicate`, the batch script, and the operations of
-- `RedisTokenVault`. Redis is a parameter: `RedisStore` names the commands as steps of a store `R`.
-- Keys and values are bytes. Metrics and logging are left out, and a call that is answered with an
-- exception of Redis or a socket error may have been carried out or not.
pub mod TokenVault
pub mod Identities
pub mod Answers
pub mod Resolved
pub mod Sealed
use aiprivacy_gateway.Common.{
  ℕ, zero, suc, ◌+◌, ◌*◌, Bool, true, false, ◌&&◌, ◌||◌, not, List, [], ◌∷◌, ◌++◌, map, Text, codes,
  text_eq, length, take, keep, ltb, leb, ◌==◌, Option, none, some, if◌then◌else◌, sorted,
  compare_text,
}
use aiprivacy_gateway.Common.Dict.{dict_get, dict_set}
use aiprivacy_gateway.Domain.Errors.{
  Result, ok, err, ◌>>=◌, value_error, index_error, vault_unavailable, vault_encryption_failed,
}
use aiprivacy_gateway.Tokenization.Platform.{Bytes}
use aiprivacy_gateway.Tokenization.Grammar.{Token, is_valid_token_id, format_token, parse_token}
use aiprivacy_gateway.Tokenization.Vault.{VaultWriteRequest}
use aiprivacy_gateway.Vault.Crypto.{CryptoLibrary, VaultKeyRing, VaultAad, seal, unseal}
use aiprivacy_gateway.Vault.Memory.{pair_eq, validate_entity_type}
use aiprivacy_gateway.Vault.Records.{
  RecordLibrary, VaultRecord, record_to_bytes, record_from_bytes, record_schema_version,
}

-- What becomes of a round trip: it is answered, or raises before or after Redis carried it out.
pub data Delivery : Type 0 where
  answered unsent unanswered : Delivery

-- The commands that the vault sends, and the fate of the next round trip.
pub record RedisStore (R : Type 0) : Type 0 where
  pub connect : R → Delivery × R
  pub get : Bytes → R → Option Bytes
  pub exists : Bytes → R → Bool
  pub expire : Bytes → ℕ → R → R
  pub set_ex : Bytes → Bytes → ℕ → R → R
  pub sadd : Bytes → Bytes → R → R
  pub smembers : Bytes → R → List Bytes
  pub delete : List Bytes → R → ℕ × R

-- The fresh identifier, nonce and time of one sealed record.
pub record Fresh : Type 0 where
  pub token_id : Text
  pub nonce : Bytes
  pub now : ℕ

-- What the vault was built with. `draw` gives what `new_token_id`, `os.urandom` and the clock give
-- for the entries of one call, and `decode_replace` decodes UTF-8 with replacement.
pub record VaultParts : Type 0 where
  pub crypto : CryptoLibrary
  pub records : RecordLibrary
  pub ring : VaultKeyRing
  pub prefix : Text
  pub sha256_hex : Bytes → Text
  pub decode_replace : Bytes → Text
  pub draw : ℕ → Fresh

abbrev pub min_ttl_seconds : ℕ
min_ttl_seconds = 1

abbrev pub max_ttl_seconds : ℕ
max_ttl_seconds = 7200

abbrev pub max_batch_entries : ℕ
max_batch_entries = 10000

abbrev pub token_segment : Text
token_segment = codes ":token:"

unfoldable pub validated_ttl : ℕ → Result ℕ
validated_ttl ttl_seconds =
    if leb min_ttl_seconds ttl_seconds && leb ttl_seconds max_ttl_seconds
    then ok ttl_seconds
    else err value_error

abbrev pub identity : VaultWriteRequest → Text × Text
identity entry = (entry.entity_type, entry.normalized_hmac)

-- The loop of `_deduplicate`: what it appends to `unique`, which holds `count` entries, and to
-- `positions`.
unfoldable pub deduplicate_from :
    List ((Text × Text) × ℕ) → ℕ → List VaultWriteRequest → List VaultWriteRequest × List ℕ
deduplicate_from seen count [] = ([], [])
deduplicate_from seen count (entry ∷ entries) = elim (dict_get pair_eq (identity entry) seen) [
  | none ↦
      let rest =
        deduplicate_from (dict_set pair_eq (identity entry) count seen) (suc count) entries in
      (entry ∷ rest.0, count ∷ rest.1)
  | some index ↦ let rest = deduplicate_from seen count entries in (rest.0, index ∷ rest.1)
]

unfoldable pub deduplicate : List VaultWriteRequest → List VaultWriteRequest × List ℕ
deduplicate entries = deduplicate_from [] 0 entries

-- `xs[i]`
abbrev pub get_elem? {ℓ} : {A : Type ℓ} → List A → ℕ → Option A
get_elem? [] i = none
get_elem? (x ∷ xs) zero = some x
get_elem? (x ∷ xs) (suc i) = get_elem? xs i

-- `tuple(tokens[index] for index in positions)`
unfoldable pub spread : List Text → List ℕ → Result (List Text)
spread tokens [] = ok []
spread tokens (index ∷ positions) =
    let rest = spread tokens positions in
    elim (get_elem? tokens index) [
      | none ↦ err index_error
      | some token ↦ rest >>= λ others. ok (token ∷ others)
    ]

-- The checks of `get_or_create_many` on each entry.
unfoldable pub check_entries : List VaultWriteRequest → Result (Unit {0})
check_entries [] = ok tt
check_entries (entry ∷ entries) = do
  _ ← validate_entity_type entry.entity_type
  if length entry.normalized_hmac == 0 then err value_error else check_entries entries

-- The checks that come before any entry is sealed.
unfoldable pub check_batch : List VaultWriteRequest → ℕ → Result ℕ
check_batch entries ttl_seconds = do
  ttl ← validated_ttl ttl_seconds
  _ ← check_entries entries
  if ltb max_batch_entries (length entries) then err value_error else ok ttl

-- One entry of the batch as the script receives it.
pub record Candidate : Type 0 where
  pub fingerprint_key : Bytes
  pub candidate_key : Bytes
  pub candidate_id : Bytes
  pub envelope : Bytes

module _ {R : Type 0} (redis : RedisStore R) where
  -- A command under `_store_failures_fail_closed`.
  abbrev pub send {ℓ} : {A : Type ℓ} → (R → A × R) → R → Result A × R
  send command r =
      let (fate, world) = redis.connect r in
      elim fate [
        | answered ↦ (ok (command world).0, (command world).1)
        | unsent ↦ (err vault_unavailable, world)
        | unanswered ↦ (err vault_unavailable, (command world).1)
      ]

  -- The round of the script that creates a mapping.
  unfoldable pub create_candidate : Bytes → ℕ → Candidate → R → (Bytes × ℕ) × R
  create_candidate meta_key ttl c r =
      let r1 = redis.set_ex c.candidate_key c.envelope ttl r in
      let r2 = redis.set_ex c.fingerprint_key c.candidate_id ttl r1 in
      let r3 = redis.sadd meta_key c.candidate_key r2 in
      ((c.candidate_id, 1), redis.sadd meta_key c.fingerprint_key r3)

  -- The body of the script's loop: the pair that it adds to the reply.
  unfoldable pub write_candidate : Bytes → ℕ → Bytes → Candidate → R → (Bytes × ℕ) × R
  write_candidate meta_key ttl record_prefix c r = elim (redis.get c.fingerprint_key r) [
    | none ↦ create_candidate meta_key ttl c r
    | some existing ↦
        if redis.exists (record_prefix ++ existing) r
        then (
          (existing, 0),
          redis.expire (record_prefix ++ existing) ttl (redis.expire c.fingerprint_key ttl r),
        )
        else create_candidate meta_key ttl c r
  ]

  unfoldable pub write_candidates : Bytes → ℕ → Bytes → List Candidate → R → List (Bytes × ℕ) × R
  write_candidates meta_key ttl record_prefix [] r = ([], r)
  write_candidates meta_key ttl record_prefix (c ∷ cs) r =
      let (reply, world) = write_candidate meta_key ttl record_prefix c r in
      let rest = write_candidates meta_key ttl record_prefix cs world in (reply ∷ rest.0, rest.1)

  -- The script. Redis runs it with nothing interleaved. Its reply is read two items at a time.
  unfoldable pub batch_write : Bytes → ℕ → Bytes → List Candidate → R → List (Bytes × ℕ) × R
  batch_write meta_key ttl record_prefix cs r =
      let (reply, world) = write_candidates meta_key ttl record_prefix cs r in
      (reply, redis.expire meta_key ttl world)
