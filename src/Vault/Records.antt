-- ===== src/Vault/Records.antt =====
-- The plaintext inside an envelope (app/vault/records.py). JSON, UUIDs and dates are parameters: a
-- time is a number of microseconds, and an instant has one text in UTC.
use aiprivacy_gateway.Common.{
  ℕ, ◌≡◌, refl, sym, ap, Bool, true, false, List, [], ◌∷◌, Text, codes, text_eq, ◌==◌, Option, none,
  some, if◌then◌else◌,
}
use aiprivacy_gateway.Common.Dict.{dict_get}
use aiprivacy_gateway.Domain.Errors.{Result, ok, err, ◌>>=◌, vault_encryption_failed}
use aiprivacy_gateway.Tokenization.Platform.{Bytes}

-- A value of a JSON object, as far as a record has it, and a document.
pub data JsonValue : Type 0 where
  number : ℕ → JsonValue
  string : Text → JsonValue
  other : JsonValue

pub data JsonDocument : Type 0 where
  object : List (Text × JsonValue) → JsonDocument
  not_object : JsonDocument

-- `loads` is `none` for JSONDecodeError. `parse_uuid` and `parse_time` are `none` for TypeError and
-- ValueError, `str` is the text of any value.
pub record RecordLibrary : Type 0 where
  pub dumps : List (Text × JsonValue) → Bytes
  pub loads : Bytes → Option JsonDocument
  pub uuid_text : ℕ → Text
  pub parse_uuid : JsonValue → Option ℕ
  pub isoformat : ℕ → Text
  pub parse_time : JsonValue → Option ℕ
  pub str : JsonValue → Text

pub record VaultRecord : Type 0 where
  pub tenant_id : ℕ
  pub session_id : ℕ
  pub token : Text
  pub entity_type : Text
  pub original_value : Text
  pub created_at : ℕ
  pub expires_at : ℕ
  pub schema_version : ℕ

abbrev pub record_schema_version : ℕ
record_schema_version = 1

unfoldable pub is_current : Option JsonValue → Bool
is_current (some (number version)) = version == record_schema_version
is_current _ = false

-- A field that is missing raises KeyError.
abbrev pub read {ℓ} : {A : Type ℓ} → Option A → Result A
read none = err vault_encryption_failed
read (some value) = ok value

abbrev pub parsed : (JsonValue → Option ℕ) → Option JsonValue → Result ℕ
parsed parse none = err vault_encryption_failed
parsed parse (some value) = read (parse value)

module _ (lib : RecordLibrary) where
  abbrev pub payload_of : VaultRecord → List (Text × JsonValue)
  payload_of r =
      (codes "schema_version", number r.schema_version)
      ∷ ((codes "tenant_id", string (lib.uuid_text r.tenant_id))
          ∷ ((codes "session_id", string (lib.uuid_text r.session_id))
              ∷ ((codes "token", string r.token)
                  ∷ ((codes "entity_type", string r.entity_type)
                      ∷ ((codes "original_value", string r.original_value)
                          ∷ ((codes "created_at", string (lib.isoformat r.created_at))
                              ∷ ((codes "expires_at", string (lib.isoformat r.expires_at))
                                  ∷ [])))))))

  -- `VaultRecord.to_bytes`
  unfoldable pub record_to_bytes : VaultRecord → Bytes
  record_to_bytes r = lib.dumps (payload_of r)

  -- The constructor call of `from_bytes`, its fields in their order.
  unfoldable pub read_payload : List (Text × JsonValue) → Result VaultRecord
  read_payload payload = do
    tenant_id ← parsed lib.parse_uuid (dict_get text_eq (codes "tenant_id") payload)
    session_id ← parsed lib.parse_uuid (dict_get text_eq (codes "session_id") payload)
    token ← read (dict_get text_eq (codes "token") payload)
    entity_type ← read (dict_get text_eq (codes "entity_type") payload)
    original_value ← read (dict_get text_eq (codes "original_value") payload)
    created_at ← parsed lib.parse_time (dict_get text_eq (codes "created_at") payload)
    expires_at ← parsed lib.parse_time (dict_get text_eq (codes "expires_at") payload)
    ok (record {
      tenant_id = tenant_id;
      session_id = session_id;
      token = lib.str token;
      entity_type = lib.str entity_type;
      original_value = lib.str original_value;
      created_at = created_at;
      expires_at = expires_at;
      schema_version = record_schema_version;
    })

  abbrev pub read_document : Option JsonDocument → Result VaultRecord
  read_document none = err vault_encryption_failed
  read_document (some not_object) = err vault_encryption_failed
  read_document (some (object payload)) =
      if is_current (dict_get text_eq (codes "schema_version") payload)
      then read_payload payload
      else err vault_encryption_failed

  -- `VaultRecord.from_bytes`
  unfoldable pub record_from_bytes : Bytes → Result VaultRecord
  unfolding read_payload is_current
  record_from_bytes raw = read_document (lib.loads raw)

-- What the library promises: JSON keeps the fields, and texts read back.
module _ (lib : RecordLibrary)
    (loads_dumps : (d : List (Text × JsonValue))
      → (found : List (Text × JsonValue)) × (lib.loads (lib.dumps d) ≡ some (object found))
        × ((key : Text) → dict_get text_eq key found ≡ dict_get text_eq key d))
    (uuid_back : (n : ℕ) → lib.parse_uuid (string (lib.uuid_text n)) ≡ some n)
    (time_back : (n : ℕ) → lib.parse_time (string (lib.isoformat n)) ≡ some n)
    (str_back : (t : Text) → lib.str (string t) ≡ t) where
  read_payload-payload_of :
      (r : VaultRecord) (found : List (Text × JsonValue))
      → ((key : Text) → dict_get text_eq key found ≡ dict_get text_eq key (payload_of lib r))
      → r.schema_version ≡ 1
      → read_payload lib found ≡ ok r
  unfolding read_payload text_eq
  read_payload-payload_of r found same version =
      rw
        (
          same (codes "tenant_id"),
          same (codes "session_id"),
          same (codes "token"),
          same (codes "entity_type"),
          same (codes "original_value"),
          same (codes "created_at"),
          same (codes "expires_at"),
          uuid_back r.tenant_id,
          uuid_back r.session_id,
          time_back r.created_at,
          time_back r.expires_at,
          str_back r.token,
          str_back r.entity_type,
          str_back r.original_value,
        )
        (ap (λ v. ok (record r { schema_version = v })) (sym version))

  -- If JSON keeps the fields of an object, and the texts of UUIDs and times read back, then the
  -- bytes of a record of the current schema parse to the record.
  pub record_from_bytes-to_bytes :
      (r : VaultRecord)
      → r.schema_version ≡ 1
      → record_from_bytes lib (record_to_bytes lib r) ≡ ok r
  unfolding record_from_bytes record_to_bytes is_current text_eq
  record_from_bytes-to_bytes r version =
      let (found, loaded, same) = loads_dumps (payload_of lib r) in
      let current : is_current (dict_get text_eq (codes "schema_version") found) ≡ true =
        rw (same (codes "schema_version"), version) refl in
      rw (loaded, current) (read_payload-payload_of r found same version)
