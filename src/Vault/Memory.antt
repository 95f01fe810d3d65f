-- ===== src/Vault/Memory.antt =====
-- The in-memory vault of app/vault/fakes.py, with `validate_entity_type` of app/vault/tokens.py. The
-- clock is a field of the state. A fresh identifier is the next one of a sequence `ids`, which stands
-- for the random bytes of app/tokenization/ids.py. The lock makes each call one step.
pub mod Kept
pub mod RoundTrip
pub mod Isolation
use aiprivacy_gateway.Common.{
  ℕ, suc, ◌+◌, Bool, true, false, ◌&&◌, not, List, [], ◌∷◌, map, any, Text, text_eq, length, keep,
  ltb, leb, ◌==◌, Option, none, some, if◌then◌else◌,
}
use aiprivacy_gateway.Common.Dict.{dict_get, dict_set}
use aiprivacy_gateway.Domain.Errors.{GatewayError, Result, ok, err, ◌>>=◌, value_error}
use aiprivacy_gateway.Tokenization.Grammar.{Token, is_valid_entity_type, format_token, parse_token}
use aiprivacy_gateway.Tokenization.Vault.{VaultWriteRequest, Vault}

pub record Entry : Type 0 where
  pub token : Text
  pub entity_type : Text
  pub original_value : Text
  pub expires_at : ℕ

abbrev pub Records : Type 0
Records = List (Text × Entry)

abbrev pub Index : Type 0
Index = List ((Text × Text) × Text)

pub record Session : Type 0 where
  pub records : Records
  pub index : Index

abbrev pub empty_session : Session
empty_session = record { records = []; index = [] }

abbrev pub pair_eq : Text × Text → Text × Text → Bool
pair_eq p q = text_eq p.0 q.0 && text_eq p.1 q.1

abbrev pub scope_eq : ℕ × ℕ → ℕ × ℕ → Bool
scope_eq p q = p.0 == q.0 && p.1 == q.1

-- The state: `drawn` counts the identifiers that were made, and `failure` is what `_guard` raises.
pub record MemoryVault : Type 0 where
  pub now : ℕ
  pub sessions : List ((ℕ × ℕ) × Session)
  pub failure : Option GatewayError
  pub drawn : ℕ

abbrev pub with_sessions : MemoryVault → List ((ℕ × ℕ) × Session) → ℕ → MemoryVault
with_sessions s sessions drawn = record {
  now = s.now;
  sessions = sessions;
  failure = s.failure;
  drawn = drawn;
}

unfoldable pub validate_entity_type : Text → Result Text
validate_entity_type entity_type =
    if is_valid_entity_type entity_type then ok entity_type else err value_error

-- The loop over the entries, with the later check of the time to live.
unfoldable pub validate_entries : List VaultWriteRequest → ℕ → Result (Unit {0})
unfolding validate_entity_type
validate_entries [] ttl_seconds = if ltb ttl_seconds 1 then err value_error else ok tt
validate_entries (entry ∷ entries) ttl_seconds = do
  _ ← validate_entity_type entry.entity_type
  validate_entries entries ttl_seconds

abbrev pub is_unexpired : ℕ → Entry → Bool
is_unexpired now entry = ltb now entry.expires_at

-- If a record has expired, the index loses the tokens that no record has any more.
unfoldable pub purge : ℕ → Session → Session
purge now session =
    let live = keep (λ (r : Text × Entry). is_unexpired now r.1) session.records in
    if any (λ (r : Text × Entry). not (is_unexpired now r.1)) session.records
    then record {
      records = live;
      index =
          keep
            (λ (p : (Text × Text) × Text). any (λ (r : Text × Entry). text_eq r.1.token p.1) live)
            session.index;
    }
    else record { records = live; index = session.index }

-- What `_get_or_create_locked` returns and leaves.
pub record Made : Type 0 where
  pub token : Result Text
  pub session : Session
  pub drawn : ℕ

abbrev pub extended : Entry → ℕ → Entry
extended entry expires_at = record {
  token = entry.token;
  entity_type = entry.entity_type;
  original_value = entry.original_value;
  expires_at = expires_at;
}

-- The record of a token of the index, with its identifier.
unfoldable pub find_record : Records → Text → Option (Text × Entry)
unfolding parse_token
find_record records existing = elim (parse_token existing) [
  | none ↦ none
  | some parsed ↦ elim (dict_get text_eq parsed.token_id records) [
    | none ↦ none
    | some entry ↦ some (parsed.token_id, entry)
  ]
]

abbrev pub found_in : Session → VaultWriteRequest → Option (Text × (Text × Entry))
found_in session entry =
    elim (dict_get pair_eq (entry.entity_type, entry.normalized_hmac) session.index) [
      | none ↦ none
      | some existing ↦ elim (find_record session.records existing) [
        | none ↦ none
        | some r ↦ some (existing, r)
      ]
    ]

-- The tokens of all entries, in their order, with the session and the counter that are left.
pub record Batch : Type 0 where
  pub tokens : Result (List Text)
  pub session : Session
  pub drawn : ℕ

abbrev pub session_at : MemoryVault → ℕ → ℕ → Session
session_at s tenant_id session_id = elim (dict_get scope_eq (tenant_id, session_id) s.sessions) [
  | none ↦ empty_session
  | some session ↦ session
]

module _ (ids : ℕ → Text) where
  -- A new mapping. `format_token` raises on a bad type or identifier.
  unfoldable pub mint : Session → VaultWriteRequest → ℕ → ℕ → Made
  unfolding format_token
  mint session entry expires_at drawn = elim (format_token entry.entity_type (ids drawn)) [
    | err e ↦ record { token = err e; session = session; drawn = suc drawn }
    | ok token ↦ record {
      token = ok token;
      session = record {
        records =
            dict_set text_eq (ids drawn)
              (record {
                token = token;
                entity_type = entry.entity_type;
                original_value = entry.original_value;
                expires_at = expires_at;
              })
              session.records;
        index = dict_set pair_eq (entry.entity_type, entry.normalized_hmac) token session.index;
      };
      drawn = suc drawn;
    }
  ]

  unfoldable pub get_or_create : Session → VaultWriteRequest → ℕ → ℕ → Made
  unfolding find_record mint
  get_or_create session entry expires_at drawn = elim (found_in session entry) [
    | none ↦ mint session entry expires_at drawn
    | some (existing, (token_id, old)) ↦ record {
      token = ok existing;
      session = record {
        records = dict_set text_eq token_id (extended old expires_at) session.records;
        index = session.index;
      };
      drawn = drawn;
    }
  ]

  unfoldable pub get_or_create_all : Session → List VaultWriteRequest → ℕ → ℕ → Batch
  unfolding get_or_create
  get_or_create_all session [] expires_at drawn = record {
    tokens = ok [];
    session = session;
    drawn = drawn;
  }
  get_or_create_all session (entry ∷ entries) expires_at drawn =
      let made = get_or_create session entry expires_at drawn in
      let rest = get_or_create_all made.session entries expires_at made.drawn in
      elim made.token [
        | err e ↦ record { tokens = err e; session = made.session; drawn = made.drawn }
        | ok token ↦ record {
          tokens = rest.tokens >>= λ tokens. ok (token ∷ tokens);
          session = rest.session;
          drawn = rest.drawn;
        }
      ]

  -- The part of `get_or_create_many` under the lock.
  unfoldable pub create_locked :
      ℕ → ℕ → List VaultWriteRequest → ℕ → MemoryVault → Result (List Text) × MemoryVault
  unfolding get_or_create_all purge
  create_locked tenant_id session_id entries ttl_seconds s =
      let batch =
        get_or_create_all (purge s.now (session_at s tenant_id session_id)) entries
          (s.now + ttl_seconds) s.drawn in
      (
        batch.tokens,
        with_sessions s (dict_set scope_eq (tenant_id, session_id) batch.session s.sessions)
            batch.drawn,
      )

  unfoldable pub get_or_create_many :
      ℕ → ℕ → List VaultWriteRequest → ℕ → MemoryVault → Result (List Text) × MemoryVault
  unfolding create_locked validate_entries
  get_or_create_many tenant_id session_id entries ttl_seconds s = elim s.failure [
    | some e ↦ (err e, s)
    | none ↦ elim (validate_entries entries ttl_seconds) [
      | err e ↦ (err e, s)
      | ok _ ↦ elim entries [
        | [] ↦ (ok [], s)
        | entry ∷ rest ↦ create_locked tenant_id session_id (entry ∷ rest) ttl_seconds s
      ]
    ]
  ]

-- The loop of `resolve_many`.
unfoldable pub resolve_tokens : Records → List Text → List (Text × Text)
unfolding find_record
resolve_tokens records [] = []
resolve_tokens records (token ∷ tokens) =
    let rest = resolve_tokens records tokens in
    elim (find_record records token) [
      | none ↦ rest
      | some (token_id, entry) ↦
          if text_eq entry.token token then (token, entry.original_value) ∷ rest else rest
    ]

unfoldable pub resolve_many :
    ℕ → ℕ → List Text → MemoryVault → Result (List (Text × Text)) × MemoryVault
unfolding resolve_tokens purge
resolve_many tenant_id session_id tokens s = elim s.failure [
  | some e ↦ (err e, s)
  | none ↦ elim (dict_get scope_eq (tenant_id, session_id) s.sessions) [
    | none ↦ (ok [], s)
    | some session ↦
        let purged = purge s.now session in
        (
          ok (resolve_tokens purged.records tokens),
          with_sessions s (dict_set scope_eq (tenant_id, session_id) purged s.sessions) s.drawn,
        )
  ]
]

unfoldable pub delete_session : ℕ → ℕ → MemoryVault → Result ℕ × MemoryVault
delete_session tenant_id session_id s = elim s.failure [
  | some e ↦ (err e, s)
  | none ↦ elim (dict_get scope_eq (tenant_id, session_id) s.sessions) [
    | none ↦ (ok 0, s)
    | some session ↦ (
      ok (length session.records),
      with_sessions s
          (keep (λ (p : (ℕ × ℕ) × Session). not (scope_eq p.0 (tenant_id, session_id))) s.sessions)
          s.drawn,
    )
  ]
]

-- The vault that tokenization and restoration use.
abbrev pub memory_vault : (ℕ → Text) → Vault MemoryVault
memory_vault ids = record {
  get_or_create_many = get_or_create_many ids;
  resolve_many = resolve_many;
}
