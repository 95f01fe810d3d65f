-- ===== src/Vault/Redis/Resolved.antt =====
-- What `resolve_many` of app/vault/redis_vault.py answers: only what was sealed for the tenant and the
-- session that ask.
use aiprivacy_gateway.Common.{
  ℕ, ◌≡◌, refl, sym, subst, inl, inr, List, [], ◌∷◌, Text, text_eq, text_eq_iff, All, Option, none,
  some, Bool-cases, Option-cases, List-cases, ◌⊎◌, sorted, compare_text,
}
use aiprivacy_gateway.Domain.Errors.{ok, >>=-ok}
use aiprivacy_gateway.Tokenization.Platform.{Bytes}
use aiprivacy_gateway.Tokenization.Grammar.{Token, parse_token}
use aiprivacy_gateway.Vault.Crypto.{unseal}
use aiprivacy_gateway.Vault.Records.{VaultRecord, record_from_bytes}
use aiprivacy_gateway.Vault.Redis.{
  Delivery, answered, unsent, unanswered, RedisStore, VaultParts, send,
}
use aiprivacy_gateway.Vault.Redis.TokenVault.{
  session_prefix, token_key, aad_of, unseal_record, wanted_of, open_stored, open_all, mget,
  resolve_many,
}

Delivery-cases : (d : Delivery) → (d ≡ answered) ⊎ ((d ≡ unsent) ⊎ (d ≡ unanswered))
Delivery-cases answered = inl refl
Delivery-cases unsent = inr (inl refl)
Delivery-cases unanswered = inr (inr refl)

module _ (parts : VaultParts) (tenant_id session_id : ℕ) where
  -- A pair that was read from a stored value.
  abbrev pub IsOpened : Text × Text → Token → Bytes → Type 0
  IsOpened (token, value) parsed raw =
      (plaintext : Bytes) × (found : VaultRecord) × (unseal parts.crypto parts.ring raw
          (aad_of parts tenant_id session_id parsed.entity_type parsed.token_id)
        ≡ ok plaintext)
      × (record_from_bytes parts.records plaintext ≡ ok found)
      × (found.token ≡ token)
      × (found.original_value ≡ value)

  open_stored-IsOpened :
      (token : Text) (parsed : Token) (raw : Bytes) (pair : Text × Text)
      → open_stored parts tenant_id session_id (token, parsed) raw ≡ ok pair
      → (pair.0 ≡ token) × IsOpened pair parsed raw
  unfolding open_stored unseal_record
  open_stored-IsOpened token parsed raw (t, v) h =
      let (found, opened, checked) =
        >>=-ok (unseal_record parts tenant_id session_id parsed.entity_type parsed.token_id raw) _
          (t, v) h in
      let (plaintext, unsealed, is_read) =
        >>=-ok
          (unseal parts.crypto parts.ring raw
            (aad_of parts tenant_id session_id parsed.entity_type parsed.token_id))
          (λ p. record_from_bytes parts.records p) found opened in
      elim (Bool-cases (text_eq found.token token)) [
        | inr e ↦ let h' = rw e at checked in absurd (cc)
        | inl e ↦
            let h' = rw e at checked in
            let same = (text_eq_iff found.token token).0 e in
            (cc, (plaintext, found, unsealed, is_read, cc, cc))
      ]

  -- A pair that was read from a value of which `P` holds.
  abbrev pub IsReadFrom : (Text × Token → Bytes → Type 0) → Text × Text → Type 0
  IsReadFrom P pair =
      (parsed : Token) × (raw : Bytes) × P (pair.0, parsed) raw × IsOpened pair parsed raw

  open_all-IsReadFrom :
      (P : Text × Token → Bytes → Type 0) (rows : List ((Text × Token) × Option Bytes))
      (pairs : List (Text × Text))
      → All
          (λ (row : (Text × Token) × Option Bytes). (raw : Bytes) → row.1 ≡ some raw → P row.0 raw)
          rows
      → open_all parts tenant_id session_id rows ≡ ok pairs
      → All (IsReadFrom P) pairs
  unfolding open_all
  open_all-IsReadFrom P [] pairs all h =
      let same : [] ≡ pairs = cc in subst (All (IsReadFrom P)) same tt
  open_all-IsReadFrom P ((want, none) ∷ rows) pairs all h = open_all-IsReadFrom P rows pairs all.1 h
  open_all-IsReadFrom P (((token, parsed), some raw) ∷ rows) pairs all h =
      let (pair, opened, rest) =
        >>=-ok (open_stored parts tenant_id session_id (token, parsed) raw) _ pairs h in
      let (others, is_rest, is_all) =
        >>=-ok (open_all parts tenant_id session_id rows) (λ ps. ok (pair ∷ ps)) pairs rest in
      let (is_token, is_opened) = open_stored-IsOpened token parsed raw pair opened in
      let stored = subst (λ t. P (t, parsed) raw) (sym is_token) (all.0 raw refl) in
      let same : pair ∷ others ≡ pairs = cc in
      subst (All (IsReadFrom P)) same
        ((parsed, raw, stored, is_opened), open_all-IsReadFrom P rows others all.1 is_rest)

  module _ {R : Type 0} (redis : RedisStore R) where
    -- A value that the store holds under the key of a token of this tenant and session.
    abbrev pub IsStored : R → Text × Token → Bytes → Type 0
    IsStored world (token, parsed) raw =
        (parse_token token ≡ some parsed)
        × (redis.get
              (parts.crypto.utf8
                (token_key parts (session_prefix parts tenant_id session_id) parsed.token_id))
              world
            ≡ some raw)

    wanted_of-parse :
        (tokens : List Text)
        → All (λ (want : Text × Token). parse_token want.0 ≡ some want.1) (wanted_of parts tokens)
    unfolding wanted_of
    wanted_of-parse [] = tt
    wanted_of-parse (token ∷ tokens) = elim (Option-cases (parse_token token)) [
      | inl e ↦ rw (e, All) (wanted_of-parse tokens)
      | inr (parsed, e) ↦ rw (e, All) (e, wanted_of-parse tokens)
    ]

    mget-IsStored :
        (wanted : List (Text × Token)) (world : R)
        → All (λ (want : Text × Token). parse_token want.0 ≡ some want.1) wanted
        → All
            (λ (row : (Text × Token) × Option Bytes).
              (raw : Bytes) → row.1 ≡ some raw → IsStored world row.0 raw)
            (mget parts redis tenant_id session_id wanted world)
    mget-IsStored [] world all = tt
    mget-IsStored ((token, parsed) ∷ wanted) world all =
        (λ raw h. (all.0, h), mget-IsStored wanted world all.1)

    send-ok :
        {A : Type 0} (command : R → A × R) (r : R) (a : A)
        → (send redis command r).0 ≡ ok a
        → (command (redis.connect r).1).0 ≡ a
    send-ok command r a h = elim (Delivery-cases (redis.connect r).0) [
      | inl e ↦ let h' = rw (e, send) at h in cc
      | inr (inl e) ↦ let h' = rw (e, send) at h in absurd (cc)
      | inr (inr e) ↦ let h' = rw (e, send) at h in absurd (cc)
    ]

    -- Each original that is answered was opened, under the identity of this tenant, this session and
    -- the token that was asked for, from the value that the store holds under the key of that token,
    -- and the record in it names that token.
    pub resolve_many-IsReadFrom :
        (tokens : List Text) (r : R) (pairs : List (Text × Text))
        → (resolve_many parts redis tenant_id session_id tokens r).0 ≡ ok pairs
        → All (IsReadFrom (IsStored (redis.connect r).1)) pairs
    unfolding resolve_many
    resolve_many-IsReadFrom tokens r pairs h =
        let parse = wanted_of-parse (sorted compare_text tokens) in
        elim (List-cases (wanted_of parts (sorted compare_text tokens))) [
          | inl e ↦
              let h' = rw (e, resolve_many) at h in
              let same : [] ≡ pairs = cc in
              subst (All (IsReadFrom (IsStored (redis.connect r).1))) same tt
          | inr (want, wanted, e) ↦
              let h' = rw (e, resolve_many) at h in
              let command : R → List ((Text × Token) × Option Bytes) × R =
                λ w. (mget parts redis tenant_id session_id (want ∷ wanted) w, w) in
              let (rows, replied, is_all) =
                >>=-ok (send redis command r).0 (λ found. open_all parts tenant_id session_id found)
                  pairs h' in
              let is_rows = send-ok command r rows replied in
              let stored =
                mget-IsStored (want ∷ wanted) (redis.connect r).1 (subst (All _) e parse) in
              open_all-IsReadFrom (IsStored (redis.connect r).1) rows pairs
                (subst (All _) is_rows stored) is_all
        ]
