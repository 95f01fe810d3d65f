-- ===== src/Vault/Memory/Isolation.antt =====
-- The scopes of the in-memory vault (app/vault/fakes.py): what a call leaves alone.
use aiprivacy_gateway.Common.{
  ℕ, ◌≡◌, refl, sym, ap, ◌∙◌, ◌⊎◌, inl, inr, false, List, [], ◌∷◌, Text, Option, none, some,
  Option-cases,
}
use aiprivacy_gateway.Common.Dict.{dict_get, dict_get-set_other}
use aiprivacy_gateway.Domain.Errors.{GatewayError, Result, ok, err, Result-cases}
use aiprivacy_gateway.Tokenization.Vault.{VaultWriteRequest}
use aiprivacy_gateway.Vault.Memory.{
  Session, scope_eq, MemoryVault, validate_entries, purge, create_locked, get_or_create_many,
  resolve_tokens, resolve_many,
}
use aiprivacy_gateway.Vault.Memory.RoundTrip.{scope_eq_iff}

-- The answer of `resolve_many`, told by the clock, the failure and the session.
abbrev answer : ℕ → Option GatewayError → Option Session → List Text → Result (List (Text × Text))
answer now (some e) session tokens = err e
answer now none none tokens = ok []
answer now none (some session) tokens = ok (resolve_tokens (purge now session).records tokens)

resolve_many-answer :
    (tenant_id session_id : ℕ) (tokens : List Text) (s : MemoryVault)
    → (resolve_many tenant_id session_id tokens s).0
      ≡ answer s.now s.failure (dict_get scope_eq (tenant_id, session_id) s.sessions) tokens
unfolding resolve_many
resolve_many-answer tenant_id session_id tokens s = elim (Option-cases s.failure) [
  | inr (e, failed) ↦ rw (failed, resolve_many) refl
  | inl works ↦ elim (Option-cases (dict_get scope_eq (tenant_id, session_id) s.sessions)) [
    | inl none_there ↦ rw (works, resolve_many, none_there) refl
    | inr (session, there) ↦ rw (works, resolve_many, there) refl
  ]
]

module _ (ids : ℕ → Text) (tenant_id session_id other_tenant other_session : ℕ)
    (apart : scope_eq (tenant_id, session_id) (other_tenant, other_session) ≡ false) where
  -- The clock, the failure and the session of the other scope are the same.
  abbrev SameElsewhere : MemoryVault → MemoryVault → Type 0
  SameElsewhere s s' =
      (s'.now ≡ s.now)
      × (s'.failure ≡ s.failure)
      × (dict_get scope_eq (other_tenant, other_session) s'.sessions
          ≡ dict_get scope_eq (other_tenant, other_session) s.sessions)

  create_locked-SameElsewhere :
      (entries : List VaultWriteRequest) (ttl_seconds : ℕ) (s : MemoryVault)
      → SameElsewhere s (create_locked ids tenant_id session_id entries ttl_seconds s).1
  unfolding create_locked
  create_locked-SameElsewhere entries ttl_seconds s = (
    refl,
    refl,
    dict_get-set_other scope_eq scope_eq_iff (tenant_id, session_id) (other_tenant, other_session) _
        s.sessions apart,
  )

  -- The store is as it was, called `x`, or as the part under the lock leaves it, called `y`.
  locked :
      (entries : List VaultWriteRequest) (ttl_seconds : ℕ) (s x y : MemoryVault) {done : Unit {0}}
      → s.failure ≡ none
      → validate_entries entries ttl_seconds ≡ ok done
      → s ≡ x
      → (create_locked ids tenant_id session_id entries ttl_seconds s).1 ≡ y
      → ((get_or_create_many ids tenant_id session_id entries ttl_seconds s).1 ≡ x)
        ⊎ ((get_or_create_many ids tenant_id session_id entries ttl_seconds s).1 ≡ y)
  unfolding get_or_create_many
  locked [] ttl_seconds s x y works valid before after =
      inl (rw (works, get_or_create_many, valid) before)
  locked (e ∷ entries) ttl_seconds s x y works valid before after =
      inr (rw (works, get_or_create_many, valid) after)

  get_or_create_many_cases :
      (entries : List VaultWriteRequest) (ttl_seconds : ℕ) (s x y : MemoryVault)
      → s ≡ x
      → (create_locked ids tenant_id session_id entries ttl_seconds s).1 ≡ y
      → ((get_or_create_many ids tenant_id session_id entries ttl_seconds s).1 ≡ x)
        ⊎ ((get_or_create_many ids tenant_id session_id entries ttl_seconds s).1 ≡ y)
  unfolding get_or_create_many
  get_or_create_many_cases entries ttl_seconds s x y before after = elim (Option-cases s.failure) [
    | inr (e, failed) ↦ inl (rw (failed, get_or_create_many) before)
    | inl works ↦ elim (Result-cases (validate_entries entries ttl_seconds)) [
      | inr (e, invalid) ↦ inl (rw (works, get_or_create_many, invalid) before)
      | inl (_, valid) ↦ locked entries ttl_seconds s x y works valid before after
    ]
  ]

  -- Creating mappings in one tenant and session of the in-memory vault does not change what
  -- tokens resolve to in another.
  pub get_or_create_many-isolated :
      (entries : List VaultWriteRequest) (tokens : List Text) (ttl_seconds : ℕ) (s : MemoryVault)
      → (resolve_many other_tenant other_session tokens
          (get_or_create_many ids tenant_id session_id entries ttl_seconds s).1).0
        ≡ (resolve_many other_tenant other_session tokens s).0
  get_or_create_many-isolated entries tokens ttl_seconds s =
      elim (get_or_create_many_cases entries ttl_seconds s s _ refl refl) [
        | inl same ↦ rw same refl
        | inr same ↦
            let after = create_locked ids tenant_id session_id entries ttl_seconds s in
            let (now, failure, there) = create_locked-SameElsewhere entries ttl_seconds s in
            ap (λ (x : MemoryVault). (resolve_many other_tenant other_session tokens x).0) same
            ∙ resolve_many-answer other_tenant other_session tokens after.1
            ∙ rw (now, failure, there) refl
            ∙ sym (resolve_many-answer other_tenant other_session tokens s)
      ]
