-- ===== src/Vault/Redis/Answers.antt =====
-- What the operations of `RedisTokenVault` (app/vault/redis_vault.py) answer, whatever Redis replies.
use aiprivacy_gateway.Common.{
  ℕ, zero, suc, ◌≡◌, refl, ap, subst, inl, inr, true, List, [], ◌∷◌, ◌++◌, Text, length, some,
  Bool-cases, ◌==◌, ==_iff, arith,
}
use aiprivacy_gateway.Domain.Errors.{ok, ◌>>=◌, >>=-ok, Result-cases}
use aiprivacy_gateway.Tokenization.Platform.{Bytes}
use aiprivacy_gateway.Tokenization.Grammar.{
  is_valid_entity_type, is_valid_token_id, render_token, format_token,
}
use aiprivacy_gateway.Tokenization.Vault.{VaultWriteRequest}
use aiprivacy_gateway.Vault.Redis.{
  RedisStore, VaultParts, deduplicate, get_elem?, spread, check_batch, send, batch_write,
  token_segment,
}
use aiprivacy_gateway.Vault.Redis.Identities.{Names, deduplicate_sound}
use aiprivacy_gateway.Vault.Redis.TokenVault.{
  session_prefix, meta_key, seal_entries, read_replies, read_batch_result, write_unique,
  get_or_create_many,
}

-- A token of an entity type.
abbrev pub IsTokenOf : Text → Text → Type 0
IsTokenOf entity_type token =
    (id : Text) × (is_valid_entity_type entity_type ≡ true)
    × (is_valid_token_id id ≡ true)
    × (token ≡ render_token entity_type id)

-- Each entry with its token.
abbrev pub Typed : List VaultWriteRequest → List Text → Type 0
Typed [] [] = Unit
Typed (e ∷ es) (t ∷ ts) = IsTokenOf e.entity_type t × Typed es ts
Typed _ _ = ⊥

format_token-ok :
    (entity_type id token : Text)
    → format_token entity_type id ≡ ok token
    → IsTokenOf entity_type token
unfolding format_token
format_token-ok entity_type id token h = elim (Bool-cases (is_valid_entity_type entity_type)) [
  | inr e ↦ let h' = rw e at h in absurd (cc)
  | inl e ↦ elim (Bool-cases (is_valid_token_id id)) [
    | inr e' ↦ let h' = rw (e, e') at h in absurd (cc)
    | inl e' ↦ let h' = rw (e, e') at h in (id, e, e', cc)
  ]
]

module _ (parts : VaultParts) where
  read_replies-Typed :
      (raw : List (Bytes × ℕ)) (unique : List VaultWriteRequest) (tokens : List Text) (created : ℕ)
      → length raw ≡ length unique
      → read_replies parts raw unique ≡ ok (tokens, created)
      → Typed unique tokens
  unfolding read_replies
  read_replies-Typed [] [] tokens created n h =
      let none_left : [] ≡ tokens = cc in subst (Typed []) none_left tt
  read_replies-Typed [] (e ∷ es) tokens created n h = absurd (omega arith)
  read_replies-Typed (r ∷ rs) [] tokens created n h = absurd (omega arith)
  read_replies-Typed (r ∷ rs) (e ∷ es) tokens created n h =
      let id = parts.decode_replace r.0 in
      elim (Bool-cases (is_valid_token_id id)) [
        | inr v ↦ let h' = rw v at h in absurd (cc)
        | inl v ↦ elim (Result-cases (format_token e.entity_type id)) [
          | inr (raised, f) ↦ let h' = rw (v, f) at h in absurd (cc)
          | inl (token, f) ↦ elim (Result-cases (read_replies parts rs es)) [
            | inr (raised, g) ↦ let h' = rw (v, f, g) at h in absurd (cc)
            | inl ((others, count), g) ↦
                let h' = rw (v, f, g) at h in
                let later = read_replies-Typed rs es others count (omega arith) g in
                let all : token ∷ others ≡ tokens = cc in
                subst (Typed (e ∷ es)) all (format_token-ok e.entity_type id token f, later)
          ]
        ]
      ]

get_elem?-Typed :
    (unique : List VaultWriteRequest) (tokens : List Text) (i : ℕ) (x : VaultWriteRequest)
    → Typed unique tokens
    → get_elem? unique i ≡ some x
    → (token : Text) × (get_elem? tokens i ≡ some token) × IsTokenOf x.entity_type token
get_elem?-Typed [] tokens i x typed h = absurd (cc)
get_elem?-Typed (u ∷ unique) [] i x typed h = absurd typed
get_elem?-Typed (u ∷ unique) (t ∷ tokens) zero x typed h =
    let same : u ≡ x = cc in
    (t, refl, subst (λ (r : VaultWriteRequest). IsTokenOf r.entity_type t) same typed.0)
get_elem?-Typed (u ∷ unique) (t ∷ tokens) (suc i) x typed h =
    get_elem?-Typed unique tokens i x typed.1 h

-- Every entry gets the token of its position.
spread-Typed :
    (unique : List VaultWriteRequest) (tokens : List Text) (entries : List VaultWriteRequest)
    (positions : List ℕ)
    → Typed unique tokens
    → Names unique entries positions
    → (given : List Text) × (spread tokens positions ≡ ok given) × Typed entries given
unfolding spread
spread-Typed unique tokens [] [] typed names = ([], refl, tt)
spread-Typed unique tokens [] (i ∷ positions) typed names = absurd names
spread-Typed unique tokens (e ∷ entries) [] typed names = absurd names
spread-Typed unique tokens (e ∷ entries) (i ∷ positions) typed ((x, at, is_key), names) =
    let (token, found, is_token) = get_elem?-Typed unique tokens i x typed at in
    let (given, made, rest) = spread-Typed unique tokens entries positions typed names in
    let same = ap (λ (p : Text × Text). p.0) is_key in
    (
      token ∷ given,
      rw (found, spread, made) refl,
      (subst (λ type. IsTokenOf type token) same is_token, rest),
    )

read_batch_result-Typed :
    (parts : VaultParts) (raw : List (Bytes × ℕ)) (unique : List VaultWriteRequest)
    (made : List Text × ℕ)
    → read_batch_result parts raw unique ≡ ok made
    → Typed unique made.0
unfolding read_batch_result
read_batch_result-Typed parts raw unique (tokens, created) h =
    elim (Bool-cases (length raw == length unique)) [
      | inr e ↦ let h' = rw e at h in absurd (cc)
      | inl e ↦
          let h' = rw e at h in
          read_replies-Typed parts raw unique tokens created ((==_iff _ _).0 e) h'
    ]

module _ (parts : VaultParts) {R : Type 0} (redis : RedisStore R) where
  write_unique-Typed :
      (tenant_id session_id : ℕ) (unique : List VaultWriteRequest) (ttl : ℕ) (r : R)
      (made : List Text × ℕ)
      → (write_unique parts redis tenant_id session_id unique ttl r).0 ≡ ok made
      → Typed unique made.0
  unfolding write_unique
  write_unique-Typed tenant_id session_id unique ttl r made h =
      elim (Result-cases (seal_entries parts tenant_id session_id ttl 0 unique)) [
        | inr (raised, e) ↦ let h' = rw (e, write_unique) at h in absurd (cc)
        | inl (cs, e) ↦
            let h' = rw (e, write_unique) at h in
            let session = session_prefix parts tenant_id session_id in
            let (replies, replied, is_read) =
              >>=-ok
                (send redis
                  (batch_write redis (parts.crypto.utf8 (meta_key parts session)) ttl
                    (parts.crypto.utf8 (session ++ token_segment)) cs)
                  r).0
                (λ replies. read_batch_result parts replies unique) made h' in
            read_batch_result-Typed parts replies unique made is_read
      ]

  batch-Typed :
      (tenant_id session_id : ℕ) (entries : List VaultWriteRequest) (ttl : ℕ) (r : R)
      (tokens : List Text)
      → ((write_unique parts redis tenant_id session_id (deduplicate entries).0 ttl r).0 >>= λ m.
          spread m.0 (deduplicate entries).1)
        ≡ ok tokens
      → Typed entries tokens
  batch-Typed tenant_id session_id entries ttl r tokens h =
      let (unique, positions) = deduplicate entries in
      let (made, is_made, is_spread) =
        >>=-ok (write_unique parts redis tenant_id session_id unique ttl r).0
          (λ m. spread m.0 positions) tokens h in
      let typed = write_unique-Typed tenant_id session_id unique ttl r made is_made in
      let (given, answer, all) =
        spread-Typed unique made.0 entries positions typed (deduplicate_sound entries).1 in
      let same : given ≡ tokens = cc in subst (Typed entries) same all

  -- Whatever Redis holds and replies: if the Redis vault returns tokens, it returns one for
  -- each entry, in their order, and each is a well-formed token of the type of its entry.
  pub get_or_create_many-Typed :
      (tenant_id session_id : ℕ) (entries : List VaultWriteRequest) (ttl_seconds : ℕ) (r : R)
      (tokens : List Text)
      → (get_or_create_many parts redis tenant_id session_id entries ttl_seconds r).0 ≡ ok tokens
      → Typed entries tokens
  unfolding get_or_create_many
  get_or_create_many-Typed tenant_id session_id [] ttl_seconds r tokens h =
      elim (Result-cases (check_batch [] ttl_seconds)) [
        | inr (raised, e) ↦ let h' = rw (e, get_or_create_many) at h in absurd (cc)
        | inl (ttl, e) ↦
            let h' = rw (e, get_or_create_many) at h in
            let same : [] ≡ tokens = cc in subst (Typed []) same tt
      ]
  get_or_create_many-Typed tenant_id session_id (entry ∷ entries) ttl_seconds r tokens h =
      elim (Result-cases (check_batch (entry ∷ entries) ttl_seconds)) [
        | inr (raised, e) ↦ let h' = rw (e, get_or_create_many) at h in absurd (cc)
        | inl (ttl, e) ↦
            let h' = rw (e, get_or_create_many) at h in
            batch-Typed tenant_id session_id (entry ∷ entries) ttl r tokens h'
      ]
