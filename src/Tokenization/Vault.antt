-- ===== src/Tokenization/Vault.antt =====
-- The vault as tokenization and restoration see it (`VaultLike` in app/tokenization/protocols.py and
-- app/restoration/protocols.py), and the two records that pass between them.
use aiprivacy_gateway.Common.{ℕ, ◌≡◌, true, List, [], ◌∷◌, any, Text, text_eq, some}
use aiprivacy_gateway.Common.Dict.{dict_get}
use aiprivacy_gateway.Domain.Errors.{Result}
use aiprivacy_gateway.Tokenization.Grammar.{is_valid_entity_type, is_valid_token_id, render_token}

pub record EntityMapping : Type 0 where
  pub token : Text
  pub token_id : Text
  pub entity_type : Text
  pub original_value : Text
  pub normalized_hmac : Text

pub record VaultWriteRequest : Type 0 where
  pub entity_type : Text
  pub normalized_hmac : Text
  pub original_value : Text

-- The operations over a store `S`. Each may raise, and returns the store that it leaves.
pub record Vault (S : Type 0) : Type 0 where
  pub get_or_create_many : ℕ → ℕ → List VaultWriteRequest → ℕ → S → Result (List Text) × S
  pub resolve_many : ℕ → ℕ → List Text → S → Result (List (Text × Text)) × S

-- Each request with its token.
abbrev pub Pairwise :
    (VaultWriteRequest → Text → Type 0) → List VaultWriteRequest → List Text → Type 0
Pairwise P [] [] = Unit
Pairwise P (e ∷ es) (t ∷ ts) = P e t × Pairwise P es ts
Pairwise P _ _ = ⊥

-- A well-formed token of a request, of which `Q` says what it stands for.
abbrev pub IsGranted : (Text → Text → Type 0) → VaultWriteRequest → Text → Type 0
IsGranted Q r t =
    (id : Text) × (is_valid_entity_type r.entity_type ≡ true)
    × (is_valid_token_id id ≡ true)
    × (t ≡ render_token r.entity_type id)
    × Q t r.original_value

-- A token that stands for a value in each answer to a list of tokens that holds it.
abbrev pub StandsFor : (List Text → List (Text × Text)) → Text → Text → Type 0
StandsFor found t v =
    (wanted : List Text)
    → any (λ x. text_eq x t) wanted ≡ true
    → dict_get text_eq t (found wanted) ≡ some v
