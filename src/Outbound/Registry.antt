-- ===== src/Outbound/Registry.antt =====
-- The registry of the providers (app/llm/registry.py). An adapter's call is a step of the outside
-- world `S`; `_normalize` works on Unicode text and is a parameter.
pub mod Laws
use aiprivacy_gateway.Common.{List, [], ◌∷◌, ◌++◌, Text, Option, none, some, Bool, true, false}
use aiprivacy_gateway.Domain.Errors.{Result, ok, err, ◌>>=◌, value_error, provider_not_allowed}
use aiprivacy_gateway.Policy.Snapshot.{lookup}
use aiprivacy_gateway.Restoration.{ProviderResponse}
use aiprivacy_gateway.Outbound.Request.{ProtectedChatRequest}

-- The `LLMProvider` protocol: an alias and `complete`.
pub record LlmProvider (S : Type 0) : Type 0 where
  pub alias : Text
  pub complete : ProtectedChatRequest → S → S × Result ProviderResponse

-- `adapters`, in the order of registration.
abbrev pub ProviderRegistry : Type 0 → Type 0
ProviderRegistry S = List (Text × LlmProvider S)

module _ {S : Type 0} (normalize : Text → Text) where
  -- The loop of `from_providers`; the first argument is the dictionary built so far.
  unfoldable pub register : ProviderRegistry S → List (LlmProvider S) → Result (ProviderRegistry S)
  register adapters [] = ok adapters
  register adapters (provider ∷ providers) =
      let rest = register (adapters ++ (normalize provider.alias, provider) ∷ []) providers in
      elim (lookup (normalize provider.alias) adapters) [ some _ ↦ err value_error | none ↦ rest ]

  unfoldable pub from_providers : List (LlmProvider S) → Result (ProviderRegistry S)
  unfolding register
  from_providers providers = register [] providers

  unfoldable pub get : ProviderRegistry S → Text → Result (LlmProvider S)
  unfolding lookup
  get adapters alias = elim (lookup (normalize alias) adapters) [
    | some adapter ↦ ok adapter
    | none ↦ err provider_not_allowed
  ]
