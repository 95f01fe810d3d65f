-- ===== src/Restoration.antt =====
-- Restoration of a provider's response (app/restoration/pipeline.py).
pub mod Laws
pub mod RoundTrip
pub mod Answers
use mathlib.Core.List.{flatten}
use aiprivacy_gateway.Common.{
  ℕ, Bool, true, false, ◌&&◌, List, [], ◌∷◌, ◌++◌, Text, mem_text, keep, length, slice, drop, ltb,
  leb, Option, none, some, if◌then◌else◌, not, map,
}
use aiprivacy_gateway.Domain.Errors.{
  Result, ok, err, ◌>>=◌, provider_response_invalid, restoration_failed,
}
use aiprivacy_gateway.Domain.Entity.{UnknownTokenAction}
use aiprivacy_gateway.Domain.Summary.{PrivacySummary, empty_summary}
use aiprivacy_gateway.Policy.Snapshot.{lookup}
use aiprivacy_gateway.Tokenization.Grammar.{TokenMatch, match_text, find_tokens, format_redaction}
use aiprivacy_gateway.Tokenization.Vault.{Vault}

-- What the provider sent. A field that is not a string is `none`: the code checks this at run time.
pub record ProviderResponse : Type 0 where
  pub content : Option Text
  pub model : Option Text

pub record RestoredOutput : Type 0 where
  pub text : Text
  pub summary : PrivacySummary
  pub model : Text

-- A dictionary from token texts to original values.
abbrev pub Resolved : Type 0
Resolved = List (Text × Text)

-- `candidates - resolved.keys()`
unfoldable pub unknown_in : List Text → Resolved → List Text
unknown_in candidates resolved =
    keep (λ token. not (mem_text token (map (λ p. p.0) resolved))) candidates

-- A set as the list of its members at their first places.
unfoldable pub distinct : List Text → List Text
distinct [] = []
distinct (x ∷ xs) = let rest = distinct xs in x ∷ keep (λ y. not (mem_text y (x ∷ []))) rest

-- The value of a known token, and what the policy says of an unknown one.
unfoldable pub replacement : TokenMatch → Resolved → UnknownTokenAction → Result Text
unfolding format_redaction
replacement m resolved action = elim (lookup (match_text m) resolved) [
  | some original ↦ ok original
  | none ↦ elim action [
    | UnknownTokenAction.preserve ↦ ok (match_text m)
    | UnknownTokenAction.redact ↦ format_redaction m.token.entity_type
    | UnknownTokenAction.fail ↦ ok (match_text m)
  ]
]

-- The walk over the matches; `cursor` is the loop's variable.
unfoldable pub substitute_from :
    Text → List TokenMatch → Resolved → UnknownTokenAction → ℕ → Result Text
unfolding replacement
substitute_from text [] resolved action cursor = ok (drop cursor text)
substitute_from text (m ∷ matches) resolved action cursor = do
  piece ← replacement m resolved action
  rest ← substitute_from text matches resolved action m.end
  ok (slice cursor m.start text ++ (piece ++ rest))

unfoldable pub substitute : Text → List TokenMatch → Resolved → UnknownTokenAction → Result Text
unfolding substitute_from
substitute text matches resolved action = substitute_from text matches resolved action 0

module _ (is_blank : Text → Bool) where
  -- The text and the model's name, or the refusal. `is_blank s` says that `s.strip()` is empty.
  unfoldable pub validated_content : ProviderResponse → ℕ → Result (Text × Text)
  validated_content response limit = elim response.content [
    | none ↦ err provider_response_invalid
    | some content ↦ elim response.model [
      | none ↦ err provider_response_invalid
      | some model ↦
          if is_blank model
          then err provider_response_invalid
          else if ltb limit (length content)
          then err provider_response_invalid
          else ok (content, model)
    ]
  ]

abbrev is_fail : UnknownTokenAction → Bool
is_fail UnknownTokenAction.fail = true
is_fail _ = false

-- The response once the vault has answered.
unfoldable pub finish :
    Text
    → Text
    → UnknownTokenAction
    → List TokenMatch
    → List Text
    → Result Resolved
    → Result RestoredOutput
unfolding substitute unknown_in
finish text model action matches candidates (err e) = err e
finish text model action matches candidates (ok resolved) =
    let unknown = unknown_in candidates resolved in
    let done = substitute text matches resolved action in
    if leb 1 (length unknown) && is_fail action
    then err restoration_failed
    else (done >>= λ restored. ok (record {
      text = restored;
      summary = record {
        detected = 0;
        tokenized = 0;
        redacted = 0;
        pseudonymized = 0;
        blocked = 0;
        allowed = 0;
        restored = length resolved;
        unknown_tokens = length unknown;
        entity_types = [];
      };
      model = model;
    }))

module _ (is_blank : Text → Bool) (limit tenant_id session_id : ℕ) {S : Type 0} (vault : Vault S)
    (action : UnknownTokenAction) where
  -- The body of `restore` for an accepted response: without a match the vault is not called.
  unfoldable pub restore_text : Text → Text → List TokenMatch → S → Result RestoredOutput × S
  restore_text text model [] s =
      (ok (record { text = text; summary = empty_summary; model = model }), s)
  restore_text text model (m ∷ matches) s =
      let candidates = distinct (map match_text (m ∷ matches)) in
      let (answer, s') = vault.resolve_many tenant_id session_id candidates s in
      (finish text model action (m ∷ matches) candidates answer, s')

  unfoldable pub restore : ProviderResponse → S → Result RestoredOutput × S
  unfolding validated_content find_tokens
  restore response s = elim (validated_content is_blank response limit) [
    | err e ↦ (err e, s)
    | ok accepted ↦ restore_text accepted.0 accepted.1 (find_tokens accepted.0) s
  ]
