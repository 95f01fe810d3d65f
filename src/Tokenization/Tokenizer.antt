-- ===== src/Tokenization/Tokenizer.antt =====
-- The tokenizer (app/tokenization/tokenizer.py): policy actions applied to the selected spans, the
-- mappings minted in one vault call, and the text spliced from right to left. Vault, fingerprints
-- and pseudonyms are those of the sibling modules.
pub mod Splice
pub mod Refusals
pub mod Tallies
pub mod Assignment
pub mod Outcome
use mathlib.Core.List.{reverse, flatten}
use aiprivacy_gateway.Common.{
  ℕ, zero, suc, ◌+◌, compare, Bool, true, false, ◌||◌, List, [], ◌∷◌, ◌++◌, map, Text, length, take,
  slice, on, descending, Comparison, sorted, ltb, ◌==◌, Option, none, some, any, if◌then◌else◌,
}
use aiprivacy_gateway.Domain.Errors.{
  Result, ok, err, ◌>>=◌, entity_limit_exceeded, policy_violation, internal_error, assertion_error,
}
use aiprivacy_gateway.Domain.Entity.{
  DetectedEntity, EntityAction, allow, tokenize, redact, pseudonymize, block,
}
use aiprivacy_gateway.Domain.Summary.{TypeCounts, add_count, PrivacySummary}
use aiprivacy_gateway.Policy.Snapshot.{PolicySnapshot, action_for}
use aiprivacy_gateway.Tokenization.Grammar.{
  Token, is_valid_token_id, format_token, format_redaction, parse_token,
}
use aiprivacy_gateway.Common.{text_eq}
use aiprivacy_gateway.Tokenization.Selection.{select_entities}
use aiprivacy_gateway.Tokenization.Platform.{Platform, Bytes}
use aiprivacy_gateway.Tokenization.Normalization.{normalize}
use aiprivacy_gateway.Tokenization.Pseudonyms.{surrogate_for}
use aiprivacy_gateway.Tokenization.Fingerprint.{fingerprint}
use aiprivacy_gateway.Tokenization.Vault.{EntityMapping, VaultWriteRequest, Vault}

abbrev pub Plan : Type 0
Plan = List (DetectedEntity × EntityAction)

-- A planned span with its mapping, if its action needs one.
pub record Planned : Type 0 where
  pub entity : DetectedEntity
  pub action : EntityAction
  pub mapping : Option EntityMapping

pub record TransformedText : Type 0 where
  pub text : Text
  pub mappings : List EntityMapping
  pub summary : PrivacySummary

-- `_MAPPING_ACTIONS`
abbrev pub is_mapping_action : EntityAction → Bool
is_mapping_action tokenize = true
is_mapping_action pseudonymize = true
is_mapping_action _ = false

abbrev pub is_action : EntityAction → EntityAction → Bool
is_action allow allow = true
is_action tokenize tokenize = true
is_action redact redact = true
is_action pseudonymize pseudonymize = true
is_action block block = true
is_action _ _ = false

unfoldable pub plan_for : PolicySnapshot → List DetectedEntity → Plan
plan_for policy [] = []
plan_for policy (e ∷ selected) = (e, action_for policy e.entity_type) ∷ plan_for policy selected

-- The test of `_reject_blocked`.
abbrev pub has_block : Plan → Bool
has_block [] = false
has_block ((e, action) ∷ plan) = is_action action block || has_block plan

unfoldable pub count_action : EntityAction → Plan → ℕ
count_action action [] = 0
count_action action ((e, a) ∷ plan) =
    let rest = count_action action plan in if is_action a action then suc rest else rest

unfoldable pub count_types : TypeCounts → Plan → TypeCounts
count_types counts [] = counts
count_types counts ((e, a) ∷ plan) = count_types (add_count e.entity_type 1 counts) plan

unfoldable pub summarize : Plan → PrivacySummary
unfolding count_types add_count count_action
summarize plan = record {
  detected = length plan;
  tokenized = count_action tokenize plan;
  redacted = count_action redact plan;
  pseudonymized = count_action pseudonymize plan;
  blocked = 0;
  allowed = count_action allow plan;
  restored = 0;
  unknown_tokens = 0;
  entity_types = count_types [] plan;
}

-- A bare identifier is read as a token of the span's type, a token of another type is refused.
unfoldable pub coerce_parsed : Option Token → Text → Text → Result Token
coerce_parsed (some parsed) raw_token entity_type =
    if text_eq parsed.entity_type entity_type then ok parsed else err internal_error
coerce_parsed none raw_token entity_type =
    if is_valid_token_id raw_token
    then ok (record { entity_type = entity_type; token_id = raw_token })
    else err internal_error

unfoldable pub coerce_vault_token : Text → Text → Result Token
unfolding coerce_parsed parse_token
coerce_vault_token raw_token entity_type =
    coerce_parsed (parse_token raw_token) raw_token entity_type

unfoldable pub mapping_for : VaultWriteRequest → Text → Result EntityMapping
unfolding coerce_vault_token format_token
mapping_for item raw_token = do
  token ← coerce_vault_token raw_token item.entity_type
  text ← format_token token.entity_type token.token_id
  ok (record {
    token = text;
    token_id = token.token_id;
    entity_type = item.entity_type;
    original_value = item.original_value;
    normalized_hmac = item.normalized_hmac;
  })

-- A replacement in the text, at offsets of the original.
pub record Edit : Type 0 where
  pub start : ℕ
  pub stop : ℕ
  pub text : Text

-- The splicing loop: `pieces` and `cursor` are its variables. The edits come from right to left.
unfoldable pub splice_loop : Text → List Edit → List Text → ℕ → List Text
splice_loop text [] pieces cursor = pieces ++ take cursor text ∷ []
splice_loop text (e ∷ edits) pieces cursor =
    splice_loop text edits (pieces ++ slice e.stop cursor text ∷ (e.text ∷ [])) e.start

-- `"".join(reversed(pieces))`
unfoldable pub splice : Text → List Edit → Text
unfolding splice_loop
splice text edits = flatten (reverse (splice_loop text edits [] (length text)))

-- Planned spans from the rightmost start to the leftmost.
abbrev pub rightmost : Comparison Planned
rightmost = on (λ p. p.entity.start) (descending compare)

abbrev pub mappings_of : List Planned → List EntityMapping
mappings_of [] = []
mappings_of (p ∷ planned) =
    let rest = mappings_of planned in elim p.mapping [ none ↦ rest | some m ↦ m ∷ rest ]

module _ (lib : Platform) where
  -- The text that replaces a span, or nothing if it stays.
  unfoldable pub replacement_for :
      EntityAction → Text → Option EntityMapping → Text → Result (Option Text)
  unfolding surrogate_for format_redaction
  replacement_for allow entity_type mapping original = ok none
  replacement_for redact entity_type mapping original = do
    text ← format_redaction entity_type
    ok (some text)
  replacement_for action entity_type none original = err assertion_error
  replacement_for pseudonymize entity_type (some m) original =
      ok (some (surrogate_for lib entity_type original m.normalized_hmac))
  replacement_for action entity_type (some m) original = ok (some m.token)

  abbrev pub edit_of : DetectedEntity → Option Text → List Edit → List Edit
  edit_of e none rest = rest
  edit_of e (some text) rest = record { start = e.start; stop = e.end; text = text } ∷ rest

  -- The edits of the planned spans, in the order in which the loop meets them.
  unfoldable pub edits_of : Text → List Planned → Result (List Edit)
  unfolding replacement_for
  edits_of text [] = ok []
  edits_of text (p ∷ planned) = do
    replacement ←
        replacement_for p.action p.entity.entity_type p.mapping
          (slice p.entity.start p.entity.end text)
    rest ← edits_of text planned
    ok (edit_of p.entity replacement rest)

  module _ (key : Bytes) (tenant_id session_id : ℕ) (text : Text) where
    -- `_pending_for` and the request made of it.
    unfoldable pub request_for : DetectedEntity → VaultWriteRequest
    unfolding fingerprint normalize
    request_for e =
        let original = slice e.start e.end text in
        record {
          entity_type = e.entity_type;
          normalized_hmac =
              fingerprint lib key tenant_id session_id e.entity_type
                (normalize lib e.entity_type original);
          original_value = original;
        }

    unfoldable pub requests : Plan → List VaultWriteRequest
    unfolding request_for
    requests [] = []
    requests ((e, action) ∷ plan) =
        let rest = requests plan in if is_mapping_action action then request_for e ∷ rest else rest

    -- The tokens, one for each mapping action in the plan's order, become its mappings.
    unfoldable pub assign : Plan → List Text → Result (List Planned)
    unfolding request_for mapping_for
    assign [] tokens = ok []
    assign ((e, action) ∷ plan) tokens = elim (is_mapping_action action) [
      | false ↦ do
        rest ← assign plan tokens
        ok (record { entity = e; action = action; mapping = none } ∷ rest)
      | true ↦ elim tokens [
        | [] ↦ err internal_error
        | raw_token ∷ tokens' ↦ do
          m ← mapping_for (request_for e) raw_token
          rest ← assign plan tokens'
          ok (record { entity = e; action = action; mapping = some m } ∷ rest)
      ]
    ]

    module _ {S : Type 0} (vault : Vault S) (ttl_seconds : ℕ) where
      -- The check on the number of tokens.
      unfoldable pub pair_tokens : Plan → Result (List Text) → Result (List Planned)
      pair_tokens plan (err e) = err e
      pair_tokens plan (ok tokens) =
          if length tokens == length (requests plan) then assign plan tokens else err internal_error

      unfoldable pub mint : Plan → S → Result (List Planned) × S
      mint plan s = elim (requests plan) [
        | [] ↦ (assign plan [], s)
        | r ∷ rs ↦
            let (answer, s') =
              vault.get_or_create_many tenant_id session_id (r ∷ rs) ttl_seconds s in
            (pair_tokens plan answer, s')
      ]

    unfoldable pub build : Plan → Result (List Planned) → Result TransformedText
    build plan minted = do
      planned ← minted
      edits ← edits_of text (sorted rightmost planned)
      ok (record {
        text = splice text edits;
        mappings = mappings_of planned;
        summary = summarize plan;
      })

    module _ {S : Type 0} (vault : Vault S) (policy : PolicySnapshot) where
      unfoldable pub apply_plan : Plan → S → Result TransformedText × S
      apply_plan plan s =
          if has_block plan
          then (err policy_violation, s)
          else let (minted, s') = mint vault policy.session_ttl_seconds plan s in
            (build plan minted, s')

      unfoldable pub apply_selected : List DetectedEntity → S → Result TransformedText × S
      apply_selected selected s =
          if ltb policy.max_entities (length selected)
          then (err entity_limit_exceeded, s)
          else apply_plan (plan_for policy selected) s

      unfoldable pub transform : List DetectedEntity → S → Result TransformedText × S
      transform entities s = elim (select_entities text entities policy) [
        | err e ↦ (err e, s)
        | ok selected ↦ apply_selected selected s
      ]
