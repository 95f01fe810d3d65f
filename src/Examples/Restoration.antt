-- ===== src/Examples/Restoration.antt =====
-- The restoration theorems: a token that comes back, and one that is unknown.
use aiprivacy_gateway.Common.{
  ℕ, ◌≡◌, refl, Bool, true, false, List, [], ◌∷◌, ◌++◌, Text, codes, All, Option, none, some, arith,
}
use aiprivacy_gateway.Domain.Errors.{ok}
use aiprivacy_gateway.Domain.Entity.{UnknownTokenAction}
use aiprivacy_gateway.Policy.Snapshot.{lookup}
use aiprivacy_gateway.Tokenization.Grammar.{
  Token, find_tokens, is_valid_entity_type, is_valid_token_id,
}
use aiprivacy_gateway.Tokenization.Grammar.Scan.{Layout, IsClear, is_plain, token_text}
use aiprivacy_gateway.Restoration.{
  Resolved, ProviderResponse, RestoredOutput, substitute, validated_content, restore,
}
use aiprivacy_gateway.Examples.Data.{email, identifier, email_token, counting_vault}

abbrev text : Text
text = codes "to ab cd"

abbrev known : Resolved
known = (token_text email_token, codes "ab") ∷ []

text_is_plain : is_plain text ≡ true
unfolding is_plain
text_is_plain = refl

to_is_plain : is_plain (codes "to ") ≡ true
unfolding is_plain
to_is_plain = refl

nothing_is_plain : is_plain [] ≡ true
unfolding is_plain
nothing_is_plain = refl

email_is_valid : is_valid_entity_type email ≡ true
unfolding is_valid_entity_type aiprivacy_gateway.Common.text_eq
    aiprivacy_gateway.Tokenization.Grammar.mem_chars
email_is_valid = refl

identifier_is_valid : is_valid_token_id identifier ≡ true
unfolding is_valid_token_id aiprivacy_gateway.Tokenization.Grammar.mem_chars
identifier_is_valid = refl

known_original : lookup (token_text email_token) known ≡ some (codes "ab")
unfolding lookup aiprivacy_gateway.Common.text_eq
    aiprivacy_gateway.Tokenization.Grammar.render_token
known_original = refl

abbrev layout : Layout
layout = (codes "to ", email_token) ∷ []

layout-IsClear : All IsClear layout
layout-IsClear = ((to_is_plain, email_is_valid, identifier_is_valid), tt)

abbrev is_empty : Text → Bool
is_empty [] = true
is_empty (_ ∷ _) = false

abbrev plain_response : ProviderResponse
plain_response = record { content = some (codes "hi"); model = some (codes "m") }

plain_accepted : validated_content is_empty plain_response 9 ≡ ok (codes "hi", codes "m")
unfolding validated_content
plain_accepted = refl

hi_is_plain : is_plain (codes "hi") ≡ true
unfolding is_plain
hi_is_plain = refl

abbrev token_response : ProviderResponse
token_response = record { content = some (token_text email_token); model = some (codes "m") }

abbrev token_output : RestoredOutput
token_output = record {
  text = codes "ab";
  summary = record {
    detected = 0;
    tokenized = 0;
    redacted = 0;
    pseudonymized = 0;
    blocked = 0;
    allowed = 0;
    restored = 1;
    unknown_tokens = 0;
    entity_types = [];
  };
  model = codes "m";
}

token_run :
    restore is_empty 99 1 2 counting_vault UnknownTokenAction.fail token_response 0
    ≡ (ok token_output, 1)
unfolding restore aiprivacy_gateway.Tokenization.Grammar.render_token
    aiprivacy_gateway.Restoration.restore_text aiprivacy_gateway.Common.text_eq
    aiprivacy_gateway.Tokenization.Grammar.mem_chars aiprivacy_gateway.Restoration.finish
    aiprivacy_gateway.Restoration.distinct lookup
token_run = refl
