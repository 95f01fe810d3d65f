-- ===== src/Examples/Data.antt =====
-- Inputs for the examples: simple instances of the parameters, spans, a policy and a vault.
use aiprivacy_gateway.Common.{
  ℕ, ◌+◌, ◌-◌, Bool, true, false, ◌&&◌, List, [], ◌∷◌, map, Text, codes, leb, ◌==◌, if◌then◌else◌,
  none, some, pos,
}
use aiprivacy_gateway.Domain.Errors.{Result, ok}
use aiprivacy_gateway.Domain.Entity.{
  DetectedEntity, EntityAction, UnknownTokenAction, tokenize, block, score_one,
}
use aiprivacy_gateway.Detection.Characters.{Characters}
use aiprivacy_gateway.Detection.Config.{DetectionConfig}
use aiprivacy_gateway.Detection.Postprocess.{Candidate}
use aiprivacy_gateway.Policy.Snapshot.{EntityRule, PolicyDocument, PolicySnapshot}
use aiprivacy_gateway.Tokenization.Platform.{Platform}
use aiprivacy_gateway.Tokenization.Grammar.{Token}
use aiprivacy_gateway.Tokenization.Vault.{Vault}

abbrev is_ascii_digit : ℕ → Bool
is_ascii_digit c = leb 48 c && leb c 57

abbrev pub ascii : Characters
ascii = record { is_space = λ c. c == 32; is_digit = is_ascii_digit; casefold = λ t. t }

abbrev pub plain_platform : Platform
plain_platform = record {
  nfkc = λ t. t;
  lower = λ t. t;
  upper = λ t. t;
  is_space = λ c. c == 32;
  is_decimal = is_ascii_digit;
  is_digit = is_ascii_digit;
  is_alpha = λ c. leb 97 c && leb c 122;
  is_alnum = is_ascii_digit;
  is_upper = λ c. false;
  decimal = λ c. c - 48;
  utf8 = λ t. t;
  uuid_bytes = λ n. n ∷ [];
  hmac_sha256_hex = λ key message. codes "00";
  blake2b_64 = λ b. 7 ∷ 3 ∷ [];
}

abbrev pub email : Text
email = codes "EMAIL_ADDRESS"

abbrev pub ssn : Text
ssn = codes "US_SSN"

abbrev pub span : Text → ℕ → ℕ → DetectedEntity
span type start end = record {
  entity_type = type;
  start = start;
  end = end;
  score = score_one;
  recognizer = none;
}

abbrev pub hit : Text → ℕ → ℕ → Candidate
hit type start end = record {
  entity_type = type;
  start = pos start;
  end = pos end;
  score = pos score_one;
  recognizer = some (codes "r");
}

abbrev pub severity_table : List (Text × ℕ)
severity_table = (ssn, 30) ∷ (email, 20) ∷ []

abbrev pub small_config : DetectionConfig
small_config = record {
  supported_languages = codes "en" ∷ [];
  enabled_entities = email ∷ ssn ∷ [];
  entity_thresholds = [];
  entity_priority = severity_table;
  min_score = 1;
  allowlist = [];
  max_entities = 1;
  spacy_model = codes "m";
}

abbrev pub identifier : Text
identifier = codes "0123456789ABCDEFGHJKMNPQRS"

abbrev pub email_token : Token
email_token = record { entity_type = email; token_id = identifier }

-- A policy that tokenizes e-mail addresses and blocks social security numbers.
abbrev rule : EntityAction → EntityRule
rule action = record { action = action; min_score = 1; enabled = true }

abbrev pub small_document : PolicyDocument
small_document = record {
  name = codes "p";
  session_ttl_seconds = 60;
  max_entities = 2;
  providers = (codes "openai", codes "gpt" ∷ []) ∷ [];
  entities = (ssn, rule block) ∷ (email, rule tokenize) ∷ [];
  unknown_output_token_action = UnknownTokenAction.fail;
}

abbrev pub small_policy : PolicySnapshot
small_policy = record {
  policy_id = 1;
  tenant_id = 2;
  version = 3;
  name = codes "p";
  session_ttl_seconds = 60;
  max_entities = 1;
  unknown_output_token_action = UnknownTokenAction.fail;
  entities = (ssn, rule block) ∷ (email, rule tokenize) ∷ [];
  providers = (codes "openai", codes "gpt" ∷ []) ∷ [];
}

-- A vault that counts its calls, mints one token and knows one original value.
abbrev pub counting_vault : Vault ℕ
counting_vault = record {
  get_or_create_many =
      λ tenant_id session_id entries ttl_seconds s. (ok (map (λ e. identifier) entries), s + 1);
  resolve_many = λ tenant_id session_id tokens s. (ok (map (λ t. (t, codes "ab")) tokens), s + 1);
}

-- A detector that reports a text's first letter if it is an "a".
abbrev pub first_letter : Text → Result (List DetectedEntity)
first_letter [] = ok []
first_letter (c ∷ text) = if c == 97 then ok (span email 0 1 ∷ []) else ok []
