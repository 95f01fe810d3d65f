-- ===== src/Tokenization/Grammar.antt =====
-- The token grammar (app/tokenization/grammar.py): builder, strict parser and scanner.
pub mod Chars
pub mod Split
pub mod Parse
pub mod Scan
use aiprivacy_gateway.Common.{
  ℕ, zero, suc, ◌+◌, ◌-◌, Bool, true, false, ◌&&◌, List, [], ◌∷◌, ◌++◌, Text, codes, text_eq,
  length, take, drop, slice, any, all, ltb, leb, ◌==◌, Option, none, some, if◌then◌else◌, mem_text,
}
use aiprivacy_gateway.Domain.Errors.{Result, ok, err, value_error}

abbrev pub left_delimiter : ℕ
left_delimiter = 0x27E6

abbrev pub right_delimiter : ℕ
right_delimiter = 0x27E7

abbrev pub field_separator : ℕ
field_separator = b':'

abbrev pub namespace : Text
namespace = codes "SGW"

abbrev pub redacted_marker : Text
redacted_marker = codes "REDACTED"

abbrev pub token_id_length : ℕ
token_id_length = 26

abbrev pub max_entity_type_length : ℕ
max_entity_type_length = 64

abbrev pub crockford_alphabet : Text
crockford_alphabet = codes "0123456789ABCDEFGHJKMNPQRSTVWXYZ"

abbrev pub entity_type_chars : Text
entity_type_chars = codes "ABCDEFGHIJKLMNOPQRSTUVWXYZ0123456789_"

-- `char in chars`
unfoldable pub mem_chars : Text → ℕ → Bool
mem_chars chars char = any (λ c. c == char) chars

abbrev pub is_crockford : ℕ → Bool
is_crockford = mem_chars crockford_alphabet

abbrev pub is_entity_type_char : ℕ → Bool
is_entity_type_char = mem_chars entity_type_chars

pub record Token : Type 0 where
  pub entity_type : Text
  pub token_id : Text

unfoldable pub is_valid_entity_type : Text → Bool
is_valid_entity_type type =
    if leb 1 (length type) && leb (length type) max_entity_type_length
    then if text_eq type redacted_marker then false else all is_entity_type_char type
    else false

unfoldable pub is_valid_token_id : Text → Bool
is_valid_token_id id = if length id == token_id_length then all is_crockford id else false

-- The text that the f-string of `format_token` builds.
unfoldable pub render_token : Text → Text → Text
render_token type id =
    left_delimiter
    ∷ (namespace ++ field_separator ∷ (type ++ field_separator ∷ (id ++ right_delimiter ∷ [])))

unfoldable pub format_token : Text → Text → Result Text
unfolding is_valid_entity_type is_valid_token_id render_token
format_token type id =
    if is_valid_entity_type type
    then if is_valid_token_id id then ok (render_token type id) else err value_error
    else err value_error

unfoldable pub render_redaction : Text → Text
render_redaction type =
    left_delimiter
    ∷ (namespace
        ++ field_separator ∷ (redacted_marker ++ field_separator ∷ (type ++ right_delimiter ∷ [])))

unfoldable pub format_redaction : Text → Result Text
unfolding is_valid_entity_type render_redaction
format_redaction type =
    if is_valid_entity_type type then ok (render_redaction type) else err value_error

-- `text.split(":")`
abbrev pub onto_first : ℕ → List Text → List Text
onto_first c [] = (c ∷ []) ∷ []
onto_first c (field ∷ fields) = (c ∷ field) ∷ fields

unfoldable pub split : Text → List Text
split [] = [] ∷ []
split (c ∷ text) =
    let rest = split text in if c == field_separator then [] ∷ rest else onto_first c rest

-- The checks on the three fields.
unfoldable pub parse_fields : List Text → Option Token
unfolding is_valid_entity_type is_valid_token_id
parse_fields (found ∷ type ∷ id ∷ []) =
    if text_eq found namespace
    then if is_valid_entity_type type
      then if is_valid_token_id id
        then some (record { entity_type = type; token_id = id })
        else none
      else none
    else none
parse_fields _ = none

abbrev pub minimum_length : ℕ
minimum_length = 34

unfoldable pub parse_token : Text → Option Token
unfolding split parse_fields
parse_token candidate =
    if ltb (length candidate) minimum_length
    then none
    else if text_eq (take 1 candidate) (left_delimiter ∷ [])
        && text_eq (drop (length candidate - 1) candidate) (right_delimiter ∷ [])
    then parse_fields (split (slice 1 (length candidate - 1) candidate))
    else none

-- The longest prefix of entity type characters, and what follows it.
unfoldable pub span_type : Text → Text × Text
span_type [] = ([], [])
span_type (c ∷ text) =
    let (run, rest) = span_type text in
    if is_entity_type_char c then (c ∷ run, rest) else ([], c ∷ text)

-- What follows the type in `TOKEN_PATTERN`: the separator, 26 identifier characters, the delimiter.
unfoldable pub matches_tail : Text → Bool
matches_tail [] = false
matches_tail (c ∷ rest) =
    c == field_separator
    && (is_valid_token_id (take token_id_length rest)
        && text_eq (take 1 (drop token_id_length rest)) (right_delimiter ∷ []))

-- `TOKEN_PATTERN` at the front of a text: the length of the match. The separator is no type
-- character, so the type field of a match is the longest run.
unfoldable pub pattern_length : Text → Option ℕ
unfolding span_type matches_tail
pattern_length text =
    let (run, rest) = span_type (drop 5 text) in
    if text_eq (take 5 text) (left_delimiter ∷ (namespace ++ field_separator ∷ []))
    then if leb 1 (length run) && (leb (length run) max_entity_type_length && matches_tail rest)
      then some (5 + (length run + 28))
      else none
    else none

pub record TokenMatch : Type 0 where
  pub token : Token
  pub start : ℕ
  pub end : ℕ

-- `match.text`: the canonical rendering of the token.
abbrev pub match_text : TokenMatch → Text
match_text m = render_token m.token.entity_type m.token.token_id

abbrev record_match : Option Token → ℕ → ℕ → List TokenMatch → List TokenMatch
record_match none start end rest = rest
record_match (some token) start end rest = record { token = token; start = start; end = end } ∷ rest

-- `TOKEN_PATTERN.finditer` from offset `pos`, with the check by `parse_token`. Matches do not overlap:
-- after one, as many characters as it covers are passed over.
unfoldable pub find_from : ℕ → ℕ → Text → List TokenMatch
find_from pos skip [] = []
find_from pos (suc k) (c ∷ text) = find_from (pos + 1) k text
find_from pos zero (c ∷ text) = elim (pattern_length (c ∷ text)) [
  | none ↦ find_from (pos + 1) 0 text
  | some n ↦
      record_match (parse_token (take n (c ∷ text))) pos (pos + n)
        (find_from (pos + 1) (n - 1) text)
]

unfoldable pub find_tokens : Text → List TokenMatch
unfolding find_from pattern_length parse_token
find_tokens text = find_from 0 0 text
