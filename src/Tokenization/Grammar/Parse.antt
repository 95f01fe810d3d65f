-- ===== src/Tokenization/Grammar/Parse.antt =====
-- `parse_token` against the builders (app/tokenization/grammar.py).
use aiprivacy_gateway.Common.{
  suc, ◌+◌, ◌-◌, ◌≤◌, ◌≡◌, ◌↔◌, refl, ap, sym, ◌∙◌, true, List, [], ◌∷◌, ◌++◌, Text, text_eq,
  text_eq_iff, length, take, drop, slice, all, length-append, take-append-drop, take-append_left,
  drop-append_left, append_assoc, none, some, arith,
}
use aiprivacy_gateway.Domain.Errors.{ok}
use aiprivacy_gateway.Tokenization.Grammar.{
  Token, left_delimiter, right_delimiter, field_separator, namespace, redacted_marker,
  is_valid_entity_type, is_valid_token_id, render_token, render_redaction, format_token,
  format_redaction, split, parse_fields, parse_token, minimum_length,
}
use aiprivacy_gateway.Tokenization.Grammar.Chars.{is_inner, entity_type-inner, token_id-inner}
use aiprivacy_gateway.Tokenization.Grammar.Split.{split-last, split-append, join, join-split}

-- A text between the delimiters.
abbrev wrap : Text → Text
wrap body = left_delimiter ∷ (body ++ right_delimiter ∷ [])

length-wrap : (body : Text) → length (wrap body) ≡ length body + 2
length-wrap body = omega (arith, length-append {0} body (right_delimiter ∷ []))

length-wrap_pred : (body : Text) → length (wrap body) - 1 ≡ suc (length body)
length-wrap_pred body = omega (arith, length-wrap body)

wrap-last : (body : Text) → drop (length (wrap body) - 1) (wrap body) ≡ right_delimiter ∷ []
wrap-last body = rw (length-wrap_pred body) (drop-append_left body (right_delimiter ∷ []))

wrap-body : (body : Text) → slice 1 (length (wrap body) - 1) (wrap body) ≡ body
wrap-body body =
    let e : length (wrap body) - 1 - 1 ≡ length body = omega (arith, length-wrap body) in
    rw e (take-append_left body (right_delimiter ∷ []))

parse_token-wrap :
    (body : Text)
    → minimum_length ≤ length body + 2
    → parse_token (wrap body) ≡ parse_fields (split body)
unfolding parse_token
parse_token-wrap body h = ground (
  arith,
  length-wrap body,
  wrap-last body,
  wrap-body body,
  text_eq_iff (take 1 (wrap body)) (left_delimiter ∷ []),
  text_eq_iff (drop (length (wrap body) - 1) (wrap body)) (right_delimiter ∷ []),
)

wrap_of_ends :
    (c : Text)
    → 2 ≤ length c
    → take 1 c ≡ left_delimiter ∷ []
    → drop (length c - 1) c ≡ right_delimiter ∷ []
    → c ≡ wrap (slice 1 (length c - 1) c)
wrap_of_ends [] h p q = absurd (omega arith)
wrap_of_ends (x ∷ []) h p q = absurd (omega arith)
wrap_of_ends (x ∷ (y ∷ ys)) h p q =
    let e : length (x ∷ (y ∷ ys)) - 1 ≡ suc (length ys) = omega arith in
    let f : length (x ∷ (y ∷ ys)) - 1 - 1 ≡ length ys = omega arith in
    let last : drop (length ys) (y ∷ ys) ≡ right_delimiter ∷ [] = rw e at q in
    rw f (cc (p, last, take-append-drop (length ys) (y ∷ ys)))

-- The body of a token.
abbrev fields_of : Text → Text → List Text
fields_of type id = namespace ∷ type ∷ id ∷ []

render_token-wrap : (type id : Text) → render_token type id ≡ wrap (join (fields_of type id))
unfolding render_token
render_token-wrap type id = simp append_assoc

namespace-inner : all is_inner namespace ≡ true
unfolding is_inner
namespace-inner = refl

split-fields :
    (type id : Text)
    → is_valid_entity_type type ≡ true
    → is_valid_token_id id ≡ true
    → split (join (fields_of type id)) ≡ fields_of type id
split-fields type id h k = rw (
  split-append namespace (type ++ field_separator ∷ id) namespace-inner,
  split-append type id (entity_type-inner type h),
  split-last id (token_id-inner id k),
)

length-fields :
    (type id : Text)
    → is_valid_entity_type type ≡ true
    → is_valid_token_id id ≡ true
    → minimum_length ≤ length (join (fields_of type id)) + 2
unfolding is_valid_entity_type is_valid_token_id
length-fields type id h k = ground (arith, length-append {0} type (field_separator ∷ id))

parse_fields-valid :
    (type id : Text)
    → is_valid_entity_type type ≡ true
    → is_valid_token_id id ≡ true
    → parse_fields (fields_of type id) ≡ some (record { entity_type = type; token_id = id })
unfolding parse_fields
parse_fields-valid type id h k = unfold text_eq in rw (h, k)

parse_fields-eq :
    (fields : List Text) {t : Token}
    → parse_fields fields ≡ some t
    → (fields ≡ fields_of t.entity_type t.token_id)
      × (is_valid_entity_type t.entity_type ≡ true)
      × (is_valid_token_id t.token_id ≡ true)
unfolding parse_fields
parse_fields-eq (found ∷ type ∷ id ∷ []) h = ground (arith, text_eq_iff found namespace)
parse_fields-eq _ h = cc

parse_token-ends :
    (c : Text) {t : Token}
    → parse_token c ≡ some t
    → (2 ≤ length c)
      × (take 1 c ≡ left_delimiter ∷ [])
      × (drop (length c - 1) c ≡ right_delimiter ∷ [])
      × (parse_fields (split (slice 1 (length c - 1) c)) ≡ some t)
unfolding parse_token
parse_token-ends c h = ground (
  arith,
  text_eq_iff (take 1 c) (left_delimiter ∷ []),
  text_eq_iff (drop (length c - 1) c) (right_delimiter ∷ []),
)

-- Both fields valid: the rendered token parses back to them.
pub parse_token-render_token :
    (type id : Text)
    → is_valid_entity_type type ≡ true
    → is_valid_token_id id ≡ true
    → parse_token (render_token type id) ≡ some (record { entity_type = type; token_id = id })
unfolding parse_fields
parse_token-render_token type id h k = rw (render_token-wrap type id) (
    parse_token-wrap (join (fields_of type id)) (length-fields type id h k)
    ∙ ap parse_fields (split-fields type id h k)
    ∙ parse_fields-valid type id h k)

-- What parses is a rendered token of valid fields.
pub render_token-parse_token :
    (candidate : Text) {t : Token}
    → parse_token candidate ≡ some t
    → (candidate ≡ render_token t.entity_type t.token_id)
      × (is_valid_entity_type t.entity_type ≡ true)
      × (is_valid_token_id t.token_id ≡ true)
render_token-parse_token candidate {t} h =
    let (long, starts, ends, parsed) = parse_token-ends candidate h in
    let (fields, type_valid, id_valid) = parse_fields-eq _ parsed in
    let body = slice 1 (length candidate - 1) candidate in
    (
      wrap_of_ends candidate long starts ends
          ∙ ap wrap (sym (join-split body) ∙ ap join fields)
          ∙ sym (render_token-wrap t.entity_type t.token_id),
      type_valid,
      id_valid,
    )

-- parse_token accepts a text exactly when format_token builds it, and returns the very fields
-- that it was built from.
pub parse_token-iff-format_token :
    (candidate type id : Text)
    → (parse_token candidate ≡ some (record { entity_type = type; token_id = id }))
      ↔ (format_token type id ≡ ok candidate)
unfolding format_token
parse_token-iff-format_token candidate type id = (
  λ h. ground (arith, render_token-parse_token candidate h),
  λ h. ground (arith, parse_token-render_token type id),
)

redaction_fields : Text → List Text
redaction_fields type = namespace ∷ redacted_marker ∷ type ∷ []

redacted_marker-inner : all is_inner redacted_marker ≡ true
unfolding is_inner
redacted_marker-inner = refl

parse_fields-redaction : (type : Text) → parse_fields (redaction_fields type) ≡ none
unfolding parse_fields redaction_fields text_eq
parse_fields-redaction type = refl

split-redaction :
    (type : Text)
    → is_valid_entity_type type ≡ true
    → split (join (redaction_fields type)) ≡ redaction_fields type
unfolding redaction_fields
split-redaction type h = rw (
  split-append namespace (redacted_marker ++ field_separator ∷ type) namespace-inner,
  split-append redacted_marker type redacted_marker-inner,
  split-last type (entity_type-inner type h),
)

render_redaction-wrap : (type : Text) → render_redaction type ≡ wrap (join (redaction_fields type))
unfolding render_redaction redaction_fields
render_redaction-wrap type = refl

parse_token-none_of_body :
    (body : Text) → parse_fields (split body) ≡ none → parse_token (wrap body) ≡ none
unfolding parse_token
parse_token-none_of_body body h = ground (arith, wrap-body body)

-- A text that format_redaction returns is refused by parse_token.
pub parse_token-format_redaction :
    (type : Text) {placeholder : Text}
    → format_redaction type ≡ ok placeholder
    → parse_token placeholder ≡ none
unfolding format_redaction
parse_token-format_redaction type {placeholder} h =
    let valid : is_valid_entity_type type ≡ true = ground arith in
    let built : placeholder ≡ wrap (join (redaction_fields type)) =
      ground (arith, render_redaction-wrap type) in
    rw built (
      parse_token-none_of_body (join (redaction_fields type))
        (rw (split-redaction type valid) (parse_fields-redaction type)))
