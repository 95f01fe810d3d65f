-- ===== src/Tokenization/Grammar/Scan.antt =====
-- `find_tokens` (app/tokenization/grammar.py) on texts with tokens in them.
use aiprivacy_gateway.Common.{
  ℕ, suc, ◌+◌, ◌-◌, ◌≤◌, ◌≡◌, refl, ap, sym, subst, ◌∙◌, Bool, true, false, not, List, [], ◌∷◌,
  ◌++◌, Text, text_eq, length, take, drop, all, All, length-append, take-append_left,
  drop-append_left, append_assoc, append-nil, ◌==◌, none, some, arith,
}
use aiprivacy_gateway.Tokenization.Grammar.{
  Token, TokenMatch, left_delimiter, right_delimiter, field_separator, is_entity_type_char,
  is_valid_entity_type, is_valid_token_id, render_token, span_type, matches_tail, pattern_length,
  find_from, find_tokens, parse_token, mem_chars,
}
use aiprivacy_gateway.Tokenization.Grammar.Chars.{entity_type-chars}
use aiprivacy_gateway.Tokenization.Grammar.Parse.{parse_token-render_token}

-- No left delimiter in the text.
unfoldable pub is_plain : Text → Bool
is_plain text = all (λ c. not (c == left_delimiter)) text

find_from-skip :
    (pos : ℕ) (a rest : Text)
    → find_from pos (length a) (a ++ rest) ≡ find_from (pos + length a) 0 rest
unfolding find_from
find_from-skip pos [] rest = ap (λ p. find_from p 0 rest) (omega arith)
find_from-skip pos (c ∷ a) rest =
    find_from-skip (pos + 1) a rest ∙ ap (λ p. find_from p 0 rest) (omega arith)

pattern_length-plain :
    (c : ℕ) (text : Text) → (c == left_delimiter) ≡ false → pattern_length (c ∷ text) ≡ none
unfolding pattern_length text_eq
pattern_length-plain c text h = rw h

find_from-plain :
    (pos : ℕ) (a rest : Text)
    → is_plain a ≡ true
    → find_from pos 0 (a ++ rest) ≡ find_from (pos + length a) 0 rest
unfolding find_from is_plain
find_from-plain pos [] rest h = ap (λ p. find_from p 0 rest) (omega arith)
find_from-plain pos (c ∷ a) rest h =
    rw (pattern_length-plain c (a ++ rest) (ground arith), find_from)
      (find_from-plain (pos + 1) a rest (ground arith) ∙ ap (λ p. find_from p 0 rest) (omega arith))

separator-no_type_char : is_entity_type_char field_separator ≡ false
unfolding mem_chars
separator-no_type_char = refl

span_type-append :
    (type rest : Text)
    → all is_entity_type_char type ≡ true
    → span_type (type ++ field_separator ∷ rest) ≡ (type, field_separator ∷ rest)
unfolding span_type
span_type-append [] rest h = rw separator-no_type_char
span_type-append (c ∷ type) rest h = ground (arith, span_type-append type rest)

type_bounds :
    (type : Text) → is_valid_entity_type type ≡ true → (1 ≤ length type) × (length type ≤ 64)
unfolding is_valid_entity_type
type_bounds type h = ground arith

id_length : (id : Text) → is_valid_token_id id ≡ true → length id ≡ 26
unfolding is_valid_token_id
id_length id h = ground arith

matches_tail-id :
    (id rest : Text)
    → is_valid_token_id id ≡ true
    → (matches_tail (field_separator ∷ (id ++ right_delimiter ∷ rest)) ≡ true) × (length id ≡ 26)
unfolding matches_tail text_eq
matches_tail-id id rest h =
    let n = id_length id h in
    let t : take 26 (id ++ right_delimiter ∷ rest) ≡ id =
      subst (λ k. take k (id ++ right_delimiter ∷ rest) ≡ id) n
        (take-append_left id (right_delimiter ∷ rest)) in
    let d : drop 26 (id ++ right_delimiter ∷ rest) ≡ right_delimiter ∷ rest =
      subst (λ k. drop k (id ++ right_delimiter ∷ rest) ≡ right_delimiter ∷ rest) n
        (drop-append_left id (right_delimiter ∷ rest)) in
    (rw (t, d, h), n)

pattern_length-render_token :
    (type id rest : Text)
    → is_valid_entity_type type ≡ true
    → is_valid_token_id id ≡ true
    → pattern_length (render_token type id ++ rest) ≡ some (length (render_token type id))
unfolding pattern_length render_token text_eq
pattern_length-render_token type id rest h k =
    let after = id ++ right_delimiter ∷ rest in
    let e : (type ++ field_separator ∷ (id ++ right_delimiter ∷ [])) ++ rest
        ≡ type ++ field_separator ∷ after =
      simp append_assoc in
    ground (
      arith,
      e,
      span_type-append type after (entity_type-chars type h),
      matches_tail-id id rest k,
      type_bounds type h,
      length-append {0} type (field_separator ∷ (id ++ right_delimiter ∷ [])),
      length-append {0} id (right_delimiter ∷ []),
    )

find_from-match :
    (pos c : ℕ) (body rest : Text) (t : Token)
    → pattern_length (c ∷ (body ++ rest)) ≡ some (suc (length body))
    → parse_token (c ∷ body) ≡ some t
    → find_from pos 0 (c ∷ (body ++ rest))
      ≡ record { token = t; start = pos; end = pos + suc (length body) }
        ∷ find_from (pos + suc (length body)) 0 rest
unfolding find_from
find_from-match pos c body rest t h k =
    let pred : suc (length body) - 1 ≡ length body = omega arith in
    let next : pos + 1 + length body ≡ pos + suc (length body) = omega arith in
    rw (h, find_from, take-append_left body rest, k, pred, find_from-skip (pos + 1) body rest, next)

find_from-token :
    (pos : ℕ) (type id rest : Text)
    → is_valid_entity_type type ≡ true
    → is_valid_token_id id ≡ true
    → find_from pos 0 (render_token type id ++ rest)
      ≡ record {
        token = record { entity_type = type; token_id = id };
        start = pos;
        end = pos + length (render_token type id);
      }
        ∷ find_from (pos + length (render_token type id)) 0 rest
unfolding render_token
find_from-token pos type id rest h k =
    find_from-match pos left_delimiter _ rest _ (pattern_length-render_token type id rest h k)
      (parse_token-render_token type id h k)

-- A text with tokens in it: each with the text that stands before it, and the text at the end.
abbrev pub Layout : Type 0
Layout = List (Text × Token)

abbrev pub token_text : Token → Text
token_text t = render_token t.entity_type t.token_id

abbrev pub render_layout : Layout → Text → Text
render_layout [] end = end
render_layout ((before, t) ∷ rest) end = before ++ (token_text t ++ render_layout rest end)

-- Only the tokens of the layout hold a left delimiter, and they are well formed.
abbrev pub IsClear : Text × Token → Type 0
IsClear p =
    (is_plain p.0 ≡ true)
    × (is_valid_entity_type p.1.entity_type ≡ true)
    × (is_valid_token_id p.1.token_id ≡ true)

abbrev pub matches_of : ℕ → Layout → List TokenMatch
matches_of pos [] = []
matches_of pos ((before, t) ∷ rest) =
    let end = pos + length before + length (token_text t) in
    record { token = t; start = pos + length before; end = end } ∷ matches_of end rest

find_from-end : (pos : ℕ) (end : Text) → is_plain end ≡ true → find_from pos 0 end ≡ []
unfolding find_from
find_from-end pos end h = ap (find_from pos 0) (sym (append-nil end)) ∙ find_from-plain pos end [] h

find_from-layout :
    (pos : ℕ) (layout : Layout) (end : Text)
    → All IsClear layout
    → is_plain end ≡ true
    → find_from pos 0 (render_layout layout end) ≡ matches_of pos layout
find_from-layout pos [] end h k = find_from-end pos end k
find_from-layout pos ((before, t) ∷ rest) end h k =
    find_from-plain pos before _ h.0.0
    ∙ find_from-token (pos + length before) t.entity_type t.token_id _ h.0.1 h.0.2
    ∙ rw (find_from-layout (pos + length before + length (token_text t)) rest end h.1 k)

-- In a text made of valid tokens and of parts without left delimiter, the scanner finds the
-- tokens, in order and at their places, and nothing else.
pub find_tokens-render_layout :
    (layout : Layout) (end : Text)
    → All IsClear layout
    → is_plain end ≡ true
    → find_tokens (render_layout layout end) ≡ matches_of 0 layout
unfolding find_tokens
find_tokens-render_layout layout end h k = find_from-layout 0 layout end h k
