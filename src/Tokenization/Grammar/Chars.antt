-- ===== src/Tokenization/Grammar/Chars.antt =====
-- The alphabets of the token grammar, as lemmas.
use aiprivacy_gateway.Common.{
  ℕ, ◌≡◌, refl, Bool, true, ◌&&◌, [], ◌∷◌, Text, all, ◌==◌, ==_iff, arith, not,
}
use aiprivacy_gateway.Tokenization.Grammar.{
  mem_chars, is_crockford, is_entity_type_char, crockford_alphabet, entity_type_chars,
  field_separator, left_delimiter, right_delimiter, is_valid_entity_type, is_valid_token_id,
}

mem_chars-all :
    (chars : Text) (p : ℕ → Bool) (c : ℕ)
    → mem_chars chars c ≡ true
    → all p chars ≡ true
    → p c ≡ true
unfolding mem_chars
mem_chars-all [] p c h k = cc
mem_chars-all (x ∷ xs) p c h k = ground (arith, ==_iff x c, mem_chars-all xs p c)

-- A character that is no delimiter and no separator.
unfoldable pub is_inner : ℕ → Bool
is_inner c = not (c == field_separator) && (not (c == left_delimiter) && not (c == right_delimiter))

alphabets_inner : (all is_inner crockford_alphabet ≡ true) × (all is_inner entity_type_chars ≡ true)
unfolding is_inner
alphabets_inner = (refl, refl)

pub entity_type_char-inner : (c : ℕ) → is_entity_type_char c ≡ true → is_inner c ≡ true
entity_type_char-inner c h = mem_chars-all entity_type_chars is_inner c h alphabets_inner.1

crockford-inner : (c : ℕ) → is_crockford c ≡ true → is_inner c ≡ true
crockford-inner c h = mem_chars-all crockford_alphabet is_inner c h alphabets_inner.0

all_mono :
    (p q : ℕ → Bool) (xs : Text)
    → ((c : ℕ) → p c ≡ true → q c ≡ true)
    → all p xs ≡ true
    → all q xs ≡ true
all_mono p q [] f h = refl
all_mono p q (x ∷ xs) f h = ground (arith, f x, all_mono p q xs f)

pub entity_type-chars :
    (type : Text) → is_valid_entity_type type ≡ true → all is_entity_type_char type ≡ true
unfolding is_valid_entity_type
entity_type-chars type h = ground arith

pub entity_type-inner : (type : Text) → is_valid_entity_type type ≡ true → all is_inner type ≡ true
entity_type-inner type h =
    all_mono is_entity_type_char is_inner type entity_type_char-inner (entity_type-chars type h)

pub token_id-inner : (id : Text) → is_valid_token_id id ≡ true → all is_inner id ≡ true
unfolding is_valid_token_id
token_id-inner id h = all_mono is_crockford is_inner id crockford-inner (ground arith)
