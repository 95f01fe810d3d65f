-- ===== src/Tokenization/Identifiers.antt =====
-- Token identifiers (app/tokenization/ids.py): 16 bytes as 26 characters of Crockford's alphabet. The
-- random bytes are an argument.
use aiprivacy_gateway.Common.{
  ℕ, zero, suc, ◌+◌, ◌*◌, ◌/◌, ◌%◌, ◌^◌, ◌<◌, ◌≡◌, refl, ap, Bool, true, [], ◌∷◌, Text, length, all,
  ◌==◌, if◌then◌else◌, arith,
}
use aiprivacy_gateway.Domain.Errors.{Result, ok, err, value_error}
use aiprivacy_gateway.Tokenization.Platform.{Bytes}
use aiprivacy_gateway.Tokenization.Grammar.{
  token_id_length, crockford_alphabet, mem_chars, is_crockford, is_valid_token_id,
}

-- `int.from_bytes(raw, "big")`, with what has been read before.
unfoldable pub from_bytes : ℕ → Bytes → ℕ
from_bytes read [] = read
from_bytes read (byte ∷ raw) = from_bytes (read * 256 + byte) raw

-- `alphabet[i]`, which is never past the end here.
abbrev pub nth : ℕ → Text → ℕ
nth n [] = 0
nth zero (c ∷ text) = c
nth (suc n) (c ∷ text) = nth n text

-- The characters for the `count` lowest groups of five bits, the highest first.
unfoldable pub encode_groups : ℕ → ℕ → Text
encode_groups zero value = []
encode_groups (suc count) value =
    nth (value / 2 ^ (5 * count) % 32) crockford_alphabet ∷ encode_groups count value

unfoldable pub encode_crockford : Bytes → Result Text
unfolding encode_groups from_bytes
encode_crockford raw =
    if length raw == 16
    then ok (encode_groups token_id_length (from_bytes 0 raw))
    else err value_error

all-nth :
    (p : ℕ → Bool) (n : ℕ) (text : Text)
    → all p text ≡ true
    → n < length text
    → p (nth n text) ≡ true
all-nth p n [] h k = absurd (omega (arith, k))
all-nth p zero (c ∷ text) h k = ground arith
all-nth p (suc n) (c ∷ text) h k = all-nth p n text (ground (arith, h)) (omega (arith, k))

alphabet_is_crockford : all is_crockford crockford_alphabet ≡ true
unfolding mem_chars
alphabet_is_crockford = refl

length-encode_groups : (count value : ℕ) → length (encode_groups count value) ≡ count
unfolding encode_groups
length-encode_groups zero value = refl
length-encode_groups (suc count) value = ap suc (length-encode_groups count value)

all-encode_groups : (count value : ℕ) → all is_crockford (encode_groups count value) ≡ true
unfolding encode_groups
all-encode_groups zero value = refl
all-encode_groups (suc count) value =
    let digit = value / 2 ^ (5 * count) in
    let first =
      all-nth is_crockford (digit % 32) crockford_alphabet alphabet_is_crockford (omega arith) in
    ground (arith, first, all-encode_groups count value)

-- From 16 bytes, encode_crockford returns a text that the token grammar takes for an identifier.
pub encode_crockford-is_valid_token_id :
    (raw : Bytes)
    → length raw ≡ 16
    → (id : Text) × (encode_crockford raw ≡ ok id) × (is_valid_token_id id ≡ true)
unfolding encode_crockford is_valid_token_id
encode_crockford-is_valid_token_id raw h =
    let value = from_bytes 0 raw in
    (
      encode_groups token_id_length value,
      rw h refl,
      ground (
        arith,
        length-encode_groups token_id_length value,
        all-encode_groups token_id_length value,
      ),
    )
