-- ===== src/Detection/Checksums.antt =====
-- The card checksum (app/detection/checksums.py).
use mathlib.Core.List.{reverse}
use aiprivacy_gateway.Common.{
  ℕ, ◌+◌, ◌-◌, ◌*◌, ◌%◌, Bool, true, false, ◌&&◌, [], ◌∷◌, Text, codes, text_eq, length, keep, ltb,
  leb, ◌==◌, if◌then◌else◌,
}
use aiprivacy_gateway.Detection.Characters.{Characters}

abbrev pub min_card_digits : ℕ
min_card_digits = 13

abbrev pub max_card_digits : ℕ
max_card_digits = 19

-- `ord(char) - ord("0")`: every character that `isdigit` accepts stands at or above "0".
abbrev pub digit_value : ℕ → ℕ
digit_value char = char - 48

-- What one digit adds, by whether its position from the right is odd.
unfoldable pub luhn_term : Bool → ℕ → ℕ
luhn_term false digit = digit
luhn_term true digit = let twice = digit * 2 in if ltb 9 twice then twice - 9 else twice

-- The loop over `enumerate(reversed(digits))`, with the parity of the position.
unfoldable pub luhn_total : Bool → Text → ℕ
unfolding luhn_term
luhn_total odd [] = 0
luhn_total odd (char ∷ rest) =
    luhn_term odd (digit_value char) + luhn_total (if odd then false else true) rest

module _ (u : Characters) where
  unfoldable pub digits_only : Text → Text
  digits_only value = keep u.is_digit value

  unfoldable pub luhn_is_valid : Text → Bool
  unfolding digits_only luhn_total
  luhn_is_valid value =
      let digits = digits_only value in
      if ltb (length digits) 2 then false else luhn_total false (reverse digits) % 10 == 0

  unfoldable pub is_valid_credit_card : Text → Bool
  unfolding luhn_is_valid
  is_valid_credit_card value =
      let digits = digits_only value in
      if leb min_card_digits (length digits) && leb (length digits) max_card_digits
      then luhn_is_valid digits
      else false

  -- `VALUE_VALIDATORS`, with the types that it does not list.
  unfoldable pub value_is_valid : Text → Text → Bool
  unfolding is_valid_credit_card
  value_is_valid entity_type value =
      if text_eq entity_type (codes "CREDIT_CARD") then is_valid_credit_card value else true
