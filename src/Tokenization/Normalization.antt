-- ===== src/Tokenization/Normalization.antt =====
-- Canonical forms for matching (app/tokenization/normalization.py).
use mathlib.Core.List.{reverse}
use aiprivacy_gateway.Common.{
  ◌+◌, Bool, true, false, List, [], ◌∷◌, map, Text, codes, text_eq, mem_text, keep, if◌then◌else◌,
}
use aiprivacy_gateway.Tokenization.Platform.{Platform}

module _ (p : Platform) where
  -- `value.split()` and `" ".join`: a word is put out with a space before it, but for the first.
  unfoldable pub collapse_from : Bool → Bool → Text → Text
  collapse_from started gap [] = []
  collapse_from started gap (c ∷ value) =
      let skipped = collapse_from started true value in
      let spaced = b' ' ∷ (c ∷ collapse_from true false value) in
      let plain = c ∷ collapse_from true false value in
      if p.is_space c then skipped else if started then (if gap then spaced else plain) else plain

  unfoldable pub collapse_whitespace : Text → Text
  unfolding collapse_from
  collapse_whitespace value = collapse_from false false value

  unfoldable pub lstrip : Text → Text
  lstrip [] = []
  lstrip (c ∷ text) = let rest = lstrip text in if p.is_space c then rest else c ∷ text

  unfoldable pub strip : Text → Text
  unfolding lstrip
  strip text = reverse (lstrip (reverse (lstrip text)))

  unfoldable pub ascii_digits : Text → Text
  ascii_digits value = map (λ c. 48 + p.decimal c) (keep p.is_decimal value)

  unfoldable pub alphanumeric_upper : Text → Text
  alphanumeric_upper value = p.upper (keep p.is_alnum (p.nfkc value))

  unfoldable pub normalize_default : Text → Text
  unfolding collapse_whitespace
  normalize_default value = collapse_whitespace (p.nfkc value)

  -- `normalize_email` and `normalize_hostname`.
  unfoldable pub normalize_lowered : Text → Text
  unfolding collapse_whitespace
  normalize_lowered value = p.lower (collapse_whitespace (p.nfkc value))

  -- `normalize_phone` and `normalize_numeric_identifier`.
  unfoldable pub normalize_digits : Text → Text
  unfolding ascii_digits
  normalize_digits value = ascii_digits (p.nfkc value)

  unfoldable pub normalize_case_sensitive : Text → Text
  unfolding strip
  normalize_case_sensitive value = strip (p.nfkc value)

  abbrev lowered_types : List Text
  lowered_types =
      codes "EMAIL_ADDRESS" ∷ codes "IP_ADDRESS" ∷ codes "URL" ∷ codes "DOMAIN_NAME" ∷ []

  abbrev digit_types : List Text
  digit_types =
      codes "PHONE_NUMBER"
      ∷ codes "US_SSN"
      ∷ codes "US_ITIN"
      ∷ codes "US_BANK_NUMBER"
      ∷ codes "CREDIT_CARD"
      ∷ codes "UK_NHS"
      ∷ []

  abbrev alphanumeric_types : List Text
  alphanumeric_types =
      codes "IBAN_CODE"
      ∷ codes "US_PASSPORT"
      ∷ codes "US_DRIVER_LICENSE"
      ∷ codes "MEDICAL_LICENSE"
      ∷ []

  -- The table `NORMALIZERS`; PERSON, LOCATION, ORGANIZATION and NRP have the default's rule.
  unfoldable pub normalize : Text → Text → Text
  unfolding normalize_lowered normalize_digits alphanumeric_upper normalize_case_sensitive
      normalize_default
  normalize entity_type value =
      let type = p.upper entity_type in
      if mem_text type lowered_types
      then normalize_lowered value
      else if mem_text type digit_types
      then normalize_digits value
      else if mem_text type alphanumeric_types
      then alphanumeric_upper value
      else if text_eq type (codes "CRYPTO")
      then normalize_case_sensitive value
      else normalize_default value
