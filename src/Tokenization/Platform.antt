-- ===== src/Tokenization/Platform.antt =====
-- What the tokenization code calls of Python's library: the Unicode tables behind `str` and
-- `unicodedata`, UTF-8, UUIDs as bytes, and the keyed and unkeyed digests. All are parameters.
use aiprivacy_gateway.Common.{ℕ, ◌/◌, ◌%◌, zero, suc, Bool, List, [], ◌∷◌, ◌++◌, Text}

abbrev pub Bytes : Type 0
Bytes = List ℕ

pub record Platform : Type 0 where
  pub nfkc : Text → Text
  pub lower : Text → Text
  pub upper : Text → Text
  pub is_space : ℕ → Bool
  pub is_decimal : ℕ → Bool
  pub is_digit : ℕ → Bool
  pub is_alpha : ℕ → Bool
  pub is_alnum : ℕ → Bool
  pub is_upper : ℕ → Bool
  pub decimal : ℕ → ℕ
  pub utf8 : Text → Bytes
  pub uuid_bytes : ℕ → Bytes
  pub hmac_sha256_hex : Bytes → Bytes → Text
  pub blake2b_64 : Bytes → Bytes

-- `n.to_bytes(width, "big")`
unfoldable pub to_bytes : ℕ → ℕ → Bytes
to_bytes zero n = []
to_bytes (suc width) n = to_bytes width (n / 256) ++ (n % 256) ∷ []
