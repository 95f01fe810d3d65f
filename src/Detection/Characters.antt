-- ===== src/Detection/Characters.antt =====
-- The methods of Python's `str` that rest on the Unicode tables, as a parameter: which characters are
-- white space or digits, and the case folding of a text.
use mathlib.Core.List.{reverse}
use aiprivacy_gateway.Common.{ℕ, Bool, [], ◌∷◌, Text, if◌then◌else◌}

pub record Characters : Type 0 where
  pub is_space : ℕ → Bool
  pub is_digit : ℕ → Bool
  pub casefold : Text → Text

module _ (u : Characters) where
  unfoldable pub lstrip : Text → Text
  lstrip [] = []
  lstrip (c ∷ text) = let rest = lstrip text in if u.is_space c then rest else c ∷ text

  unfoldable pub strip : Text → Text
  unfolding lstrip
  strip text = reverse (lstrip (reverse (lstrip text)))
