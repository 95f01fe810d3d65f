-- ===== src/Tokenization/Pseudonyms.antt =====
-- Surrogates in place of original values (app/tokenization/pseudonyms.py).
use aiprivacy_gateway.Common.{
  ℕ, zero, suc, ◌+◌, ◌%◌, ◌≤◌, ◌<◌, ◌≡◌, true, false, ◌&&◌, [], ◌∷◌, ◌++◌, Text, length,
  length-append, take, length-take, ltb, if◌then◌else◌, arith, ◌⊎◌,
}
use aiprivacy_gateway.Tokenization.Platform.{Platform, Bytes, to_bytes}

module _ (p : Platform) where
  -- The `while` loop, with fuel.
  unfoldable pub keystream_loop : ℕ → Bytes → ℕ → ℕ → Bytes → Bytes
  unfolding to_bytes
  keystream_loop zero seed size counter blocks = blocks
  keystream_loop (suc fuel) seed size counter blocks =
      let more =
        keystream_loop fuel seed size (counter + 1)
          (blocks ++ p.blake2b_64 (seed ++ to_bytes 4 counter)) in
      if ltb (length blocks) size then more else blocks

  -- Every block is longer than nothing, so `size` rounds are enough.
  unfoldable pub keystream : Bytes → ℕ → Bytes
  unfolding keystream_loop
  keystream seed size = take size (keystream_loop size seed size 0 [])

  -- `string.digits`, `string.ascii_uppercase` and `string.ascii_lowercase` at `noise % len`.
  unfoldable pub substitute : ℕ → ℕ → ℕ
  substitute source noise =
      if p.is_digit source
      then 48 + noise % 10
      else if p.is_alpha source
      then if ltb source 128 && p.is_upper source then 65 + noise % 26 else 97 + noise % 26
      else source

  -- `zip(original_value, stream, strict=True)`
  unfoldable pub substitute_all : Text → Bytes → Text
  unfolding substitute
  substitute_all [] stream = []
  substitute_all (c ∷ value) [] = []
  substitute_all (c ∷ value) (noise ∷ stream) = substitute c noise ∷ substitute_all value stream

  unfoldable pub surrogate_for : Text → Text → Text → Text
  unfolding keystream substitute_all
  surrogate_for entity_type original_value fingerprint =
      substitute_all original_value
        (keystream (p.utf8 (fingerprint ++ b':' ∷ entity_type)) (length original_value))

  keystream_loop-length :
      (fuel : ℕ) (seed : Bytes) (size counter : ℕ) (blocks : Bytes)
      → ((b : Bytes) → 1 ≤ length (p.blake2b_64 b))
      → size ≤ length blocks + fuel
      → size ≤ length (keystream_loop fuel seed size counter blocks)
  unfolding keystream_loop
  keystream_loop-length zero seed size counter blocks d h = omega arith
  keystream_loop-length (suc fuel) seed size counter blocks d h =
      let block = p.blake2b_64 (seed ++ to_bytes 4 counter) in
      ground (
        arith,
        d (seed ++ to_bytes 4 counter),
        length-append {0} blocks block,
        keystream_loop-length fuel seed size (counter + 1) (blocks ++ block) d,
      )

  keystream-length :
      (seed : Bytes) (size : ℕ)
      → ((b : Bytes) → 1 ≤ length (p.blake2b_64 b))
      → length (keystream seed size) ≡ size
  unfolding keystream
  keystream-length seed size d = ground (
    arith,
    length-take {0} size (keystream_loop size seed size 0 []),
    keystream_loop-length size seed size 0 [] d,
  )

  -- The character class that a surrogate keeps: a digit, an ASCII capital, another letter, which
  -- becomes a small ASCII letter, or neither.
  abbrev pub SameShape : Text → Text → Type 0
  SameShape [] [] = Unit
  SameShape [] (_ ∷ _) = ⊥
  SameShape (_ ∷ _) [] = ⊥
  SameShape (c ∷ value) (d ∷ surrogate) =
      (p.is_digit c ≡ true → (48 ≤ d) × (d ≤ 57))
      × (p.is_digit c ≡ false
          → p.is_alpha c ≡ true
          → c < 128
          → p.is_upper c ≡ true
          → (65 ≤ d) × (d ≤ 90))
      × (p.is_digit c ≡ false
          → p.is_alpha c ≡ true
          → (128 ≤ c) ⊎ (p.is_upper c ≡ false)
          → (97 ≤ d) × (d ≤ 122))
      × (p.is_digit c ≡ false → p.is_alpha c ≡ false → d ≡ c)
      × SameShape value surrogate

  substitute_all-SameShape :
      (value : Text) (stream : Bytes)
      → length stream ≡ length value
      → SameShape value (substitute_all value stream)
  unfolding substitute_all
  substitute_all-SameShape [] stream h = tt
  substitute_all-SameShape (c ∷ value) [] h = absurd (omega arith)
  substitute_all-SameShape (c ∷ value) (n ∷ stream) h = (
    λ d. ground arith,
    λ d a l u. ground arith,
    λ d a h. ground arith,
    λ d a. ground arith,
    substitute_all-SameShape value stream (omega arith),
  )

  -- If the digest gives at least one byte, a surrogate has the length of the original, an ASCII
  -- digit for each digit, an ASCII capital for each ASCII capital letter, a small ASCII letter
  -- for every other letter, and every other character as it was.
  pub surrogate_for-SameShape :
      (entity_type original_value fingerprint : Text)
      → ((b : Bytes) → 1 ≤ length (p.blake2b_64 b))
      → SameShape original_value (surrogate_for entity_type original_value fingerprint)
  unfolding surrogate_for
  surrogate_for-SameShape entity_type original_value fingerprint d =
      substitute_all-SameShape original_value _ (keystream-length _ (length original_value) d)
