-- ===== src/Vault/Crypto/Laws.antt =====
-- What the envelopes of app/vault/crypto.py determine, and that a sealed record opens again.
use aiprivacy_gateway.Common.{
  ℕ, ◌+◌, ◌/◌, ◌%◌, ◌≤◌, ◌<◌, ◌≡◌, refl, sym, ap, subst, ◌∙◌, inl, inr, false, List, [], ◌∷◌, ◌++◌,
  Text, text_eq, length, take, drop, take-append_left, drop-append_left, append-cancel,
  length-append, ltb, leb, ◌==◌, ◌&&◌, some, Bool-cases, arith,
}
use aiprivacy_gateway.Domain.Errors.{ok, ◌>>=◌, Result-cases}
use aiprivacy_gateway.Tokenization.Platform.{Bytes, to_bytes}
use aiprivacy_gateway.Vault.Crypto.{
  CryptoLibrary, VaultAad, join_fields, open_envelope, envelope_from_bytes, aad_fields, aad_bytes,
  envelope_to_bytes,
}

to_bytes_two : (n : ℕ) → to_bytes 2 n ≡ (n / 256) % 256 ∷ (n % 256 ∷ [])
unfolding to_bytes
to_bytes_two n = refl

digits_determine :
    (m n : ℕ)
    → m < 65536
    → n < 65536
    → (m / 256) % 256 ≡ (n / 256) % 256
    → m % 256 ≡ n % 256
    → m ≡ n
digits_determine m n a b c d = omega arith

-- A field that was joined is short, and what follows it was joined too.
join_fields-cons :
    (field : Bytes) (fields : List Bytes) (raw : Bytes)
    → join_fields (field ∷ fields) ≡ ok raw
    → (rest : Bytes) × (length field < 65536)
      × (join_fields fields ≡ ok rest)
      × (raw ≡ to_bytes 2 (length field) ++ (field ++ rest))
unfolding join_fields
join_fields-cons field fields raw h = elim (Bool-cases (ltb (length field) 65536)) [
  | inr e ↦ let h' = rw e at h in absurd (cc)
  | inl e ↦ elim (Result-cases (join_fields fields)) [
    | inl (rest, e') ↦ let h' = rw (e, e') at h in (rest, ground (arith, e), e', ground (arith, h'))
    | inr (raised, e') ↦ let h' = rw (e, e') at h in absurd (cc)
  ]
]

same_front :
    (p q xs ys : Bytes)
    → length p < 65536
    → length q < 65536
    → to_bytes 2 (length p) ++ (p ++ xs) ≡ to_bytes 2 (length q) ++ (q ++ ys)
    → (p ≡ q) × (xs ≡ ys)
same_front p q xs ys a b h =
    let h' = rw (to_bytes_two (length p), to_bytes_two (length q)) at h in
    let n : length p ≡ length q = digits_determine (length p) (length q) a b (cc) (cc) in
    append-cancel p q xs ys n (cc)

join_fields-injective :
    (ps qs : List Bytes) (raw : Bytes)
    → length ps ≡ length qs
    → join_fields ps ≡ ok raw
    → join_fields qs ≡ ok raw
    → ps ≡ qs
join_fields-injective [] [] raw n a b = refl
join_fields-injective [] (q ∷ qs) raw n a b = absurd (omega arith)
join_fields-injective (p ∷ ps) [] raw n a b = absurd (omega arith)
join_fields-injective (p ∷ ps) (q ∷ qs) raw n a b =
    let (xs, short, a', left) = join_fields-cons p ps raw a in
    let (ys, short', b', right) = join_fields-cons q qs raw b in
    let (same, rest) = same_front p q xs ys short short' (sym left ∙ right) in
    let later = join_fields-injective ps qs xs (omega arith) a' (b' ∙ ap (λ r. ok r) (sym rest)) in
    rw (same, later) refl

module _ (lib : CryptoLibrary) (utf8_injective : (s t : Text) → lib.utf8 s ≡ lib.utf8 t → s ≡ t)
    (uuid_injective : (m n : ℕ) → lib.uuid_text m ≡ lib.uuid_text n → m ≡ n) where
  -- If UTF-8 and the text of a UUID tell their arguments apart, then two identities that have the
  -- same associated data are the same: tenant, session, entity type and token identifier.
  pub aad_bytes-injective :
      (a b : VaultAad) (raw : Bytes)
      → aad_bytes lib a ≡ ok raw
      → aad_bytes lib b ≡ ok raw
      → (a.tenant_id ≡ b.tenant_id)
        × (a.session_id ≡ b.session_id)
        × (a.entity_type ≡ b.entity_type)
        × (a.token_id ≡ b.token_id)
  unfolding aad_bytes
  aad_bytes-injective a b raw h k =
      let same = join_fields-injective (aad_fields lib a) (aad_fields lib b) raw refl h k in
      (
        uuid_injective a.tenant_id b.tenant_id
            (utf8_injective (lib.uuid_text a.tenant_id) (lib.uuid_text b.tenant_id) (cc)),
        uuid_injective a.session_id b.session_id
            (utf8_injective (lib.uuid_text a.session_id) (lib.uuid_text b.session_id) (cc)),
        utf8_injective a.entity_type b.entity_type (cc),
        utf8_injective a.token_id b.token_id (cc),
      )

-- What the envelopes need of the library: UTF-8 decodes what it encoded.
module _ (lib : CryptoLibrary) (decode : (t : Text) → lib.decode_utf8 (lib.utf8 t) ≡ some t) where
  open_envelope-built :
      (key_id : Text) (nonce ciphertext : Bytes)
      → 0 < length (lib.utf8 key_id)
      → length nonce ≡ 12
      → 16 ≤ length ciphertext
      → open_envelope lib.decode_utf8
          (83 ∷ 71 ∷ 87 ∷ 86 ∷ [])
          1
          (length (lib.utf8 key_id))
          (lib.utf8 key_id ++ (nonce ++ ciphertext))
        ≡ ok (record { version = 1; key_id = key_id; nonce = nonce; ciphertext = ciphertext })
  unfolding open_envelope text_eq
  open_envelope-built key_id nonce ciphertext n twelve tag =
      let key = lib.utf8 key_id in
      let nonzero : (length key == 0) ≡ false = ground (arith, n) in
      let size = length-append key (nonce ++ ciphertext) in
      let size' = length-append nonce ciphertext in
      let long : ltb (6 + length (key ++ (nonce ++ ciphertext))) (6 + length key + 12 + 16)
          ≡ false =
        ground (arith, size, size', twelve, tag) in
      let front : take 12 (nonce ++ ciphertext) ≡ nonce =
        subst (λ k. take k (nonce ++ ciphertext) ≡ nonce) twelve
          (take-append_left nonce ciphertext) in
      let back : drop 12 (nonce ++ ciphertext) ≡ ciphertext =
        subst (λ k. drop k (nonce ++ ciphertext) ≡ ciphertext) twelve
          (drop-append_left nonce ciphertext) in
      rw
        (
          nonzero,
          long,
          take-append_left key (nonce ++ ciphertext),
          decode key_id,
          drop-append_left key (nonce ++ ciphertext),
          front,
          back,
        )
        refl

  -- An envelope of the current version, with a nonce of 12 bytes and a tag, is what its bytes
  -- parse to.
  pub envelope_from_bytes-to_bytes :
      (key_id : Text) (nonce ciphertext raw : Bytes)
      → length nonce ≡ 12
      → 16 ≤ length ciphertext
      → envelope_to_bytes lib
          (record { version = 1; key_id = key_id; nonce = nonce; ciphertext = ciphertext })
        ≡ ok raw
      → envelope_from_bytes lib.decode_utf8 raw
        ≡ ok (record { version = 1; key_id = key_id; nonce = nonce; ciphertext = ciphertext })
  unfolding envelope_to_bytes envelope_from_bytes
  envelope_from_bytes-to_bytes key_id nonce ciphertext raw twelve tag h =
      let key = lib.utf8 key_id in
      elim (Bool-cases (ltb 0 (length key) && leb (length key) 255)) [
        | inr e ↦ let h' = rw e at h in absurd (cc)
        | inl e ↦
            let h' = rw e at h in
            let built =
              open_envelope-built key_id nonce ciphertext (ground (arith, e)) twelve tag in
            let parsed = ap (λ r. r >>= envelope_from_bytes lib.decode_utf8) (sym h') in
            parsed ∙ built
      ]
