-- ===== src/Audit/Records/Laws.antt =====
-- What the constructor of `AuditRecord` (app/audit/models.py) admits.
use aiprivacy_gateway.Common.{
  ℕ, ◌≤◌, ◌≡◌, refl, sym, inl, inr, Bool, true, ◌||◌, [], ◌∷◌, all, Text, length, ◌==◌, Option,
  none, some, All, arith,
}
use aiprivacy_gateway.Domain.Errors.{Result, ok, err, ◌>>=◌, Result-cases}
use aiprivacy_gateway.Domain.Summary.{TypeCounts}
use aiprivacy_gateway.Audit.Records.{
  AuditRecord, is_between, is_ascii_letter_or_digit, matches_code, matches_hex, matches_count_key,
  require_status, require_code, require_digest, validated_counts, audit_record,
}

-- Letters, digits and the marks of an identifier.
abbrev pub is_code_char : ℕ → Bool
is_code_char c = is_ascii_letter_or_digit c || c == b'.' || c == b'_' || c == b':' || c == b'-'

-- A short text without white space or other punctuation.
abbrev pub IsNarrow : ℕ → Text → Type 0
IsNarrow maximum text = (length text ≤ maximum) × (all is_code_char text ≡ true)

abbrev pub IsNarrowOption : ℕ → Option Text → Type 0
IsNarrowOption maximum none = Unit
IsNarrowOption maximum (some text) = IsNarrow maximum text

all_mono :
    (p q : ℕ → Bool) (text : Text)
    → ((c : ℕ) → p c ≡ true → q c ≡ true)
    → all p text ≡ true
    → all q text ≡ true
all_mono p q [] f h = refl
all_mono p q (c ∷ text) f h =
    let rest = all_mono p q text f (ground (arith, h)) in
    let first = f c (ground (arith, h)) in rw (first, rest) refl

require_code-IsNarrow :
    (value : Option Text) (maximum : ℕ)
    → require_code value maximum ≡ ok tt
    → IsNarrowOption 64 value
unfolding require_code matches_code
require_code-IsNarrow none maximum h = tt
require_code-IsNarrow (some value) maximum h = (ground (arith, h), ground (arith, h))

require_digest-IsNarrow :
    (value : Option Text) (maximum : ℕ)
    → maximum ≤ 128
    → require_digest value maximum ≡ ok tt
    → IsNarrowOption 128 value
unfolding require_digest matches_hex
require_digest-IsNarrow none maximum b h = tt
require_digest-IsNarrow (some value) maximum b h = (
  ground (arith, h, b),
  all_mono (λ c. is_between 48 57 c || is_between 97 102 c) is_code_char value
      (λ c k. ground (arith, k)) (ground (arith, h)),
)

validated_counts-IsNarrow :
    (counts : TypeCounts) {validated : TypeCounts}
    → validated_counts counts ≡ ok validated
    → All (λ (p : Text × ℕ). IsNarrow 64 p.0) counts
unfolding validated_counts matches_count_key
validated_counts-IsNarrow [] h = tt
validated_counts-IsNarrow ((key, count) ∷ counts) h =
    elim (Result-cases (validated_counts counts)) [
      | inr (_, e) ↦ absurd (ground (arith, h, e))
      | inl (rest, e) ↦ (
        (
          ground (arith, h),
          all_mono (λ c. is_ascii_letter_or_digit c || c == b'_') is_code_char key
              (λ c k. ground (arith, k)) (ground (arith, h)),
        ),
        validated_counts-IsNarrow counts e,
      )
    ]

-- A check that has passed, and what follows it.
passed :
    {A : Type 0} (check : Result (Unit {0})) (next : Unit {0} → Result A) {a : A}
    → (check >>= next) ≡ ok a
    → (check ≡ ok tt) × (next tt ≡ ok a)
passed (ok tt) next h = (refl, h)
passed (err e) next h = absurd (cc)

-- Every text of a record.
abbrev pub IsNarrowRecord : AuditRecord → Type 0
IsNarrowRecord r =
    IsNarrowOption 64 r.provider_alias
    × IsNarrowOption 64 r.model_alias
    × IsNarrowOption 64 r.block_reason_code
    × IsNarrowOption 64 r.error_code
    × IsNarrowOption 64 r.outbound_scan
    × IsNarrowOption 128 r.session_id_hash
    × IsNarrowOption 128 r.prompt_hmac
    × IsNarrowOption 128 r.response_hmac
    × IsNarrowOption 128 r.outbound_hmac
    × All (λ (p : Text × ℕ). IsNarrow 64 p.0) r.entity_counts
    × All (λ (p : Text × ℕ). IsNarrow 64 p.0) r.actions

-- If the constructor of an audit record admits it, it is kept as it is, and each of its texts,
-- the keys of its counts included, holds only letters, digits and the marks of identifiers, at
-- most 128 of them in a digest and at most 64 in an alias, a code or a key.
pub audit_record-IsNarrow :
    (r : AuditRecord) {admitted : AuditRecord}
    → audit_record r ≡ ok admitted
    → (admitted ≡ r) × IsNarrowRecord r
unfolding audit_record
audit_record-IsNarrow r {admitted} h =
    let (_, h1) = passed (require_status r.status_code) _ h in
    let (provider, h2) = passed (require_code r.provider_alias 64) _ h1 in
    let (model, h3) = passed (require_code r.model_alias 128) _ h2 in
    let (reason, h4) = passed (require_code r.block_reason_code 64) _ h3 in
    let (error, h5) = passed (require_code r.error_code 64) _ h4 in
    let (session, h6) = passed (require_digest r.session_id_hash 64) _ h5 in
    let (prompt, h7) = passed (require_digest r.prompt_hmac 128) _ h6 in
    let (response, h8) = passed (require_digest r.response_hmac 128) _ h7 in
    let (outbound, h9) = passed (require_digest r.outbound_hmac 128) _ h8 in
    let (scan, h10) = passed (require_code r.outbound_scan 64) _ h9 in
    elim (Result-cases (validated_counts r.entity_counts)) [
      | inr (_, e) ↦ absurd (let h' = rw e at h10 in cc)
      | inl (entities, e) ↦ elim (Result-cases (validated_counts r.actions)) [
        | inr (_, f) ↦ absurd (let h' = rw (e, f) at h10 in cc)
        | inl (actions, f) ↦
            let h' = rw (e, f) at h10 in
            let same : r ≡ admitted = cc in
            (
              sym same,
              (
                require_code-IsNarrow r.provider_alias 64 provider,
                require_code-IsNarrow r.model_alias 128 model,
                require_code-IsNarrow r.block_reason_code 64 reason,
                require_code-IsNarrow r.error_code 64 error,
                require_code-IsNarrow r.outbound_scan 64 scan,
                require_digest-IsNarrow r.session_id_hash 64 (omega arith) session,
                require_digest-IsNarrow r.prompt_hmac 128 (omega arith) prompt,
                require_digest-IsNarrow r.response_hmac 128 (omega arith) response,
                require_digest-IsNarrow r.outbound_hmac 128 (omega arith) outbound,
                validated_counts-IsNarrow r.entity_counts e,
                validated_counts-IsNarrow r.actions f,
              ),
            )
      ]
    ]
