-- ===== src/Domain/Errors.antt =====
-- The exceptions of app/domain/errors.py that the modelled code raises, without their log context.
-- `value_error`, `overflow_error`, `struct_error` and `index_error` are Python's own, which the
-- gateway reports as an internal fault.
use aiprivacy_gateway.Common.{Bool, true, false, ◌≡◌, ◌⊎◌, inl, inr, refl}

pub data GatewayError : Type 0 where
  invalid_request request_too_large entity_limit_exceeded policy_violation : GatewayError
  internal_error value_error assertion_error : GatewayError
  detector_unavailable vault_unavailable vault_encryption_failed : GatewayError
  document_extraction_failed provider_response_invalid restoration_failed : GatewayError
  provider_not_allowed provider_timeout provider_unavailable audit_unavailable : GatewayError
  rate_limit_exceeded document_too_large policy_not_found model_not_allowed : GatewayError
  overflow_error struct_error index_error : GatewayError

-- `isinstance(failure, GatewayError)`: all but Python's own exceptions.
abbrev pub is_gateway_error : GatewayError → Bool
is_gateway_error value_error = false
is_gateway_error assertion_error = false
is_gateway_error overflow_error = false
is_gateway_error struct_error = false
is_gateway_error index_error = false
is_gateway_error _ = true

-- What a call returns, or the exception that ended it.
pub data Result {ℓ} (A : Type ℓ) : Type ℓ where
  err : GatewayError → Result A
  ok : A → Result A

module _ {ℓ κ} {A : Type ℓ} {B : Type κ} where
  infixl 5 ◌>>=◌
  abbrev pub ◌>>=◌ : Result A → (A → Result B) → Result B
  err raised >>= next = err raised
  ok found >>= next = next found

infixl 5 ◌>>◌
-- A check that returns nothing, and what follows it.
abbrev pub ◌>>◌ {ℓ} : {B : Type ℓ} → Result (Unit {0}) → Result B → Result B
err raised >> rest = err raised
ok _ >> rest = rest

pub Result-cases {ℓ} :
    {A : Type ℓ} (m : Result A) → ((a : A) × (m ≡ ok a)) ⊎ ((e : GatewayError) × (m ≡ err e))
Result-cases (ok a) = inl (a, refl)
Result-cases (err e) = inr (e, refl)

-- What a chain that returned has behind it.
pub >>=-ok {ℓ κ} :
    {A : Type ℓ} {B : Type κ} (m : Result A) (next : A → Result B) (b : B)
    → m >>= next ≡ ok b
    → (a : A) × (m ≡ ok a) × (next a ≡ ok b)
>>=-ok (ok a) next b h = (a, refl, h)
>>=-ok (err e) next b h = absurd (cc)
