-- ===== src/Detection/Entities.antt =====
-- The entity types and their tuning tables (app/detection/entities.py).

use aiprivacy_gateway.Common.{ℕ, List, [], ◌∷◌, Text, codes, text_eq, if◌then◌else◌, String}

-- `mapping.get(key, default)`
unfoldable pub lookup_or : Text → ℕ → List (Text × ℕ) → ℕ
lookup_or key default [] = default
lookup_or key default ((k, v) ∷ rest) = if text_eq k key then v else lookup_or key default rest

abbrev pub severity_critical : ℕ
severity_critical = 40

abbrev pub severity_high : ℕ
severity_high = 30

abbrev pub severity_medium : ℕ
severity_medium = 20

abbrev pub severity_low : ℕ
severity_low = 10

abbrev pub severity_unknown : ℕ
severity_unknown = 0

abbrev row : String → ℕ → Text × ℕ
row name value = (codes name, value)

unfoldable pub entity_priority : List (Text × ℕ)
entity_priority =
    row "API_KEY" severity_critical
    ∷ row "ACCESS_TOKEN" severity_critical
    ∷ row "US_SSN" severity_high
    ∷ row "CREDIT_CARD" severity_high
    ∷ row "US_PASSPORT" severity_high
    ∷ row "US_DRIVER_LICENSE" severity_high
    ∷ row "MEDICAL_RECORD_NUMBER" severity_high
    ∷ row "HEALTH_PLAN_ID" severity_high
    ∷ row "ACCOUNT_NUMBER" severity_high
    ∷ row "EMAIL_ADDRESS" severity_medium
    ∷ row "PHONE_NUMBER" severity_medium
    ∷ row "IP_ADDRESS" severity_medium
    ∷ row "CUSTOM_IDENTIFIER" severity_medium
    ∷ row "PERSON" severity_low
    ∷ row "LOCATION" severity_low
    ∷ row "DATE_TIME" severity_low
    ∷ []

abbrev pub supported_entity_types : List Text
supported_entity_types =
    codes "PERSON"
    ∷ codes "EMAIL_ADDRESS"
    ∷ codes "PHONE_NUMBER"
    ∷ codes "US_SSN"
    ∷ codes "CREDIT_CARD"
    ∷ codes "IP_ADDRESS"
    ∷ codes "LOCATION"
    ∷ codes "DATE_TIME"
    ∷ codes "US_DRIVER_LICENSE"
    ∷ codes "US_PASSPORT"
    ∷ codes "MEDICAL_RECORD_NUMBER"
    ∷ codes "HEALTH_PLAN_ID"
    ∷ codes "ACCOUNT_NUMBER"
    ∷ codes "API_KEY"
    ∷ codes "ACCESS_TOKEN"
    ∷ codes "CUSTOM_IDENTIFIER"
    ∷ []
