-- ===== src/Examples/RoundTrip.antt =====
-- A message with one e-mail address, to a provider that echoes it and back.
use aiprivacy_gateway.Common.{
  ℕ, ◌+◌, ◌≤◌, ◌≡◌, refl, Bool, true, false, List, [], ◌∷◌, Text, codes, length, All, some, none,
  arith,
}
use aiprivacy_gateway.Domain.Errors.{ok}
use aiprivacy_gateway.Domain.Entity.{DetectedEntity, IsValid, UnknownTokenAction}
use aiprivacy_gateway.Policy.Snapshot.{action_for}
use aiprivacy_gateway.Tokenization.Grammar.Scan.{is_plain}
use aiprivacy_gateway.Tokenization.Selection.{select_entities}
use aiprivacy_gateway.Tokenization.Tokenizer.{TransformedText, plan_for, requests, transform}
use aiprivacy_gateway.Tokenization.Tokenizer.Assignment.{IsReversible}
use aiprivacy_gateway.Restoration.{RestoredOutput, restore}
use aiprivacy_gateway.Vault.Memory.{MemoryVault, memory_vault}
use aiprivacy_gateway.Vault.Memory.RoundTrip.{IsKnown, at_time}
use aiprivacy_gateway.Pipeline.RoundTrip.{restore-transform}
use aiprivacy_gateway.Examples.Data.{plain_platform, email, span, small_policy}
use aiprivacy_gateway.Examples.Vault.{ids, ids-IsSource, vault, email_is_valid}

abbrev message : Text
message = codes "to ab"

abbrev entities : List DetectedEntity
entities = span email 3 5 ∷ []

abbrev value : Text → Text → Text
value type hmac = codes "ab"

abbrev never_blank : Text → Bool
never_blank text = false

entities-IsValid : All IsValid entities
entities-IsValid = (record { forward = omega arith; scored = omega arith }, tt)

entities_run : select_entities message entities small_policy ≡ ok entities
unfolding select_entities aiprivacy_gateway.Common.text_eq
entities_run = refl

email-IsReversible : IsReversible (action_for small_policy email)
unfolding action_for aiprivacy_gateway.Common.text_eq
email-IsReversible = tt

message-is_plain : is_plain message ≡ true
unfolding is_plain
message-is_plain = refl

asked-IsKnown :
    All (IsKnown value) (requests plain_platform [] 1 2 message (plan_for small_policy entities))
unfolding requests plan_for action_for aiprivacy_gateway.Common.text_eq
asked-IsKnown = (record { valid = email_is_valid; known = refl }, tt)

asked_once :
    0 + length (requests plain_platform [] 1 2 message (plan_for small_policy entities)) ≤ 2
unfolding requests plan_for action_for aiprivacy_gateway.Common.text_eq
asked_once = omega arith

restore-transform_example :
    (out : TransformedText) × (s' : MemoryVault) × (restored : RestoredOutput) × (transform
        plain_platform [] 1 2 message
        (memory_vault ids)
        small_policy
        entities
        vault
      ≡ (ok out, s'))
    × ((restore never_blank
          (length out.text + 7)
          1
          2
          (memory_vault ids)
          UnknownTokenAction.fail
          (record { content = some out.text; model = some (codes "m") })
          (at_time 120 s')).0
        ≡ ok restored)
    × (restored.text ≡ message)
    × (restored.summary.unknown_tokens ≡ 0)
restore-transform_example =
    restore-transform plain_platform [] 1 2 message 2 ids ids-IsSource value vault refl
      (tt, tt, omega arith) small_policy entities entities entities-IsValid entities_run
      (omega arith) (email-IsReversible, tt) message-is_plain asked_once asked-IsKnown (omega arith)
      120 (omega arith) never_blank (codes "m") 7 UnknownTokenAction.fail refl
