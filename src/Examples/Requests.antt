-- ===== src/Examples/Requests.antt =====
-- The theorems on policies and on the guards of a request.
use aiprivacy_gateway.Common.{
  ℕ, ◌≤◌, ◌≡◌, refl, Bool, true, false, List, [], ◌∷◌, Text, codes, All, AllPairs, Option, none,
  some, arith,
}
use aiprivacy_gateway.Domain.Errors.{ok}
use aiprivacy_gateway.Pipeline.Guards.{
  Selections, entity_budget, enforce_entity_budget, reject_blocked_entities,
}
use aiprivacy_gateway.Pipeline.Guards.Laws.{Unrefused, guards-Unrefused}
use aiprivacy_gateway.Examples.Data.{plain_platform, email, span, small_policy, counting_vault}

abbrev selections : Selections
selections = (span email 0 2 ∷ []) ∷ [] ∷ []

budget_run : enforce_entity_budget selections (entity_budget small_policy 5) ≡ ok 1
unfolding enforce_entity_budget entity_budget
budget_run = refl

blocked_run : reject_blocked_entities small_policy selections ≡ ok tt
unfolding reject_blocked_entities aiprivacy_gateway.Common.text_eq
blocked_run = refl

guards-Unrefused_example :
    All
      (λ selected.
        Unrefused plain_platform [] 1 2 counting_vault small_policy (codes "ab") selected 0)
      selections
guards-Unrefused_example =
    guards-Unrefused plain_platform [] 1 2 counting_vault small_policy selections 5 (codes "ab") 0
      budget_run blocked_run
