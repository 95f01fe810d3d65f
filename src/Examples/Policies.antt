-- ===== src/Examples/Policies.antt =====
-- The policy service with a row that goes away after its snapshot was cached.
use aiprivacy_gateway.Common.{
  ℕ, ◌+◌, ◌≤◌, ◌≡◌, refl, Bool, true, false, List, [], ◌∷◌, Text, codes, ltb, Option, none, some,
  if◌then◌else◌, arith,
}
use aiprivacy_gateway.Domain.Errors.{Result, ok}
use aiprivacy_gateway.Policy.Snapshot.{
  PolicyDocument, PolicySnapshot, from_document, allows_provider, allows_model,
}
use aiprivacy_gateway.Policy.Service.{StoredPolicy, active_snapshot, resolve}
use aiprivacy_gateway.Policy.Service.Freshness.{opened, asked, IsSnapshotAt, resolve-IsSnapshotAt}
use aiprivacy_gateway.Examples.Data.{small_document}

abbrev validate : PolicyDocument → Result PolicyDocument
validate document = ok document

abbrev stored : StoredPolicy PolicyDocument
stored = record { policy_id = 1; tenant_id = some 2; version = 3; document = small_document }

-- The row is there before the time 50.
abbrev rows : ℕ → ℕ → Option (StoredPolicy PolicyDocument)
rows now tenant_id = if ltb now 50 then some stored else none

abbrev snapshot : PolicySnapshot
snapshot = from_document small_document 1 2 3

still_cached :
    (resolve validate 30
      (rows 60)
      2
      (codes "openai")
      (codes "gpt")
      60
      (active_snapshot validate 30 (rows 40) 2 40 []).1).0
    ≡ ok snapshot
unfolding resolve active_snapshot from_document aiprivacy_gateway.Common.text_eq
still_cached = refl

resolve-IsSnapshotAt_example :
    (allows_provider snapshot (codes "openai") ≡ true)
    × (allows_model snapshot (codes "openai") (codes "gpt") ≡ true)
    × ((t : ℕ) × (t ≤ 60) × (60 ≤ t + 30) × IsSnapshotAt validate 30 rows t 2 snapshot)
resolve-IsSnapshotAt_example =
    resolve-IsSnapshotAt validate 30 rows 60 2 (codes "openai") (codes "gpt") snapshot
      (asked 40 2 (omega arith) opened) (omega arith) still_cached
