-- ===== src/Policy/Service.antt =====
-- `PolicyService` of app/policy/service.py: the active snapshot of a tenant, cached for a while. `R` is
-- the type of raw documents, `validate` the schema check of app/policy/validation.py, which pydantic
-- makes, and `get_active_policy` the repository's answer. A call is one step at one time.
pub mod Freshness
use aiprivacy_gateway.Common.{
  ℕ, ◌+◌, Bool, true, false, not, List, [], ◌∷◌, keep, Text, ltb, ◌==◌, Option, none, some,
  if◌then◌else◌,
}
use aiprivacy_gateway.Common.Dict.{dict_get, dict_set}
use aiprivacy_gateway.Domain.Errors.{
  Result, ok, err, ◌>>=◌, policy_not_found, provider_not_allowed, model_not_allowed,
}
use aiprivacy_gateway.Policy.Snapshot.{
  PolicyDocument, PolicySnapshot, from_document, allows_provider, allows_model,
}

pub record StoredPolicy (R : Type 0) : Type 0 where
  pub policy_id : ℕ
  pub tenant_id : Option ℕ
  pub version : ℕ
  pub document : R

-- `key` is the identity of the snapshot, its tenant and version.
pub record CacheEntry : Type 0 where
  pub key : ℕ × ℕ
  pub snapshot : PolicySnapshot
  pub expires_at : ℕ

abbrev pub Entries : Type 0
Entries = List (ℕ × CacheEntry)

-- `entries.pop(tenant_id, None)`
abbrev pub drop_tenant : ℕ → Entries → Entries
drop_tenant tenant_id entries = keep (λ (p : ℕ × CacheEntry). not (p.0 == tenant_id)) entries

unfoldable pub invalidate : ℕ → Entries → Entries
invalidate tenant_id entries = drop_tenant tenant_id entries

unfoldable pub clear : Entries → Entries
clear entries = []

-- `resolve`, once there is a snapshot.
unfoldable pub authorize : Text → Text → PolicySnapshot → Result PolicySnapshot
unfolding allows_provider allows_model
authorize provider model snapshot =
    if not (allows_provider snapshot provider)
    then err provider_not_allowed
    else if not (allows_model snapshot provider model)
    then err model_not_allowed
    else ok snapshot

module _ {R : Type 0} (validate : R → Result PolicyDocument) (cache_ttl : ℕ) where
  unfoldable pub validated_document : StoredPolicy R → Result PolicyDocument
  validated_document stored = elim (validate stored.document) [
    | err _ ↦ err policy_not_found
    | ok document ↦ ok document
  ]

  abbrev pub snapshot_of : ℕ → StoredPolicy R → PolicyDocument → PolicySnapshot
  snapshot_of tenant_id stored document =
      from_document document stored.policy_id tenant_id stored.version

  -- The snapshot of a row is kept until its time is up.
  unfoldable pub remember :
      ℕ → ℕ → StoredPolicy R → Result PolicyDocument → Entries → Result PolicySnapshot × Entries
  remember tenant_id now stored (err e) entries = (err e, entries)
  remember tenant_id now stored (ok document) entries = (
    ok (snapshot_of tenant_id stored document),
    dict_set ◌==◌ tenant_id
        (record {
          key = (tenant_id, stored.version);
          snapshot = snapshot_of tenant_id stored document;
          expires_at = now + cache_ttl;
        })
        entries,
  )

  -- What the repository answered, and the cache that is left.
  unfoldable pub refresh :
      ℕ → ℕ → Option (StoredPolicy R) → Entries → Result PolicySnapshot × Entries
  unfolding validated_document remember
  refresh tenant_id now none entries = (err policy_not_found, drop_tenant tenant_id entries)
  refresh tenant_id now (some stored) entries =
      remember tenant_id now stored (validated_document stored) entries

  -- The snapshot that the cache holds, if it has not expired.
  unfoldable pub cached : ℕ → ℕ → Entries → Option PolicySnapshot
  cached tenant_id now entries = elim (dict_get ◌==◌ tenant_id entries) [
    | none ↦ none
    | some entry ↦ if ltb now entry.expires_at then some entry.snapshot else none
  ]

  -- `_active_snapshot`, which `active_snapshot` and `snapshot_for` call.
  unfoldable pub active_snapshot :
      (ℕ → Option (StoredPolicy R)) → ℕ → ℕ → Entries → Result PolicySnapshot × Entries
  unfolding cached refresh
  active_snapshot get_active_policy tenant_id now entries = elim (cached tenant_id now entries) [
    | some snapshot ↦ (ok snapshot, entries)
    | none ↦ refresh tenant_id now (get_active_policy tenant_id) entries
  ]

  unfoldable pub resolve :
      (ℕ → Option (StoredPolicy R))
      → ℕ
      → Text
      → Text
      → ℕ
      → Entries
      → Result PolicySnapshot × Entries
  unfolding active_snapshot authorize
  resolve get_active_policy tenant_id provider model now entries =
      let (answer, entries') = active_snapshot get_active_policy tenant_id now entries in
      (answer >>= authorize provider model, entries')
