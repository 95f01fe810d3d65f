-- ===== src/Policy/Service/Freshness.antt =====
-- How old a snapshot of `PolicyService` (app/policy/service.py) can be.
use aiprivacy_gateway.Common.{
  ℕ, ◌+◌, ◌≤◌, ◌≡◌, refl, sym, ap, ◌∙◌, subst, ◌⊎◌, inl, inr, true, [], Text, All, All-imp,
  All-keep, ltb, ◌==◌, ==_iff, Option, none, some, Option-cases, Bool-cases, arith,
}
use aiprivacy_gateway.Common.Dict.{dict_get, dict_get-All, All-dict_set}
use aiprivacy_gateway.Domain.Errors.{Result, ok, err, policy_not_found, Result-cases}
use aiprivacy_gateway.Policy.Snapshot.{
  PolicyDocument, PolicySnapshot, allows_provider, allows_model,
}
use aiprivacy_gateway.Policy.Service.{
  StoredPolicy, CacheEntry, Entries, invalidate, clear, authorize, validated_document, snapshot_of,
  remember, refresh, cached, active_snapshot, resolve,
}

authorize-ok :
    (provider model : Text) (found snapshot : PolicySnapshot)
    → authorize provider model found ≡ ok snapshot
    → (allows_provider snapshot provider ≡ true)
      × (allows_model snapshot provider model ≡ true)
      × (found ≡ snapshot)
unfolding authorize
authorize-ok provider model found snapshot h = elim (Bool-cases (allows_provider found provider)) [
  | inr e ↦ absurd (let h' = rw (e, authorize) at h in cc)
  | inl e ↦ elim (Bool-cases (allows_model found provider model)) [
    | inr f ↦ absurd (let h' = rw (e, authorize, f) at h in cc)
    | inl f ↦
        let h' = rw (e, authorize, f) at h in
        let same : found ≡ snapshot = cc in
        (
          ap (λ (x : PolicySnapshot). allows_provider x provider) (sym same) ∙ e,
          ap (λ (x : PolicySnapshot). allows_model x provider model) (sym same) ∙ f,
          same,
        )
  ]
]

-- `rows now tenant_id` is the active row of a tenant at a time.
module _ {R : Type 0} (validate : R → Result PolicyDocument) (cache_ttl : ℕ)
    (rows : ℕ → ℕ → Option (StoredPolicy R)) where
  -- The snapshot of the tenant's row at a time.
  abbrev pub IsSnapshotAt : ℕ → ℕ → PolicySnapshot → Type 0
  IsSnapshotAt t tenant_id snapshot =
      (stored : StoredPolicy R) × (document : PolicyDocument) × (rows t tenant_id ≡ some stored)
      × (validate stored.document ≡ ok document)
      × (snapshot ≡ snapshot_of validate cache_ttl tenant_id stored document)

  abbrev IsFresh : ℕ → ℕ × CacheEntry → Type 0
  IsFresh now p =
      (t : ℕ) × (t ≤ now) × (p.1.expires_at ≡ t + cache_ttl) × IsSnapshotAt t p.0 p.1.snapshot

  -- The caches that calls at growing times leave.
  pub data Run : ℕ → Entries → Type 0 where
    opened : Run 0 []
    asked :
        {last : ℕ} {entries : Entries} (now tenant_id : ℕ)
        → last ≤ now
        → Run last entries
        → Run now (active_snapshot validate cache_ttl (rows now) tenant_id now entries).1
    invalidated :
        {last : ℕ} {entries : Entries} (tenant_id : ℕ)
        → Run last entries
        → Run last (invalidate tenant_id entries)
    cleared : {last : ℕ} {entries : Entries} → Run last entries → Run last (clear entries)

  later-IsFresh :
      (last now : ℕ) (entries : Entries)
      → last ≤ now
      → All (IsFresh last) entries
      → All (IsFresh now) entries
  later-IsFresh last now entries h a =
      All-imp entries (λ p (t, b, expires, snapshot). (t, omega (arith, b, h), expires, snapshot)) a

  -- What a call returns and leaves, from a fresh cache.
  abbrev Returned : ℕ → ℕ → Result PolicySnapshot → Type 0
  Returned now tenant_id (err e) = Unit
  Returned now tenant_id (ok snapshot) =
      (t : ℕ) × (t ≤ now) × (now ≤ t + cache_ttl) × IsSnapshotAt t tenant_id snapshot

  abbrev IsFreshPair : ℕ → ℕ → Result PolicySnapshot × Entries → Type 0
  IsFreshPair now tenant_id x = Returned now tenant_id x.0 × All (IsFresh now) x.1

  validated_document-cases :
      (stored : StoredPolicy R)
      → ((document : PolicyDocument) × (validate stored.document ≡ ok document)
          × (validated_document validate cache_ttl stored ≡ ok document))
        ⊎ (validated_document validate cache_ttl stored ≡ err policy_not_found)
  unfolding validated_document
  validated_document-cases stored = elim (Result-cases (validate stored.document)) [
    | inr (_, f) ↦ inr (rw (f, validated_document) refl)
    | inl (document, e) ↦ inl (document, e, rw (e, validated_document) refl)
  ]

  refresh-fresh :
      (now tenant_id : ℕ) (row : Option (StoredPolicy R)) (entries : Entries)
      → rows now tenant_id ≡ row
      → All (IsFresh now) entries
      → IsFreshPair now tenant_id (refresh validate cache_ttl tenant_id now row entries)
  unfolding refresh remember
  refresh-fresh now tenant_id none entries q a = (tt, All-keep (IsFresh now) _ entries a)
  refresh-fresh now tenant_id (some stored) entries q a =
      let kept =
        λ (x : Result PolicyDocument). remember validate cache_ttl tenant_id now stored x entries in
      elim (validated_document-cases stored) [
        | inr f ↦
            subst (λ (x : Result PolicyDocument). IsFreshPair now tenant_id (kept x)) (sym f)
              (tt, a)
        | inl (document, e, f) ↦
            let here : IsSnapshotAt now tenant_id
                (snapshot_of validate cache_ttl tenant_id stored document) =
              (stored, document, q, e, refl) in
            subst (λ (x : Result PolicyDocument). IsFreshPair now tenant_id (kept x)) (sym f)
              (
                (now, omega arith, omega arith, here),
                All-dict_set ◌==◌ ==_iff (IsFresh now) tenant_id _ entries a
                    (now, omega arith, refl, here),
              )
      ]

  cached-fresh :
      (now tenant_id : ℕ) (entries : Entries) (snapshot : PolicySnapshot)
      → All (IsFresh now) entries
      → cached validate cache_ttl tenant_id now entries ≡ some snapshot
      → (t : ℕ) × (t ≤ now) × (now ≤ t + cache_ttl) × IsSnapshotAt t tenant_id snapshot
  unfolding cached
  cached-fresh now tenant_id entries snapshot a h =
      elim (Option-cases (dict_get ◌==◌ tenant_id entries)) [
        | inl e ↦ absurd (let h' = rw (e, cached) at h in cc)
        | inr (entry, e) ↦ elim (Bool-cases (ltb now entry.expires_at)) [
          | inr f ↦ absurd (let h' = rw (e, cached, f) at h in cc)
          | inl f ↦
              let h' = rw (e, cached, f) at h in
              let same : entry.snapshot ≡ snapshot = cc in
              let (t, before, expires, found) =
                dict_get-All ◌==◌ ==_iff (IsFresh now) tenant_id entry entries a e in
              (t, before, ground (arith, f, expires), subst (IsSnapshotAt t tenant_id) same found)
        ]
      ]

  active_snapshot-fresh :
      (now tenant_id : ℕ) (entries : Entries)
      → All (IsFresh now) entries
      → IsFreshPair now tenant_id
          (active_snapshot validate cache_ttl (rows now) tenant_id now entries)
  unfolding active_snapshot
  active_snapshot-fresh now tenant_id entries a =
      elim (Option-cases (cached validate cache_ttl tenant_id now entries)) [
        | inl e ↦
            let asks : active_snapshot validate cache_ttl (rows now) tenant_id now entries
                ≡ refresh validate cache_ttl tenant_id now (rows now tenant_id) entries =
              rw (e, active_snapshot) refl in
            subst (IsFreshPair now tenant_id) (sym asks)
              (refresh-fresh now tenant_id (rows now tenant_id) entries refl a)
        | inr (snapshot, e) ↦
            let holds : active_snapshot validate cache_ttl (rows now) tenant_id now entries
                ≡ (ok snapshot, entries) =
              rw (e, active_snapshot) refl in
            subst (IsFreshPair now tenant_id) (sym holds)
              (cached-fresh now tenant_id entries snapshot a e, a)
      ]

  Run-IsFresh : {now : ℕ} {entries : Entries} → Run now entries → All (IsFresh now) entries
  unfolding invalidate clear
  Run-IsFresh opened = tt
  Run-IsFresh (asked {last} {entries} now tenant_id h r) =
      (active_snapshot-fresh now tenant_id entries
        (later-IsFresh last now entries h (Run-IsFresh r))).1
  Run-IsFresh (invalidated {last} {entries} tenant_id r) =
      All-keep (IsFresh last) _ entries (Run-IsFresh r)
  Run-IsFresh (cleared r) = tt

  -- In a cache that calls at growing times, invalidations and clearings have left: if
  -- resolution returns a snapshot, then this allows the provider and the model, and it is the
  -- snapshot of the valid row that the tenant had at a time which is not later than now and not
  -- more than the time to live of the cache before it.
  pub resolve-IsSnapshotAt :
      {last : ℕ} {entries : Entries} (now tenant_id : ℕ) (provider model : Text)
      (snapshot : PolicySnapshot)
      → Run last entries
      → last ≤ now
      → (resolve validate cache_ttl (rows now) tenant_id provider model now entries).0 ≡ ok snapshot
      → (allows_provider snapshot provider ≡ true)
        × (allows_model snapshot provider model ≡ true)
        × ((t : ℕ) × (t ≤ now) × (now ≤ t + cache_ttl) × IsSnapshotAt t tenant_id snapshot)
  unfolding resolve authorize
  resolve-IsSnapshotAt {last} {entries} now tenant_id provider model snapshot r h k =
      let (returned, _) =
        active_snapshot-fresh now tenant_id entries
          (later-IsFresh last now entries h (Run-IsFresh r)) in
      elim (Result-cases (active_snapshot validate cache_ttl (rows now) tenant_id now entries).0) [
        | inr (_, e) ↦ absurd (let k' = rw (e, resolve) at k in cc)
        | inl (found, e) ↦
            let k' = rw (e, resolve) at k in
            let (provided, listed, same) = authorize-ok provider model found snapshot k' in
            let fresh : Returned now tenant_id (ok found) =
              subst (Returned now tenant_id) e returned in
            (
              provided,
              listed,
              subst (λ (x : PolicySnapshot). Returned now tenant_id (ok x)) same fresh,
            )
      ]
