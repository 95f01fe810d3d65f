-- ===== src/Documents/Spans/Resolution.antt =====
-- `resolve` of app/documents/analysis/spans.py and its lookup of provenance.
use aiprivacy_gateway.Common.{
  ℕ, ◌≡◌, ◌∙◌, ap, refl, Bool, true, List, [], ◌∷◌, map, Text, text_eq_iff, any, All, All-imp,
  All-map, Option, none, some, arith, Bool-cases, ◌⊎◌, inl, inr,
}
use aiprivacy_gateway.Domain.Errors.{ok}
use aiprivacy_gateway.Domain.Entity.{DetectedEntity}
use aiprivacy_gateway.Detection.Overlap.{resolve_overlaps}
use aiprivacy_gateway.Detection.Overlap.Laws.{All-resolve_overlaps}
use aiprivacy_gateway.Documents.Spans.{GlobalDetection, same_key, provenance, attach, resolve}

-- A detection with the key of the entity is there.
abbrev has_key : List GlobalDetection → DetectedEntity → Bool
has_key ds e = any (λ d. same_key d.entity e) ds

option_cases {ℓ} : {A : Type ℓ} (o : Option A) → ((a : A) × (o ≡ some a)) ⊎ (o ≡ none)
option_cases none = inr refl
option_cases (some a) = inl (a, refl)

-- One of the detections has the type and the range of the entity, and these segments.
abbrev pub HasSource : List GlobalDetection → DetectedEntity → List ℕ → Type 0
HasSource [] e segments = ⊥
HasSource (d ∷ ds) e segments =
    ((d.entity.entity_type ≡ e.entity_type)
      × (d.entity.start ≡ e.start)
      × (d.entity.end ≡ e.end)
      × (segments ≡ d.segments))
    ⊎ HasSource ds e segments

same_key_sound :
    (x y : DetectedEntity)
    → same_key x y ≡ true
    → (x.entity_type ≡ y.entity_type) × (x.start ≡ y.start) × (x.end ≡ y.end)
same_key_sound x y h = (
  (text_eq_iff x.entity_type y.entity_type).0 (ground (arith, h)),
  ground (arith, h),
  ground (arith, h),
)

provenance-HasSource :
    (ds : List GlobalDetection) (e : DetectedEntity) (segments : List ℕ)
    → provenance ds e ≡ some segments
    → HasSource ds e segments
unfolding provenance
provenance-HasSource [] e segments h = absurd (cc)
provenance-HasSource (d ∷ ds) e segments h = elim (option_cases (provenance ds e)) [
  | inl (later, found) ↦
      let h' = rw (found, provenance) at h in
      let same : later ≡ segments = cc in
      inr (provenance-HasSource ds e segments (found ∙ ap (λ x. some x) same))
  | inr absent ↦ elim (Bool-cases (same_key d.entity e)) [
    | inl k ↦
        let h' = rw (absent, provenance, k) at h in
        let (type, start, end) = same_key_sound d.entity e k in inl (type, start, end, cc)
    | inr k ↦ let h' = rw (absent, provenance, k) at h in absurd (cc)
  ]
]

provenance-has_key :
    (ds : List GlobalDetection) (e : DetectedEntity)
    → has_key ds e ≡ true
    → (segments : List ℕ) × (provenance ds e ≡ some segments)
unfolding provenance
provenance-has_key [] e h = cc
provenance-has_key (d ∷ ds) e h = elim (Bool-cases (has_key ds e)) [
  | inl k ↦ let (segments, found) = provenance-has_key ds e k in (segments, rw found refl)
  | inr k ↦
      let here : same_key d.entity e ≡ true = ground (arith, h, k) in
      elim (option_cases (provenance ds e)) [
        | inl (segments, found) ↦ (segments, rw found refl)
        | inr absent ↦ (d.segments, rw (absent, here) refl)
      ]
]

attach-has_key :
    (ds : List GlobalDetection) (kept : List DetectedEntity)
    → All (λ e. has_key ds e ≡ true) kept
    → (out : List GlobalDetection) × (attach ds kept ≡ ok out)
      × (map (λ d. d.entity) out ≡ kept)
      × All (λ (d : GlobalDetection). HasSource ds d.entity d.segments) out
unfolding attach
attach-has_key ds [] h = ([], refl, refl, tt)
attach-has_key ds (e ∷ kept) h =
    let (segments, found) = provenance-has_key ds e h.0 in
    let (rest, done, same, sources) = attach-has_key ds kept h.1 in
    (
      record { entity = e; segments = segments } ∷ rest,
      rw (found, attach, done) refl,
      rw same refl,
      (provenance-HasSource ds e segments found, sources),
    )

own_key : (ds : List GlobalDetection) → All (λ d. has_key ds d.entity ≡ true) ds
own_key [] = tt
own_key (d ∷ ds) = (
  ground (arith, text_eq_iff d.entity.entity_type d.entity.entity_type),
  All-imp ds (λ x h. ground (arith, h)) (own_key ds),
)

-- Resolution of the detections of a document always returns: its spans are those that the overlap
-- resolution of the detector keeps, in that order, and each has the segments of a given detection
-- of its type and range.
pub resolve_total :
    (priority : List (Text × ℕ)) (ds : List GlobalDetection)
    → (out : List GlobalDetection) × (resolve priority ds ≡ ok out)
      × (map (λ d. d.entity) out ≡ resolve_overlaps priority (map (λ d. d.entity) ds))
      × All (λ (d : GlobalDetection). HasSource ds d.entity d.segments) out
unfolding resolve
resolve_total priority ds = attach-has_key ds (resolve_overlaps priority (map (λ d. d.entity) ds)) (
    All-resolve_overlaps priority (λ e. has_key ds e ≡ true) (map (λ d. d.entity) ds)
      (All-map (λ e. has_key ds e ≡ true) (λ d. d.entity) ds (own_key ds)))
