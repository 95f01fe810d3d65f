-- ===== src/Documents/Analysis/Models.antt =====
-- Lemmas on the spans of a document: what coalescing, selection, resolution and labels keep.
use aiprivacy_gateway.Common.{
  ℕ, ◌+◌, ◌-◌, ◌≤◌, ◌<◌, ◌≡◌, refl, sym, ap, ◌∙◌, inl, inr, true, false, not, List, [], ◌∷◌, map,
  any, All, All-zip, All-of_map, All-sorted, any-sorted, none, some, Bool-cases, Option-cases,
  arith,
}
use aiprivacy_gateway.Domain.Errors.{ok, Result-cases}
use aiprivacy_gateway.Domain.Entity.{DetectedEntity, IsValid}
use aiprivacy_gateway.Documents.Segmentation.{Segment}
use aiprivacy_gateway.Documents.Spans.{
  GlobalDetection, same_key, promote, to_global, union, merge, merge_into, merge_all, coalesce,
  provenance, attach,
}
use aiprivacy_gateway.Documents.Analysis.{is_empty}

-- A detection that lies in a text of `limit` characters and names a segment.
pub record IsPlaced (limit : ℕ) (g : GlobalDetection) : Type 0 where
  pub valid : IsValid g.entity
  pub inside : g.entity.end ≤ limit
  pub named : is_empty g.segments ≡ false

is_empty-any : (xs : List ℕ) → is_empty xs ≡ not (any (λ _. true) xs)
is_empty-any [] = refl
is_empty-any (_ ∷ _) = refl

union-any : (xs ys : List ℕ) → any (λ _. true) ys ≡ true → any (λ _. true) (union xs ys) ≡ true
unfolding union
union-any [] ys h = h
union-any (x ∷ xs) ys h = ground (arith, union-any xs ys h)

module _ (limit : ℕ) where
  merge-IsPlaced :
      (existing d : GlobalDetection)
      → IsPlaced limit existing
      → IsPlaced limit d
      → IsPlaced limit (merge existing d)
  unfolding merge
  merge-IsPlaced existing d p q =
      let some_segment =
        union-any existing.segments d.segments (ground (arith, q.named, is_empty-any d.segments)) in
      record {
        valid = record {
          forward = q.valid.forward;
          scored = omega (arith, p.valid.scored, q.valid.scored);
        };
        inside = q.inside;
        named =
            is_empty-any _
            ∙ ap not (any-sorted _ (λ _. true) (union existing.segments d.segments) ∙ some_segment);
      }

  All-merge_into :
      (merged : List GlobalDetection) (d : GlobalDetection)
      → All (IsPlaced limit) merged
      → IsPlaced limit d
      → All (IsPlaced limit) (merge_into merged d)
  unfolding merge_into
  All-merge_into [] d h k = (k, tt)
  All-merge_into (existing ∷ merged) d h k = elim (Bool-cases (same_key existing.entity d.entity)) [
    | inl e ↦ rw e (merge-IsPlaced existing d h.0 k, h.1)
    | inr e ↦ rw e (h.0, All-merge_into merged d h.1 k)
  ]

  All-merge_all :
      (merged ds : List GlobalDetection)
      → All (IsPlaced limit) merged
      → All (IsPlaced limit) ds
      → All (IsPlaced limit) (merge_all merged ds)
  unfolding merge_all
  All-merge_all merged [] h k = h
  All-merge_all merged (d ∷ ds) h k =
      All-merge_all (merge_into merged d) ds (All-merge_into merged d h k.0) k.1

  pub All-coalesce :
      (ds : List GlobalDetection) → All (IsPlaced limit) ds → All (IsPlaced limit) (coalesce ds)
  unfolding coalesce
  All-coalesce ds h = All-sorted _ (IsPlaced limit) (merge_all [] ds) (All-merge_all [] ds tt h)

  provenance-named :
      (ds : List GlobalDetection) (e : DetectedEntity) (segments : List ℕ)
      → All (IsPlaced limit) ds
      → provenance ds e ≡ some segments
      → is_empty segments ≡ false
  unfolding provenance
  provenance-named [] e segments h k = absurd (cc)
  provenance-named (d ∷ ds) e segments h k = elim (Option-cases (provenance ds e)) [
    | inr (found, q) ↦
        let k' = rw (q, provenance) at k in
        let same : found ≡ segments = cc in provenance-named ds e segments h.1 (q ∙ ap some same)
    | inl q ↦ elim (Bool-cases (same_key d.entity e)) [
      | inl y ↦
          let k' = rw (q, provenance, y) at k in
          let same : d.segments ≡ segments = cc in ap is_empty (sym same) ∙ h.0.named
      | inr y ↦ absurd (let k' = rw (q, provenance, y) at k in cc)
    ]
  ]

  attach-named :
      (ds : List GlobalDetection) (kept : List DetectedEntity) (out : List GlobalDetection)
      → All (IsPlaced limit) ds
      → attach ds kept ≡ ok out
      → All (λ (g : GlobalDetection). is_empty g.segments ≡ false) out
  unfolding attach
  attach-named ds [] out h k = let same : out ≡ [] = cc in rw same tt
  attach-named ds (e ∷ kept) out h k = elim (Option-cases (provenance ds e)) [
    | inl q ↦ absurd (let k' = rw (q, attach) at k in cc)
    | inr (segments, q) ↦ elim (Result-cases (attach ds kept)) [
      | inr (_, r) ↦ absurd (let k' = rw (q, attach, r) at k in cc)
      | inl (rest, r) ↦
          let k' = rw (q, attach, r) at k in
          let same : out ≡ record { entity = e; segments = segments } ∷ rest = cc in
          rw same (provenance-named ds e segments h q, attach-named ds kept rest h r)
    ]
  ]

-- What promotion makes of a detection.
abbrev promoted : Segment → DetectedEntity → GlobalDetection
promoted s e = record {
  entity = record {
    entity_type = e.entity_type;
    start = s.start + e.start;
    end = s.start + e.end;
    score = e.score;
    recognizer = none;
  };
  segments = s.index ∷ [];
}

promote-promoted :
    (s : Segment) (e : DetectedEntity)
    → IsValid e
    → e.end ≤ s.end - s.start
    → promote s e ≡ ok (promoted s e)
unfolding promote
promote-promoted s e v h = ground (arith, v.forward, h)

-- Within a segment, promotion of valid detections returns, and its results lie within the text.
pub to_global-IsPlaced :
    (limit : ℕ) (s : Segment) (es : List DetectedEntity)
    → s.start < s.end
    → s.end ≤ limit
    → All (λ (e : DetectedEntity). IsValid e × (e.end ≤ s.end - s.start)) es
    → (out : List GlobalDetection) × (to_global s es ≡ ok out) × All (IsPlaced limit) out
unfolding to_global
to_global-IsPlaced limit s [] a b h = ([], refl, tt)
to_global-IsPlaced limit s (e ∷ es) a b h =
    let (valid, inside) = h.0 in
    let (rest, done, placed) = to_global-IsPlaced limit s es a b h.1 in
    (
      promoted s e ∷ rest,
      rw (promote-promoted s e valid inside, done) refl,
      (
        record {
          valid = record { forward = omega (arith, valid.forward); scored = valid.scored };
          inside = omega (arith, a, b, inside);
          named = refl;
        },
        placed,
      ),
    )

-- What `resolve` returns for placed detections is placed, and keeps their order.
pub attach-IsPlaced :
    (limit : ℕ) (ds : List GlobalDetection) (kept : List DetectedEntity)
    (out : List GlobalDetection)
    → All (IsPlaced limit) ds
    → All (λ (e : DetectedEntity). IsValid e × (e.end ≤ limit)) kept
    → attach ds kept ≡ ok out
    → map (λ (g : GlobalDetection). g.entity) out ≡ kept
    → All (IsPlaced limit) out
attach-IsPlaced limit ds kept out h k done same =
    All-zip out (λ g named p. record { valid = p.0; inside = p.1; named = named })
      (attach-named limit ds kept out h done)
      (All-of_map (λ (e : DetectedEntity). IsValid e × (e.end ≤ limit))
        (λ (g : GlobalDetection). g.entity) out (rw same k))
