-- ===== src/Documents/Spans/Laws.antt =====
-- `to_global` and `coalesce` of app/documents/analysis/spans.py.
use aiprivacy_gateway.Common.{
  ℕ, zero, suc, ◌+◌, ◌-◌, ◌≤◌, ◌≡◌, refl, sym, ap, Bool, true, ◌&&◌, List, [], ◌∷◌, map, Text,
  text_eq_iff, take, drop, slice, drop-drop, any, All, All-imp, leb, any-sorted, arith, inl, inr,
}
use aiprivacy_gateway.Domain.Errors.{ok, Result-cases}
use aiprivacy_gateway.Domain.Entity.{DetectedEntity}
use aiprivacy_gateway.Documents.Segmentation.{Segment}
use aiprivacy_gateway.Documents.Spans.{
  GlobalDetection, same_key, promote, to_global, merge, merge_into, merge_all, coalesce,
}

take-drop-take :
    (n k i : ℕ) (xs : Text) → i + k ≤ n → take k (drop i (take n xs)) ≡ take k (drop i xs)
take-drop-take n zero i xs h = refl
take-drop-take zero (suc k) i xs h = absurd (omega (arith, h))
take-drop-take (suc n) (suc k) zero [] h = refl
take-drop-take (suc n) (suc k) zero (x ∷ xs) h =
    ap (λ (t : Text). x ∷ t) (take-drop-take n k zero xs (omega (arith, h)))
take-drop-take (suc n) (suc k) (suc i) [] h = refl
take-drop-take (suc n) (suc k) (suc i) (x ∷ xs) h = take-drop-take n (suc k) i xs (omega (arith, h))

-- The text of a span.
abbrev pub text_at : Text → DetectedEntity → Text
text_at text e = slice e.start e.end text

promote-eq-ok :
    (s : Segment) (e : DetectedEntity) {g : GlobalDetection}
    → promote s e ≡ ok g
    → (g.entity.start ≡ s.start + e.start)
      × (g.entity.end ≡ s.start + e.end)
      × (e.start ≤ e.end)
      × (e.end ≤ s.end - s.start)
unfolding promote
promote-eq-ok s e h = ground arith

promote-text_at :
    (text : Text) (s : Segment) (e : DetectedEntity) {g : GlobalDetection}
    → promote s e ≡ ok g
    → text_at text g.entity ≡ text_at (slice s.start s.end text) e
promote-text_at text s e h =
    let (a, b, c, d) = promote-eq-ok s e h in
    let width : s.start + e.end - (s.start + e.start) ≡ e.end - e.start = omega arith in
    rw (a, b, width, drop-drop s.start e.start text)
      (sym (
        take-drop-take (s.end - s.start) (e.end - e.start) e.start (drop s.start text)
          (omega (arith, c, d))))

-- If promotion succeeds, the promoted spans read, in the text of the document, exactly what the
-- given ones read in the text of the segment, one by one.
pub to_global-text_at :
    (text : Text) (s : Segment) (entities : List DetectedEntity) {out : List GlobalDetection}
    → to_global s entities ≡ ok out
    → map (λ g. text_at text g.entity) out ≡ map (text_at (slice s.start s.end text)) entities
unfolding to_global
to_global-text_at text s [] {out = out} h = let o : out ≡ [] = cc in rw o refl
to_global-text_at text s (e ∷ entities) {out = out} h = elim (Result-cases (promote s e)) [
  | inr (x, k) ↦ absurd (ground (arith, h, k))
  | inl (g, k) ↦ elim (Result-cases (to_global s entities)) [
    | inr (x, l) ↦ absurd (ground (arith, h, k, l))
    | inl (rest, l) ↦
        let o : out ≡ g ∷ rest = ground (arith, h, k, l) in
        rw (o, promote-text_at text s e k, to_global-text_at text s entities l) refl
  ]
]

-- An item stands for a detection: the same type and range, and a score at least as high.
abbrev pub stands_for : DetectedEntity → GlobalDetection → Bool
stands_for d g = same_key g.entity d && leb d.score g.entity.score

merge_into-stands_for :
    (merged : List GlobalDetection) (d : GlobalDetection)
    → any (stands_for d.entity) (merge_into merged d) ≡ true
unfolding merge_into merge
merge_into-stands_for [] d = ground (arith, text_eq_iff d.entity.entity_type d.entity.entity_type)
merge_into-stands_for (g ∷ merged) d =
    ground
      (arith, merge_into-stands_for merged d, text_eq_iff d.entity.entity_type d.entity.entity_type)

merge_into-keeps :
    (x : DetectedEntity) (merged : List GlobalDetection) (d : GlobalDetection)
    → any (stands_for x) merged ≡ true
    → any (stands_for x) (merge_into merged d) ≡ true
unfolding merge_into merge
merge_into-keeps x [] d h = cc
merge_into-keeps x (g ∷ merged) d h = ground (
  arith,
  h,
  merge_into-keeps x merged d,
  text_eq_iff g.entity.entity_type d.entity.entity_type,
  text_eq_iff g.entity.entity_type x.entity_type,
  text_eq_iff d.entity.entity_type x.entity_type,
)

merge_all-keeps :
    (x : DetectedEntity) (merged ds : List GlobalDetection)
    → any (stands_for x) merged ≡ true
    → any (stands_for x) (merge_all merged ds) ≡ true
unfolding merge_all
merge_all-keeps x merged [] h = h
merge_all-keeps x merged (d ∷ ds) h =
    merge_all-keeps x (merge_into merged d) ds (merge_into-keeps x merged d h)

merge_all-stands_for :
    (merged ds : List GlobalDetection)
    → All (λ d. any (stands_for d.entity) (merge_all merged ds) ≡ true) ds
unfolding merge_all
merge_all-stands_for merged [] = tt
merge_all-stands_for merged (d ∷ ds) = (
  merge_all-keeps d.entity (merge_into merged d) ds (merge_into-stands_for merged d),
  merge_all-stands_for (merge_into merged d) ds,
)

-- For each detection, coalescing returns one of the same type and range with a score at least as
-- high.
pub coalesce-stands_for :
    (ds : List GlobalDetection) → All (λ d. any (stands_for d.entity) (coalesce ds) ≡ true) ds
unfolding coalesce
coalesce-stands_for ds = All-imp ds (λ d h. rw any-sorted h) (merge_all-stands_for [] ds)
