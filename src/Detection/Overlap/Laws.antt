-- ===== src/Detection/Overlap/Laws.antt =====
-- What `resolve_overlaps` (app/detection/overlap.py) returns.
use aiprivacy_gateway.Common.{
  ℕ, ◌≤◌, ◌≡◌, true, List, [], ◌∷◌, Text, All, AllPairs, All-imp, any, at_most, IsOrder,
  and_then-IsOrder, descending-IsOrder, on-IsOrder, compare-IsOrder, compare_text-IsOrder, compare,
  compare_text, on, and_then, at_most_refl, sorted, All-sorted, All-of_sorted, AllPairs-sorted,
  sorted-AllPairs, any-sorted, All-intro, arith,
}
use aiprivacy_gateway.Domain.Entity.{DetectedEntity, IsValid, span_length}
use aiprivacy_gateway.Detection.Overlap.{
  severity, recognizer_name, dominance, position, select_greedy, resolve_overlaps,
}
use aiprivacy_gateway.Detection.Overlap.Greedy.{
  Apart, Apart-symm, select_greedy-AllPairs, All-select_greedy, beats, select_greedy-beats,
}

pub position-IsOrder : IsOrder position
position-IsOrder =
    and_then-IsOrder (on (λ e. e.start) compare)
      (and_then (on (λ e. e.end) compare) (on (λ e. e.entity_type) compare_text))
      (on-IsOrder (λ e. e.start) compare compare-IsOrder)
      (and_then-IsOrder (on (λ e. e.end) compare) (on (λ e. e.entity_type) compare_text)
        (on-IsOrder (λ e. e.end) compare compare-IsOrder)
        (on-IsOrder (λ e. e.entity_type) compare_text compare_text-IsOrder))

-- The first span ends before the second begins.
abbrev pub Before : DetectedEntity → DetectedEntity → Type 0
Before x y = x.end ≤ y.start

Before-of_Apart :
    (x y : DetectedEntity)
    → IsValid x
    → IsValid y
    → at_most position x y ≡ true
    → Apart x y
    → Before x y
Before-of_Apart x y v w h k = ground arith

AllPairs-Before :
    (xs : List DetectedEntity)
    → All IsValid xs
    → AllPairs (λ x y. at_most position x y ≡ true) xs
    → AllPairs Apart xs
    → AllPairs Before xs
AllPairs-Before [] v h k = tt
AllPairs-Before (x ∷ xs) v h k = (each xs v.1 h.0 k.0, AllPairs-Before xs v.1 h.1 k.1)
  where
    each :
        (ys : List DetectedEntity)
        → All IsValid ys
        → All (λ y. at_most position x y ≡ true) ys
        → All (Apart x) ys
        → All (Before x) ys
    each [] a b c = tt
    each (y ∷ ys) a b c = (Before-of_Apart x y v.0 a.0 b.0 c.0, each ys a.1 b.1 c.1)

module _ (priority : List (Text × ℕ)) where
  pub dominance-IsOrder : IsOrder (dominance priority)
  dominance-IsOrder =
      and_then-IsOrder _ _
        (on-IsOrder (severity priority) _ (descending-IsOrder compare compare-IsOrder))
        (and_then-IsOrder _ _
          (on-IsOrder (λ e. e.score) _ (descending-IsOrder compare compare-IsOrder))
          (and_then-IsOrder _ _
            (on-IsOrder span_length _ (descending-IsOrder compare compare-IsOrder))
            (and_then-IsOrder _ _ (on-IsOrder (λ e. e.start) _ compare-IsOrder) (
              and_then-IsOrder _ _ (on-IsOrder (λ e. e.entity_type) _ compare_text-IsOrder)
                (on-IsOrder (λ e. recognizer_name e.recognizer) _ compare_text-IsOrder)))))

  -- Every property that all candidates have, all spans of the result have.
  pub All-resolve_overlaps {ℓ} :
      (P : DetectedEntity → Type ℓ) (entities : List DetectedEntity)
      → All P entities
      → All P (resolve_overlaps priority entities)
  unfolding resolve_overlaps
  All-resolve_overlaps P entities h =
      All-sorted position P _
        (All-select_greedy P [] _ tt (All-sorted (dominance priority) P entities h))

  -- For valid candidates, each span of the result ends before the next ones begin.
  pub resolve_overlaps-ordered :
      (entities : List DetectedEntity)
      → All IsValid entities
      → AllPairs Before (resolve_overlaps priority entities)
  unfolding resolve_overlaps
  resolve_overlaps-ordered entities v =
      let ordered = sorted (dominance priority) entities in
      let kept = select_greedy [] ordered in
      AllPairs-Before (sorted position kept)
        (All-sorted position IsValid kept (
          All-select_greedy IsValid [] ordered tt
            (All-sorted (dominance priority) IsValid entities v)))
        (sorted-AllPairs position position-IsOrder kept)
        (AllPairs-sorted position Apart Apart-symm kept (select_greedy-AllPairs [] ordered tt))

  -- For valid candidates, each of them has a character in common with a span of the result that
  -- ranks at least as high.
  pub resolve_overlaps-beats :
      (entities : List DetectedEntity)
      → All IsValid entities
      → All
          (λ x. any (beats (dominance priority) x) (resolve_overlaps priority entities) ≡ true)
          entities
  unfolding resolve_overlaps
  resolve_overlaps-beats entities v =
      let ordered = sorted (dominance priority) entities in
      All-of_sorted (dominance priority) _ entities (
        All-imp ordered (λ x h. rw any-sorted h)
          (select_greedy-beats (dominance priority)
            (at_most_refl (dominance priority) dominance-IsOrder) [] ordered
            (All-sorted (dominance priority) IsValid entities v) (All-intro ordered (λ _. tt))
            (sorted-AllPairs (dominance priority) dominance-IsOrder entities)))
