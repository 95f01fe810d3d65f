-- ===== src/Tokenization/Selection/Laws.antt =====
-- What `select_entities` (app/tokenization/selection.py) returns.
use aiprivacy_gateway.Common.{
  ℕ, ◌≤◌, ◌≡◌, refl, sym, subst, ap, ◌∙◌, true, false, List, [], ◌∷◌, Text, length, All, AllPairs,
  All-imp, All-intro, All-keep, keep-All, AllPairs-keep, keep, any, at_most, sorted, All-sorted,
  All-of_sorted, sorted-AllPairs, IsOrder, and_then-IsOrder, on-IsOrder, descending-IsOrder,
  compare-IsOrder, compare_text-IsOrder, compare, ltb, arith, Bool-cases, inl, inr,
}
use aiprivacy_gateway.Common.Sort.{insert_sorted}
use aiprivacy_gateway.Domain.Errors.{ok}
use aiprivacy_gateway.Domain.Entity.{DetectedEntity, IsValid, overlaps, span_length}
use aiprivacy_gateway.Policy.Snapshot.{PolicySnapshot}
use aiprivacy_gateway.Detection.Overlap.Laws.{Before}
use aiprivacy_gateway.Tokenization.Selection.{
  selection_order, validate_spans, sweep, resolve_overlaps, is_confident, select_entities,
}

selection_order-IsOrder : IsOrder selection_order
selection_order-IsOrder = and_then-IsOrder _ _ (on-IsOrder (λ e. e.start) _ compare-IsOrder) (
    and_then-IsOrder _ _ (on-IsOrder span_length _ (descending-IsOrder compare compare-IsOrder)) (
      and_then-IsOrder _ _
        (on-IsOrder (λ e. e.score) _ (descending-IsOrder compare compare-IsOrder))
        (on-IsOrder (λ e. e.entity_type) _ compare_text-IsOrder)))

validate_spans-inside :
    (text : Text) (es : List DetectedEntity)
    → validate_spans text es ≡ ok tt
    → All (λ e. e.end ≤ length text) es
unfolding validate_spans
validate_spans-inside text [] h = tt
validate_spans-inside text (e ∷ es) h = (ground arith, validate_spans-inside text es (ground arith))

validate_spans-ok :
    (text : Text) (es : List DetectedEntity)
    → All (λ e. e.end ≤ length text) es
    → validate_spans text es ≡ ok tt
unfolding validate_spans
validate_spans-ok text [] h = refl
validate_spans-ok text (e ∷ es) h = ground (arith, validate_spans-ok text es h.1)

All-sweep {ℓ} :
    (P : DetectedEntity → Type ℓ) (b : ℕ) (es : List DetectedEntity) → All P es → All P (sweep b es)
unfolding sweep
All-sweep P b [] h = tt
All-sweep P b (e ∷ es) h = elim (Bool-cases (ltb e.start b)) [
  | inl k ↦ rw k (All-sweep P b es h.1)
  | inr k ↦ rw k (h.0, All-sweep P e.end es h.1)
]

sweep-above :
    (b : ℕ) (es : List DetectedEntity) → All IsValid es → All (λ e. b ≤ e.start) (sweep b es)
unfolding sweep
sweep-above b [] v = tt
sweep-above b (e ∷ es) v = elim (Bool-cases (ltb e.start b)) [
  | inl k ↦ rw k (sweep-above b es v.1)
  | inr k ↦
      let start : b ≤ e.start = ground arith in
      let end : b ≤ e.end = omega (arith, v.0.forward) in
      rw k (start, All-imp _ (λ x h. omega (arith, h, end)) (sweep-above e.end es v.1))
]

sweep-ordered : (b : ℕ) (es : List DetectedEntity) → All IsValid es → AllPairs Before (sweep b es)
unfolding sweep
sweep-ordered b [] v = tt
sweep-ordered b (e ∷ es) v = elim (Bool-cases (ltb e.start b)) [
  | inl k ↦ rw k (sweep-ordered b es v.1)
  | inr k ↦ rw k (sweep-above e.end es v.1, sweep-ordered e.end es v.1)
]

module _ (b : ℕ) (e : DetectedEntity) (es : List DetectedEntity) where
  sweep-dropped : ltb e.start b ≡ true → sweep b (e ∷ es) ≡ sweep b es
  unfolding sweep
  sweep-dropped h = rw h

  sweep-kept : ltb e.start b ≡ false → sweep b (e ∷ es) ≡ e ∷ sweep e.end es
  unfolding sweep
  sweep-kept h = rw h

-- A span that starts at or after the start of `k` and is dropped meets it.
meets_of_dropped :
    (k e : DetectedEntity)
    → IsValid e
    → k.start ≤ e.start
    → ltb e.start k.end ≡ true
    → overlaps e k ≡ true
meets_of_dropped k e v h d = ground arith

starts_in_order : (e x : DetectedEntity) → at_most selection_order e x ≡ true → e.start ≤ x.start
starts_in_order e x h = ground arith

-- `k` is the last span kept. Whatever starts no earlier meets it or a later one.
sweep-meets :
    (k : DetectedEntity) (es : List DetectedEntity)
    → All IsValid es
    → All (λ e. k.start ≤ e.start) es
    → AllPairs (λ x y. at_most selection_order x y ≡ true) es
    → All (λ e. any (overlaps e) (k ∷ sweep k.end es) ≡ true) es
sweep-meets k [] v h s = tt
sweep-meets k (e ∷ es) v h s = elim (Bool-cases (ltb e.start k.end)) [
  | inl d ↦
      subst (λ r. All (λ x. any (overlaps x) (k ∷ r) ≡ true) (e ∷ es))
        (sym (sweep-dropped k.end e es d))
        (ground (arith, meets_of_dropped k e v.0 h.0 d), sweep-meets k es v.1 h.1 s.1)
  | inr d ↦
      subst (λ r. All (λ x. any (overlaps x) (k ∷ r) ≡ true) (e ∷ es))
        (sym (sweep-kept k.end e es d))
        (
          ground (arith, v.0),
          All-imp es (λ x m. ground (arith, m))
              (sweep-meets e es v.1 (All-imp es (starts_in_order e) s.0) s.1),
        )
]

sweep_start-meets :
    (es : List DetectedEntity)
    → All IsValid es
    → AllPairs (λ x y. at_most selection_order x y ≡ true) es
    → All (λ e. any (overlaps e) (sweep 0 es) ≡ true) es
sweep_start-meets [] v s = tt
sweep_start-meets (e ∷ es) v s =
    subst (λ r. All (λ x. any (overlaps x) r ≡ true) (e ∷ es))
      (sym (sweep-kept 0 e es (ground arith)))
      (ground (arith, v.0), sweep-meets e es v.1 (All-imp es (starts_in_order e) s.0) s.1)

resolve_overlaps-meets :
    (es : List DetectedEntity)
    → All IsValid es
    → All (λ e. any (overlaps e) (resolve_overlaps es) ≡ true) es
unfolding resolve_overlaps
resolve_overlaps-meets es v = All-of_sorted selection_order _ es (
    sweep_start-meets (sorted selection_order es) (All-sorted selection_order IsValid es v)
      (sorted-AllPairs selection_order selection_order-IsOrder es))

All-resolve_overlaps {ℓ} :
    (P : DetectedEntity → Type ℓ) (es : List DetectedEntity)
    → All P es
    → All P (resolve_overlaps es)
unfolding resolve_overlaps
All-resolve_overlaps P es h = All-sweep P 0 _ (All-sorted selection_order P es h)

resolve_overlaps-ordered :
    (es : List DetectedEntity) → All IsValid es → AllPairs Before (resolve_overlaps es)
unfolding resolve_overlaps
resolve_overlaps-ordered es v = sweep-ordered 0 _ (All-sorted selection_order IsValid es v)

module _ (text : Text) (es : List DetectedEntity) (policy : PolicySnapshot) where
  select_entities-eq-ok :
      {out : List DetectedEntity}
      → select_entities text es policy ≡ ok out
      → (validate_spans text es ≡ ok tt) × (out ≡ resolve_overlaps (keep (is_confident policy) es))
  unfolding select_entities
  select_entities-eq-ok h = ground arith

  select_entities_lem :
      validate_spans text es ≡ ok tt
      → select_entities text es policy ≡ ok (resolve_overlaps (keep (is_confident policy) es))
  unfolding select_entities
  select_entities_lem h = rw h

  module _ {out : List DetectedEntity} (done : select_entities text es policy ≡ ok out)
      (valid : All IsValid es) where
    -- The spans that selection returns for valid detections lie in the text, meet the
    -- threshold of their type, are valid, and each ends before the next ones begin.
    pub select_entities_sound :
        All (λ e. e.end ≤ length text) out
        × All (λ e. is_confident policy e ≡ true) out
        × All IsValid out
        × AllPairs Before out
    select_entities_sound =
        let (inside, e) = select_entities-eq-ok done in
        rw e (
          All-resolve_overlaps (λ x. x.end ≤ length text) (keep (is_confident policy) es)
              (All-keep (λ x. x.end ≤ length text) (is_confident policy) es
                (validate_spans-inside text es inside)),
          All-resolve_overlaps (λ x. is_confident policy x ≡ true) (keep (is_confident policy) es)
              (keep-All (λ x. is_confident policy x ≡ true) (is_confident policy) es (λ x h. h)),
          All-resolve_overlaps IsValid (keep (is_confident policy) es)
              (All-keep IsValid (is_confident policy) es valid),
          resolve_overlaps-ordered (keep (is_confident policy) es)
              (All-keep IsValid (is_confident policy) es valid),
        )

    -- If selection succeeds on valid detections, each detection that meets the threshold of
    -- its type has a character in common with a span that is returned.
    pub select_entities-meets :
        All (λ e. any (overlaps e) out ≡ true) (keep (is_confident policy) es)
    select_entities-meets =
        subst (λ r. All (λ e. any (overlaps e) r ≡ true) (keep (is_confident policy) es))
          (sym (select_entities-eq-ok done).1)
          (resolve_overlaps-meets (keep (is_confident policy) es)
            (All-keep IsValid (is_confident policy) es valid))

insert_sorted-first :
    (e : DetectedEntity) (es : List DetectedEntity)
    → All IsValid (e ∷ es)
    → All (Before e) es
    → insert_sorted selection_order e es ≡ e ∷ es
unfolding insert_sorted
insert_sorted-first e [] v b = refl
insert_sorted-first e (x ∷ es) v b = ground (arith, v.0, v.1.0, b.0)

sorted-eq_self :
    (es : List DetectedEntity)
    → All IsValid es
    → AllPairs Before es
    → sorted selection_order es ≡ es
unfolding sorted
sorted-eq_self [] v b = refl
sorted-eq_self (e ∷ es) v b = rw (sorted-eq_self es v.1 b.1) (insert_sorted-first e es v b.0)

sweep-eq_self :
    (boundary : ℕ) (es : List DetectedEntity)
    → All (λ e. boundary ≤ e.start) es
    → AllPairs Before es
    → sweep boundary es ≡ es
unfolding sweep
sweep-eq_self boundary [] h b = refl
sweep-eq_self boundary (e ∷ es) h b =
    sweep-kept boundary e es (ground (arith, h.0))
    ∙ ap (λ r. e ∷ r) (sweep-eq_self e.end es b.0 b.1)

resolve_overlaps-eq_self :
    (es : List DetectedEntity) → All IsValid es → AllPairs Before es → resolve_overlaps es ≡ es
unfolding resolve_overlaps
resolve_overlaps-eq_self es v b =
    rw (sorted-eq_self es v b) (sweep-eq_self 0 es (All-intro es (λ e. omega arith)) b)

-- Valid detections inside the text that are in order and apart survive selection exactly if they
-- meet the threshold of their type.
pub select_entities-ordered :
    (text : Text) (es : List DetectedEntity) (policy : PolicySnapshot)
    → All IsValid es
    → AllPairs Before es
    → All (λ e. e.end ≤ length text) es
    → select_entities text es policy ≡ ok (keep (is_confident policy) es)
select_entities-ordered text es policy v b h =
    select_entities_lem text es policy (validate_spans-ok text es h)
    ∙ ap ok (
        resolve_overlaps-eq_self (keep (is_confident policy) es)
          (All-keep IsValid (is_confident policy) es v)
          (AllPairs-keep Before (is_confident policy) es b))
