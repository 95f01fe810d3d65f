-- ===== src/Detection/Overlap/Permutation.antt =====
-- `resolve_overlaps` (app/detection/overlap.py) on candidates in another order.
use aiprivacy_gateway.Common.{
  ℕ, ◌≡◌, ◌≢◌, refl, ap, sym, List, Text, All, Perm, sorted, sorted-perm, Ordering, compare_text-eq,
  arith, Option, none, some, [],
}
use aiprivacy_gateway.Domain.Entity.{DetectedEntity, IsValid}
use aiprivacy_gateway.Detection.Overlap.{
  dominance, resolve_overlaps, recognizer_name, position, select_greedy,
}
use aiprivacy_gateway.Detection.Overlap.Laws.{dominance-IsOrder}

DetectedEntity-list_set : IsSet (List DetectedEntity)
DetectedEntity-list_set = hlevel

-- The key of a nameless recognizer is that of a recognizer whose name is empty.
abbrev pub IsNamed : DetectedEntity → Type 0
IsNamed e = e.recognizer ≢ some []

recognizer_name-injective :
    (r s : Option Text) → r ≢ some [] → s ≢ some [] → recognizer_name r ≡ recognizer_name s → r ≡ s
recognizer_name-injective none none h k e = refl
recognizer_name-injective none (some n) h k e = absurd (k (ap some (sym e)))
recognizer_name-injective (some m) none h k e = absurd (h (ap some e))
recognizer_name-injective (some m) (some n) h k e = ap some e

module _ (priority : List (Text × ℕ)) where
  dominance-eq :
      (x y : DetectedEntity)
      → IsValid x × IsNamed x
      → IsValid y × IsNamed y
      → dominance priority x y ≡ Ordering.eq
      → x ≡ y
  dominance-eq x y v w h = ground (
    arith,
    compare_text-eq x.entity_type y.entity_type,
    compare_text-eq (recognizer_name x.recognizer) (recognizer_name y.recognizer),
    recognizer_name-injective x.recognizer y.recognizer,
    v.0,
    w.0,
    v.1,
    w.1,
  )

  -- Valid candidates in any order give the same result, if no recognizer has the empty text for
  -- its name.
  pub resolve_overlaps-perm :
      {xs ys : List DetectedEntity}
      → Perm xs ys
      → All (λ x. IsValid x × IsNamed x) xs
      → resolve_overlaps priority xs ≡ resolve_overlaps priority ys
  unfolding resolve_overlaps
  resolve_overlaps-perm p h =
      ap (λ l. sorted position (select_greedy [] l))
        (sorted-perm (dominance priority) (dominance-IsOrder priority) (λ x. IsValid x × IsNamed x)
          dominance-eq DetectedEntity-list_set p h)
