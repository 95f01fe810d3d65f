-- ===== src/Detection/Overlap/Greedy.antt =====
-- The greedy loop of `resolve_overlaps` (app/detection/overlap.py), as lemmas.
use aiprivacy_gateway.Common.{
  ◌≡◌, sym, subst, Bool, true, false, ◌&&◌, List, [], ◌∷◌, ◌++◌, All, AllPairs, All-append, any,
  any-append, Comparison, at_most, arith, Bool-cases, inl, inr,
}
use aiprivacy_gateway.Domain.Entity.{DetectedEntity, IsValid, overlaps}
use aiprivacy_gateway.Detection.Overlap.{select_greedy}

-- The two spans have no character in common.
abbrev pub Apart : DetectedEntity → DetectedEntity → Type 0
Apart x y = overlaps x y ≡ false

pub Apart-symm : (x y : DetectedEntity) → Apart x y → Apart y x
Apart-symm x y h = ground arith

pub overlaps_self : (x : DetectedEntity) → IsValid x → overlaps x x ≡ true
overlaps_self x v = ground arith

Apart-of_any :
    (x : DetectedEntity) (kept : List DetectedEntity)
    → any (overlaps x) kept ≡ false
    → All (λ y. Apart y x) kept
Apart-of_any x [] h = tt
Apart-of_any x (y ∷ ys) h = (ground arith, Apart-of_any x ys (ground arith))

AllPairs-snoc :
    (kept : List DetectedEntity) (x : DetectedEntity)
    → AllPairs Apart kept
    → All (λ y. Apart y x) kept
    → AllPairs Apart (kept ++ x ∷ [])
AllPairs-snoc [] x h k = (tt, tt)
AllPairs-snoc (y ∷ ys) x h k =
    (All-append (Apart y) ys (x ∷ []) h.0 (k.0, tt), AllPairs-snoc ys x h.1 k.1)

pub select_greedy-AllPairs :
    (kept rest : List DetectedEntity)
    → AllPairs Apart kept
    → AllPairs Apart (select_greedy kept rest)
unfolding select_greedy
select_greedy-AllPairs kept [] h = h
select_greedy-AllPairs kept (x ∷ rest) h = elim (Bool-cases (any (overlaps x) kept)) [
  | inl e ↦ rw e (select_greedy-AllPairs kept rest h)
  | inr e ↦ rw e (
      select_greedy-AllPairs (kept ++ x ∷ []) rest (AllPairs-snoc kept x h (Apart-of_any x kept e)))
]

module _ {ℓ} (P : DetectedEntity → Type ℓ) where
  pub All-select_greedy :
      (kept rest : List DetectedEntity) → All P kept → All P rest → All P (select_greedy kept rest)
  unfolding select_greedy
  All-select_greedy kept [] h k = h
  All-select_greedy kept (x ∷ rest) h k = elim (Bool-cases (any (overlaps x) kept)) [
    | inl e ↦ rw e (All-select_greedy kept rest h k.1)
    | inr e ↦
        rw e (All-select_greedy (kept ++ x ∷ []) rest (All-append P kept (x ∷ []) h (k.0, tt)) k.1)
  ]

-- `y` has a character in common with `x`, and ranks at least as high.
abbrev pub beats : Comparison DetectedEntity → DetectedEntity → DetectedEntity → Bool
beats c x y = overlaps x y && at_most c y x

any_imp :
    (p q : DetectedEntity → Bool) (xs : List DetectedEntity)
    → All (λ y. q y ≡ true) xs
    → any p xs ≡ true
    → any (λ y. p y && q y) xs ≡ true
any_imp p q [] h k = cc
any_imp p q (x ∷ xs) h k = ground (arith, any_imp p q xs h.1)

pub any-select_greedy :
    (p : DetectedEntity → Bool) (kept rest : List DetectedEntity)
    → any p kept ≡ true
    → any p (select_greedy kept rest) ≡ true
unfolding select_greedy
any-select_greedy p kept [] h = h
any-select_greedy p kept (x ∷ rest) h = elim (Bool-cases (any (overlaps x) kept)) [
  | inl e ↦ rw e (any-select_greedy p kept rest h)
  | inr e ↦ rw e (any-select_greedy p (kept ++ x ∷ []) rest (rw any-append (ground (arith, h))))
]

module _ (kept : List DetectedEntity) (x : DetectedEntity) (rest : List DetectedEntity) where
  select_greedy-dropped :
      any (overlaps x) kept ≡ true → select_greedy kept (x ∷ rest) ≡ select_greedy kept rest
  unfolding select_greedy
  select_greedy-dropped e = rw e

  select_greedy-kept :
      any (overlaps x) kept ≡ false
      → select_greedy kept (x ∷ rest) ≡ select_greedy (kept ++ x ∷ []) rest
  unfolding select_greedy
  select_greedy-kept e = rw e

module _ (c : Comparison DetectedEntity)
    (reflexive : (x : DetectedEntity) → at_most c x x ≡ true) where
  abbrev Earlier : List DetectedEntity → DetectedEntity → Type 0
  Earlier kept x = All (λ y. at_most c y x ≡ true) kept

  Earlier-snoc :
      (kept : List DetectedEntity) (x : DetectedEntity) (rest : List DetectedEntity)
      → All (Earlier kept) rest
      → All (λ z. at_most c x z ≡ true) rest
      → All (Earlier (kept ++ x ∷ [])) rest
  Earlier-snoc kept x [] h k = tt
  Earlier-snoc kept x (z ∷ rest) h k = (
    All-append (λ y. at_most c y z ≡ true) kept (x ∷ []) h.0 (k.0, tt),
    Earlier-snoc kept x rest h.1 k.1,
  )

  -- Walked best first, every candidate meets a kept span that ranks at least as high.
  pub select_greedy-beats :
      (kept rest : List DetectedEntity)
      → All IsValid rest
      → All (Earlier kept) rest
      → AllPairs (λ x y. at_most c x y ≡ true) rest
      → All (λ x. any (beats c x) (select_greedy kept rest) ≡ true) rest
  select_greedy-beats kept [] v h s = tt
  select_greedy-beats kept (x ∷ rest) v h s = elim (Bool-cases (any (overlaps x) kept)) [
    | inl e ↦
        subst (λ r. All (λ z. any (beats c z) r ≡ true) (x ∷ rest))
          (sym (select_greedy-dropped kept x rest e))
          (
            any-select_greedy (beats c x) kept rest
                (any_imp (overlaps x) (λ y. at_most c y x) kept h.0 e),
            select_greedy-beats kept rest v.1 h.1 s.1,
          )
    | inr e ↦
        subst (λ r. All (λ z. any (beats c z) r ≡ true) (x ∷ rest))
          (sym (select_greedy-kept kept x rest e))
          (
            any-select_greedy (beats c x) (kept ++ x ∷ []) rest
                (rw any-append (ground (arith, overlaps_self x v.0, reflexive x))),
            select_greedy-beats (kept ++ x ∷ []) rest v.1 (Earlier-snoc kept x rest h.1 s.0) s.1,
          )
  ]
