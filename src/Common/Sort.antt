-- ===== src/Common/Sort.antt =====
-- Python's `sorted` with a key: a stable sort under a comparison, and what it does not depend on.
use mathlib.Core.Logic.{inl, inr}
use mathlib.Core.Path.{◌≡◌, refl}
use native.Mathlib.Omega.{arith}
use mathlib.Core.Bool.{Bool, true, ◌||◌}
use mathlib.Core.List.{List, [], ◌∷◌}
use aiprivacy_gateway.Common.Tests.{if◌then◌else◌, Bool-cases}
use aiprivacy_gateway.Common.Lists.{All, AllPairs, All-imp, any}
use aiprivacy_gateway.Common.Order.{Comparison, IsOrder, at_most, at_most_total, at_most_trans}

module _ {ℓ} {A : Type ℓ} (c : Comparison A) where
  -- Before the first item that is not smaller, so that equal items keep their order.
  unfoldable pub insert_sorted : A → List A → List A
  insert_sorted x [] = x ∷ []
  insert_sorted x (y ∷ ys) =
      let later = y ∷ insert_sorted x ys in if at_most c x y then x ∷ y ∷ ys else later

  unfoldable pub sorted : List A → List A
  unfolding insert_sorted
  sorted [] = []
  sorted (x ∷ xs) = insert_sorted x (sorted xs)

module _ {ℓ κ} {A : Type ℓ} (c : Comparison A) (P : A → Type κ) where
  All-insert_sorted : (x : A) (xs : List A) → P x → All P xs → All P (insert_sorted c x xs)
  unfolding insert_sorted
  All-insert_sorted x [] p h = (p, tt)
  All-insert_sorted x (y ∷ ys) p h = elim (Bool-cases (at_most c x y)) [
    | inl e ↦ rw e (p, h)
    | inr e ↦ rw e (h.0, All-insert_sorted x ys p h.1)
  ]

  All-of_insert_sorted : (x : A) (xs : List A) → All P (insert_sorted c x xs) → P x × All P xs
  unfolding insert_sorted
  All-of_insert_sorted x [] h = h
  All-of_insert_sorted x (y ∷ ys) h = elim (Bool-cases (at_most c x y)) [
    | inl e ↦ rw e at h
    | inr e ↦
        let later : All P (y ∷ insert_sorted c x ys) = rw e at h in
        let found = All-of_insert_sorted x ys later.1 in (found.0, (later.0, found.1))
  ]

  pub All-sorted : (xs : List A) → All P xs → All P (sorted c xs)
  unfolding sorted
  All-sorted [] h = tt
  All-sorted (x ∷ xs) h = All-insert_sorted x (sorted c xs) h.0 (All-sorted xs h.1)

  pub All-of_sorted : (xs : List A) → All P (sorted c xs) → All P xs
  unfolding sorted
  All-of_sorted [] h = tt
  All-of_sorted (x ∷ xs) h =
      let r = All-of_insert_sorted x (sorted c xs) h in (r.0, All-of_sorted xs r.1)

module _ {ℓ κ} {A : Type ℓ} (c : Comparison A) (R : A → A → Type κ)
    (symmetric : (x y : A) → R x y → R y x) where
  AllPairs-insert_sorted :
      (x : A) (xs : List A) → All (R x) xs → AllPairs R xs → AllPairs R (insert_sorted c x xs)
  unfolding insert_sorted
  AllPairs-insert_sorted x [] h k = (tt, tt)
  AllPairs-insert_sorted x (y ∷ ys) h k = elim (Bool-cases (at_most c x y)) [
    | inl e ↦ rw e (h, k)
    | inr e ↦ rw e (
      All-insert_sorted c (R y) x ys (symmetric x y h.0) k.0,
      AllPairs-insert_sorted x ys h.1 k.1,
    )
  ]

  -- A symmetric relation between all items outlives the sort.
  pub AllPairs-sorted : (xs : List A) → AllPairs R xs → AllPairs R (sorted c xs)
  unfolding sorted
  AllPairs-sorted [] h = tt
  AllPairs-sorted (x ∷ xs) h =
      AllPairs-insert_sorted x (sorted c xs) (All-sorted c (R x) xs h.0) (AllPairs-sorted xs h.1)

module _ {ℓ} {A : Type ℓ} (c : Comparison A) (o : IsOrder c) where
  abbrev pub Le : A → A → Type 0
  Le x y = at_most c x y ≡ true

  insert_sorted-AllPairs :
      (x : A) (xs : List A) → AllPairs Le xs → AllPairs Le (insert_sorted c x xs)
  unfolding insert_sorted
  insert_sorted-AllPairs x [] h = (tt, tt)
  insert_sorted-AllPairs x (y ∷ ys) h = elim (Bool-cases (at_most c x y)) [
    | inl e ↦ rw e ((e, All-imp ys (λ z k. at_most_trans c o x y z e k) h.0), h)
    | inr e ↦ rw e (
      All-insert_sorted c (Le y) x ys (at_most_total c o x y e) h.0,
      insert_sorted-AllPairs x ys h.1,
    )
  ]

  pub sorted-AllPairs : (xs : List A) → AllPairs Le (sorted c xs)
  unfolding sorted
  sorted-AllPairs [] = tt
  sorted-AllPairs (x ∷ xs) = insert_sorted-AllPairs x (sorted c xs) (sorted-AllPairs xs)

module _ {ℓ} {A : Type ℓ} (c : Comparison A) (p : A → Bool) where
  any-insert_sorted : (x : A) (xs : List A) → any p (insert_sorted c x xs) ≡ (p x || any p xs)
  unfolding insert_sorted
  any-insert_sorted x [] = refl
  any-insert_sorted x (y ∷ ys) = ground (arith, any-insert_sorted x ys)

  pub any-sorted : (xs : List A) → any p (sorted c xs) ≡ any p xs
  unfolding sorted
  any-sorted [] = refl
  any-sorted (x ∷ xs) = ground (arith, any-insert_sorted x (sorted c xs), any-sorted xs)
