-- ===== src/Common/Permute.antt =====
-- Sorting under permutation of the input.
use mathlib.Core.Path.{◌≡◌, refl, ◌∙◌, subst}
use mathlib.Core.Logic.{∥∥₁_elim}
use mathlib.Core.Bool.{true}
use mathlib.Core.List.{List, [], ◌∷◌, Perm, Permᴰ}
use Prim.Native.Nat.{Ordering}
use native.Mathlib.Omega.{arith}
use aiprivacy_gateway.Common.Lists.{All}
use aiprivacy_gateway.Common.Order.{
  Comparison, IsOrder, at_most, at_most_total, at_most_trans, at_most_antisym,
}
use aiprivacy_gateway.Common.Sort.{insert_sorted, sorted}

module _ {ℓ κ} {A : Type ℓ} (c : Comparison A) (o : IsOrder c) (P : A → Type κ)
    (distinct : (x y : A) → P x → P y → c x y ≡ Ordering.eq → x ≡ y) where
  tie : (x y : A) → P x → P y → at_most c x y ≡ true → at_most c y x ≡ true → x ≡ y
  tie x y p q h k = distinct x y p q (at_most_antisym c o x y h k)

  insert_sorted_comm :
      (x y : A) (xs : List A)
      → P x
      → P y
      → insert_sorted c x (insert_sorted c y xs) ≡ insert_sorted c y (insert_sorted c x xs)
  unfolding insert_sorted
  insert_sorted_comm x y [] p q = ground (arith, tie x y p q, at_most_total c o x y)
  insert_sorted_comm x y (z ∷ zs) p q = ground (
    arith,
    tie x y p q,
    at_most_total c o x y,
    at_most_total c o y x,
    at_most_trans c o x y z,
    at_most_trans c o y x z,
    insert_sorted_comm x y zs p q,
  )

  sorted-permᴰ : {xs ys : List A} → Permᴰ xs ys → All P xs → (sorted c xs ≡ sorted c ys) × All P ys
  unfolding sorted
  sorted-permᴰ Permᴰ.nil h = (refl, tt)
  sorted-permᴰ (Permᴰ.cons {a = a} {l₁ = l} e p) h =
      let r = sorted-permᴰ p h.1 in (rw (e, r.0), (subst P e h.0, r.1))
  sorted-permᴰ (Permᴰ.swap {a = a} {b = b} {l = l} e f) h = (
    rw (← e, ← f) (insert_sorted_comm a b (sorted c l) h.0 h.1.0),
    (subst P f h.1.0, (subst P e h.0, h.1.1)),
  )
  sorted-permᴰ (Permᴰ.trans p q) h =
      let r = sorted-permᴰ p h in let s = sorted-permᴰ q r.1 in (r.0 ∙ s.0, s.1)

  pub sorted-perm :
      IsSet (List A) → {xs ys : List A} → Perm xs ys → All P xs → sorted c xs ≡ sorted c ys
  sorted-perm set p h = ∥∥₁_elim p (set _ _) (λ d. (sorted-permᴰ d h).0)
