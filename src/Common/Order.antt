-- ===== src/Common/Order.antt =====
-- Three-way comparisons, as Python compares tuples: the first key that differs decides.
use Prim.Native.Nat.{ℕ, compare, Ordering}
use mathlib.Core.Path.{◌≡◌}
use mathlib.Core.Bool.{Bool, true, false}
use native.Mathlib.Omega.{arith}

abbrev pub flip : Ordering → Ordering
flip Ordering.lt = Ordering.gt
flip Ordering.eq = Ordering.eq
flip Ordering.gt = Ordering.lt

abbrev pub Comparison {ℓ} : Type ℓ → Type ℓ
Comparison A = A → A → Ordering

-- What the sorts need of a comparison. Two values may compare equal and differ.
pub record IsOrder {ℓ} {A : Type ℓ} (c : Comparison A) : Type ℓ where
  pub flips : (x y : A) → c y x ≡ flip (c x y)
  pub lt_trans : (x y z : A) → c x y ≡ Ordering.lt → c y z ≡ Ordering.lt → c x z ≡ Ordering.lt
  pub eq_left : (x y z : A) → c x y ≡ Ordering.eq → c x z ≡ c y z

module _ {ℓ} {A : Type ℓ} where
  -- The keys `c` and then `d`, where `c` cannot tell the two apart.
  abbrev pub and_then : Comparison A → Comparison A → Comparison A
  and_then c d x y = elim (c x y) [
    | Ordering.lt ↦ Ordering.lt
    | Ordering.eq ↦ d x y
    | Ordering.gt ↦ Ordering.gt
  ]

  -- A key that is negated.
  abbrev pub descending : Comparison A → Comparison A
  descending c x y = c y x

  abbrev pub at_most : Comparison A → A → A → Bool
  at_most c x y = elim (c x y) [ Ordering.gt ↦ false | _ ↦ true ]

  pub descending-IsOrder : (c : Comparison A) → IsOrder c → IsOrder (descending c)
  descending-IsOrder c o = record {
    flips = λ x y. o.flips y x;
    lt_trans = λ x y z p q. o.lt_trans z y x q p;
    eq_left = λ x y z p. ground (arith, o.flips x y, o.flips x z, o.flips y z, o.eq_left x y z);
  }

  pub and_then-IsOrder : (c d : Comparison A) → IsOrder c → IsOrder d → IsOrder (and_then c d)
  and_then-IsOrder c d o p = record {
    flips = λ x y. ground (arith, o.flips x y, p.flips x y);
    lt_trans = λ x y z h k. ground (
      arith,
      o.lt_trans x y z,
      p.lt_trans x y z,
      o.eq_left x y z,
      o.eq_left z y x,
      o.flips x y,
      o.flips y z,
      o.flips x z,
    );
    eq_left = λ x y z h. ground (arith, o.eq_left x y z, p.eq_left x y z);
  }

abbrev pub on {ℓ κ} : {A : Type ℓ} {B : Type κ} → (A → B) → Comparison B → Comparison A
on f c x y = c (f x) (f y)

pub on-IsOrder {ℓ κ} :
    {A : Type ℓ} {B : Type κ} (f : A → B) (c : Comparison B) → IsOrder c → IsOrder (on f c)
on-IsOrder f c o = record {
  flips = λ x y. o.flips (f x) (f y);
  lt_trans = λ x y z. o.lt_trans (f x) (f y) (f z);
  eq_left = λ x y z. o.eq_left (f x) (f y) (f z);
}

pub compare-flips : (a b : ℕ) → compare b a ≡ flip (compare a b)
compare-flips a b = ground arith

compare-lt_trans :
    (a b c : ℕ) → compare a b ≡ Ordering.lt → compare b c ≡ Ordering.lt → compare a c ≡ Ordering.lt
compare-lt_trans a b c h k = ground arith

compare-eq_left : (a b c : ℕ) → compare a b ≡ Ordering.eq → compare a c ≡ compare b c
compare-eq_left a b c h = ground arith

pub compare-IsOrder : IsOrder compare
compare-IsOrder = record {
  flips = compare-flips;
  lt_trans = compare-lt_trans;
  eq_left = compare-eq_left;
}

module _ {ℓ} {A : Type ℓ} (c : Comparison A) (o : IsOrder c) where
  pub at_most_total : (x y : A) → at_most c x y ≡ false → at_most c y x ≡ true
  at_most_total x y h = ground (arith, o.flips x y)

  pub at_most_trans :
      (x y z : A) → at_most c x y ≡ true → at_most c y z ≡ true → at_most c x z ≡ true
  at_most_trans x y z h k = ground (
    arith,
    o.lt_trans x y z,
    o.eq_left x y z,
    o.eq_left z y x,
    o.flips x y,
    o.flips y z,
    o.flips x z,
  )

  pub at_most_refl : (x : A) → at_most c x x ≡ true
  at_most_refl x = ground (arith, o.flips x x)

  pub at_most_antisym :
      (x y : A) → at_most c x y ≡ true → at_most c y x ≡ true → c x y ≡ Ordering.eq
  at_most_antisym x y h k = ground (arith, o.flips x y)
