-- ===== src/Common/Strings.antt =====
-- Texts as lists of code points, as Python's `str` indexes them, with `==` and the order of `sorted`.
use Prim.Native.Nat.{ℕ, compare, Ordering}
use Prim.Native.Char.{code}
use Prim.Native.String.{String}
use mathlib.Core.Path.{◌≡◌, refl}
use mathlib.Core.Logic.{◌↔◌}
use mathlib.Core.Bool.{Bool, true, false, ◌&&◌, ◌||◌}
use mathlib.Core.List.{List, [], ◌∷◌}
use native.Mathlib.Omega.{arith}
use aiprivacy_gateway.Common.Tests.{◌==◌}
use aiprivacy_gateway.Common.Lists.{take, length}
use aiprivacy_gateway.Common.Order.{Comparison, IsOrder, flip, compare-flips}

abbrev pub Text : Type 0
Text = List ℕ

-- The code points of a literal.
abbrev pub codes : String → Text
codes String.[] = []
codes (String.◌∷◌ c s) = code c ∷ codes s

pub compare_text : Comparison Text
compare_text [] [] = Ordering.eq
compare_text [] (_ ∷ _) = Ordering.lt
compare_text (_ ∷ _) [] = Ordering.gt
compare_text (a ∷ s) (b ∷ t) =
    let rest = compare_text s t in
    elim (compare a b) [
      | Ordering.lt ↦ Ordering.lt
      | Ordering.eq ↦ rest
      | Ordering.gt ↦ Ordering.gt
    ]

unfoldable pub text_eq : Text → Text → Bool
text_eq [] [] = true
text_eq [] (_ ∷ _) = false
text_eq (_ ∷ _) [] = false
text_eq (a ∷ s) (b ∷ t) = a == b && text_eq s t

-- `text.startswith(prefix)`
abbrev pub starts_with : Text → Text → Bool
starts_with prefix text = text_eq (take (length prefix) text) prefix

-- `part in text`
unfoldable pub contains : Text → Text → Bool
unfolding text_eq
contains part [] = text_eq part []
contains part (c ∷ text) = starts_with part (c ∷ text) || contains part text

-- `x in xs` for texts
abbrev pub mem_text : Text → List Text → Bool
mem_text x [] = false
mem_text x (y ∷ ys) = text_eq x y || mem_text x ys

compare_text-flips : (s t : Text) → compare_text t s ≡ flip (compare_text s t)
unfolding compare_text
compare_text-flips [] [] = refl
compare_text-flips [] (_ ∷ _) = refl
compare_text-flips (_ ∷ _) [] = refl
compare_text-flips (a ∷ s) (b ∷ t) = ground (arith, compare_text-flips s t, compare-flips a b)

pub compare_text-eq : (s t : Text) → compare_text s t ≡ Ordering.eq → s ≡ t
unfolding compare_text
compare_text-eq [] [] h = refl
compare_text-eq [] (_ ∷ _) h = cc
compare_text-eq (_ ∷ _) [] h = cc
compare_text-eq (a ∷ s) (b ∷ t) h = ground (arith, compare_text-eq s t)

compare_text-lt_trans :
    (s t u : Text)
    → compare_text s t ≡ Ordering.lt
    → compare_text t u ≡ Ordering.lt
    → compare_text s u ≡ Ordering.lt
unfolding compare_text
compare_text-lt_trans [] (_ ∷ _) (_ ∷ _) h k = refl
compare_text-lt_trans (a ∷ s) (b ∷ t) (c ∷ u) h k = ground (arith, compare_text-lt_trans s t u)
compare_text-lt_trans _ _ _ h k = ground arith

pub compare_text-IsOrder : IsOrder compare_text
compare_text-IsOrder = record {
  flips = compare_text-flips;
  lt_trans = compare_text-lt_trans;
  eq_left = λ s t u h. rw (compare_text-eq s t h);
}

text_eq_refl : (s : Text) → text_eq s s ≡ true
unfolding text_eq
text_eq_refl [] = refl
text_eq_refl (a ∷ s) = ground (arith, text_eq_refl s)

text_eq_sound : (s t : Text) → text_eq s t ≡ true → s ≡ t
unfolding text_eq
text_eq_sound [] [] h = refl
text_eq_sound [] (_ ∷ _) h = cc
text_eq_sound (_ ∷ _) [] h = cc
text_eq_sound (a ∷ s) (b ∷ t) h = ground (arith, text_eq_sound s t)

pub text_eq_iff : (s t : Text) → (text_eq s t ≡ true) ↔ (s ≡ t)
text_eq_iff s t = (text_eq_sound s t, λ e. rw e (text_eq_refl t))
