-- ===== src/Common/Dict.antt =====
-- Python's dicts as lists of pairs in the order of insertion, under a test for equal keys.
use mathlib.Core.Path.{◌≡◌, refl, sym, ap, subst}
use mathlib.Core.Logic.{◌↔◌, inl, inr}
use mathlib.Core.Bool.{Bool, true, false}
use mathlib.Core.Option.{Option, none, some}
use mathlib.Core.List.{List, [], ◌∷◌}
use aiprivacy_gateway.Common.Tests.{if◌then◌else◌, Bool-cases}
use aiprivacy_gateway.Common.Lists.{All, keep}

module _ {K V : Type 0} (eq : K → K → Bool) where
  -- `d.get(k)`
  abbrev pub dict_get : K → List (K × V) → Option V
  dict_get k [] = none
  dict_get k ((j, v) ∷ d) = let rest = dict_get k d in if eq j k then some v else rest

  -- `d[k] = v`
  abbrev pub dict_set : K → V → List (K × V) → List (K × V)
  dict_set k v [] = (k, v) ∷ []
  dict_set k v ((j, w) ∷ d) =
      let rest = (j, w) ∷ dict_set k v d in if eq j k then (j, v) ∷ d else rest

module _ {K V : Type 0} (eq : K → K → Bool) (eq_iff : (a b : K) → (eq a b ≡ true) ↔ (a ≡ b)) where
  pub dict_get-set_same :
      (k : K) (v : V) (d : List (K × V)) → dict_get eq k (dict_set eq k v d) ≡ some v
  dict_get-set_same k v [] = rw ((eq_iff k k).1 refl) refl
  dict_get-set_same k v ((j, w) ∷ d) = elim (Bool-cases (eq j k)) [
    | inl e ↦ rw (e, e) refl
    | inr e ↦ rw (e, e) (dict_get-set_same k v d)
  ]

  pub dict_get-set_other :
      (k l : K) (v : V) (d : List (K × V))
      → eq k l ≡ false
      → dict_get eq l (dict_set eq k v d) ≡ dict_get eq l d
  dict_get-set_other k l v [] h = rw h refl
  dict_get-set_other k l v ((j, w) ∷ d) h = elim (Bool-cases (eq j k)) [
    | inl e ↦
        let same = (eq_iff j k).0 e in let apart : eq j l ≡ false = rw same h in rw (e, apart) refl
    | inr e ↦ rw e (ap (λ r. if eq j l then some w else r) (dict_get-set_other k l v d h))
  ]

  pub dict_get-All :
      (P : K × V → Type 0) (k : K) (v : V) (d : List (K × V))
      → All P d
      → dict_get eq k d ≡ some v
      → P (k, v)
  dict_get-All P k v [] a h = absurd (cc)
  dict_get-All P k v ((j, w) ∷ d) a h = elim (Bool-cases (eq j k)) [
    | inl e ↦
        let h' = rw e at h in
        let value : w ≡ v = cc in
        subst (λ key. P (key, v)) ((eq_iff j k).0 e) (subst (λ x. P (j, x)) value a.0)
    | inr e ↦ let h' = rw e at h in dict_get-All P k v d a.1 h'
  ]

  pub All-dict_set :
      (P : K × V → Type 0) (k : K) (v : V) (d : List (K × V))
      → All P d
      → P (k, v)
      → All P (dict_set eq k v d)
  All-dict_set P k v [] a h = (h, tt)
  All-dict_set P k v ((j, w) ∷ d) a h = elim (Bool-cases (eq j k)) [
    | inl e ↦ rw e (subst (λ key. P (key, v)) (sym ((eq_iff j k).0 e)) h, a.1)
    | inr e ↦ rw e (a.0, All-dict_set P k v d a.1 h)
  ]

  -- A value that passes a test is still found among those that pass it.
  pub dict_get-keep :
      (p : V → Bool) (k : K) (v : V) (d : List (K × V))
      → p v ≡ true
      → dict_get eq k d ≡ some v
      → dict_get eq k (keep (λ q. p q.1) d) ≡ some v
  dict_get-keep p k v [] h g = cc
  dict_get-keep p k v ((j, w) ∷ d) h g = elim (Bool-cases (eq j k)) [
    | inl e ↦
        let g' = rw e at g in
        let value : w ≡ v = cc in let passes : p w ≡ true = rw value h in rw (passes, e, value) refl
    | inr e ↦
        let g' = rw e at g in
        let rest = dict_get-keep p k v d h g' in
        elim (Bool-cases (p w)) [ inl q ↦ rw (q, e) rest | inr q ↦ rw q rest ]
  ]
