-- ===== src/Outbound/Registry/Laws.antt =====
-- What app/llm/registry.py finds.
use aiprivacy_gateway.Common.{
  ◌≡◌, refl, sym, List, [], ◌∷◌, ◌++◌, Text, text_eq, text_eq_iff, none, some, All, All-append,
  Bool-cases, Option-cases, All-imp, arith, inl, inr,
}
use aiprivacy_gateway.Domain.Errors.{ok}
use aiprivacy_gateway.Policy.Snapshot.{lookup}
use aiprivacy_gateway.Outbound.Registry.{
  LlmProvider, ProviderRegistry, register, from_providers, get,
}

module _ {V : Type 0} where
  lookup-append_old :
      (k : Text) (v : V) (xs ys : List (Text × V))
      → lookup k xs ≡ some v
      → lookup k (xs ++ ys) ≡ some v
  unfolding lookup
  lookup-append_old k v [] ys h = cc
  lookup-append_old k v ((l, w) ∷ xs) ys h = ground (arith, lookup-append_old k v xs ys)

  lookup-append_new :
      (k : Text) (v : V) (xs : List (Text × V))
      → lookup k xs ≡ none
      → lookup k (xs ++ (k, v) ∷ []) ≡ some v
  unfolding lookup
  lookup-append_new k v [] h = rw ((text_eq_iff k k).1 refl) refl
  lookup-append_new k v ((l, w) ∷ xs) h = ground (arith, lookup-append_new k v xs)

  lookup-All :
      (P : Text × V → Type 0) (k : Text) (v : V) (xs : List (Text × V))
      → All P xs
      → lookup k xs ≡ some v
      → P (k, v)
  unfolding lookup
  lookup-All P k v [] a h = absurd (cc)
  lookup-All P k v ((l, w) ∷ xs) a h = elim (Bool-cases (text_eq l k)) [
    | inl e ↦
        let same = (text_eq_iff l k).0 e in
        let h' = rw e at h in let value : w ≡ v = cc in rw (sym same, sym value) a.0
    | inr e ↦ let h' = rw e at h in lookup-All P k v xs a.1 h'
  ]

module _ {S : Type 0} (normalize : Text → Text) where
  -- Every adapter stands under its own alias.
  abbrev pub IsKeyed : Text × LlmProvider S → Type 0
  IsKeyed p = p.0 ≡ normalize p.1.alias

  register-accepted :
      (adapters : ProviderRegistry S) (x : LlmProvider S) (providers : List (LlmProvider S))
      (built : ProviderRegistry S)
      → register normalize adapters (x ∷ providers) ≡ ok built
      → (lookup (normalize x.alias) adapters ≡ none)
        × (register normalize (adapters ++ (normalize x.alias, x) ∷ []) providers ≡ ok built)
  unfolding register
  register-accepted adapters x providers built h =
      elim (Option-cases (lookup (normalize x.alias) adapters)) [
        | inl e ↦ let h' = rw (e, register) at h in (e, h')
        | inr (_, e) ↦ absurd (let h' = rw (e, register) at h in cc)
      ]

  register-keeps :
      (adapters : ProviderRegistry S) (providers : List (LlmProvider S))
      (built : ProviderRegistry S)
      → register normalize adapters providers ≡ ok built
      → (k : Text) (p : LlmProvider S) → lookup k adapters ≡ some p
      → lookup k built ≡ some p
  unfolding register
  register-keeps adapters [] built h k p found =
      let same : adapters ≡ built = cc in rw (sym same) found
  register-keeps adapters (x ∷ providers) built h k p found =
      let (_, later) = register-accepted adapters x providers built h in
      register-keeps (adapters ++ (normalize x.alias, x) ∷ []) providers built later k p
        (lookup-append_old k p adapters _ found)

  register-finds :
      (adapters : ProviderRegistry S) (providers : List (LlmProvider S))
      (built : ProviderRegistry S)
      → register normalize adapters providers ≡ ok built
      → All IsKeyed adapters
      → All IsKeyed built
        × All (λ (p : LlmProvider S). lookup (normalize p.alias) built ≡ some p) providers
  unfolding register
  register-finds adapters [] built h keyed =
      let same : adapters ≡ built = cc in (rw (sym same) keyed, tt)
  register-finds adapters (x ∷ providers) built h keyed =
      let (free, later) = register-accepted adapters x providers built h in
      let (all, rest) =
        register-finds (adapters ++ (normalize x.alias, x) ∷ []) providers built later
          (All-append IsKeyed adapters _ keyed (refl, tt)) in
      (
        all,
        (
          register-keeps (adapters ++ (normalize x.alias, x) ∷ []) providers built later
              (normalize x.alias) x (lookup-append_new (normalize x.alias) x adapters free),
          rest,
        ),
      )

  -- If a registry can be built, each of its providers is found under its own alias, and what is
  -- found under an alias has that alias, both normalized.
  pub get-from_providers :
      (providers : List (LlmProvider S)) (built : ProviderRegistry S)
      → from_providers normalize providers ≡ ok built
      → All (λ (p : LlmProvider S). get normalize built p.alias ≡ ok p) providers
        × ((alias : Text) (p : LlmProvider S)
            → get normalize built alias ≡ ok p
            → normalize alias ≡ normalize p.alias)
  unfolding from_providers get
  get-from_providers providers built h =
      let (keyed, found) = register-finds [] providers built h tt in
      (
        All-imp providers
            (λ (p : LlmProvider S) (e : lookup (normalize p.alias) built ≡ some p).
              rw (e, get) refl)
            found,
        λ alias p got. elim (Option-cases (lookup (normalize alias) built)) [
          | inl e ↦ absurd (let got' = rw (e, get) at got in cc)
          | inr (q, e) ↦
              let got' = rw (e, get) at got in
              let same : q ≡ p = cc in
              rw (sym same) (lookup-All IsKeyed (normalize alias) q built keyed e)
        ],
      )
