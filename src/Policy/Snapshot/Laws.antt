-- ===== src/Policy/Snapshot/Laws.antt =====
-- What a snapshot answers, told by the document that it is made of.
use aiprivacy_gateway.Common.{
  ℕ, ◌≡◌, refl, ap, ◌∙◌, Bool, true, false, List, [], ◌∷◌, Text, text_eq, text_eq_iff, keep, All,
  AllPairs, All-keep, All-imp, AllPairs-keep, All-sorted, sorted, Option, none, some, if◌then◌else◌,
  Bool-cases, arith, inl, inr,
}
use aiprivacy_gateway.Common.Sort.{insert_sorted}
use aiprivacy_gateway.Common.Order.{at_most}
use aiprivacy_gateway.Domain.Entity.{tokenize}
use aiprivacy_gateway.Policy.Snapshot.{
  EntityRule, PolicyDocument, PolicySnapshot, action_of, min_score_of, lookup, by_key,
  from_document, action_for, min_score_for,
}

module _ {V : Type 0} where
  -- The keys of two pairs differ.
  abbrev pub KeysDiffer : Text × V → Text × V → Type 0
  KeysDiffer p q = text_eq p.0 q.0 ≡ false

  lookup-insert_sorted :
      (key : Text) (p : Text × V) (xs : List (Text × V))
      → All (KeysDiffer p) xs
      → lookup key (insert_sorted by_key p xs) ≡ lookup key (p ∷ xs)
  unfolding insert_sorted lookup
  lookup-insert_sorted key (k, v) [] h = refl
  lookup-insert_sorted key (k, v) ((l, w) ∷ xs) h =
      elim (Bool-cases (at_most by_key (k, v) (l, w))) [
        | inl e ↦ rw e refl
        | inr e ↦ rw e (
            ground (
              arith,
              lookup-insert_sorted key (k, v) xs h.1,
              h.0,
              text_eq_iff l key,
              text_eq_iff k key,
              text_eq_iff k l,
            ))
      ]

  lookup-sorted :
      (key : Text) (xs : List (Text × V))
      → AllPairs KeysDiffer xs
      → lookup key (sorted by_key xs) ≡ lookup key xs
  unfolding sorted lookup
  lookup-sorted key [] h = refl
  lookup-sorted key ((k, v) ∷ xs) h =
      lookup-insert_sorted key (k, v) (sorted by_key xs)
        (All-sorted by_key (KeysDiffer (k, v)) xs h.0)
      ∙ rw (lookup-sorted key xs h.1)

lookup-absent :
    {V : Type 0} (key : Text) (xs : List (Text × V))
    → All (λ p. text_eq p.0 key ≡ false) xs
    → lookup key xs ≡ none
unfolding lookup
lookup-absent key [] h = refl
lookup-absent key ((k, v) ∷ xs) h = rw h.0 (lookup-absent key xs h.1)

-- The rule of a type in the document, if there is one and it is enabled.
abbrev pub enabled_rule : Option EntityRule → Option EntityRule
enabled_rule none = none
enabled_rule (some rule) = if rule.enabled then some rule else none

abbrev is_enabled : Text × EntityRule → Bool
is_enabled (n, rule) = rule.enabled

-- No key of the pairs is `key` if all differ from one that is.
absent_others :
    (key k : Text) (rule : EntityRule) (xs : List (Text × EntityRule))
    → text_eq k key ≡ true
    → All (KeysDiffer (k, rule)) xs
    → lookup key (keep is_enabled xs) ≡ none
absent_others key k rule xs e h =
    let same = (text_eq_iff k key).0 e in
    lookup-absent key (keep is_enabled xs) (
      All-keep (λ p. text_eq p.0 key ≡ false) is_enabled xs
        (All-imp xs (λ p d. ground (arith, d, text_eq_iff p.0 key, text_eq_iff k p.0, same)) h))

lookup-enabled :
    (key : Text) (xs : List (Text × EntityRule))
    → AllPairs KeysDiffer xs
    → lookup key (keep is_enabled xs) ≡ enabled_rule (lookup key xs)
unfolding lookup
lookup-enabled key [] h = refl
lookup-enabled key ((k, rule) ∷ xs) h = elim (Bool-cases (text_eq k key)) [
  | inl e ↦ elim (Bool-cases rule.enabled) [
    | inl on ↦ rw (on, e) refl
    | inr off ↦ rw (off, e) (absent_others key k rule xs e h.0)
  ]
  | inr e ↦ elim (Bool-cases rule.enabled) [
    | inl on ↦ rw (on, e) (lookup-enabled key xs h.1)
    | inr off ↦ rw (off, e) (lookup-enabled key xs h.1)
  ]
]

module _ (document : PolicyDocument) (policy_id tenant_id version : ℕ)
    (distinct : AllPairs KeysDiffer document.entities) where
  -- If the entity types of a document are distinct, its snapshot acts on a type, and thresholds
  -- it, as the enabled rule of the document for it says; a type without one is tokenized,
  -- whatever its score.
  pub action_for-from_document :
      (entity_type : Text)
      → let policy : PolicySnapshot = from_document document policy_id tenant_id version in
        let rule : Option EntityRule = enabled_rule (lookup entity_type document.entities) in
        (action_for policy entity_type ≡ elim rule [ none ↦ tokenize | some r ↦ r.action ])
        × (min_score_for policy entity_type ≡ elim rule [ none ↦ 0 | some r ↦ r.min_score ])
  unfolding from_document action_for min_score_for
  action_for-from_document entity_type =
      let found : lookup entity_type (sorted by_key (keep is_enabled document.entities))
          ≡ enabled_rule (lookup entity_type document.entities) =
        lookup-sorted entity_type (keep is_enabled document.entities)
          (AllPairs-keep KeysDiffer is_enabled document.entities distinct)
        ∙ lookup-enabled entity_type document.entities distinct in
      (ap action_of found, ap min_score_of found)
