-- ===== src/Restoration/Answers.antt =====
-- Restoration (app/restoration/pipeline.py) of a response that holds tokens of a vault's mappings.
use mathlib.Core.List.{reverse}
use aiprivacy_gateway.Common.{
  ℕ, ◌+◌, length, ◌≡◌, refl, sym, ap, ◌∙◌, subst, Bool, true, false, not, List, [], ◌∷◌, map, any,
  keep, ltb, Text, text_eq, text_eq_iff, mem_text, All, All-imp, All-keep, All-map, All-of_map,
  All-zip, Bool-cases, inl, inr, some, arith,
}
use aiprivacy_gateway.Common.Dict.{dict_get}
use aiprivacy_gateway.Domain.Errors.{Result, ok}
use aiprivacy_gateway.Domain.Entity.{UnknownTokenAction}
use aiprivacy_gateway.Domain.Summary.{empty_summary}
use aiprivacy_gateway.Policy.Snapshot.{lookup}
use aiprivacy_gateway.Tokenization.Grammar.{TokenMatch, match_text, find_tokens}
use aiprivacy_gateway.Tokenization.Grammar.Scan.{is_plain, Layout, token_text, matches_of}
use aiprivacy_gateway.Tokenization.Vault.{Vault, StandsFor}
use aiprivacy_gateway.Tokenization.Tokenizer.{splice}
use aiprivacy_gateway.Tokenization.Tokenizer.Assignment.{Cut, edits_of_cuts, IsOrdered, IsMade}
use aiprivacy_gateway.Restoration.{
  Resolved, RestoredOutput, distinct, unknown_in, substitute, substitute_from, restore_text,
  validated_content, restore, finish,
}
use aiprivacy_gateway.Restoration.RoundTrip.{
  IsCut, layout_of, find_tokens-splice, substitute-splice,
}

lookup-eq-dict_get : (key : Text) (d : Resolved) → lookup key d ≡ dict_get text_eq key d
unfolding lookup
lookup-eq-dict_get key [] = refl
lookup-eq-dict_get key ((k, v) ∷ d) = rw (lookup-eq-dict_get key d) refl

mem_text-dict_get :
    (key v : Text) (d : Resolved)
    → dict_get text_eq key d ≡ some v
    → mem_text key (map (λ p. p.0) d) ≡ true
mem_text-dict_get key v [] h = cc
mem_text-dict_get key v ((k, w) ∷ d) h =
    ground (arith, text_eq_iff k key, text_eq_iff key k, mem_text-dict_get key v d)

any-keep :
    (p q : Text → Bool) (xs : List Text)
    → ((x : Text) → p x ≡ true → q x ≡ true)
    → any p xs ≡ true
    → any p (keep q xs) ≡ true
any-keep p q [] f h = h
any-keep p q (x ∷ xs) f h = elim (Bool-cases (p x)) [
  | inl e ↦ let k : q x ≡ true = f x e in rw (k, e) refl
  | inr e ↦ let rest = any-keep p q xs f (ground (arith, h, e)) in ground (arith, rest, e)
]

any-distinct :
    (t : Text) (xs : List Text)
    → any (λ x. text_eq x t) xs ≡ true
    → any (λ x. text_eq x t) (distinct xs) ≡ true
unfolding distinct
any-distinct t [] h = h
any-distinct t (x ∷ xs) h = elim (Bool-cases (text_eq x t)) [
  | inl e ↦ rw e refl
  | inr e ↦ rw e (
      any-keep (λ y. text_eq y t) (λ y. not (mem_text y (x ∷ []))) (distinct xs)
        (λ y k. ground (arith, e, k, text_eq_iff y t, text_eq_iff y x, text_eq_iff x t))
        (any-distinct t xs (ground (arith, h, e))))
]

All-distinct : (P : Text → Type 0) (xs : List Text) → All P xs → All P (distinct xs)
unfolding distinct
All-distinct P [] h = tt
All-distinct P (x ∷ xs) h = (h.0, All-keep P _ (distinct xs) (All-distinct P xs h.1))

-- Each text of a list is in it.
all_inside : (ts : List Text) → All (λ t. any (λ x. text_eq x t) ts ≡ true) ts
all_inside [] = tt
all_inside (t ∷ ts) =
    (ground (arith, text_eq_iff t t), All-imp ts (λ u h. ground (arith, h)) (all_inside ts))

unknown_in-All :
    (candidates : List Text) (resolved : Resolved)
    → All (λ t. mem_text t (map (λ p. p.0) resolved) ≡ true) candidates
    → unknown_in candidates resolved ≡ []
unfolding unknown_in
unknown_in-All [] resolved h = refl
unknown_in-All (t ∷ ts) resolved h = rw h.0 (unknown_in-All ts resolved h.1)

texts_of-matches :
    (pos : ℕ) (layout : Layout)
    → map match_text (matches_of pos layout) ≡ map (λ p. token_text p.1) layout
texts_of-matches pos [] = refl
texts_of-matches pos ((before, t) ∷ rest) =
    ap (λ l. token_text t ∷ l) (texts_of-matches (pos + length before + length (token_text t)) rest)

texts_of-layout :
    (text : Text) (from : ℕ) (cuts : List Cut)
    → map (λ p. token_text p.1) (layout_of text from cuts) ≡ map (λ c. token_text c.1) cuts
texts_of-layout text from [] = refl
texts_of-layout text from ((e, t) ∷ cuts) =
    ap (λ l. token_text t ∷ l) (texts_of-layout text e.stop cuts)

module _ (is_blank : Text → Bool) (limit tenant_id session_id : ℕ) {S : Type 0} (vault : Vault S)
    (action : UnknownTokenAction) where
  restore_text-known :
      (text content model : Text) (matches : List TokenMatch) (s : S) (resolved : Resolved)
      → (vault.resolve_many tenant_id session_id (distinct (map match_text matches)) s).0
        ≡ ok resolved
      → unknown_in (distinct (map match_text matches)) resolved ≡ []
      → substitute content matches resolved action ≡ ok text
      → (restored : RestoredOutput) × ((restore_text is_blank limit tenant_id session_id vault
            action content model matches s).0
          ≡ ok restored)
        × (restored.text ≡ text)
        × (restored.summary.unknown_tokens ≡ 0)
  unfolding restore_text substitute substitute_from finish
  restore_text-known text content model [] s resolved answer none_unknown done = (
    record { text = content; summary = empty_summary; model = model },
    refl,
    ground (arith, done),
    refl,
  )
  restore_text-known text content model (m ∷ matches) s resolved answer none_unknown done = (
    record {
      text = text;
      summary = record {
        detected = 0;
        tokenized = 0;
        redacted = 0;
        pseudonymized = 0;
        blocked = 0;
        allowed = 0;
        restored = length resolved;
        unknown_tokens = 0;
        entity_types = [];
      };
      model = model;
    },
    rw (answer, none_unknown, done) refl,
    refl,
    refl,
  )

  module _ (text : Text) (found : List Text → Resolved) (cuts : List Cut)
      (plain : is_plain text ≡ true) (made : All (IsMade (StandsFor found) text) cuts)
      (ordered : IsOrdered text 0 cuts) where
    abbrev candidates : List Text
    candidates = distinct (map (λ (c : Cut). token_text c.1) cuts)

    made-IsCut : All (IsCut text (found candidates)) cuts
    made-IsCut =
        All-zip cuts
          (λ (c : Cut) m inside. (
            m.0,
            m.1,
            m.2,
            lookup-eq-dict_get (token_text c.1) (found candidates)
                ∙ m.3 candidates (any-distinct (token_text c.1) _ inside),
          ))
          made
          (All-of_map _ (λ (c : Cut). token_text c.1) cuts
            (all_inside (map (λ (c : Cut). token_text c.1) cuts)))

    candidates-known : unknown_in candidates (found candidates) ≡ []
    candidates-known = unknown_in-All candidates (found candidates) (
        All-distinct _ _ (
          All-map _ (λ (c : Cut). token_text c.1) cuts
            (All-imp cuts
              (λ (c : Cut) m.
                mem_text-dict_get (token_text c.1) _ (found candidates)
                  (sym (lookup-eq-dict_get (token_text c.1) (found candidates)) ∙ m.3))
              made-IsCut)))

    -- The text with its tokens comes back whole, with no token unknown.
    restore_text-splice :
        (model : Text) (s : S)
        → ((wanted : List Text)
            → (vault.resolve_many tenant_id session_id wanted s).0 ≡ ok (found wanted))
        → (restored : RestoredOutput) × ((restore_text is_blank limit tenant_id session_id vault
              action
              (splice text (reverse (edits_of_cuts cuts)))
              model
              (find_tokens (splice text (reverse (edits_of_cuts cuts))))
              s).0
            ≡ ok restored)
          × (restored.text ≡ text)
          × (restored.summary.unknown_tokens ≡ 0)
    restore_text-splice model s answers =
        let matches = find_tokens (splice text (reverse (edits_of_cuts cuts))) in
        let texts : distinct (map match_text matches) ≡ candidates =
          ap (λ (l : List TokenMatch). distinct (map match_text l))
            (find_tokens-splice text (found candidates) action cuts made-IsCut plain)
          ∙ ap distinct
              (texts_of-matches 0 (layout_of text 0 cuts) ∙ texts_of-layout text 0 cuts) in
        restore_text-known text (splice text (reverse (edits_of_cuts cuts))) model matches s
          (found candidates)
          (ap (λ (l : List Text). (vault.resolve_many tenant_id session_id l s).0) texts
            ∙ answers candidates)
          (ap (λ (l : List Text). unknown_in l (found candidates)) texts ∙ candidates-known)
          (substitute-splice text (found candidates) action cuts plain made-IsCut ordered)

module _ (is_blank : Text → Bool) (slack tenant_id session_id : ℕ) {S : Type 0} (vault : Vault S)
    (action : UnknownTokenAction) where
  -- A response with a model's name, and a text within the limit, is accepted.
  restore-accepted :
      (content model : Text) (s : S)
      → is_blank model ≡ false
      → restore is_blank
          (length content + slack)
          tenant_id
          session_id
          vault
          action
          (record { content = some content; model = some model })
          s
        ≡ restore_text is_blank
            (length content + slack)
            tenant_id
            session_id
            vault
            action
            content
            model
            (find_tokens content)
            s
  unfolding restore validated_content
  restore-accepted content model s named =
      let fits : ltb (length content + slack) (length content) ≡ false = ground arith in
      rw (named, restore, fits) refl

  pub restore-splice :
      (text : Text) (found : List Text → Resolved) (cuts : List Cut)
      → is_plain text ≡ true
      → All (IsMade (StandsFor found) text) cuts
      → IsOrdered text 0 cuts
      → (content model : Text) (s : S) → content ≡ splice text (reverse (edits_of_cuts cuts))
      → is_blank model ≡ false
      → ((wanted : List Text)
          → (vault.resolve_many tenant_id session_id wanted s).0 ≡ ok (found wanted))
      → (restored : RestoredOutput) × ((restore is_blank
            (length content + slack)
            tenant_id
            session_id
            vault
            action
            (record { content = some content; model = some model })
            s).0
          ≡ ok restored)
        × (restored.text ≡ text)
        × (restored.summary.unknown_tokens ≡ 0)
  restore-splice text found cuts plain made ordered content model s spliced named answers =
      let (restored, answer, same, counted) =
        restore_text-splice is_blank (length content + slack) tenant_id session_id vault action text
          found cuts plain made ordered model s answers in
      (
        restored,
        ap (λ (r : Result RestoredOutput × S). r.0) (restore-accepted content model s named)
            ∙ subst
                (λ (t : Text).
                  (restore_text is_blank (length content + slack) tenant_id session_id vault action
                    t model (find_tokens t) s).0
                  ≡ ok restored)
                (sym spliced) answer,
        same,
        counted,
      )
