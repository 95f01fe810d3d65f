-- ===== src/Tokenization/Tokenizer/Assignment.antt =====
-- The edits that the tokenizer (app/tokenization/tokenizer.py) makes of a plan whose spans keep their
-- text or become tokens.
use mathlib.Core.List.{reverse, reverse-cons}
use aiprivacy_gateway.Common.{
  ℕ, ◌<◌, ◌≤◌, ◌≡◌, refl, sym, ap, subst, ◌∙◌, inl, inr, true, false, List, [], ◌∷◌, ◌++◌, map,
  Text, text_eq_iff, length, slice, at_most, sorted, All, AllPairs, All-sorted, append-nil, Option,
  some, none, arith,
}
use aiprivacy_gateway.Common.Sort.{insert_sorted}
use aiprivacy_gateway.Domain.Errors.{Result, ok, Result-cases}
use aiprivacy_gateway.Domain.Entity.{
  DetectedEntity, EntityAction, allow, tokenize, redact, pseudonymize, block,
}
use aiprivacy_gateway.Detection.Overlap.Laws.{Before}
use aiprivacy_gateway.Tokenization.Grammar.{
  Token, is_valid_entity_type, is_valid_token_id, render_token, format_token,
}
use aiprivacy_gateway.Tokenization.Grammar.Parse.{parse_token-render_token}
use aiprivacy_gateway.Tokenization.Grammar.Scan.{token_text}
use aiprivacy_gateway.Tokenization.Platform.{Platform, Bytes}
use aiprivacy_gateway.Tokenization.Vault.{EntityMapping, VaultWriteRequest, Pairwise, IsGranted}
use aiprivacy_gateway.Tokenization.Tokenizer.{
  Plan, Planned, Edit, coerce_vault_token, coerce_parsed, mapping_for, replacement_for, edit_of,
  edits_of, request_for, requests, assign, rightmost,
}

-- The spans that the text gets back: those that stay and those that become tokens.
abbrev pub IsReversible : EntityAction → Type 0
IsReversible allow = Unit
IsReversible tokenize = Unit
IsReversible _ = ⊥

-- An edit that puts a token in.
abbrev pub Cut : Type 0
Cut = Edit × Token

abbrev pub edits_of_cuts : List Cut → List Edit
edits_of_cuts cuts = map (λ c. c.0) cuts

-- The cuts stand one after the other, from `from` to the end of the text.
abbrev pub IsOrdered : Text → ℕ → List Cut → Type 0
IsOrdered text from [] = from ≤ length text
IsOrdered text from ((e, t) ∷ cuts) =
    (from ≤ e.start) × (e.start ≤ e.stop) × IsOrdered text e.stop cuts

abbrev pub IsMade : (Text → Text → Type 0) → Text → Cut → Type 0
IsMade Q text (e, t) =
    (e.text ≡ token_text t)
    × (is_valid_entity_type t.entity_type ≡ true)
    × (is_valid_token_id t.token_id ≡ true)
    × Q (token_text t) (slice e.start e.stop text)

mapping_for-render_token :
    (r : VaultWriteRequest) (id : Text)
    → is_valid_entity_type r.entity_type ≡ true
    → is_valid_token_id id ≡ true
    → mapping_for r (render_token r.entity_type id)
      ≡ ok (record {
        token = render_token r.entity_type id;
        token_id = id;
        entity_type = r.entity_type;
        original_value = r.original_value;
        normalized_hmac = r.normalized_hmac;
      })
unfolding mapping_for coerce_vault_token coerce_parsed format_token
mapping_for-render_token r id h k =
    rw
      (
        parse_token-render_token r.entity_type id h k,
        (text_eq_iff r.entity_type r.entity_type).1 refl,
        h,
        k,
      )
      refl

mapping_for-granted :
    (r : VaultWriteRequest) (t id : Text)
    → is_valid_entity_type r.entity_type ≡ true
    → is_valid_token_id id ≡ true
    → t ≡ render_token r.entity_type id
    → (m : EntityMapping) × (mapping_for r t ≡ ok m) × (m.token ≡ t)
mapping_for-granted r t id h k e =
    (_, ap (mapping_for r) e ∙ mapping_for-render_token r id h k, sym e)

module _ (lib : Platform) where
  edit_of-append :
      (e : DetectedEntity) (replacement : Option Text) (d rest : List Edit)
      → edit_of lib e replacement (d ++ rest) ≡ edit_of lib e replacement d ++ rest
  edit_of-append e none d rest = refl
  edit_of-append e (some text) d rest = refl

  reverse-edit_of :
      (e : DetectedEntity) (replacement : Option Text) (d : List Edit)
      → reverse d ++ edit_of lib e replacement [] ≡ reverse (edit_of lib e replacement d)
  reverse-edit_of e none d = append-nil (reverse d)
  reverse-edit_of e (some text) d = sym (reverse-cons _ d)

  edits_of-append :
      (text : Text) (xs ys : List Planned) (d rest : List Edit)
      → edits_of lib text xs ≡ ok d
      → edits_of lib text ys ≡ ok rest
      → edits_of lib text (xs ++ ys) ≡ ok (d ++ rest)
  unfolding edits_of
  edits_of-append text [] ys d rest h k =
      let same : [] ≡ d = cc in k ∙ ap (λ (l : List Edit). ok (l ++ rest)) same
  edits_of-append text (x ∷ xs) ys d rest h k =
      elim (Result-cases (
        replacement_for lib x.action x.entity.entity_type x.mapping
          (slice x.entity.start x.entity.end text))) [
            | inr (_, q) ↦ absurd (let h' = rw q at h in cc)
            | inl (r, q) ↦ elim (Result-cases (edits_of lib text xs)) [
              | inr (_, p) ↦ absurd (let h' = rw (q, p) at h in cc)
              | inl (d', p) ↦
                  let h' = rw (q, p) at h in
                  let same : edit_of lib x.entity r d' ≡ d = cc in
                  rw (q, edits_of-append text xs ys d' rest p k)
                    (ap (λ (l : List Edit). ok l)
                      (edit_of-append x.entity r d' rest ∙ ap (λ l. l ++ rest) same))
            ]
          ]

  -- The loop over the spans from the right.
  pub edits_of-reverse :
      (text : Text) (xs : List Planned) (d : List Edit)
      → edits_of lib text xs ≡ ok d
      → edits_of lib text (reverse xs) ≡ ok (reverse d)
  unfolding edits_of
  edits_of-reverse text [] d h =
      let same : [] ≡ d = cc in ap (λ (l : List Edit). ok (reverse l)) same
  edits_of-reverse text (x ∷ xs) d h =
      elim (Result-cases (
        replacement_for lib x.action x.entity.entity_type x.mapping
          (slice x.entity.start x.entity.end text))) [
            | inr (_, q) ↦ absurd (let h' = rw q at h in cc)
            | inl (r, q) ↦ elim (Result-cases (edits_of lib text xs)) [
              | inr (_, p) ↦ absurd (let h' = rw (q, p) at h in cc)
              | inl (d', p) ↦
                  let h' = rw (q, p) at h in
                  let same : edit_of lib x.entity r d' ≡ d = cc in
                  let last : edits_of lib text (x ∷ []) ≡ ok (edit_of lib x.entity r []) =
                    rw q refl in
                  rw (reverse-cons x xs) (
                    edits_of-append text (reverse xs) (x ∷ []) (reverse d')
                      (edit_of lib x.entity r []) (edits_of-reverse text xs d' p) last
                    ∙ ap (λ (l : List Edit). ok l)
                        (reverse-edit_of x.entity r d' ∙ ap reverse same))
            ]
          ]

insert_sorted-last :
    (x : Planned) (xs : List Planned)
    → All (λ (y : Planned). x.entity.start < y.entity.start) xs
    → insert_sorted rightmost x xs ≡ xs ++ x ∷ []
unfolding insert_sorted
insert_sorted-last x [] h = refl
insert_sorted-last x (y ∷ ys) h =
    let later : at_most rightmost x y ≡ false = ground (arith, h.0) in
    rw later (ap (λ l. y ∷ l) (insert_sorted-last x ys h.1))

-- Spans in the order of the text, sorted from the right, are those spans reversed.
pub sorted-reverse :
    (xs : List Planned)
    → AllPairs (λ (x y : Planned). x.entity.start < y.entity.start) xs
    → sorted rightmost xs ≡ reverse xs
unfolding sorted
sorted-reverse [] h = refl
sorted-reverse (x ∷ xs) h =
    insert_sorted-last x (sorted rightmost xs) (All-sorted rightmost _ xs h.0)
    ∙ ap (λ l. l ++ x ∷ []) (sorted-reverse xs h.1)
    ∙ sym (reverse-cons x xs)

module _ (lib : Platform) (key : Bytes) (tenant_id session_id : ℕ) (text : Text)
    (Q : Text → Text → Type 0) where
  -- What becomes of a plan and its tokens.
  pub record IsAssigned (from : ℕ) (plan : Plan) (answer : Result (List Planned))
      (planned : List Planned) (cuts : List Cut) : Type 0 where
    pub returned : answer ≡ ok planned
    pub spans :
        map (λ (p : Planned). p.entity) planned
        ≡ map (λ (p : DetectedEntity × EntityAction). p.0) plan
    pub edited : edits_of lib text planned ≡ ok (edits_of_cuts cuts)
    pub made : All (IsMade Q text) cuts
    pub ordered : IsOrdered text from cuts

  pub assign_total :
      (from : ℕ) (plan : Plan) (tokens : List Text)
      → All (λ (p : DetectedEntity × EntityAction). IsReversible p.1) plan
      → All (λ (p : DetectedEntity × EntityAction). p.0.start < p.0.end) plan
      → All (λ (p : DetectedEntity × EntityAction). p.0.end ≤ length text) plan
      → All (λ (p : DetectedEntity × EntityAction). from ≤ p.0.start) plan
      → AllPairs (λ (p q : DetectedEntity × EntityAction). Before p.0 q.0) plan
      → from ≤ length text
      → Pairwise (IsGranted Q) (requests lib key tenant_id session_id text plan) tokens
      → (planned : List Planned) × (cuts : List Cut) × IsAssigned from plan
          (assign lib key tenant_id session_id text plan tokens)
          planned
          cuts
  unfolding assign requests edits_of request_for replacement_for
  assign_total from [] tokens rev valid inside after apart h granted =
      ([], [], record { returned = refl; spans = refl; edited = refl; made = tt; ordered = h })
  assign_total from ((e, allow) ∷ plan) tokens rev valid inside after apart h granted =
      let (planned, cuts, rest) =
        assign_total from plan tokens rev.1 valid.1 inside.1 after.1 apart.1 h granted in
      (
        record { entity = e; action = allow; mapping = none } ∷ planned,
        cuts,
        record {
          returned = rw rest.returned refl;
          spans = ap (λ l. e ∷ l) rest.spans;
          edited = rw rest.edited refl;
          made = rest.made;
          ordered = rest.ordered;
        },
      )
  assign_total from ((e, tokenize) ∷ plan) [] rev valid inside after apart h granted =
      absurd granted
  assign_total from ((e, tokenize) ∷ plan) (t ∷ tokens) rev valid inside after apart h
        ((id, a, b, rendered, stands), granted) =
      let (planned, cuts, rest) =
        assign_total e.end plan tokens rev.1 valid.1 inside.1 apart.0 apart.1 inside.0 granted in
      let (m, mapped, same) =
        mapping_for-granted (request_for lib key tenant_id session_id text e) t id a b rendered in
      (
        record { entity = e; action = tokenize; mapping = some m } ∷ planned,
        (
          record { start = e.start; stop = e.end; text = m.token },
          record { entity_type = e.entity_type; token_id = id },
        )
            ∷ cuts,
        record {
          returned = rw (mapped, rest.returned) refl;
          spans = ap (λ l. e ∷ l) rest.spans;
          edited = rw rest.edited refl;
          made = (
            (same ∙ rendered, a, b, subst (λ x. Q x (slice e.start e.end text)) rendered stands),
            rest.made,
          );
          ordered = (after.0, omega (arith, valid.0), rest.ordered);
        },
      )
  assign_total from ((e, redact) ∷ plan) tokens rev valid inside after apart h granted =
      absurd rev.0
  assign_total from ((e, pseudonymize) ∷ plan) tokens rev valid inside after apart h granted =
      absurd rev.0
  assign_total from ((e, block) ∷ plan) tokens rev valid inside after apart h granted = absurd rev.0
