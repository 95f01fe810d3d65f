-- ===== src/Restoration/Laws.antt =====
-- What restoration makes of a text whose only delimiters are those of well-formed tokens.
use aiprivacy_gateway.Common.{
  ℕ, ◌+◌, ◌-◌, ◌≡◌, refl, ap, ◌∙◌, Bool, true, List, [], ◌∷◌, ◌++◌, Text, length, drop,
  take-append_left, drop-append_left, drop-drop, All, none, some, arith, map, inl, inr,
}
use aiprivacy_gateway.Domain.Errors.{Result, ok, err, Result-cases}
use aiprivacy_gateway.Domain.Entity.{UnknownTokenAction}
use aiprivacy_gateway.Domain.Summary.{empty_summary}
use aiprivacy_gateway.Policy.Snapshot.{lookup}
use aiprivacy_gateway.Tokenization.Grammar.{
  Token, TokenMatch, match_text, find_tokens, format_redaction, render_redaction,
  is_valid_entity_type,
}
use aiprivacy_gateway.Tokenization.Grammar.Scan.{
  is_plain, Layout, token_text, render_layout, IsClear, matches_of, find_tokens-render_layout,
}
use aiprivacy_gateway.Tokenization.Vault.{Vault}
use aiprivacy_gateway.Restoration.{
  Resolved, ProviderResponse, RestoredOutput, replacement, substitute_from, substitute,
  validated_content, restore, restore_text, finish, distinct,
}

module _ (resolved : Resolved) (action : UnknownTokenAction) where
  -- What the reader sees in place of a token, and the text with every token so replaced.
  abbrev pub shown : Token → Text
  shown t = elim (lookup (token_text t) resolved) [
    | some original ↦ original
    | none ↦ elim action [
      | UnknownTokenAction.preserve ↦ token_text t
      | UnknownTokenAction.redact ↦ render_redaction t.entity_type
      | UnknownTokenAction.fail ↦ token_text t
    ]
  ]

  abbrev pub fill : Layout → Text → Text
  fill [] end = end
  fill ((before, t) ∷ rest) end = before ++ (shown t ++ fill rest end)

  pub shown-known :
      (t : Token) {original : Text}
      → lookup (token_text t) resolved ≡ some original
      → shown t ≡ original
  shown-known t h = ground arith

  replacement-shown :
      (m : TokenMatch)
      → is_valid_entity_type m.token.entity_type ≡ true
      → replacement m resolved action ≡ ok (shown m.token)
  unfolding replacement format_redaction
  replacement-shown m h = ground arith

  substitute_from-layout :
      (text : Text) (cursor : ℕ) (layout : Layout) (end : Text)
      → All IsClear layout
      → drop cursor text ≡ render_layout layout end
      → substitute_from text (matches_of cursor layout) resolved action cursor
        ≡ ok (fill layout end)
  unfolding substitute_from
  substitute_from-layout text cursor [] end h k = ap (λ (t : Text). ok t) k
  substitute_from-layout text cursor ((before, t) ∷ rest) end h k =
      let a : cursor + length before - cursor ≡ length before = omega arith in
      let next : drop (cursor + length before + length (token_text t)) text
          ≡ render_layout rest end =
        drop-drop (cursor + length before) (length (token_text t)) text
        ∙ ap (drop (length (token_text t))) (
            drop-drop cursor (length before) text
            ∙ ap (drop (length before)) k
            ∙ drop-append_left before _)
        ∙ drop-append_left (token_text t) _ in
      rw (
        replacement-shown _ h.0.1,
        a,
        k,
        take-append_left before (token_text t ++ render_layout rest end),
        substitute_from-layout text (cursor + length before + length (token_text t)) rest end h.1
            next,
      )

  -- In a text made of valid tokens and of parts without left delimiter, each token is replaced
  -- by what the dictionary and the policy say of it, once, and the text between the tokens is
  -- kept.
  pub substitute-find_tokens :
      (layout : Layout) (end : Text)
      → All IsClear layout
      → is_plain end ≡ true
      → substitute
          (render_layout layout end)
          (find_tokens (render_layout layout end))
          resolved
          action
        ≡ ok (fill layout end)
  unfolding substitute
  substitute-find_tokens layout end h k =
      rw (find_tokens-render_layout layout end h k)
        (substitute_from-layout (render_layout layout end) 0 layout end h refl)

module _ (is_blank : Text → Bool) (limit tenant_id session_id : ℕ) {S : Type 0} (vault : Vault S)
    (action : UnknownTokenAction) where
  -- An accepted response without a left delimiter comes back as it is, with empty counts, and
  -- the store of the vault stays as it was.
  pub restore-is_plain :
      (response : ProviderResponse) (s : S) {text model : Text}
      → validated_content is_blank response limit ≡ ok (text, model)
      → is_plain text ≡ true
      → restore is_blank limit tenant_id session_id vault action response s
        ≡ (ok (record { text = text; summary = empty_summary; model = model }), s)
  unfolding restore restore_text
  restore-is_plain response s h k = rw (h, restore, find_tokens-render_layout [] _ tt k)

module _ (is_blank : Text → Bool) (limit tenant_id session_id : ℕ) {S : Type 0}
    (vault : Vault S) where
  finish-fail :
      (text model : Text) (matches : List TokenMatch) (candidates : List Text)
      (answer : Result Resolved) {out : RestoredOutput}
      → finish text model UnknownTokenAction.fail matches candidates answer ≡ ok out
      → out.summary.unknown_tokens ≡ 0
  unfolding finish
  finish-fail text model matches candidates (err e) h = cc
  finish-fail text model matches candidates (ok resolved) h = ground arith

  restore_text-fail :
      (text model : Text) (matches : List TokenMatch) (s : S) {out : RestoredOutput} {s' : S}
      → restore_text is_blank limit tenant_id session_id vault UnknownTokenAction.fail text model
          matches s
        ≡ (ok out, s')
      → out.summary.unknown_tokens ≡ 0
  unfolding restore_text
  restore_text-fail text model [] s h = ground arith
  restore_text-fail text model (m ∷ matches) s h =
      finish-fail text model (m ∷ matches) (distinct (map match_text (m ∷ matches))) _
        (ap (λ p. p.0) h)

  -- Under the policy that refuses unknown tokens, a response that is returned held none.
  pub restore-fail :
      (response : ProviderResponse) (s : S) {out : RestoredOutput} {s' : S}
      → restore is_blank limit tenant_id session_id vault UnknownTokenAction.fail response s
        ≡ (ok out, s')
      → out.summary.unknown_tokens ≡ 0
  unfolding restore
  restore-fail response s h = elim (Result-cases (validated_content is_blank response limit)) [
    | inl (accepted, e) ↦
        restore_text-fail accepted.0 accepted.1 (find_tokens accepted.0) s (rw (e, restore) at h)
    | inr (e, k) ↦ ground (arith, h, k)
  ]
