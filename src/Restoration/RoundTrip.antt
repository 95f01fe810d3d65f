-- ===== src/Restoration/RoundTrip.antt =====
-- The splicing of tokens into a text (app/tokenization/tokenizer.py), then their restoration
-- (app/restoration/pipeline.py).
use mathlib.Core.List.{reverse, reverse-reverse}
use aiprivacy_gateway.Common.{
  ℕ, ◌-◌, ◌≡◌, refl, sym, ap, ◌∙◌, subst, true, List, [], ◌∷◌, ◌++◌, Text, length, take, drop,
  slice, All, some, append-nil, take-append_left, length-drop, slice_append-drop, all-take,
  all-drop,
}
use aiprivacy_gateway.Domain.Errors.{ok}
use aiprivacy_gateway.Domain.Entity.{UnknownTokenAction}
use aiprivacy_gateway.Policy.Snapshot.{lookup}
use aiprivacy_gateway.Tokenization.Grammar.{find_tokens, is_valid_entity_type, is_valid_token_id}
use aiprivacy_gateway.Tokenization.Grammar.Scan.{
  is_plain, Layout, token_text, render_layout, IsClear, matches_of, find_tokens-render_layout,
}
use aiprivacy_gateway.Tokenization.Tokenizer.{splice}
use aiprivacy_gateway.Tokenization.Tokenizer.Assignment.{Cut, edits_of_cuts, IsOrdered}
use aiprivacy_gateway.Tokenization.Tokenizer.Splice.{spliced, splice-eq-spliced}
use aiprivacy_gateway.Restoration.{Resolved, substitute}
use aiprivacy_gateway.Restoration.Laws.{shown-known, fill, substitute-find_tokens}

-- A cut whose token stands, in the dictionary, for the span that it replaces.
abbrev pub IsCut : Text → Resolved → Cut → Type 0
IsCut text resolved (e, t) =
    (e.text ≡ token_text t)
    × (is_valid_entity_type t.entity_type ≡ true)
    × (is_valid_token_id t.token_id ≡ true)
    × (lookup (token_text t) resolved ≡ some (slice e.start e.stop text))

abbrev pub layout_of : Text → ℕ → List Cut → Layout
layout_of text from [] = []
layout_of text from ((e, t) ∷ cuts) = (slice from e.start text, t) ∷ layout_of text e.stop cuts

-- The text after the last cut.
abbrev pub end_of : Text → ℕ → List Cut → Text
end_of text from [] = drop from text
end_of text from ((e, t) ∷ cuts) = end_of text e.stop cuts

take-all : (xs : Text) (n : ℕ) → n ≡ length xs → take n xs ≡ xs
take-all xs n h =
    subst (λ k. take k xs ≡ xs) (sym h)
      (ap (take (length xs)) (sym (append-nil xs)) ∙ take-append_left xs [])

module _ (text : Text) (resolved : Resolved) (action : UnknownTokenAction) where
  spliced-eq-render_layout :
      (from : ℕ) (cuts : List Cut)
      → All (IsCut text resolved) cuts
      → spliced text from (edits_of_cuts cuts) (length text)
        ≡ render_layout (layout_of text from cuts) (end_of text from cuts)
  spliced-eq-render_layout from [] h = take-all (drop from text) _ (sym (length-drop from text))
  spliced-eq-render_layout from ((e, t) ∷ cuts) h =
      rw (h.0.0, spliced-eq-render_layout e.stop cuts h.1)

  slice-is_plain : (i j : ℕ) → is_plain text ≡ true → is_plain (slice i j text) ≡ true
  unfolding is_plain
  slice-is_plain i j h = all-take _ (j - i) (drop i text) (all-drop _ i text h)

  layout_of-IsClear :
      (from : ℕ) (cuts : List Cut)
      → is_plain text ≡ true
      → All (IsCut text resolved) cuts
      → All IsClear (layout_of text from cuts)
  layout_of-IsClear from [] h k = tt
  layout_of-IsClear from ((e, t) ∷ cuts) h k =
      ((slice-is_plain from e.start h, k.0.1, k.0.2), layout_of-IsClear e.stop cuts h k.1)

  end_of-is_plain :
      (from : ℕ) (cuts : List Cut) → is_plain text ≡ true → is_plain (end_of text from cuts) ≡ true
  unfolding is_plain
  end_of-is_plain from [] h = all-drop _ from text h
  end_of-is_plain from ((e, t) ∷ cuts) h = end_of-is_plain e.stop cuts h

  fill-layout_of :
      (from : ℕ) (cuts : List Cut)
      → All (IsCut text resolved) cuts
      → IsOrdered text from cuts
      → fill resolved action (layout_of text from cuts) (end_of text from cuts) ≡ drop from text
  fill-layout_of from [] h k = refl
  fill-layout_of from ((e, t) ∷ cuts) h k =
      ap
        (λ (r : Text).
          slice from e.start text
          ++ (r ++ fill resolved action (layout_of text e.stop cuts) (end_of text e.stop cuts)))
        (shown-known resolved action t h.0.3)
      ∙ ap (λ (r : Text). slice from e.start text ++ (slice e.start e.stop text ++ r))
          (fill-layout_of e.stop cuts h.1 k.2)
      ∙ ap (λ (r : Text). slice from e.start text ++ r) (slice_append-drop e.start e.stop text k.1)
      ∙ slice_append-drop from e.start text k.0

module _ (text : Text) (resolved : Resolved) (action : UnknownTokenAction) (cuts : List Cut)
    (made : All (IsCut text resolved) cuts) where
  pub splice-eq-render_layout :
      splice text (reverse (edits_of_cuts cuts))
      ≡ render_layout (layout_of text 0 cuts) (end_of text 0 cuts)
  splice-eq-render_layout =
      rw
        (
          splice-eq-spliced text (reverse (edits_of_cuts cuts)),
          reverse-reverse (edits_of_cuts cuts),
          spliced-eq-render_layout text resolved action 0 cuts made,
        )
        refl

  -- The scanner finds the tokens of the cuts.
  pub find_tokens-splice :
      is_plain text ≡ true
      → find_tokens (splice text (reverse (edits_of_cuts cuts)))
        ≡ matches_of 0 (layout_of text 0 cuts)
  find_tokens-splice h =
      ap find_tokens splice-eq-render_layout
      ∙ find_tokens-render_layout (layout_of text 0 cuts) (end_of text 0 cuts)
          (layout_of-IsClear text resolved action 0 cuts h made)
          (end_of-is_plain text resolved action 0 cuts h)

-- A text without left delimiters, into which valid tokens are spliced in place of ordered spans,
-- comes back whole from the scanner and the substitution, under every policy for unknown tokens,
-- if the dictionary gives for each token the span that it stands for.
pub substitute-splice :
    (text : Text) (resolved : Resolved) (action : UnknownTokenAction) (cuts : List Cut)
    → is_plain text ≡ true
    → All (IsCut text resolved) cuts
    → IsOrdered text 0 cuts
    → substitute
        (splice text (reverse (edits_of_cuts cuts)))
        (find_tokens (splice text (reverse (edits_of_cuts cuts))))
        resolved
        action
      ≡ ok text
substitute-splice text resolved action cuts h k o = rw (
  splice-eq-spliced text (reverse (edits_of_cuts cuts)),
  reverse-reverse (edits_of_cuts cuts),
  spliced-eq-render_layout text resolved action 0 cuts k,
  substitute-find_tokens resolved action (layout_of text 0 cuts) (end_of text 0 cuts)
      (layout_of-IsClear text resolved action 0 cuts h k)
      (end_of-is_plain text resolved action 0 cuts h),
  fill-layout_of text resolved action 0 cuts k o,
)
