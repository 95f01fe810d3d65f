-- ===== src/Tokenization/Tokenizer/Splice.antt =====
-- The splicing loop of `Tokenizer.transform` (app/tokenization/tokenizer.py).
use mathlib.Core.List.{reverse, flatten, reverse-append, reverse-cons}
use aiprivacy_gateway.Common.{
  ℕ, ◌-◌, ◌≡◌, refl, sym, ap, ◌∙◌, List, [], ◌∷◌, ◌++◌, append_assoc, append-nil, Text, length,
  take, slice, arith,
}
use aiprivacy_gateway.Tokenization.Tokenizer.{Edit, splice_loop, splice}

-- The text from `from` to `stop` with the edits made, which come from left to right.
abbrev pub spliced : Text → ℕ → List Edit → ℕ → Text
spliced text from [] stop = slice from stop text
spliced text from (e ∷ edits) stop =
    slice from e.start text ++ (e.text ++ spliced text e.stop edits stop)

flatten_append : (xs ys : List Text) → flatten (xs ++ ys) ≡ flatten xs ++ flatten ys
unfolding flatten
flatten_append [] ys = refl
flatten_append (x ∷ xs) ys =
    rw (flatten_append xs ys) (sym (append_assoc x (flatten xs) (flatten ys)))

splice_loop-pieces :
    (text : Text) (edits : List Edit) (pieces : List Text) (cursor : ℕ)
    → splice_loop text edits pieces cursor ≡ pieces ++ splice_loop text edits [] cursor
unfolding splice_loop
splice_loop-pieces text [] pieces cursor = refl
splice_loop-pieces text (e ∷ edits) pieces cursor =
    let two = slice e.stop cursor text ∷ (e.text ∷ []) in
    splice_loop-pieces text edits (pieces ++ two) e.start
    ∙ append_assoc pieces two (splice_loop text edits [] e.start)
    ∙ ap (λ l. pieces ++ l) (sym (splice_loop-pieces text edits two e.start))

-- What one round puts out stands to the right of all that follows.
splice_loop-cons :
    (text : Text) (e : Edit) (edits : List Edit) (cursor : ℕ)
    → flatten (reverse (splice_loop text (e ∷ edits) [] cursor))
      ≡ flatten (reverse (splice_loop text edits [] e.start))
        ++ (e.text ++ slice e.stop cursor text)
unfolding splice_loop flatten
splice_loop-cons text e edits cursor = rw (
  splice_loop-pieces text edits (slice e.stop cursor text ∷ (e.text ∷ [])) e.start,
  reverse-append (slice e.stop cursor text ∷ (e.text ∷ [])) (splice_loop text edits [] e.start),
  flatten_append (reverse (splice_loop text edits [] e.start))
      (e.text ∷ (slice e.stop cursor text ∷ [])),
  append-nil (slice e.stop cursor text),
)

spliced-snoc :
    (text : Text) (from : ℕ) (edits : List Edit) (e : Edit) (stop : ℕ)
    → spliced text from (edits ++ e ∷ []) stop
      ≡ spliced text from edits e.start ++ (e.text ++ slice e.stop stop text)
spliced-snoc text from [] e stop = refl
spliced-snoc text from (d ∷ edits) e stop =
    rw (spliced-snoc text d.stop edits e stop) (simp append_assoc)

splice_loop-eq-spliced :
    (text : Text) (edits : List Edit) (cursor : ℕ)
    → flatten (reverse (splice_loop text edits [] cursor)) ≡ spliced text 0 (reverse edits) cursor
unfolding splice_loop flatten
splice_loop-eq-spliced text [] cursor =
    let e : cursor - 0 ≡ cursor = omega arith in rw (e, append-nil (take cursor text))
splice_loop-eq-spliced text (e ∷ edits) cursor =
    splice_loop-cons text e edits cursor
    ∙ rw (splice_loop-eq-spliced text edits e.start, reverse-cons e edits)
        (sym (spliced-snoc text 0 (reverse edits) e cursor))

-- Splicing edits from right to left builds the text that one reads from left to right: the text
-- between the edits, and each edit in its place.
pub splice-eq-spliced :
    (text : Text) (edits : List Edit)
    → splice text edits ≡ spliced text 0 (reverse edits) (length text)
unfolding splice
splice-eq-spliced text edits = splice_loop-eq-spliced text edits (length text)
