-- ===== src/Documents/Segmentation/Bounds.antt =====
-- The bounds of `_end_of_segment` (app/documents/segmentation.py), as lemmas.
use aiprivacy_gateway.Common.{
  ℕ, zero, suc, ◌+◌, ◌-◌, ◌≤◌, ◌<◌, ◌≡◌, ◌⊎◌, inl, inr, refl, List, [], ◌∷◌, Text, length, none,
  some, arith, ltb, text_eq, slice, Bool-cases,
}
use aiprivacy_gateway.Documents.Segmentation.{
  Segmenter, rfind_from, rfind, break_at, break_patterns, least_size, end_of_segment,
}

pub record IsValid (seg : Segmenter) : Type 0 where
  pub positive : 1 ≤ seg.max_characters
  pub progress : seg.overlap < seg.max_characters

rfind_from-bounds :
    (text pattern : Text) (floor k : ℕ)
    → (rfind_from text pattern floor k ≡ none)
      ⊎ ((found : ℕ) × (rfind_from text pattern floor k ≡ some found)
          × (floor ≤ found)
          × (found ≤ floor + k))
unfolding rfind_from
rfind_from-bounds text pattern floor zero =
    elim (Bool-cases (text_eq (slice floor (floor + length pattern) text) pattern)) [
      | inl e ↦ inr (floor, rw e refl, omega arith, omega arith)
      | inr e ↦ inl (rw e refl)
    ]
rfind_from-bounds text pattern floor (suc k) =
    let here = floor + suc k in
    elim (Bool-cases (text_eq (slice here (here + length pattern) text) pattern)) [
      | inl e ↦ inr (here, rw e refl, omega arith, omega arith)
      | inr e ↦ rw e (elim (rfind_from-bounds text pattern floor k) [
        | inl h ↦ inl h
        | inr (found, h, a, b) ↦ inr (found, h, a, omega arith)
      ])
    ]

rfind-bounds :
    (text pattern : Text) (floor limit : ℕ)
    → (rfind text pattern floor limit ≡ none)
      ⊎ ((found : ℕ) × (rfind text pattern floor limit ≡ some found)
          × (floor ≤ found)
          × (found + length pattern ≤ limit))
unfolding rfind
rfind-bounds text pattern floor limit = elim (Bool-cases (ltb limit (floor + length pattern))) [
  | inl e ↦ inl (rw e refl)
  | inr e ↦ rw e (elim (rfind_from-bounds text pattern floor (limit - (floor + length pattern))) [
    | inl h ↦ inl h
    | inr (found, h, a, b) ↦ inr (found, h, a, ground arith)
  ])
]

module _ (text : Text) (floor limit minimum_end : ℕ) where
  abbrev IsEnd : ℕ → Type 0
  IsEnd end = (floor ≤ end) × (end ≤ limit) × (minimum_end < end)

  break_at-bounds :
      (patterns : List Text)
      → floor ≤ limit
      → minimum_end < limit
      → IsEnd (break_at text floor limit minimum_end patterns)
  unfolding break_at
  break_at-bounds [] l m = (l, omega arith, m)
  break_at-bounds (pattern ∷ patterns) l m =
      let rest = break_at-bounds patterns l m in
      elim (rfind-bounds text pattern floor limit) [
        | inl e ↦ rw (e, break_at) rest
        | inr (found, e, a, b) ↦ rw (e, break_at) (ground (arith, a, b, rest))
      ]

-- The end of a segment that starts inside the text, given that its predecessor left some of the text.
pub end_of_segment-bounds :
    (seg : Segmenter) (text : Text) (start minimum_end : ℕ)
    → start < length text
    → minimum_end < length text
    → minimum_end < start + seg.max_characters
    → 1 ≤ seg.max_characters
    → let end : ℕ = end_of_segment seg text start minimum_end in
      (start < end)
      × (end ≤ length text)
      × (end ≤ start + seg.max_characters)
      × (minimum_end < end)
      × ((end ≡ length text) ⊎ (start + least_size seg ≤ end))
unfolding end_of_segment
end_of_segment-bounds seg text start minimum_end a b c d =
    let l : start + least_size seg ≤ start + seg.max_characters = omega arith in
    ground (
      arith,
      break_at-bounds text (start + least_size seg) (start + seg.max_characters) minimum_end
          break_patterns l c,
    )
