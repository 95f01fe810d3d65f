-- ===== src/Documents/Segmentation.antt =====
-- Cutting a document into overlapping segments (app/documents/segmentation.py).
pub mod Bounds
pub mod Chain
pub mod Laws
use aiprivacy_gateway.Common.{
  ℕ, zero, suc, ◌+◌, ◌-◌, ◌*◌, ◌/◌, max, Bool, true, false, ◌||◌, List, [], ◌∷◌, Text, codes,
  text_eq, length, slice, ltb, leb, Option, none, some, if◌then◌else◌, ℤ, pos, leb_ℤ, ltb_ℤ, to_ℕ,
}
use aiprivacy_gateway.Domain.Errors.{
  Result, ok, err, ◌>>=◌, value_error, internal_error, document_extraction_failed,
}
use aiprivacy_gateway.Documents.Extraction.{ExtractedDocument, pages_covering}

pub record Segment : Type 0 where
  pub index : ℕ
  pub start : ℕ
  pub end : ℕ
  pub pages : List ℕ

-- The constructor, with the check of `__post_init__`.
unfoldable pub segment_of : ℕ → ℕ → ℕ → List ℕ → Result Segment
segment_of index start end pages =
    if leb end start
    then err document_extraction_failed
    else ok (record { index = index; start = start; end = end; pages = pages })

unfoldable pub to_global : Segment → ℕ → Result ℕ
to_global s offset =
    if ltb (s.end - s.start) offset then err document_extraction_failed else ok (s.start + offset)

pub record Segmenter : Type 0 where
  pub max_characters : ℕ
  pub overlap : ℕ

unfoldable pub segmenter : ℤ → ℤ → Result Segmenter
segmenter max_characters overlap =
    if ltb_ℤ max_characters (pos 1)
    then err value_error
    else if ltb_ℤ overlap (pos 0)
    then err value_error
    else if leb_ℤ max_characters overlap
    then err value_error
    else ok (record { max_characters = to_ℕ max_characters; overlap = to_ℕ overlap })

-- `text.rfind(pattern, floor, floor + k + len(pattern))`
unfoldable pub rfind_from : Text → Text → ℕ → ℕ → Option ℕ
rfind_from text pattern floor zero =
    if text_eq (slice floor (floor + length pattern) text) pattern then some floor else none
rfind_from text pattern floor (suc k) =
    let rest = rfind_from text pattern floor k in
    let here = floor + suc k in
    if text_eq (slice here (here + length pattern) text) pattern then some here else rest

unfoldable pub rfind : Text → Text → ℕ → ℕ → Option ℕ
unfolding rfind_from
rfind text pattern floor limit =
    if ltb limit (floor + length pattern)
    then none
    else rfind_from text pattern floor (limit - (floor + length pattern))

-- `_BREAK_PATTERNS`
abbrev pub break_patterns : List Text
break_patterns = codes "\n\n" ∷ (codes "\n" ∷ (codes ". " ∷ (codes " " ∷ [])))

-- The loop over the patterns, with `limit` if none of them gives a usable break.
unfoldable pub break_at : Text → ℕ → ℕ → ℕ → List Text → ℕ
unfolding rfind
break_at text floor limit minimum_end [] = limit
break_at text floor limit minimum_end (pattern ∷ patterns) =
    let rest = break_at text floor limit minimum_end patterns in
    elim (rfind text pattern floor limit) [
      | none ↦ rest
      | some found ↦
          if ltb minimum_end (found + length pattern) then found + length pattern else rest
    ]

-- `1 - _BOUNDARY_SEARCH_FRACTION` is three quarters, which a float holds exactly.
abbrev pub least_size : Segmenter → ℕ
least_size seg = max 1 (seg.max_characters * 3 / 4)

unfoldable pub end_of_segment : Segmenter → Text → ℕ → ℕ → ℕ
unfolding break_at
end_of_segment seg text start minimum_end =
    if leb (length text) (start + seg.max_characters)
    then length text
    else break_at text (start + least_size seg) (start + seg.max_characters) minimum_end
        break_patterns

-- The `while` loop of `segment`. `start` grows in each round, so that its fuel, one more than the
-- length of the text, never runs out; an `internal_error` stands for fuel that has.
unfoldable pub segment_loop : Segmenter → ExtractedDocument → ℕ → ℕ → ℕ → ℕ → Result (List Segment)
unfolding end_of_segment segment_of pages_covering
segment_loop seg document zero start previous_end index = err internal_error
segment_loop seg document (suc fuel) start previous_end index =
    let end = end_of_segment seg document.text start previous_end in
    let rest =
      segment_loop seg document fuel (max (end - seg.overlap) (start + 1)) end (index + 1) in
    let here = pages_covering document start end >>= segment_of index start end in
    let total = length document.text in
    let this = here >>= λ s.
    (if leb total end then ok (s ∷ []) else (rest >>= λ segments. ok (s ∷ segments))) in
    if ltb start total then this else ok []

unfoldable pub segment : Segmenter → ExtractedDocument → Result (List Segment)
unfolding segment_loop
segment seg document =
    if ltb 0 (length document.text)
    then segment_loop seg document (suc (length document.text)) 0 0 0
    else err document_extraction_failed
