-- ===== src/Examples/Documents.antt =====
-- The document theorems: a text cut into segments of at most five characters, and two joined pages.
use mathlib.Core.List.{flatten}
use aiprivacy_gateway.Common.{
  ℕ, ◌+◌, ◌≤◌, ◌<◌, ◌≡◌, refl, Bool, true, List, [], ◌∷◌, map, Text, codes, length, All, AllPairs,
  arith,
}
use aiprivacy_gateway.Domain.Errors.{ok}
use aiprivacy_gateway.Documents.Extraction.{
  ExtractedDocument, pages_cover, page_text, pieces_of, build_extracted_document,
}
use aiprivacy_gateway.Documents.Extraction.Laws.{build_extracted_document_total}
use aiprivacy_gateway.Documents.Segmentation.{Segment, Segmenter, segment}
use aiprivacy_gateway.Documents.Segmentation.Bounds.{IsValid}
use aiprivacy_gateway.Documents.Segmentation.Chain.{Advance, is_whole}
use aiprivacy_gateway.Documents.Segmentation.Laws.{segment_sound, segment_hides_nothing}

abbrev cutter : Segmenter
cutter = record { max_characters = 5; overlap = 2 }

abbrev document : ExtractedDocument
document = record { text = codes "abcd ef"; pages = record { number = 1; start = 0; end = 7 } ∷ [] }

cutter-IsValid : IsValid cutter
cutter-IsValid = record { positive = omega arith; progress = omega arith }

-- The first segment ends after the space, and the second one repeats two characters.
abbrev segments : List Segment
segments =
    record { index = 0; start = 0; end = 5; pages = 1 ∷ [] }
    ∷ record { index = 1; start = 3; end = 7; pages = 1 ∷ [] }
    ∷ []

segment_run : segment cutter document ≡ ok segments
unfolding segment aiprivacy_gateway.Common.text_eq
segment_run = refl

segment_sound_example :
    (segments : List Segment) × (segment cutter document ≡ ok segments)
    × All (λ s. (s.start < s.end) × (s.end ≤ 7) × (s.end ≤ s.start + 5)) segments
    × AllPairs Advance segments
segment_sound_example = segment_sound cutter document cutter-IsValid (omega arith)

segment_hides_nothing_example : is_whole 4 6 segments ≡ true
segment_hides_nothing_example =
    segment_hides_nothing cutter document 4 6 cutter-IsValid (omega arith) segment_run (omega arith)
      (omega arith) (omega arith)

build_extracted_document_total_example :
    (document : ExtractedDocument) × (build_extracted_document
        (codes "\n")
        (codes "ab" ∷ codes "c" ∷ [])
      ≡ ok document)
    × (document.text ≡ flatten (pieces_of (codes "\n") (codes "ab" ∷ codes "c" ∷ [])))
    × (pages_cover 0 document.pages (length document.text) ≡ true)
    × (map (page_text document) document.pages
        ≡ pieces_of (codes "\n") (codes "ab" ∷ codes "c" ∷ []))
build_extracted_document_total_example =
    build_extracted_document_total (codes "\n") (codes "ab") (codes "c" ∷ [])
