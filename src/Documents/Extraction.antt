-- ===== src/Documents/Extraction.antt =====
-- The extracted document and its pages (app/documents/extraction/models.py). Offsets are the native
-- naturals: the tests of the source against negative ones are left out.
pub mod Laws
use mathlib.Core.List.{flatten}
use aiprivacy_gateway.Common.{
  ℕ, suc, ◌+◌, Bool, true, false, ◌&&◌, List, [], ◌∷◌, ◌++◌, map, Text, length, slice, keep, ltb,
  leb, ◌==◌, not, if◌then◌else◌, codes,
}
use aiprivacy_gateway.Domain.Errors.{Result, ok, err, ◌>>=◌, document_extraction_failed}

pub record PageRef : Type 0 where
  pub number : ℕ
  pub start : ℕ
  pub end : ℕ

-- The constructor, with the checks of `__post_init__`.
unfoldable pub page_ref : ℕ → ℕ → ℕ → Result PageRef
page_ref number start end =
    if ltb number 1
    then err document_extraction_failed
    else if ltb end start
    then err document_extraction_failed
    else ok (record { number = number; start = start; end = end })

pub record ExtractedDocument : Type 0 where
  pub text : Text
  pub pages : List PageRef

-- The loop of `__post_init__`: each page starts where the last one ended, the last one at the end.
unfoldable pub pages_cover : ℕ → List PageRef → ℕ → Bool
pages_cover expected [] total = expected == total
pages_cover expected (page ∷ pages) total =
    page.start == expected && pages_cover page.end pages total

unfoldable pub extracted_document : Text → List PageRef → Result ExtractedDocument
unfolding pages_cover
extracted_document text [] = err document_extraction_failed
extracted_document text (page ∷ pages) =
    if pages_cover 0 (page ∷ pages) (length text)
    then ok (record { text = text; pages = page ∷ pages })
    else err document_extraction_failed

abbrev pub page_text : ExtractedDocument → PageRef → Text
page_text document page = slice page.start page.end document.text

-- The numbers of the pages that a span touches.
unfoldable pub pages_covering : ExtractedDocument → ℕ → ℕ → Result (List ℕ)
pages_covering document start end =
    if ltb end start
    then err document_extraction_failed
    else if start == end
    then ok (map (λ p. p.number) (keep (λ p. leb p.start start && ltb start p.end) document.pages))
    else ok (map (λ p. p.number) (keep (λ p. ltb p.start end && ltb start p.end) document.pages))

-- The pieces that `build_extracted_document` joins: all pages but the last end in the separator.
unfoldable pub pieces_of : Text → List Text → List Text
pieces_of separator [] = []
pieces_of separator (t ∷ []) = t ∷ []
pieces_of separator (t ∷ (u ∷ rest)) = (t ++ separator) ∷ pieces_of separator (u ∷ rest)

-- The page references of pieces, the first of them at `cursor` and with index `index`.
unfoldable pub pages_from : ℕ → ℕ → List Text → Result (List PageRef)
unfolding page_ref
pages_from index cursor [] = ok []
pages_from index cursor (piece ∷ pieces) = do
  page ← page_ref (index + 1) cursor (cursor + length piece)
  rest ← pages_from (index + 1) (cursor + length piece) pieces
  ok (page ∷ rest)

unfoldable pub build_extracted_document : Text → List Text → Result ExtractedDocument
unfolding pieces_of pages_from extracted_document
build_extracted_document separator [] = err document_extraction_failed
build_extracted_document separator (t ∷ page_texts) = do
  let pieces = pieces_of separator (t ∷ page_texts)
  pages ← pages_from 0 0 pieces
  extracted_document (flatten pieces) pages
