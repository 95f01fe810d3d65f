-- ===== src/Documents/Extraction/Laws.antt =====
-- `build_extracted_document` (app/documents/extraction/models.py) and the pages that it lays out.
use mathlib.Core.List.{flatten}
use aiprivacy_gateway.Common.{
  ℕ, ◌+◌, ◌-◌, ◌≤◌, ◌≡◌, refl, ap, ◌∙◌, subst, true, false, List, [], ◌∷◌, map, Text, length, drop,
  drop-drop, drop-append_left, take-append_left, length-append, arith, ltb,
}
use aiprivacy_gateway.Domain.Errors.{ok}
use aiprivacy_gateway.Documents.Extraction.{
  PageRef, page_ref, ExtractedDocument, pages_cover, extracted_document, page_text, pieces_of,
  pages_from, build_extracted_document,
}

-- The pages that pieces get.
abbrev laid_out : ℕ → ℕ → List Text → List PageRef
laid_out index cursor [] = []
laid_out index cursor (piece ∷ pieces) =
    record { number = index + 1; start = cursor; end = cursor + length piece }
    ∷ laid_out (index + 1) (cursor + length piece) pieces

pages_from-eq-laid_out :
    (index cursor : ℕ) (pieces : List Text)
    → pages_from index cursor pieces ≡ ok (laid_out index cursor pieces)
unfolding pages_from page_ref
pages_from-eq-laid_out index cursor [] = refl
pages_from-eq-laid_out index cursor (piece ∷ pieces) =
    let a : ltb (index + 1) 1 ≡ false = ground arith in
    let b : ltb (cursor + length piece) cursor ≡ false = ground arith in
    rw (a, b, pages_from-eq-laid_out (index + 1) (cursor + length piece) pieces) refl

pages_cover-laid_out :
    (index cursor : ℕ) (pieces : List Text)
    → pages_cover cursor (laid_out index cursor pieces) (cursor + length (flatten pieces)) ≡ true
unfolding pages_cover flatten
pages_cover-laid_out index cursor [] = ground arith
pages_cover-laid_out index cursor (piece ∷ pieces) = ground (
  arith,
  pages_cover-laid_out (index + 1) (cursor + length piece) pieces,
  length-append piece (flatten pieces),
)

-- Whatever follows a prefix of the buffer, its pages read back the pieces.
page_text-laid_out :
    (index cursor : ℕ) (pieces : List Text) (document : ExtractedDocument)
    → drop cursor document.text ≡ flatten pieces
    → map (page_text document) (laid_out index cursor pieces) ≡ pieces
unfolding flatten
page_text-laid_out index cursor [] document h = refl
page_text-laid_out index cursor (piece ∷ pieces) document h =
    let e : cursor + length piece - cursor ≡ length piece = omega arith in
    let next : drop (cursor + length piece) document.text ≡ flatten pieces =
      drop-drop cursor (length piece) document.text
      ∙ ap (drop (length piece)) h
      ∙ drop-append_left piece (flatten pieces) in
    rw (
      e,
      h,
      take-append_left piece (flatten pieces),
      page_text-laid_out (index + 1) (cursor + length piece) pieces document next,
    )

extracted_document-laid_out :
    (text : Text) (pieces : List Text)
    → 1 ≤ length pieces
    → pages_cover 0 (laid_out 0 0 pieces) (length text) ≡ true
    → extracted_document text (laid_out 0 0 pieces)
      ≡ ok (record { text = text; pages = laid_out 0 0 pieces })
unfolding extracted_document
extracted_document-laid_out text [] h k = absurd (omega (arith, h))
extracted_document-laid_out text (piece ∷ pieces) h k = rw (k, extracted_document) refl

length-pieces_of :
    (separator t : Text) (page_texts : List Text)
    → 1 ≤ length (pieces_of separator (t ∷ page_texts))
unfolding pieces_of
length-pieces_of separator t [] = omega arith
length-pieces_of separator t (u ∷ rest) = omega arith

-- Joining at least one page text always gives a document: its text is the pieces one after the
-- other, its pages pass the check of the constructor, and each page reads back its piece.
pub build_extracted_document_total :
    (separator t : Text) (page_texts : List Text)
    → (document : ExtractedDocument) × (build_extracted_document separator (t ∷ page_texts)
        ≡ ok document)
      × (document.text ≡ flatten (pieces_of separator (t ∷ page_texts)))
      × (pages_cover 0 document.pages (length document.text) ≡ true)
      × (map (page_text document) document.pages ≡ pieces_of separator (t ∷ page_texts))
unfolding build_extracted_document
build_extracted_document_total separator t page_texts =
    let pieces = pieces_of separator (t ∷ page_texts) in
    let document : ExtractedDocument = record {
      text = flatten pieces;
      pages = laid_out 0 0 pieces;
    } in
    let cover =
      subst (λ n. pages_cover 0 (laid_out 0 0 pieces) n ≡ true) (omega arith)
        (pages_cover-laid_out 0 0 pieces) in
    let built =
      extracted_document-laid_out (flatten pieces) pieces (length-pieces_of separator t page_texts)
        cover in
    (
      document,
      rw (pages_from-eq-laid_out 0 0 pieces) built,
      refl,
      cover,
      page_text-laid_out 0 0 pieces document refl,
    )
