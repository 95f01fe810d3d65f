-- ===== src/Documents/Segmentation/Laws.antt =====
-- The segments that `Segmenter.segment` (app/documents/segmentation.py) returns.
use aiprivacy_gateway.Common.{
  ℕ, ◌+◌, ◌≤◌, ◌<◌, ◌≡◌, true, List, length, arith, All, AllPairs, All-imp,
}
use aiprivacy_gateway.Domain.Errors.{ok}
use aiprivacy_gateway.Documents.Extraction.{ExtractedDocument}
use aiprivacy_gateway.Documents.Segmentation.{Segment, Segmenter, least_size, segment}
use aiprivacy_gateway.Documents.Segmentation.Bounds.{IsValid}
use aiprivacy_gateway.Documents.Segmentation.Chain.{
  Advance, is_whole, segment-Chain, Chain-IsWithin, Chain-Advance, Chain-is_whole, segment-eq-ok,
}

-- With a valid segmenter, the segmentation of a document that has text always returns; its
-- segments are non-empty, lie within the document and the size limit, and each starts and ends
-- after those before it.
pub segment_sound :
    (seg : Segmenter) (document : ExtractedDocument)
    → IsValid seg
    → 1 ≤ length document.text
    → (segments : List Segment) × (segment seg document ≡ ok segments)
      × All
          (λ s.
            (s.start < s.end)
            × (s.end ≤ length document.text)
            × (s.end ≤ s.start + seg.max_characters))
          segments
      × AllPairs Advance segments
segment_sound seg document valid h =
    let (segments, e, chain) = segment-Chain seg document valid h in
    (
      segments,
      e,
      All-imp segments (λ s k. (k.1, k.2, k.3)) (Chain-IsWithin seg document 0 0 segments chain),
      Chain-Advance seg document 0 0 segments chain,
    )

-- With a valid segmenter, each character of the document stands in a segment.
pub segment_covers :
    (seg : Segmenter) (document : ExtractedDocument) {segments : List Segment} (i : ℕ)
    → IsValid seg
    → segment seg document ≡ ok segments
    → i < length document.text
    → is_whole i (i + 1) segments ≡ true
segment_covers seg document {segments = segments} i valid e h =
    Chain-is_whole seg document 0 0 i (i + 1) 1 segments
      (segment-eq-ok seg document valid (omega (arith, h)) e)
      (omega arith, omega arith, omega (arith, h), omega arith, omega arith)
      (omega arith, omega arith)

-- With a valid segmenter whose overlap is at most the least size of a segment, each span of the
-- document that is no longer than the overlap stands whole in a segment.
pub segment_hides_nothing :
    (seg : Segmenter) (document : ExtractedDocument) {segments : List Segment} (i j : ℕ)
    → IsValid seg
    → seg.overlap ≤ least_size seg
    → segment seg document ≡ ok segments
    → i < j
    → j ≤ length document.text
    → j ≤ i + seg.overlap
    → is_whole i j segments ≡ true
segment_hides_nothing seg document {segments = segments} i j valid w e a b c =
    Chain-is_whole seg document 0 0 i j seg.overlap segments
      (segment-eq-ok seg document valid (omega (arith, a, b)) e)
      (omega arith, a, b, omega (arith, a), c) (omega arith, w)
