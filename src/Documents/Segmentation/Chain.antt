-- ===== src/Documents/Segmentation/Chain.antt =====
-- Segments that follow one another from the start of a text to its end, as the loop makes them.
use aiprivacy_gateway.Common.{
  ℕ, zero, suc, ◌+◌, ◌-◌, max, ◌≤◌, ◌<◌, ◌≡◌, ◌⊎◌, inl, inr, refl, sym, ap, ◌∙◌, subst, Bool, true,
  false, ◌&&◌, List, [], ◌∷◌, length, map, keep, leb→le, arith, All, AllPairs, All-imp, any, leb,
  ltb, Bool-cases, if◌then◌else◌,
}
use aiprivacy_gateway.Domain.Errors.{ok, err, ◌>>=◌, document_extraction_failed}
use aiprivacy_gateway.Documents.Extraction.{PageRef, ExtractedDocument, pages_covering}
use aiprivacy_gateway.Documents.Segmentation.{
  Segment, Segmenter, segment_of, end_of_segment, least_size, segment_loop, segment,
}
use aiprivacy_gateway.Documents.Segmentation.Bounds.{IsValid, end_of_segment-bounds}

-- The second segment starts and ends later.
abbrev pub Advance : Segment → Segment → Type 0
Advance s t = (s.start < t.start) × (s.end < t.end)

-- A span from `i` to `j` stands whole in a segment.
abbrev pub is_whole : ℕ → ℕ → List Segment → Bool
is_whole i j segments = any (λ s. leb s.start i && leb j s.end) segments

module _ (seg : Segmenter) (document : ExtractedDocument) where
  abbrev pub total : ℕ
  total = length document.text

  -- One segment after the other from `start`, the last of them at the end of the text.
  abbrev pub Chain : ℕ → ℕ → List Segment → Type 0
  Chain start previous_end [] = previous_end ≡ total
  Chain start previous_end (s ∷ segments) =
      (s.start ≡ start)
      × (start < s.end)
      × (s.end ≤ total)
      × (s.end ≤ start + seg.max_characters)
      × (previous_end < s.end)
      × ((s.end ≡ total) ⊎ (start + least_size seg ≤ s.end))
      × Chain (max (s.end - seg.overlap) (start + 1)) s.end segments

  made :
      (index start end : ℕ)
      → start < end
      → (s : Segment) × ((pages_covering document start end >>= segment_of index start end) ≡ ok s)
        × (s.start ≡ start)
        × (s.end ≡ end)
  unfolding pages_covering segment_of
  made index start end h =
      let pages =
        map (λ (p : PageRef). p.number)
          (keep (λ (p : PageRef). ltb p.start end && ltb start p.end) document.pages) in
      (record { index = index; start = start; end = end; pages = pages }, ground arith, refl, refl)

  -- A round that goes on, and the last round.
  segment_loop-go :
      (fuel start previous_end index end : ℕ) (s : Segment) {segments : List Segment}
      → start < total
      → end_of_segment seg document.text start previous_end ≡ end
      → (pages_covering document start end >>= segment_of index start end) ≡ ok s
      → end < total
      → segment_loop seg document fuel (max (end - seg.overlap) (start + 1)) end (index + 1)
        ≡ ok segments
      → segment_loop seg document (suc fuel) start previous_end index ≡ ok (s ∷ segments)
  unfolding segment_loop
  segment_loop-go fuel start previous_end index end s a e m b h =
      let g : ltb start total ≡ true = ground arith in
      let k : leb total end ≡ false = ground arith in rw (g, segment_loop, e, m, k, h)

  segment_loop-stop :
      (fuel start previous_end index end : ℕ) (s : Segment)
      → start < total
      → end_of_segment seg document.text start previous_end ≡ end
      → (pages_covering document start end >>= segment_of index start end) ≡ ok s
      → total ≤ end
      → segment_loop seg document (suc fuel) start previous_end index ≡ ok (s ∷ [])
  unfolding segment_loop
  segment_loop-stop fuel start previous_end index end s a e m b =
      let g : ltb start total ≡ true = ground arith in
      let k : leb total end ≡ true = ground arith in rw (g, segment_loop, e, m, k)

  -- The loop ends with its fuel, and its segments form a chain.
  segment_loop-Chain :
      (valid : IsValid seg) (fuel start previous_end index : ℕ)
      → start < total
      → previous_end < total
      → previous_end < start + seg.max_characters
      → total < start + fuel
      → (segments : List Segment) × (segment_loop seg document fuel start previous_end index
          ≡ ok segments)
        × Chain start previous_end segments
  unfolding segment_loop
  segment_loop-Chain valid zero start previous_end index a b c d = absurd (omega arith)
  segment_loop-Chain valid (suc fuel) start previous_end index a b c d =
      let end = end_of_segment seg document.text start previous_end in
      let bounds =
        end_of_segment-bounds seg document.text start previous_end a b c valid.positive in
      let (s, e, es, ee) = made index start end bounds.0 in
      elim (Bool-cases (leb total end)) [
        | inl k ↦
            let stop : total ≤ end = leb→le total end k in
            (
              s ∷ [],
              segment_loop-stop fuel start previous_end index end s a refl e stop,
              (
                es,
                omega (arith, bounds.0, ee),
                omega (arith, bounds.1, ee),
                omega (arith, bounds.2, ee),
                omega (arith, bounds.3, ee),
                inl (omega (arith, bounds.1, ee)),
                omega (arith, bounds.1, ee),
              ),
            )
        | inr k ↦
            let go : end < total = ground (arith, k) in
            let next = max (end - seg.overlap) (start + 1) in
            let (segments, h, chain) =
              segment_loop-Chain valid fuel next end (index + 1) (omega (arith, bounds.0)) go
                (omega (arith, valid.progress, valid.positive)) (omega arith) in
            (
              s ∷ segments,
              segment_loop-go fuel start previous_end index end s a refl e go h,
              (
                es,
                omega (arith, bounds.0, ee),
                omega (arith, bounds.1, ee),
                omega (arith, bounds.2, ee),
                omega (arith, bounds.3, ee),
                subst (λ n. (n ≡ total) ⊎ (start + least_size seg ≤ n)) (sym ee) bounds.4,
                subst (λ n. Chain (max (n - seg.overlap) (start + 1)) n segments) (sym ee) chain,
              ),
            )
      ]

  -- Cutting a document that has text always succeeds.
  pub segment-Chain :
      IsValid seg
      → 1 ≤ total
      → (segments : List Segment) × (segment seg document ≡ ok segments) × Chain 0 0 segments
  unfolding segment
  segment-Chain valid h =
      let g : ltb 0 total ≡ true = ground arith in
      let (segments, e, chain) =
        segment_loop-Chain valid (suc total) 0 0 0 h h (omega (arith, valid.positive))
          (omega arith) in
      let opened =
        ap
          (λ (b : Bool).
            if b
            then segment_loop seg document (suc total) 0 0 0
            else err document_extraction_failed)
          g in
      (segments, opened ∙ e, chain)

  pub Chain-IsWithin :
      (start previous_end : ℕ) (segments : List Segment)
      → Chain start previous_end segments
      → All
          (λ s.
            (start ≤ s.start)
            × (s.start < s.end)
            × (s.end ≤ total)
            × (s.end ≤ s.start + seg.max_characters)
            × (previous_end < s.end))
          segments
  Chain-IsWithin start previous_end [] h = tt
  Chain-IsWithin start previous_end (s ∷ segments) h = (
    (omega (arith, h), omega (arith, h), omega (arith, h), omega (arith, h), omega (arith, h)),
    All-imp segments (λ t k. (omega (arith, h, k), k.1, k.2, k.3, omega (arith, h, k)))
        (Chain-IsWithin (max (s.end - seg.overlap) (start + 1)) s.end segments h.6),
  )

  pub Chain-Advance :
      (start previous_end : ℕ) (segments : List Segment)
      → Chain start previous_end segments
      → AllPairs Advance segments
  Chain-Advance start previous_end [] h = tt
  Chain-Advance start previous_end (s ∷ segments) h = (
    All-imp segments (λ t k. (omega (arith, h, k), k.4))
        (Chain-IsWithin (max (s.end - seg.overlap) (start + 1)) s.end segments h.6),
    Chain-Advance (max (s.end - seg.overlap) (start + 1)) s.end segments h.6,
  )

  pub Chain-is_whole :
      (start previous_end i j width : ℕ) (segments : List Segment)
      → Chain start previous_end segments
      → (start ≤ i) × (i < j) × (j ≤ total) × (previous_end < j) × (j ≤ i + width)
      → (width ≤ max 1 seg.overlap) × (width ≤ least_size seg)
      → is_whole i j segments ≡ true
  Chain-is_whole start previous_end i j width [] h k w = absurd (omega (arith, h, k))
  Chain-is_whole start previous_end i j width (s ∷ segments) h k w =
      elim (Bool-cases (leb j s.end)) [
        | inl e ↦ ground (arith, h.0, k.0, e)
        | inr e ↦
            let later : s.end < j = ground (arith, e) in
            let goes : max (s.end - seg.overlap) (start + 1) ≤ i = elim h.5 [
              | inl last ↦ absurd (omega (arith, last, k.2))
              | inr far ↦ omega (arith, far, k, w, h.1)
            ] in
            ground (
              arith,
              Chain-is_whole (max (s.end - seg.overlap) (start + 1)) s.end i j width segments h.6
                  (goes, k.1, k.2, later, k.4) w,
            )
      ]

  pub segment-eq-ok :
      IsValid seg
      → 1 ≤ total
      → {segments : List Segment} → segment seg document ≡ ok segments
      → Chain 0 0 segments
  segment-eq-ok valid h {segments = segments} e =
      let (segments', e', chain) = segment-Chain valid h in
      let same : segments' ≡ segments = cc in subst (λ l. Chain 0 0 l) same chain
