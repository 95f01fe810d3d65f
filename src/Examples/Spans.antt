-- ===== src/Examples/Spans.antt =====
-- The theorems on the spans of a document, at two segments that report one address.
use aiprivacy_gateway.Common.{◌≡◌, refl, true, List, [], ◌∷◌, map, Text, codes, slice, All, any}
use aiprivacy_gateway.Domain.Errors.{ok}
use aiprivacy_gateway.Documents.Segmentation.{Segment}
use aiprivacy_gateway.Documents.Spans.{GlobalDetection, to_global, coalesce}
use aiprivacy_gateway.Detection.Overlap.{resolve_overlaps}
use aiprivacy_gateway.Documents.Spans.{resolve}
use aiprivacy_gateway.Documents.Spans.Resolution.{HasSource, resolve_total}
use aiprivacy_gateway.Documents.Spans.Laws.{
  text_at, stands_for, to_global-text_at, coalesce-stands_for,
}
use aiprivacy_gateway.Examples.Data.{email, span}

abbrev text : Text
text = codes "to ab cd"

abbrev segment : Segment
segment = record { index = 1; start = 2; end = 8; pages = [] }

abbrev promoted : List GlobalDetection
promoted = record { entity = span email 3 5; segments = 1 ∷ [] } ∷ []

to_global_run : to_global segment (span email 1 3 ∷ []) ≡ ok promoted
unfolding to_global
to_global_run = refl

to_global-text_at_example :
    map (λ g. text_at text g.entity) promoted ≡ map (text_at (slice 2 8 text)) (span email 1 3 ∷ [])
to_global-text_at_example = to_global-text_at text segment (span email 1 3 ∷ []) to_global_run

abbrev reported : List GlobalDetection
reported = record { entity = span email 3 5; segments = 0 ∷ [] } ∷ promoted

coalesce-stands_for_example :
    All (λ d. any (stands_for d.entity) (coalesce reported) ≡ true) reported
coalesce-stands_for_example = coalesce-stands_for reported

resolve_total_example :
    (out : List GlobalDetection) × (resolve [] reported ≡ ok out)
    × (map (λ d. d.entity) out ≡ resolve_overlaps [] (map (λ d. d.entity) reported))
    × All (λ (d : GlobalDetection). HasSource reported d.entity d.segments) out
resolve_total_example = resolve_total [] reported
