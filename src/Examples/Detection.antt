-- ===== src/Examples/Detection.antt =====
-- The detection theorems at a text with an e-mail address and a number.
use mathlib.Core.List.{Perm}
use mathlib.Core.List.Perm
use aiprivacy_gateway.Common.{
  ℕ, ◌≤◌, ◌<◌, ◌≡◌, ◌≢◌, refl, Bool, true, false, List, [], ◌∷◌, map, keep, Text, codes, length,
  All, AllPairs, any, Option, none, some, arith, ℤ, pos,
}
use aiprivacy_gateway.Domain.Errors.{ok, err, entity_limit_exceeded}
use aiprivacy_gateway.Domain.Entity.{DetectedEntity, IsValid, detected_entity}
use aiprivacy_gateway.Detection.Overlap.{dominance, resolve_overlaps}
use aiprivacy_gateway.Detection.Overlap.Greedy.{beats}
use aiprivacy_gateway.Detection.Overlap.Laws.{Before, resolve_overlaps-beats}
use aiprivacy_gateway.Detection.Overlap.Permutation.{IsNamed, resolve_overlaps-perm}
use aiprivacy_gateway.Detection.Postprocess.{Candidate, finalize}
use aiprivacy_gateway.Detection.Postprocess.Admission.{IsReportable, admitted}
use aiprivacy_gateway.Detection.Postprocess.Laws.{finalize_sound, finalize-eq-err}
use aiprivacy_gateway.Examples.Data.{ascii, email, ssn, span, hit, severity_table, small_config}

abbrev candidates : List DetectedEntity
candidates = span email 0 6 ∷ span ssn 4 9 ∷ span email 10 12 ∷ []

candidates-IsValid : All IsValid candidates
candidates-IsValid = (
  record { forward = omega arith; scored = omega arith },
  (
    record { forward = omega arith; scored = omega arith },
    (record { forward = omega arith; scored = omega arith }, tt),
  ),
)

-- The number is more severe than the address that it overlaps.
resolve_overlaps_run :
    resolve_overlaps severity_table candidates ≡ span ssn 4 9 ∷ span email 10 12 ∷ []
unfolding resolve_overlaps aiprivacy_gateway.Detection.Overlap.severity
    aiprivacy_gateway.Detection.Entities.lookup_or aiprivacy_gateway.Common.text_eq
resolve_overlaps_run = refl

resolve_overlaps-beats_example :
    All
      (λ x.
        any (beats (dominance severity_table) x) (resolve_overlaps severity_table candidates)
        ≡ true)
      candidates
resolve_overlaps-beats_example = resolve_overlaps-beats severity_table candidates candidates-IsValid

abbrev swapped : List DetectedEntity
swapped = span ssn 4 9 ∷ span email 0 6 ∷ span email 10 12 ∷ []

swap : Perm candidates swapped
swap = Perm.swap (span ssn 4 9) (span email 0 6) (span email 10 12 ∷ [])

candidates-IsNamed : All (λ x. IsValid x × IsNamed x) candidates
candidates-IsNamed = (
  (candidates-IsValid.0, λ h. cc),
  ((candidates-IsValid.1.0, λ h. cc), ((candidates-IsValid.1.1.0, λ h. cc), tt)),
)

resolve_overlaps-perm_example :
    resolve_overlaps severity_table candidates ≡ resolve_overlaps severity_table swapped
resolve_overlaps-perm_example = resolve_overlaps-perm severity_table swap candidates-IsNamed

abbrev text : Text
text = codes "ab@c.de 12"

abbrev hits : List Candidate
hits = hit email 0 7 ∷ hit email 0 99 ∷ []

finalize_run :
    finalize ascii text small_config none true hits
    ≡ ok (record (span email 0 7) { recognizer = some (codes "r") } ∷ [])
unfolding finalize aiprivacy_gateway.Common.text_eq
    aiprivacy_gateway.Detection.Checksums.value_is_valid
    aiprivacy_gateway.Detection.Config.is_allowlisted
    aiprivacy_gateway.Detection.Config.threshold_for aiprivacy_gateway.Detection.Entities.lookup_or
    detected_entity resolve_overlaps
finalize_run = refl

finalize_sound_example :
    All
      (IsReportable ascii text small_config none)
      (record (span email 0 7) { recognizer = some (codes "r") } ∷ [])
    × AllPairs Before (record (span email 0 7) { recognizer = some (codes "r") } ∷ [])
    × (1 ≤ 1)
finalize_sound_example = finalize_sound ascii text small_config none true hits finalize_run

abbrev two_hits : List Candidate
two_hits = hit email 0 7 ∷ hit email 8 10 ∷ []

finalize_over : finalize ascii text small_config none true two_hits ≡ err entity_limit_exceeded
unfolding finalize aiprivacy_gateway.Common.text_eq
    aiprivacy_gateway.Detection.Checksums.value_is_valid
    aiprivacy_gateway.Detection.Config.is_allowlisted
    aiprivacy_gateway.Detection.Config.threshold_for aiprivacy_gateway.Detection.Entities.lookup_or
    detected_entity resolve_overlaps aiprivacy_gateway.Detection.Overlap.severity
finalize_over = refl

finalize-eq-err_example :
    (entity_limit_exceeded ≡ entity_limit_exceeded)
    × (1
        < length (resolve_overlaps severity_table (admitted ascii text small_config none two_hits)))
finalize-eq-err_example = finalize-eq-err ascii text small_config none true two_hits finalize_over

made_entity :
    detected_entity email (pos 1) (pos 4) (pos 0) none
    ≡ ok (record { entity_type = email; start = 1; end = 4; score = 0; recognizer = none })
unfolding detected_entity
made_entity = refl
