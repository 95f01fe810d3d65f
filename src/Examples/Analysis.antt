-- ===== src/Examples/Analysis.antt =====
-- The theorems on the analysis and the protection of a document, at a document of one page.
use aiprivacy_gateway.Common.{
  ℕ, ◌+◌, ◌≤◌, ◌<◌, ◌≡◌, ◌⊎◌, inl, inr, refl, sym, ◌∙◌, ◌++◌, Bool, true, false, List, [], ◌∷◌,
  Text, codes, length, All, any, Option, none, some, Bool-cases, ◌==◌, arith,
}
use aiprivacy_gateway.Domain.Errors.{GatewayError, Result, ok, err}
use aiprivacy_gateway.Domain.Entity.{DetectedEntity, tokenize, block, score_one}
use aiprivacy_gateway.Policy.Snapshot.{action_for, min_score_for}
use aiprivacy_gateway.Tokenization.Grammar.{render_token}
use aiprivacy_gateway.Tokenization.Vault.{EntityMapping}
use aiprivacy_gateway.Tokenization.Selection.{select_entities}
use aiprivacy_gateway.Tokenization.Tokenizer.{TransformedText, is_action, transform}
use aiprivacy_gateway.Documents.Extraction.{ExtractedDocument, pages_cover}
use aiprivacy_gateway.Documents.Analysis.{
  LabeledSpan, SegmentedDocument, AnalyzedDocument, spans_fit, AnalyzerParts, analyze,
}
use aiprivacy_gateway.Documents.Analysis.Detection.{IsDetector, IsTaskGroup, IsFailure}
use aiprivacy_gateway.Documents.Analysis.Outcome.{IsAnalyzed, Decided, analyze_outcome}
use aiprivacy_gateway.Documents.Protection.{
  ProtectorParts, detect_instruction, verify_every_span_was_acted_on, transform_document,
}
use aiprivacy_gateway.Documents.Protection.Laws.{protection_drops_nothing}
use aiprivacy_gateway.Examples.Data.{
  plain_platform, identifier, email, ssn, span, small_policy, counting_vault, first_letter,
}

abbrev document : ExtractedDocument
document = record { text = codes "ab"; pages = record { number = 1; start = 0; end = 2 } ∷ [] }

abbrev segmented : SegmentedDocument
segmented = record {
  document = document;
  segments = record { index = 0; start = 0; end = 2; pages = 1 ∷ [] } ∷ [];
}

abbrev pub analyzer : AnalyzerParts
analyzer = record {
  snapshot_for = λ tenant_id. ok small_policy;
  segment_source = λ tenant_id user_id document_id. ok segmented;
  detector = first_letter;
  max_entities = 10;
  priority = [];
  task_group = λ failures. failures;
}

first_letter-IsDetector : IsDetector first_letter
first_letter-IsDetector [] es h = let same : es ≡ [] = cc in rw same tt
first_letter-IsDetector (c ∷ text) es h = elim (Bool-cases (c == 97)) [
  | inr e ↦ let h' = rw e at h in let same : es ≡ [] = cc in rw same tt
  | inl e ↦
      let h' = rw e at h in
      let same : es ≡ span email 0 1 ∷ [] = cc in
      rw same ((record { forward = omega arith; scored = omega arith }, omega arith), tt)
]

document_covered : pages_cover 0 document.pages (length document.text) ≡ true
unfolding pages_cover
document_covered = refl

analyzer-IsTaskGroup : IsTaskGroup analyzer.task_group
analyzer-IsTaskGroup = (λ P failures all. all, λ failure failures. (failure, failures, refl))

analyze_outcome_example :
    Decided analyzer first_letter-IsDetector analyzer-IsTaskGroup small_policy segmented
      (analyze analyzer 2 3 4)
    ⊎ ((e : GatewayError) × IsFailure first_letter e × (analyze analyzer 2 3 4 ≡ err e))
analyze_outcome_example =
    analyze_outcome analyzer first_letter-IsDetector analyzer-IsTaskGroup 2 3 4 small_policy
      segmented refl refl document_covered ((omega arith, omega arith), tt)

abbrev found_span : LabeledSpan
found_span = record {
  entity_type = email;
  start = 0;
  end = 1;
  score = score_one;
  action = tokenize;
  pages = 1 ∷ [];
  segments = 0 ∷ [];
}

abbrev analyzed : AnalyzedDocument
analyzed = record {
  tenant_id = 2;
  document_id = 4;
  segmented = segmented;
  spans = found_span ∷ [];
  policy = small_policy;
}

analyze_run : analyze analyzer 2 3 4 ≡ ok analyzed
unfolding analyze aiprivacy_gateway.Detection.Overlap.resolve_overlaps
    aiprivacy_gateway.Common.text_eq
analyze_run = refl

found_span_decided : tokenize ≡ action_for small_policy email
unfolding action_for aiprivacy_gateway.Common.text_eq
found_span_decided = refl

found_span_confident :
    aiprivacy_gateway.Common.leb (min_score_for small_policy email) score_one ≡ true
unfolding min_score_for aiprivacy_gateway.Common.text_eq
found_span_confident = refl

analyzed_fit : spans_fit 2 0 (found_span ∷ []) ≡ true
unfolding spans_fit
analyzed_fit = refl

analyzed-IsAnalyzed : IsAnalyzed 10 small_policy segmented analyzed
analyzed-IsAnalyzed = record {
  same_policy = refl;
  same_document = refl;
  budget = omega arith;
  fit = analyzed_fit;
  labeled = (
    record {
      forward = omega arith;
      inside = omega arith;
      scored = omega arith;
      confident = found_span_confident;
      decided = found_span_decided;
      permitted = refl;
      paged = refl;
      named = refl;
    },
    tt,
  );
}

-- Two detectors for instructions of two letters.
abbrev pair_detector : Text → Result (List DetectedEntity)
pair_detector text = ok (span email 0 1 ∷ (span email 1 2 ∷ []))

abbrev block_detector : Text → Result (List DetectedEntity)
block_detector text = ok (span ssn 0 1 ∷ [])

abbrev pub protector : (Text → Result (List DetectedEntity)) → ProtectorParts ℕ
protector detector = record {
  analyze = analyze analyzer;
  is_blank = λ text. false;
  detector = detector;
  max_entities = 10;
  platform = plain_platform;
  key = [];
  vault = counting_vault;
}

abbrev mapping : EntityMapping
mapping = record {
  token = render_token email identifier;
  token_id = identifier;
  entity_type = email;
  original_value = codes "a";
  normalized_hmac = codes "00";
}

abbrev transformed : TransformedText
transformed = record {
  text = render_token email identifier ++ codes "b";
  mappings = mapping ∷ [];
  summary = record {
    detected = 1;
    tokenized = 1;
    redacted = 0;
    pseudonymized = 0;
    blocked = 0;
    allowed = 0;
    restored = 0;
    unknown_tokens = 0;
    entity_types = (email, 1) ∷ [];
  };
}

transform_document_run :
    transform_document (protector pair_detector) 2 1 4 (codes "cd") analyzed 0 ≡ (ok transformed, 1)
unfolding transform_document select_entities aiprivacy_gateway.Tokenization.Tokenizer.apply_selected
    aiprivacy_gateway.Common.text_eq aiprivacy_gateway.Tokenization.Tokenizer.apply_plan
    aiprivacy_gateway.Tokenization.Tokenizer.plan_for action_for
    aiprivacy_gateway.Tokenization.Tokenizer.build aiprivacy_gateway.Tokenization.Tokenizer.mint
    aiprivacy_gateway.Tokenization.Tokenizer.requests
    aiprivacy_gateway.Tokenization.Tokenizer.pair_tokens
    aiprivacy_gateway.Tokenization.Tokenizer.assign aiprivacy_gateway.Tokenization.Grammar.mem_chars
    aiprivacy_gateway.Tokenization.Tokenizer.edits_of
    aiprivacy_gateway.Tokenization.Tokenizer.splice
    aiprivacy_gateway.Tokenization.Tokenizer.summarize mathlib.Core.List.flatten
transform_document_run = refl

protection_drops_nothing_example : verify_every_span_was_acted_on analyzed transformed ≡ ok tt
protection_drops_nothing_example =
    protection_drops_nothing (protector pair_detector) 10 1 (codes "cd") analyzed 0 1 transformed
      analyzed-IsAnalyzed transform_document_run

pair_detected :
    detect_instruction (protector pair_detector) (codes "cd")
    ≡ ok (span email 0 1 ∷ (span email 1 2 ∷ []))
unfolding detect_instruction
pair_detected = refl

pair_selected :
    select_entities (codes "cd") (span email 0 1 ∷ (span email 1 2 ∷ [])) small_policy
    ≡ ok (span email 0 1 ∷ (span email 1 2 ∷ []))
unfolding select_entities aiprivacy_gateway.Common.text_eq
pair_selected = refl

pair_permitted :
    any
      (λ (e : DetectedEntity). is_action (action_for small_policy e.entity_type) block)
      (span email 0 1 ∷ (span email 1 2 ∷ []))
    ≡ false
unfolding action_for aiprivacy_gateway.Common.text_eq
pair_permitted = refl

all_acted_on : verify_every_span_was_acted_on analyzed transformed ≡ ok tt
unfolding verify_every_span_was_acted_on
all_acted_on = refl

block_detected : detect_instruction (protector block_detector) (codes "cd") ≡ ok (span ssn 0 1 ∷ [])
unfolding detect_instruction
block_detected = refl

block_found :
    any
      (λ (e : DetectedEntity). is_action (action_for small_policy e.entity_type) block)
      (span ssn 0 1 ∷ [])
    ≡ true
unfolding action_for aiprivacy_gateway.Common.text_eq
block_found = refl
