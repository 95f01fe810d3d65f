-- ===== src/Outbound/Scan.antt =====
-- The check of a payload before it leaves (app/outbound/scan.py). The detector and `str.strip` are
-- parameters: `is_blank s` says that `s.strip()` is empty.
pub mod Laws
use aiprivacy_gateway.Common.{
  ℕ, ◌+◌, Bool, true, false, ◌&&◌, not, List, [], ◌∷◌, ◌++◌, map, Text, codes, compare_text,
  text_eq, length, take, keep, any, leb, ltb, ◌==◌, sorted, Option, none, some, if◌then◌else◌,
  starts_with,
}
use aiprivacy_gateway.Domain.Errors.{Result, ok, err, ◌>>=◌}
use aiprivacy_gateway.Domain.Entity.{DetectedEntity, EntityAction, allow}
use aiprivacy_gateway.Policy.Snapshot.{PolicySnapshot, action_for, min_score_for}
use aiprivacy_gateway.Tokenization.Grammar.{
  left_delimiter, right_delimiter, TokenMatch, find_tokens,
}
use aiprivacy_gateway.Tokenization.Tokenizer.{is_action}
use aiprivacy_gateway.Restoration.{distinct}
use aiprivacy_gateway.Pipeline.Guards.{ChatMessage}

abbrev pub redaction_prefix : Text
redaction_prefix = left_delimiter ∷ codes "SGW:REDACTED:"

pub data ScanVerdict : Type 0 where
  clean blocked : ScanVerdict

pub record OutboundScan : Type 0 where
  pub verdict : ScanVerdict
  pub findings : List Text

abbrev pub is_clean : OutboundScan → Bool
is_clean scan = elim scan.verdict [ clean ↦ true | blocked ↦ false ]

-- The loop of `find` calls as one walk over the text, from offset `pos`: `open` is the place of a
-- prefix whose closing delimiter has not come yet. No prefix holds a closing delimiter, and the
-- search goes on at the delimiter, where no prefix begins.
unfoldable pub redactions : ℕ → Option ℕ → Text → List (ℕ × ℕ)
redactions pos opened [] = []
redactions pos none (c ∷ text) =
    redactions (pos + 1) (if starts_with redaction_prefix (c ∷ text) then some pos else none) text
redactions pos (some start) (c ∷ text) =
    let closed = (start, pos + 1) ∷ redactions (pos + 1) none text in
    let on = redactions (pos + 1) (some start) text in if c == right_delimiter then closed else on

unfoldable pub reserved : Text → List (ℕ × ℕ)
unfolding redactions find_tokens
reserved text =
    map (λ (m : TokenMatch). (m.start, m.end)) (find_tokens text) ++ redactions 0 none text

-- `entity.start < end and start < entity.end`
abbrev pub touches : DetectedEntity → ℕ × ℕ → Bool
touches e r = ltb e.start r.1 && ltb r.0 e.end

unfoldable pub outside_placeholders : Text → List DetectedEntity → List DetectedEntity
unfolding reserved
outside_placeholders text detected = keep (λ e. not (any (touches e) (reserved text))) detected

-- A detection that the policy acts on.
abbrev pub is_actionable : PolicySnapshot → DetectedEntity → Bool
is_actionable policy e =
    leb (min_score_for policy e.entity_type) e.score
    && not (is_action (action_for policy e.entity_type) allow)

abbrev pub verdict_of : List Text → OutboundScan
verdict_of [] = record { verdict = clean; findings = [] }
verdict_of (f ∷ findings) = record { verdict = blocked; findings = f ∷ findings }

module _ (is_blank : Text → Bool) (detect : Text → Result (List DetectedEntity))
    (policy : PolicySnapshot) where
  unfoldable pub findings_in : Text → Result (List Text)
  unfolding outside_placeholders min_score_for action_for
  findings_in text =
      let found =
        (detect text >>= λ detected. ok (
          map (λ (e : DetectedEntity). e.entity_type)
            (keep (is_actionable policy) (outside_placeholders text detected)))) in
      if is_blank text then ok [] else found

  -- The loop over the messages, in their order.
  unfoldable pub all_findings : List ChatMessage → Result (List Text)
  unfolding findings_in
  all_findings [] = ok []
  all_findings (message ∷ messages) = do
    found ← findings_in message.content
    rest ← all_findings messages
    ok (found ++ rest)

  unfoldable pub scan_outbound : List ChatMessage → Result OutboundScan
  unfolding all_findings sorted distinct
  scan_outbound messages = do
    found ← all_findings messages
    ok (verdict_of (sorted compare_text (distinct found)))
