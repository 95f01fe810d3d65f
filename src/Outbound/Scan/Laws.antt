-- ===== src/Outbound/Scan/Laws.antt =====
-- What a clean verdict of app/outbound/scan.py means.
use aiprivacy_gateway.Common.{
  ◌≡◌, ◌↔◌, ◌⊎◌, inl, inr, refl, ap, sym, ◌∙◌, Bool, true, false, ◌&&◌, not, List, [], ◌∷◌, map,
  Text, keep, any, any-append, any-map, sorted, compare_text, All, All-of_sorted, arith, Bool-cases,
}
use aiprivacy_gateway.Domain.Errors.{Result, ok, Result-cases}
use aiprivacy_gateway.Domain.Entity.{DetectedEntity}
use aiprivacy_gateway.Policy.Snapshot.{PolicySnapshot}
use aiprivacy_gateway.Tokenization.Grammar.{TokenMatch}
use aiprivacy_gateway.Tokenization.Grammar.Scan.{
  Layout, IsClear, is_plain, render_layout, matches_of, find_tokens-render_layout,
}
use aiprivacy_gateway.Restoration.{distinct}
use aiprivacy_gateway.Pipeline.Guards.{ChatMessage}
use aiprivacy_gateway.Outbound.Scan.{
  clean, OutboundScan, is_clean, reserved, touches, outside_placeholders, is_actionable,
  findings_in, all_findings, verdict_of, scan_outbound,
}

-- A detection in a text that the policy acts on, and that touches no token and no redaction.
abbrev pub is_leak : PolicySnapshot → Text → DetectedEntity → Bool
is_leak policy text e = not (any (touches e) (reserved text)) && is_actionable policy e

-- A text that is blank, or where the detector finds nothing that leaks.
abbrev pub CleanText :
    (Text → Bool) → (Text → Result (List DetectedEntity)) → PolicySnapshot → Text → Type 0
CleanText is_blank detect policy text =
    (is_blank text ≡ true)
    ⊎ ((es : List DetectedEntity) × (detect text ≡ ok es) × (any (is_leak policy text) es ≡ false))

module _ {A B : Type 0} (f : A → B) (out act : A → Bool) where
  keep_twice-none :
      (xs : List A) → any (λ x. out x && act x) xs ≡ false → map f (keep act (keep out xs)) ≡ []
  keep_twice-none [] h = refl
  keep_twice-none (x ∷ xs) h = ground (arith, keep_twice-none xs)

  none-keep_twice :
      (xs : List A) → map f (keep act (keep out xs)) ≡ [] → any (λ x. out x && act x) xs ≡ false
  none-keep_twice [] h = refl
  none-keep_twice (x ∷ xs) h = ground (arith, none-keep_twice xs)

-- An empty set of names is sorted to no names, and from no other set.
sorted-distinct-none : (xs : List Text) → sorted compare_text (distinct xs) ≡ [] → xs ≡ []
unfolding distinct
sorted-distinct-none [] h = refl
sorted-distinct-none (x ∷ xs) h =
    let gone = All-of_sorted compare_text (λ _. ⊥) (distinct (x ∷ xs)) (rw h tt) in absurd gone.0

verdict_clean :
    (names : List Text)
    → ok (verdict_of names) ≡ ok (record { verdict = clean; findings = [] })
    → names ≡ []
verdict_clean [] h = refl
verdict_clean (n ∷ names) h = let h' : n ∷ names ≡ [] = cc in h'

module _ (is_blank : Text → Bool) (detect : Text → Result (List DetectedEntity))
    (policy : PolicySnapshot) where
  findings_in-clean :
      (text : Text)
      → CleanText is_blank detect policy text
      → findings_in is_blank detect policy text ≡ ok []
  unfolding findings_in outside_placeholders
  findings_in-clean text (inl e) = rw e
  findings_in-clean text (inr (es, found, none_leaks)) = rw found (
      ground (
        arith,
        keep_twice-none (λ (e : DetectedEntity). e.entity_type)
            (λ e. not (any (touches e) (reserved text))) (is_actionable policy) es none_leaks,
      ))

  clean-findings_in :
      (text : Text)
      → findings_in is_blank detect policy text ≡ ok []
      → CleanText is_blank detect policy text
  unfolding findings_in outside_placeholders
  clean-findings_in text h = elim (Bool-cases (is_blank text)) [
    | inl e ↦ inl e
    | inr e ↦ elim (Result-cases (detect text)) [
      | inl (es, found) ↦
          let h' = rw (e, found) at h in
          inr (
            es,
            found,
            none-keep_twice (λ (e : DetectedEntity). e.entity_type)
                (λ e. not (any (touches e) (reserved text))) (is_actionable policy) es (cc),
          )
      | inr (_, failed) ↦ let h' = rw (e, failed) at h in absurd (cc)
    ]
  ]

  all_findings-clean :
      (messages : List ChatMessage)
      → All (λ (m : ChatMessage). CleanText is_blank detect policy m.content) messages
      → all_findings is_blank detect policy messages ≡ ok []
  unfolding all_findings
  all_findings-clean [] h = refl
  all_findings-clean (m ∷ messages) h =
      rw (findings_in-clean m.content h.0, all_findings-clean messages h.1)

  clean-all_findings :
      (messages : List ChatMessage)
      → all_findings is_blank detect policy messages ≡ ok []
      → All (λ (m : ChatMessage). CleanText is_blank detect policy m.content) messages
  unfolding all_findings
  clean-all_findings [] h = tt
  clean-all_findings (m ∷ messages) h =
      elim (Result-cases (findings_in is_blank detect policy m.content)) [
        | inr (_, e) ↦ absurd (let h' = rw e at h in cc)
        | inl ([], e) ↦ elim (Result-cases (all_findings is_blank detect policy messages)) [
          | inr (_, k) ↦ absurd (let h' = rw (e, k) at h in cc)
          | inl (rest, k) ↦
              let h' = rw (e, k) at h in
              (clean-findings_in m.content e, clean-all_findings messages (k ∙ h'))
        ]
        | inl (f ∷ found, e) ↦ elim (Result-cases (all_findings is_blank detect policy messages)) [
          | inr (_, k) ↦ absurd (let h' = rw (e, k) at h in cc)
          | inl (rest, k) ↦ absurd (let h' = rw (e, k) at h in cc)
        ]
      ]

  -- The scan of messages returns a clean verdict without findings exactly when each of them is
  -- blank, or the detector finds nothing in it that the policy acts on and that touches no
  -- token and no redaction.
  pub scan_outbound-clean :
      (messages : List ChatMessage)
      → (scan_outbound is_blank detect policy messages
          ≡ ok (record { verdict = clean; findings = [] }))
        ↔ All (λ (m : ChatMessage). CleanText is_blank detect policy m.content) messages
  unfolding scan_outbound
  scan_outbound-clean messages = (
    λ h. elim (Result-cases (all_findings is_blank detect policy messages)) [
      | inr (_, k) ↦ absurd (let h' = rw k at h in cc)
      | inl (found, k) ↦
          let h' = rw k at h in
          clean-all_findings messages (rw (k, sorted-distinct-none found (verdict_clean _ h')) refl)
    ],
    λ h. rw (all_findings-clean messages h) (refl),
  )

is_clean-verdict_of :
    (names : List Text)
    → is_clean (verdict_of names) ≡ true
    → verdict_of names ≡ record { verdict = clean; findings = [] }
is_clean-verdict_of [] h = refl
is_clean-verdict_of (n ∷ names) h = absurd (cc)

-- A scan with a clean verdict has no findings.
pub scan_outbound-is_clean :
    (is_blank : Text → Bool) (detect : Text → Result (List DetectedEntity))
    (policy : PolicySnapshot) (messages : List ChatMessage) (scan : OutboundScan)
    → scan_outbound is_blank detect policy messages ≡ ok scan
    → is_clean scan ≡ true
    → scan ≡ record { verdict = clean; findings = [] }
unfolding scan_outbound
scan_outbound-is_clean is_blank detect policy messages scan h k =
    elim (Result-cases (all_findings is_blank detect policy messages)) [
      | inr (_, e) ↦ absurd (let h' = rw e at h in cc)
      | inl (found, e) ↦
          let h' = rw e at h in
          let same : verdict_of (sorted compare_text (distinct found)) ≡ scan = cc in
          sym same
          ∙ is_clean-verdict_of (sorted compare_text (distinct found)) (ap is_clean same ∙ k)
    ]

any-false : {A : Type 0} (p : A → Bool) (xs : List A) → any p xs ≡ false → All (λ x. p x ≡ false) xs
any-false p [] h = tt
any-false p (x ∷ xs) h = (ground arith, any-false p xs (ground arith))

-- In a text made of valid tokens and of parts without left delimiter, a detection that the scan
-- counts touches none of the tokens.
pub is_leak-outside_tokens :
    (policy : PolicySnapshot) (layout : Layout) (end : Text) (e : DetectedEntity)
    → All IsClear layout
    → is_plain end ≡ true
    → is_leak policy (render_layout layout end) e ≡ true
    → All (λ (m : TokenMatch). touches e (m.start, m.end) ≡ false) (matches_of 0 layout)
unfolding reserved
is_leak-outside_tokens policy layout end e clear plain h =
    let found = find_tokens-render_layout layout end clear plain in
    let h' = rw (found, any-append, any-map) at h in
    any-false (λ (m : TokenMatch). touches e (m.start, m.end)) (matches_of 0 layout) (ground arith)
