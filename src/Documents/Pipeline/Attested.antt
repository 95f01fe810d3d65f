-- ===== src/Documents/Pipeline/Attested.antt =====
-- What a run of the document pipeline (app/documents/pipeline.py) leaves in the audit queue and with
-- the providers.
use aiprivacy_gateway.Common.{
  ◌≡◌, refl, sym, ap, ◌∙◌, subst, ◌⊎◌, inl, inr, true, false, [], ◌∷◌, ◌++◌, length, none, some,
}
use aiprivacy_gateway.Domain.Errors.{Result, ok, err, Result-cases}
use aiprivacy_gateway.Domain.Summary.{merged_with}
use aiprivacy_gateway.Policy.Snapshot.{PolicySnapshot}
use aiprivacy_gateway.Restoration.{RestoredOutput, restore}
use aiprivacy_gateway.Outbound.Request.{ProtectedChatRequest}
use aiprivacy_gateway.Outbound.Gateway.{
  Transmission, Sent, transmitted, outbound_blocked, raised, send,
}
use aiprivacy_gateway.Outbound.Gateway.Laws.{IsCleanRequest, IsEvidence, send-transmitted}
use aiprivacy_gateway.Documents.Protection.{ProtectedDocument, protect}
use aiprivacy_gateway.Audit.Records.{AuditRecord, audit_record, counts_from_summary}
use aiprivacy_gateway.Audit.Records.Laws.{IsNarrowRecord, audit_record-IsNarrow}
use aiprivacy_gateway.Audit.Service.{AuditService}
use aiprivacy_gateway.Audit.Service.Runs.{submit_cases}
use aiprivacy_gateway.Documents.Pipeline.{
  DocumentPipeline, DocumentCall, DocumentAnswer, protected_request, attested, attest,
  answer_restored, finish_sent, send_request, send_protected, admit, run,
}

module _ {V W : Type 0} (parts : DocumentPipeline V W) (call : DocumentCall) where
  module _ (policy : PolicySnapshot) where
    -- A record that was written: it is narrow, and the last of the queue.
    attest-ok :
        (item : AuditRecord) (audit : AuditService)
        → parts.audit.fail_closed ≡ true
        → (attest parts call policy item audit).0 ≡ ok tt
        → ((attest parts call policy item audit).1.queue ≡ audit.queue ++ item ∷ [])
          × IsNarrowRecord item
    unfolding attest
    attest-ok item audit closed h = elim (Result-cases (audit_record item)) [
      | inr (_, e) ↦ absurd (let h' = rw (e, attest) at h in cc)
      | inl (admitted, e) ↦
          let (same, narrow) = audit_record-IsNarrow item e in
          let h' = rw (e, attest) at h in
          elim (submit_cases parts.audit admitted audit closed) [
            | inr (refused, _) ↦ absurd (cc)
            | inl (done, _, _, _) ↦ (
              rw (e, attest)
                  (ap (λ (r : Result (Unit {0}) × AuditService). r.1.queue) done
                    ∙ ap (λ (x : AuditRecord). audit.queue ++ x ∷ []) same),
              narrow,
            )
          ]
    ]

    -- The one record that an answered call leaves, and what it says of the answer.
    abbrev pub IsAttested : AuditService → AuditService → DocumentAnswer → Type 0
    IsAttested audit audit' answer =
        (item : AuditRecord) × (audit'.queue ≡ audit.queue ++ item ∷ [])
        × (item.status_code ≡ 200)
        × (item.blocked ≡ false)
        × (item.outbound_hmac ≡ some answer.outbound_hmac)
        × (item.response_hmac ≡ some (parts.response_digest call.principal.tenant_id answer.text))
        × (item.entity_counts ≡ answer.privacy.entity_types)
        × IsNarrowRecord item

    answer_restored-ok :
        (protected : ProtectedDocument) (t : Transmission) (restored : Result RestoredOutput)
        (audit : AuditService) (answer : DocumentAnswer)
        → parts.audit.fail_closed ≡ true
        → (answer_restored parts call policy protected t restored audit).0 ≡ ok answer
        → IsAttested audit (answer_restored parts call policy protected t restored audit).1 answer
          × (answer.outbound_hmac ≡ t.attestation.payload_hmac)
    unfolding answer_restored counts_from_summary
    answer_restored-ok protected t (err e) audit answer closed h = absurd (cc)
    answer_restored-ok protected t (ok restored) audit answer closed h =
        let item : AuditRecord =
          attested parts call policy (merged_with protected.summary restored.summary) t.attestation
            false (length protected.text) (some restored.text) in
        let made : DocumentAnswer = record {
          request_id = call.request_id;
          session_id = call.session_id;
          document_id = call.document_id;
          provider = call.provider;
          model = restored.model;
          text = restored.text;
          privacy = merged_with protected.summary restored.summary;
          outbound_hmac = t.attestation.payload_hmac;
        } in
        elim (Result-cases (attest parts call policy item audit).0) [
          | inr (_, e) ↦ absurd (let h' = rw e at h in cc)
          | inl (done, e) ↦
              let h' = rw e at h in
              let same : made ≡ answer = cc in
              let (last, narrow) = attest-ok item audit closed (e ∙ refl) in
              (
                (
                  item,
                  last,
                  refl,
                  refl,
                  ap (λ (a : DocumentAnswer). some a.outbound_hmac) same,
                  ap
                      (λ (a : DocumentAnswer).
                        some (parts.response_digest call.principal.tenant_id a.text))
                      same,
                  ap (λ (a : DocumentAnswer). a.privacy.entity_types) same,
                  narrow,
                ),
                ap (λ (a : DocumentAnswer). a.outbound_hmac) (sym same),
              )
        ]

    -- The evidence of what was sent: a clean request, whose digest is that of the answer.
    abbrev pub IsSent : W → W → DocumentAnswer → Type 0
    IsSent world world' answer =
        (request : ProtectedChatRequest) × (t : Transmission) × IsCleanRequest parts.outbound policy
          request
        × IsEvidence parts.outbound policy request none world world' t
        × (answer.outbound_hmac ≡ t.attestation.payload_hmac)

    Sent-cases :
        (x : W × Sent)
        → ((world : W) × (t : Transmission) × (x ≡ (world, transmitted t)))
          ⊎ ((protected : ProtectedDocument) (s : V) (audit : AuditService)
                (answer : DocumentAnswer)
              → (finish_sent parts call policy protected x s audit).0 ≡ ok answer
              → ⊥)
    unfolding finish_sent
    Sent-cases (world, transmitted t) = inl (world, t, refl)
    Sent-cases (world, raised e) = inr (λ protected s audit answer h. cc)
    Sent-cases (world, outbound_blocked attestation) = inr (λ protected s audit answer h.
        elim (Result-cases
          (attest parts call policy
            (attested parts call policy protected.summary attestation true (length protected.text)
              none)
            audit).0) [
              | inl (_, e) ↦ let h' = rw e at h in cc
              | inr (_, e) ↦ let h' = rw e at h in cc
            ])

    abbrev LeavesAnswer :
        ProtectedDocument → V → W → AuditService → DocumentAnswer → W × Sent → Type 0
    LeavesAnswer protected s world audit answer x =
        IsAttested audit (finish_sent parts call policy protected x s audit).1.2 answer
        × IsSent world (finish_sent parts call policy protected x s audit).1.1 answer

    send_request-ok :
        (protected : ProtectedDocument) (request : Result ProtectedChatRequest) (s : V) (world : W)
        (audit : AuditService) (answer : DocumentAnswer)
        → parts.audit.fail_closed ≡ true
        → (send_request parts call policy protected request s world audit).0 ≡ ok answer
        → IsAttested audit
            (send_request parts call policy protected request s world audit).1.2
            answer
          × IsSent world (send_request parts call policy protected request s world audit).1.1 answer
    unfolding send_request finish_sent
    send_request-ok protected (err e) s world audit answer closed h = absurd (cc)
    send_request-ok protected (ok request) s world audit answer closed h =
        elim (Sent-cases (send parts.outbound request policy none world)) [
          | inr refused ↦ absurd (refused protected s audit answer h)
          | inl (world', t, sent) ↦
              let h' =
                subst
                  (λ (x : W × Sent).
                    (finish_sent parts call policy protected x s audit).0 ≡ ok answer)
                  sent h in
              let (record_left, hmac) =
                answer_restored-ok protected t
                  (restore parts.protection.is_blank parts.max_response_chars
                    call.principal.tenant_id call.session_id parts.protection.vault
                    policy.unknown_output_token_action t.response s).0
                  audit answer closed h' in
              let (clean_request, evidence) =
                send-transmitted parts.outbound policy request none world world' t sent in
              subst (LeavesAnswer protected s world audit answer) (sym sent)
                (record_left, (request, t, clean_request, evidence, hmac))
        ]

    send_protected-ok :
        (protected : Result ProtectedDocument) (s : V) (world : W) (audit : AuditService)
        (answer : DocumentAnswer)
        → parts.audit.fail_closed ≡ true
        → (send_protected parts call policy protected s world audit).0 ≡ ok answer
        → IsAttested audit (send_protected parts call policy protected s world audit).1.2 answer
          × IsSent world (send_protected parts call policy protected s world audit).1.1 answer
    unfolding send_protected
    send_protected-ok (err e) s world audit answer closed h = absurd (cc)
    send_protected-ok (ok document) s world audit answer closed h =
        send_request-ok document (protected_request call document) s world audit answer closed h

  -- If the audit service fails closed and a run of the document pipeline returns an answer,
  -- then the call was admitted under a policy; the run has put exactly one record at the end of
  -- the audit queue, with status 200, not blocked, with the digest of the payload and of the
  -- text of the answer and its counts by type, and with short identifier-shaped texts only; and
  -- a clean request was transmitted to a registered adapter, with the payload digest that the
  -- answer carries.
  pub run-IsAttested :
      (s : V) (world : W) (audit : AuditService) (answer : DocumentAnswer)
      → parts.audit.fail_closed ≡ true
      → (run parts call s world audit).0 ≡ ok answer
      → (policy : PolicySnapshot) × (admit parts call ≡ ok policy)
        × (IsAttested policy audit (run parts call s world audit).1.2 answer
            × IsSent policy world (run parts call s world audit).1.1 answer)
  unfolding run
  run-IsAttested s world audit answer closed h = elim (Result-cases (admit parts call)) [
    | inr (_, e) ↦ absurd (let h' = rw (e, run) at h in cc)
    | inl (policy, e) ↦
        let h' = rw (e, run) at h in
        let opened =
          protect parts.protection call.principal.tenant_id call.session_id call.document_id
            call.instruction call.user_id s in
        (
          policy,
          e,
          rw (e, run) (send_protected-ok policy opened.0 opened.1 world audit answer closed h'),
        )
  ]
