-- ===== src/Pipeline/Service/Ordering.antt =====
-- The order of the steps of `SecurePipeline.invoke` (app/pipeline/service.py).
use aiprivacy_gateway.Common.{ℕ, ◌≡◌, refl, ◌∙◌, ◌⊎◌, inl, inr, List, some}
use aiprivacy_gateway.Domain.Errors.{Result, ok, err, Result-cases}
use aiprivacy_gateway.Domain.Entity.{DetectedEntity}
use aiprivacy_gateway.Domain.Summary.{PrivacySummary}
use aiprivacy_gateway.Policy.Snapshot.{PolicySnapshot}
use aiprivacy_gateway.Outbound.Request.{ProtectedChatRequest}
use aiprivacy_gateway.Outbound.Gateway.{Sent, transmitted, outbound_blocked, raised, send}
use aiprivacy_gateway.Outbound.Gateway.Laws.{IsCleanRequest, send_cases}
use aiprivacy_gateway.Pipeline.Service.{
  ChatRequest, PipelineParts, complete, finish_sent, send_protected, prepare, tokenize_request, run,
  admit, invoke,
}
use aiprivacy_gateway.Pipeline.Service.Stages.{
  IsAdmitted, admit-IsAdmitted, IsPrepared, prepare-IsPrepared, IsProtected,
  tokenize_request-IsProtected,
}

module _ {V W : Type 0} (parts : PipelineParts V W) where
  module _ (tenant_id session_id : ℕ) (snapshot : PolicySnapshot) where
    finish_sent-world :
        (summary : PrivacySummary) (sent : W × Sent) (s : V)
        → (finish_sent parts tenant_id session_id snapshot summary sent s).1.1 ≡ sent.0
    unfolding finish_sent
    finish_sent-world summary (world, raised e) s = refl
    finish_sent-world summary (world, outbound_blocked attestation) s = refl
    finish_sent-world summary (world, transmitted transmission) s = refl

    -- The providers are as they were, or the request was protected and is clean.
    send_protected_cases :
        (answer : Result (ProtectedChatRequest × PrivacySummary)) (s : V) (world : W)
        → ((send_protected parts tenant_id session_id snapshot answer s world).1.1 ≡ world)
          ⊎ ((protected : ProtectedChatRequest) × (summary : PrivacySummary) × (answer
                ≡ ok (protected, summary))
              × IsCleanRequest parts.gateway snapshot protected)
    unfolding send_protected
    send_protected_cases (err e) s world = inl refl
    send_protected_cases (ok (protected, summary)) s world =
        elim (send_cases parts.gateway snapshot protected (some complete) world) [
          | inl same ↦ inl (
              finish_sent-world summary
                (send parts.gateway protected snapshot (some complete) world) s
              ∙ same)
          | inr clean_request ↦ inr (protected, summary, refl, clean_request)
        ]

    -- What a run that reached the vault has behind it.
    abbrev pub Prepared : ChatRequest → V → W → W → Type 0
    Prepared request s world world' =
        (detections : List (List DetectedEntity)) × IsPrepared parts snapshot request detections
        × ((world' ≡ world)
            ⊎ ((protected : ProtectedChatRequest) × IsProtected parts tenant_id session_id snapshot
                  request detections s protected
                × IsCleanRequest parts.gateway snapshot protected))

    -- What `send_protected` did with a tokenized request.
    sent-Prepared :
        (request_id : ℕ) (request : ChatRequest) (detections : List (List DetectedEntity)) (s : V)
        (world : W)
        → IsPrepared parts snapshot request detections
        → Prepared request s world
            (send_protected parts tenant_id session_id snapshot
              (tokenize_request parts tenant_id session_id snapshot request_id request detections
                s).0
              (tokenize_request parts tenant_id session_id snapshot request_id request detections
                s).1
              world).1.1
    sent-Prepared request_id request detections s world prepared =
        let tokenized =
          tokenize_request parts tenant_id session_id snapshot request_id request detections s in
        elim (send_protected_cases tokenized.0 tokenized.1 world) [
          | inl same ↦ (detections, prepared, inl same)
          | inr (protected, summary, made, clean_request) ↦ (
            detections,
            prepared,
            inr (
              protected,
              tokenize_request-IsProtected parts tenant_id session_id snapshot request_id request
                  detections s protected summary made,
              clean_request,
            ),
          )
        ]

    run_cases :
        (request_id : ℕ) (request : ChatRequest) (s : V) (world : W)
        → ((run parts tenant_id session_id snapshot request_id request s world).1 ≡ (s, world))
          ⊎ Prepared request s world
              (run parts tenant_id session_id snapshot request_id request s world).1.1
    unfolding run
    run_cases request_id request s world =
        elim (Result-cases (prepare parts tenant_id session_id snapshot request)) [
          | inr (_, e) ↦ inl (rw (e, run) refl)
          | inl (detections, e) ↦
              let prepared =
                prepare-IsPrepared parts tenant_id session_id snapshot request detections e in
              inr (rw (e, run) (sent-Prepared request_id request detections s world prepared))
        ]

  -- Invoking the pipeline leaves the vault and the providers as they were; or: each message was
  -- within the size limit, the session is fresh or is the one asked for and not nil, the policy
  -- was resolved, the provider is registered, the detector read each message, selection left no
  -- span of a blocked type and no more spans over all messages than both budgets; and then
  -- either the providers are as they were, or a request was built under the aliases, the tenant
  -- and the session of the given one, whose messages have the roles of the given ones and the
  -- texts that the tokenizer made of them and their detections, one by one over the store that
  -- the one before left, and are all clean for the scan.
  pub invoke-ordered :
      (tenant_id request_id fresh : ℕ) (request : ChatRequest) (s : V) (world : W)
      → ((invoke parts tenant_id request_id fresh request s world).1 ≡ (s, world))
        ⊎ ((session_id : ℕ) × (snapshot : PolicySnapshot) × IsAdmitted parts tenant_id fresh request
              session_id snapshot
            × Prepared tenant_id session_id snapshot request s world
                (invoke parts tenant_id request_id fresh request s world).1.1)
  unfolding invoke
  invoke-ordered tenant_id request_id fresh request s world =
      elim (Result-cases (admit parts tenant_id fresh request)) [
        | inr (_, e) ↦ inl (rw (e, invoke) refl)
        | inl ((session_id, snapshot), e) ↦
            elim (run_cases tenant_id session_id snapshot request_id request s world) [
              | inl same ↦ inl (rw (e, invoke) same)
              | inr prepared ↦ inr (
                session_id,
                snapshot,
                admit-IsAdmitted parts tenant_id fresh request session_id snapshot e,
                rw (e, invoke) prepared,
              )
            ]
      ]
