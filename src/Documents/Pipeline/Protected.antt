-- ===== src/Documents/Pipeline/Protected.antt =====
-- What a run of the document pipeline (app/documents/pipeline.py) sends to a provider.
use aiprivacy_gateway.Common.{◌≤◌, ◌≡◌, refl, ap, ◌∙◌, ◌⊎◌, inl, inr, [], ◌∷◌, length, none, arith}
use aiprivacy_gateway.Domain.Errors.{Result, ok, err, >>=-ok, Result-cases}
use aiprivacy_gateway.Policy.Snapshot.{PolicySnapshot}
use aiprivacy_gateway.Pipeline.Guards.{MessageRole}
use aiprivacy_gateway.Outbound.Request.{ProtectedChatRequest, protected_chat_request}
use aiprivacy_gateway.Outbound.Gateway.{
  Sent, transmitted, outbound_blocked, raised, send, authorize,
}
use aiprivacy_gateway.Outbound.Gateway.Laws.{IsCleanRequest, send_cases}
use aiprivacy_gateway.Documents.Protection.{ProtectedDocument, protect}
use aiprivacy_gateway.Documents.Protection.Outcome.{IsProtected, protect-IsProtected}
use aiprivacy_gateway.Audit.Service.{AuditService}
use aiprivacy_gateway.Documents.Pipeline.{
  DocumentPipeline, DocumentCall, enforce_instruction_size, protected_request, finish_sent,
  send_request, send_protected, admit, run,
}

-- A request that carries the protected instruction and the protected text, under the aliases, the
-- tenant and the session of the call.
abbrev pub IsCarried : DocumentCall → ProtectedDocument → ProtectedChatRequest → Type 0
IsCarried call document request =
    (request.messages
      ≡ record { role = MessageRole.system; content = document.instruction }
        ∷ (record { role = MessageRole.user; content = document.text } ∷ []))
    × (request.provider_alias ≡ call.provider)
    × (request.model_alias ≡ call.model)
    × (request.tenant_id ≡ call.principal.tenant_id)
    × (request.session_id ≡ call.session_id)
    × (request.policy_version ≡ document.policy_version)

protected_request-IsCarried :
    (call : DocumentCall) (document : ProtectedDocument) (request : ProtectedChatRequest)
    → protected_request call document ≡ ok request
    → IsCarried call document request
unfolding protected_request protected_chat_request
protected_request-IsCarried call document request h = (cc, cc, cc, cc, cc, cc)

module _ {V W : Type 0} (parts : DocumentPipeline V W) (call : DocumentCall) where
  module _ (policy : PolicySnapshot) where
    -- Either the providers are as they were, or the request is clean.
    finish_sent-world :
        (protected : ProtectedDocument) (x : W × Sent) (s : V) (audit : AuditService)
        → (finish_sent parts call policy protected x s audit).1.1 ≡ x.0
    unfolding finish_sent
    finish_sent-world protected (world, raised e) s audit = refl
    finish_sent-world protected (world, outbound_blocked attestation) s audit = refl
    finish_sent-world protected (world, transmitted t) s audit = refl

    send_protected_cases :
        (protected : Result ProtectedDocument) (s : V) (world : W) (audit : AuditService)
        → ((send_protected parts call policy protected s world audit).1.1 ≡ world)
          ⊎ ((document : ProtectedDocument) × (request : ProtectedChatRequest) × (protected
                ≡ ok document)
              × (protected_request call document ≡ ok request)
              × IsCleanRequest parts.outbound policy request)
    unfolding send_protected send_request
    send_protected_cases (err e) s world audit = inl refl
    send_protected_cases (ok document) s world audit =
        elim (Result-cases (protected_request call document)) [
          | inr (e, f) ↦ inl (
              ap
                (λ (r : Result ProtectedChatRequest).
                  (send_request parts call policy document r s world audit).1.1)
                f)
          | inl (request, f) ↦ elim (send_cases parts.outbound policy request none world) [
            | inl same ↦ inl (
                ap
                  (λ (r : Result ProtectedChatRequest).
                    (send_request parts call policy document r s world audit).1.1)
                  f
                ∙ finish_sent-world document (send parts.outbound request policy none world) s audit
                ∙ same)
            | inr clean_request ↦ inr (document, request, refl, f, clean_request)
          ]
        ]

  -- The checks before the document is opened.
  abbrev pub IsAdmitted : PolicySnapshot → Type 0
  IsAdmitted policy =
      (length call.instruction ≤ parts.instruction_max_chars)
      × (parts.resolve_policy call.principal.tenant_id call.provider call.model ≡ ok policy)
      × (authorize parts.outbound call.provider ≡ ok tt)

  enforce_instruction_size-bound :
      enforce_instruction_size call.instruction parts.instruction_max_chars ≡ ok tt
      → length call.instruction ≤ parts.instruction_max_chars
  unfolding enforce_instruction_size
  enforce_instruction_size-bound h = ground (arith, h)

  admit-IsAdmitted : (policy : PolicySnapshot) → admit parts call ≡ ok policy → IsAdmitted policy
  unfolding admit
  admit-IsAdmitted policy h =
      let (_, size, checks) =
        >>=-ok (enforce_instruction_size call.instruction parts.instruction_max_chars) _ policy h in
      let (found, resolved, checked) =
        >>=-ok (parts.resolve_policy call.principal.tenant_id call.provider call.model) _ policy
          checks in
      let (_, registered, last) =
        >>=-ok (authorize parts.outbound call.provider) (λ _. ok found) policy checked in
      (enforce_instruction_size-bound size, resolved ∙ last, registered)

  -- A run of the document pipeline leaves the providers as they were; or: the instruction is
  -- within its size limit, the policy was resolved and the provider is registered; protection
  -- made a document of the analysed one, whose text the tokenizer made of all its spans, and
  -- whose instruction is the given one where nothing was detected in it and else what the
  -- tokenizer made of it, with no blocked type; and a request was built under the aliases, the
  -- tenant and the session of the call, whose two messages are this instruction and this text,
  -- and both are clean for the scan.
  pub run-IsProtected :
      (s : V) (world : W) (audit : AuditService)
      → ((run parts call s world audit).1.1 ≡ world)
        ⊎ ((policy : PolicySnapshot) × (document : ProtectedDocument)
            × (request : ProtectedChatRequest) × IsAdmitted policy
            × IsProtected parts.protection call.principal.tenant_id call.session_id call.document_id
                call.instruction call.user_id s document
            × IsCarried call document request
            × IsCleanRequest parts.outbound policy request)
  unfolding run
  run-IsProtected s world audit = elim (Result-cases (admit parts call)) [
    | inr (_, e) ↦ inl (rw (e, run) refl)
    | inl (policy, e) ↦
        let opened =
          protect parts.protection call.principal.tenant_id call.session_id call.document_id
            call.instruction call.user_id s in
        elim (send_protected_cases policy opened.0 opened.1 world audit) [
          | inl same ↦ inl (rw (e, run) same)
          | inr (document, request, found, built, clean_request) ↦ inr (
            policy,
            document,
            request,
            admit-IsAdmitted policy e,
            protect-IsProtected parts.protection call.principal.tenant_id call.session_id
                call.document_id call.instruction call.user_id s document found,
            protected_request-IsCarried call document request built,
            clean_request,
          )
        ]
  ]
