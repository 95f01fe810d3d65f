-- ===== src/Outbound/Gateway/Laws.antt =====
-- What leaves through app/outbound/gateway.py.
use aiprivacy_gateway.Common.{◌≡◌, ◌⊎◌, inl, inr, refl, sym, ap, ◌∙◌, true, Option, All, Bool-cases}
use aiprivacy_gateway.Domain.Errors.{Result, ok, err, Result-cases}
use aiprivacy_gateway.Policy.Snapshot.{PolicySnapshot}
use aiprivacy_gateway.Restoration.{ProviderResponse}
use aiprivacy_gateway.Pipeline.Guards.{ChatMessage}
use aiprivacy_gateway.Outbound.Request.{ProtectedChatRequest}
use aiprivacy_gateway.Outbound.Serialization.{serialize_outbound, outbound_segments}
use aiprivacy_gateway.Outbound.Scan.{OutboundScan, is_clean, scan_outbound}
use aiprivacy_gateway.Outbound.Scan.Laws.{CleanText, scan_outbound-clean, scan_outbound-is_clean}
use aiprivacy_gateway.Outbound.Registry.{LlmProvider, get}
use aiprivacy_gateway.Outbound.Gateway.{
  GatewayParts, Attestation, Transmission, transmitted, Invoker, invoked, received, attest,
  transmit, send,
}

module _ {S : Type 0} (parts : GatewayParts S) (policy : PolicySnapshot) where
  -- Every message of the request is clean for the scan of the gateway.
  abbrev pub IsCleanRequest : ProtectedChatRequest → Type 0
  IsCleanRequest request =
      All (λ (m : ChatMessage). CleanText parts.is_blank parts.detect policy m.content)
        request.messages

  is_clean-scan :
      (request : ProtectedChatRequest) (scan : OutboundScan)
      → scan_outbound parts.is_blank parts.detect policy request.messages ≡ ok scan
      → is_clean scan ≡ true
      → IsCleanRequest request
  unfolding scan_outbound
  is_clean-scan request scan h k =
      (scan_outbound-clean parts.is_blank parts.detect policy request.messages).0 (
        h
        ∙ ap (λ s. ok s)
            (scan_outbound-is_clean parts.is_blank parts.detect policy request.messages scan h k))

  -- An attestation holds the verdict of the scan and the digests of the request.
  attest-scan :
      (request : ProtectedChatRequest) (attestation : Attestation)
      → attest parts request policy ≡ ok attestation
      → (scan_outbound parts.is_blank parts.detect policy request.messages ≡ ok attestation.scan)
        × (attestation.payload_hmac
            ≡ parts.outbound_digest request.tenant_id
                (serialize_outbound parts.utf8 parts.decimal request))
        × (attestation.prompt_hmac
            ≡ parts.prompt_digest request.tenant_id (outbound_segments request))
  unfolding attest
  attest-scan request attestation h =
      elim (Result-cases (scan_outbound parts.is_blank parts.detect policy request.messages)) [
        | inr (_, e) ↦ absurd (let h' = rw e at h in cc)
        | inl (scan, e) ↦
            let h' = rw e at h in
            let same : record {
              payload_hmac =
                  parts.outbound_digest request.tenant_id
                    (serialize_outbound parts.utf8 parts.decimal request);
              prompt_hmac = parts.prompt_digest request.tenant_id (outbound_segments request);
              scan = scan;
            }
                ≡ attestation =
              cc in
            (
              e ∙ ap (λ (a : Attestation). ok a.scan) same,
              ap (λ (a : Attestation). a.payload_hmac) (sym same),
              ap (λ (a : Attestation). a.prompt_hmac) (sym same),
            )
      ]

  -- Either the outside world is as it was, or the request is clean.
  pub send_cases :
      (request : ProtectedChatRequest) (invoke : Option (Invoker S)) (world : S)
      → ((send parts request policy invoke world).0 ≡ world) ⊎ IsCleanRequest request
  unfolding send
  send_cases request invoke world = elim (Result-cases (attest parts request policy)) [
    | inr (_, e) ↦ inl (rw (e, send) refl)
    | inl (attestation, e) ↦ elim (Bool-cases (is_clean attestation.scan)) [
      | inl c ↦ inr (is_clean-scan request attestation.scan (attest-scan request attestation e).0 c)
      | inr c ↦ inl (rw (e, send, c) refl)
    ]
  ]

  -- Unless every message of a request is blank, or without a detection that the policy acts on
  -- outside tokens and redactions, sending it leaves the outside world as it was: no adapter is
  -- called.
  pub send-unclean :
      (request : ProtectedChatRequest) (invoke : Option (Invoker S)) (world : S)
      → (IsCleanRequest request → ⊥)
      → (send parts request policy invoke world).0 ≡ world
  send-unclean request invoke world h = elim (send_cases request invoke world) [
    | inl same ↦ same
    | inr clean_request ↦ absurd (h clean_request)
  ]

  -- The evidence of a transmission: the attestation is of this request and clean, and the answer
  -- came from the adapter that is registered under the request's alias.
  abbrev pub IsEvidence : ProtectedChatRequest → Option (Invoker S) → S → S → Transmission → Type 0
  IsEvidence request invoke world later t =
      (t.attestation.payload_hmac
        ≡ parts.outbound_digest request.tenant_id
            (serialize_outbound parts.utf8 parts.decimal request))
      × (t.attestation.prompt_hmac
          ≡ parts.prompt_digest request.tenant_id (outbound_segments request))
      × (is_clean t.attestation.scan ≡ true)
      × ((adapter : LlmProvider S) × (get parts.normalize parts.providers request.provider_alias
            ≡ ok adapter)
          × (t.provider_alias ≡ adapter.alias)
          × (invoked invoke adapter request world ≡ (later, ok t.response)))

  received-transmitted :
      (adapter : LlmProvider S) (attestation : Attestation) (answer : S × Result ProviderResponse)
      (later : S) (t : Transmission)
      → received adapter attestation answer ≡ (later, transmitted t)
      → (answer ≡ (later, ok t.response))
        × (t.attestation ≡ attestation)
        × (t.provider_alias ≡ adapter.alias)
  received-transmitted adapter attestation (world, err e) later t h = absurd (cc)
  received-transmitted adapter attestation (world, ok response) later t h =
      let same : record {
        response = response;
        attestation = attestation;
        provider_alias = adapter.alias;
      }
          ≡ t =
        cc in
      let worlds : world ≡ later = cc in
      (
        rw (worlds, sym same) refl,
        ap (λ (s : Transmission). s.attestation) (sym same),
        ap (λ (s : Transmission). s.provider_alias) (sym same),
      )

  transmit-transmitted :
      (request : ProtectedChatRequest) (invoke : Option (Invoker S)) (attestation : Attestation)
      (world later : S) (t : Transmission)
      → transmit parts request invoke attestation world ≡ (later, transmitted t)
      → (t.attestation ≡ attestation)
        × ((adapter : LlmProvider S) × (get parts.normalize parts.providers request.provider_alias
              ≡ ok adapter)
            × (t.provider_alias ≡ adapter.alias)
            × (invoked invoke adapter request world ≡ (later, ok t.response)))
  unfolding transmit
  transmit-transmitted request invoke attestation world later t h =
      elim (Result-cases (get parts.normalize parts.providers request.provider_alias)) [
        | inr (_, f) ↦ absurd (let h' = rw (f, transmit) at h in cc)
        | inl (adapter, f) ↦
            let h' = rw (f, transmit) at h in
            let (answer, kept, alias) =
              received-transmitted adapter attestation (invoked invoke adapter request world) later
                t h' in
            (kept, (adapter, f, alias, answer))
      ]

  -- If a request is transmitted, all its messages are clean for the scan, the attestation is
  -- clean and holds the digests of its serialization and of its segments, and the response is
  -- that of the adapter registered under its alias.
  pub send-transmitted :
      (request : ProtectedChatRequest) (invoke : Option (Invoker S)) (world later : S)
      (t : Transmission)
      → send parts request policy invoke world ≡ (later, transmitted t)
      → IsCleanRequest request × IsEvidence request invoke world later t
  unfolding send
  send-transmitted request invoke world later t h =
      elim (Result-cases (attest parts request policy)) [
        | inr (_, e) ↦ absurd (let h' = rw (e, send) at h in cc)
        | inl (attestation, e) ↦ elim (Bool-cases (is_clean attestation.scan)) [
          | inr c ↦ absurd (let h' = rw (e, send, c) at h in cc)
          | inl c ↦
              let h' = rw (e, send, c) at h in
              let (scanned, payload, prompt) = attest-scan request attestation e in
              let (kept, call) = transmit-transmitted request invoke attestation world later t h' in
              (
                is_clean-scan request attestation.scan scanned c,
                (rw kept payload, rw kept prompt, rw kept c, call),
              )
        ]
      ]
