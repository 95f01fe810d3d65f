-- ===== src/Outbound/Gateway.antt =====
-- The one door to a provider (app/outbound/gateway.py). The keyed digests of
-- app/audit/correlation.py are parameters. The clock is not modelled: a transmission has no latency
-- here.
pub mod Laws
use aiprivacy_gateway.Common.{ℕ, Bool, true, false, List, Text, Option, none, some, if◌then◌else◌}
use aiprivacy_gateway.Domain.Errors.{GatewayError, Result, ok, err, ◌>>=◌}
use aiprivacy_gateway.Domain.Entity.{DetectedEntity}
use aiprivacy_gateway.Policy.Snapshot.{PolicySnapshot}
use aiprivacy_gateway.Tokenization.Platform.{Bytes}
use aiprivacy_gateway.Restoration.{ProviderResponse}
use aiprivacy_gateway.Outbound.Request.{ProtectedChatRequest}
use aiprivacy_gateway.Outbound.Serialization.{serialize_outbound, outbound_segments}
use aiprivacy_gateway.Outbound.Scan.{OutboundScan, is_clean, scan_outbound}
use aiprivacy_gateway.Outbound.Registry.{LlmProvider, ProviderRegistry, get}

pub record Attestation : Type 0 where
  pub payload_hmac : Text
  pub prompt_hmac : Text
  pub scan : OutboundScan

pub record Transmission : Type 0 where
  pub response : ProviderResponse
  pub attestation : Attestation
  pub provider_alias : Text

-- What `send` returns, or the exception that ended it; `outbound_blocked` is `OutboundBlockedError`,
-- with the attestation that it carries.
pub data Sent : Type 0 where
  transmitted : Transmission → Sent
  outbound_blocked : Attestation → Sent
  raised : GatewayError → Sent

-- The `Invoker`: how the adapter is awaited.
abbrev pub Invoker : Type 0 → Type 0
Invoker S = LlmProvider S → ProtectedChatRequest → S → S × Result ProviderResponse

-- What the gateway is built from.
pub record GatewayParts (S : Type 0) : Type 0 where
  pub is_blank : Text → Bool
  pub detect : Text → Result (List DetectedEntity)
  pub utf8 : Text → Bytes
  pub decimal : ℕ → Bytes
  pub outbound_digest : ℕ → Bytes → Text
  pub prompt_digest : ℕ → List Text → Text
  pub normalize : Text → Text
  pub providers : ProviderRegistry S

-- `invoke(adapter, request) if invoke else adapter.complete(request)`
abbrev pub invoked : {S : Type 0} → Option (Invoker S) → Invoker S
invoked none adapter = adapter.complete
invoked (some invoke) adapter = invoke adapter

abbrev pub received :
    {S : Type 0} → LlmProvider S → Attestation → S × Result ProviderResponse → S × Sent
received adapter attestation (world, err e) = (world, raised e)
received adapter attestation (world, ok response) = (
  world,
  transmitted
      (record { response = response; attestation = attestation; provider_alias = adapter.alias }),
)

module _ {S : Type 0} (parts : GatewayParts S) where
  unfoldable pub attest : ProtectedChatRequest → PolicySnapshot → Result Attestation
  unfolding serialize_outbound scan_outbound outbound_segments
  attest request policy =
      let payload = serialize_outbound parts.utf8 parts.decimal request in
      scan_outbound parts.is_blank parts.detect policy request.messages >>= λ scan. ok (record {
        payload_hmac = parts.outbound_digest request.tenant_id payload;
        prompt_hmac = parts.prompt_digest request.tenant_id (outbound_segments request);
        scan = scan;
      })

  -- The part of `send` after the check of the verdict.
  unfoldable pub transmit : ProtectedChatRequest → Option (Invoker S) → Attestation → S → S × Sent
  unfolding get
  transmit request invoke attestation world =
      elim (get parts.normalize parts.providers request.provider_alias) [
        | err e ↦ (world, raised e)
        | ok adapter ↦ received adapter attestation (invoked invoke adapter request world)
      ]

  unfoldable pub send : ProtectedChatRequest → PolicySnapshot → Option (Invoker S) → S → S × Sent
  unfolding attest transmit
  send request policy invoke world = elim (attest request policy) [
    | err e ↦ (world, raised e)
    | ok attestation ↦
        if is_clean attestation.scan
        then transmit request invoke attestation world
        else (world, outbound_blocked attestation)
  ]

  unfoldable pub authorize : Text → Result (Unit {0})
  unfolding get
  authorize alias = get parts.normalize parts.providers alias >>= λ _. ok tt
