-- ===== src/Examples/Audit.antt =====
-- The audit service with one record.
use aiprivacy_gateway.Common.{
  ℕ, zero, suc, ◌≡◌, refl, true, false, [], ◌∷◌, ◌++◌, Text, codes, none, some,
}
use aiprivacy_gateway.Domain.Errors.{ok}
use aiprivacy_gateway.Audit.Records.{AuditRecord, audit_record}
use aiprivacy_gateway.Audit.Records.Laws.{IsNarrowRecord, audit_record-IsNarrow}
use aiprivacy_gateway.Audit.Service.{
  AuditConfig, AuditService, audit_service, submit, Sink, run_round,
}
use aiprivacy_gateway.Audit.Service.Runs.{opened, submitted, wrote, IsLedger, Run-IsLedger}

abbrev pub digest : Text
digest = codes "0123456789abcdef0123456789abcdef"

abbrev item : AuditRecord
item = record {
  tenant_id = 1;
  request_id = 2;
  status_code = 200;
  api_key_id = none;
  session_id_hash = some digest;
  policy_id = none;
  policy_version = some 3;
  provider_alias = some (codes "mock");
  model_alias = some (codes "m");
  input_character_count = 2;
  output_character_count = 1;
  entity_counts = (codes "EMAIL_ADDRESS", 1) ∷ [];
  actions = (codes "detected", 1) ∷ [];
  blocked = false;
  block_reason_code = none;
  error_code = none;
  prompt_hmac = some digest;
  response_hmac = none;
  outbound_hmac = some digest;
  outbound_scan = some (codes "clean");
}

item_run : audit_record item ≡ ok item
unfolding audit_record
item_run = refl

audit_record-IsNarrow_example : (item ≡ item) × IsNarrowRecord item
audit_record-IsNarrow_example = audit_record-IsNarrow item item_run

abbrev config : AuditConfig
config = record { fail_closed = true; max_queue_size = 1 }

abbrev idle : AuditService
idle = record { queue = []; degraded = false; stopped = false; running = false }

-- A sink that counts the writes, of which the second fails.
abbrev counting : Sink ℕ
counting item' zero = (true, 1)
counting item' (suc writes) = (false, 2)

idle_run : audit_service config ≡ ok idle
unfolding audit_service
idle_run = refl

accepted_run : (submit config item idle).1.queue ≡ item ∷ []
unfolding submit
accepted_run = refl

Run-IsLedger_example :
    IsLedger config counting false
      (item ∷ [])
      ([] ++ item ∷ [])
      (run_round counting (submit config item idle).1 0).0
unfolding submit
Run-IsLedger_example =
    Run-IsLedger config counting (wrote item [] accepted_run (submitted item (opened 0 idle_run)))
