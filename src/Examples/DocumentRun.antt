-- ===== src/Examples/DocumentRun.antt =====
-- A document through the whole pipeline, over the parts of the other examples.
use aiprivacy_gateway.Common.{
  ℕ, ◌≡◌, refl, ◌⊎◌, Bool, true, false, List, [], ◌∷◌, Text, codes, Option, none, some,
}
use aiprivacy_gateway.Domain.Summary.{empty_summary}
use aiprivacy_gateway.Domain.Errors.{Result, ok, err}
use aiprivacy_gateway.Policy.Snapshot.{PolicySnapshot}
use aiprivacy_gateway.Outbound.Request.{ProtectedChatRequest}
use aiprivacy_gateway.Outbound.Gateway.{GatewayParts}
use aiprivacy_gateway.Outbound.Gateway.Laws.{IsCleanRequest}
use aiprivacy_gateway.Documents.Protection.{ProtectedDocument, protect}
use aiprivacy_gateway.Documents.Pipeline.{
  DocumentPipeline, DocumentCall, DocumentAnswer, admit, run,
}
use aiprivacy_gateway.Documents.Pipeline.Attested.{IsAttested, IsSent, run-IsAttested}
use aiprivacy_gateway.Documents.Pipeline.Protected.{IsAdmitted, IsCarried, run-IsProtected}
use aiprivacy_gateway.Documents.Protection.Outcome.{IsProtected, protect-IsProtected}
use aiprivacy_gateway.Audit.Service.{AuditService}
use aiprivacy_gateway.Examples.Data.{email, small_policy, first_letter}
use aiprivacy_gateway.Examples.Outbound.{gateway}
use aiprivacy_gateway.Examples.Analysis.{protector}
use aiprivacy_gateway.Examples.Audit.{digest}

abbrev outbound : GatewayParts ℕ
outbound = record gateway {
  outbound_digest = λ tenant_id payload. digest;
  prompt_digest = λ tenant_id segments. digest;
}

abbrev parts : DocumentPipeline ℕ ℕ
parts = record {
  protection = protector first_letter;
  resolve_policy = λ tenant_id provider model. ok small_policy;
  outbound = outbound;
  session_digest = λ tenant_id session_id. digest;
  response_digest = λ tenant_id text. digest;
  max_response_chars = 10;
  audit = record { fail_closed = true; max_queue_size = 2 };
  instruction_max_chars = 10;
}

abbrev call : DocumentCall
call = record {
  principal = record { tenant_id = 2; api_key_id = 7 };
  request_id = 1;
  session_id = 5;
  user_id = 3;
  document_id = 4;
  provider = codes "mock";
  model = codes "m";
  instruction = codes "cd";
}

abbrev audit : AuditService
audit = record { queue = []; degraded = false; stopped = false; running = true }

abbrev answer : DocumentAnswer
answer = record {
  request_id = 1;
  session_id = 5;
  document_id = 4;
  provider = codes "mock";
  model = codes "m";
  text = codes "x";
  privacy = record {
    detected = 1;
    tokenized = 1;
    redacted = 0;
    pseudonymized = 0;
    blocked = 0;
    allowed = 0;
    restored = 0;
    unknown_tokens = 0;
    entity_types = (email, 1) ∷ [];
  };
  outbound_hmac = digest;
}

answered : (run parts call 0 5 audit).0 ≡ ok answer
unfolding run aiprivacy_gateway.Common.text_eq aiprivacy_gateway.Documents.Analysis.analyze
    aiprivacy_gateway.Detection.Overlap.resolve_overlaps
    aiprivacy_gateway.Tokenization.Selection.select_entities
    aiprivacy_gateway.Tokenization.Tokenizer.apply_selected
    aiprivacy_gateway.Tokenization.Tokenizer.apply_plan
    aiprivacy_gateway.Tokenization.Tokenizer.plan_for aiprivacy_gateway.Tokenization.Tokenizer.build
    aiprivacy_gateway.Tokenization.Tokenizer.mint aiprivacy_gateway.Tokenization.Tokenizer.requests
    aiprivacy_gateway.Tokenization.Tokenizer.pair_tokens
    aiprivacy_gateway.Tokenization.Tokenizer.assign
    aiprivacy_gateway.Tokenization.Tokenizer.edits_of
    aiprivacy_gateway.Tokenization.Tokenizer.summarize
    aiprivacy_gateway.Tokenization.Tokenizer.splice aiprivacy_gateway.Tokenization.Grammar.mem_chars
    mathlib.Core.List.flatten aiprivacy_gateway.Restoration.restore_text
answered = refl

run-IsAttested_example :
    (policy : PolicySnapshot) × (admit parts call ≡ ok policy)
    × (IsAttested parts call policy audit (run parts call 0 5 audit).1.2 answer
        × IsSent parts call policy 5 (run parts call 0 5 audit).1.1 answer)
run-IsAttested_example = run-IsAttested parts call 0 5 audit answer refl answered

run-IsProtected_example :
    ((run parts call 0 5 audit).1.1 ≡ 5)
    ⊎ ((policy : PolicySnapshot) × (document : ProtectedDocument) × (request : ProtectedChatRequest)
        × IsAdmitted parts call policy
        × IsProtected (protector first_letter) 2 5 4 (codes "cd") 3 0 document
        × IsCarried call document request
        × IsCleanRequest outbound policy request)
run-IsProtected_example = run-IsProtected parts call 0 5 audit

abbrev no_document : ProtectedDocument
no_document = record {
  tenant_id = 0;
  session_id = 0;
  document_id = 0;
  text = [];
  instruction = [];
  summary = empty_summary;
  policy_version = 0;
}

abbrev document_of : Result ProtectedDocument → ProtectedDocument
document_of (ok document) = document
document_of (err _) = no_document

abbrev made : ProtectedDocument
made = document_of (protect (protector first_letter) 2 5 4 (codes "ab") 3 0).0

protect_run : (protect (protector first_letter) 2 5 4 (codes "ab") 3 0).0 ≡ ok made
unfolding protect aiprivacy_gateway.Documents.Analysis.analyze
    aiprivacy_gateway.Detection.Overlap.resolve_overlaps aiprivacy_gateway.Common.text_eq
    aiprivacy_gateway.Tokenization.Selection.select_entities
    aiprivacy_gateway.Tokenization.Tokenizer.apply_selected
    aiprivacy_gateway.Tokenization.Tokenizer.apply_plan
    aiprivacy_gateway.Tokenization.Tokenizer.plan_for aiprivacy_gateway.Tokenization.Tokenizer.build
    aiprivacy_gateway.Tokenization.Tokenizer.mint aiprivacy_gateway.Tokenization.Tokenizer.requests
    aiprivacy_gateway.Tokenization.Tokenizer.pair_tokens
    aiprivacy_gateway.Tokenization.Tokenizer.assign
    aiprivacy_gateway.Tokenization.Tokenizer.edits_of
    aiprivacy_gateway.Tokenization.Tokenizer.summarize
    aiprivacy_gateway.Tokenization.Tokenizer.splice aiprivacy_gateway.Tokenization.Grammar.mem_chars
    mathlib.Core.List.flatten
protect_run = refl

protect-IsProtected_example : IsProtected (protector first_letter) 2 5 4 (codes "ab") 3 0 made
protect-IsProtected_example =
    protect-IsProtected (protector first_letter) 2 5 4 (codes "ab") 3 0 made protect_run
