-- ===== src/Lib.antt =====
-- The privacy gateway: personal data in a prompt is detected, replaced by tokens before the text goes
-- to a model provider, and put back into the provider's answer. This library models the code under
-- app/ that decides what is replaced and by what, as functions on code points and native numbers.
--
-- The parts, and the files that model them:
-- - Domain (app/domain): detected entities, actions, summaries, and the exceptions as a result type.
--   A score is an integer in units of 2^-1074, the least positive double.
-- - Detection (app/detection): Overlap is overlap.py (`dominance_key`, `resolve_overlaps`), Checksums,
--   Config and Entities are the files of those names, and Postprocess is postprocess.py (`finalize`).
--   Characters holds the Unicode methods of `str`, as parameters.
-- - Policy (app/policy): Snapshot (models.py) is `PolicySnapshot` with its construction and lookups, and
--   Service (service.py) its resolution through a cache.
-- - Tokenization (app/tokenization): Grammar (grammar.py), Selection (selection.py), Normalization,
--   Fingerprint, Pseudonyms, and Tokenizer (tokenizer.py, `Tokenizer.transform`). Platform holds what
--   they call of Python's library, and Vault the two vault operations over any store: both are
--   parameters. The store is passed on and returned, so that "no vault call" is an equation.
--   Identifiers is ids.py.
-- - Vault: Memory is the in-memory vault of app/vault/fakes.py, an instance of those two operations.
--   A fresh identifier is the next one of a sequence. Crypto is the envelope encryption of
--   app/vault/crypto.py over AES-GCM as a parameter, with the static key ring of keys.py, Records the
--   payload of records.py over JSON as a parameter. Redis is redis_vault.py: `RedisStore` names the
--   commands that the vault and its script send, and whether a round trip is answered; TokenVault
--   holds the three operations. What Redis does with a command is left open, so what is shown of the
--   answers holds for every content and every failure of it.
-- - Restoration (app/restoration/pipeline.py): `OutputPipeline.restore`, over the same vault.
-- - Documents (app/documents): Extraction (extraction/models.py), Segmentation (segmentation.py),
--   Spans (analysis/spans.py), Analysis (analysis/analyzer.py and models.py), Protection
--   (protection.py) and Pipeline (pipeline.py), which composes protection, gateway, restoration and
--   the audit of one document. The segments are read by tasks that run concurrently in the code; which
--   of their failures a task group raises is a parameter.
-- - Pipeline (app/pipeline): Guards (guards.py) holds the guards over all messages of a request, and
--   Service (service.py and session.py) `invoke`, which composes all parts up to the restored answer.
--   RoundTrip follows a text through the tokenizer, the in-memory vault and restoration.
-- - Outbound: Serialization, Scan and Gateway are the files of those names in app/outbound, Request is
--   `ProtectedChatRequest` of app/domain/models.py, and Registry is app/llm/registry.py. An adapter's
--   call is a step of an outside world that is passed on and returned. Digests are parameters.
-- - Auth (app/auth/rate_limit.py): RateLimit is the sliding window over Redis sorted sets. The
--   commands are a parameter, their documented behaviour a record of laws, and a run of the limiter
--   an inductive relation, in which a transaction is one step.
-- - Audit (app/audit): Records (models.py) is `AuditRecord` with its checks, and Service (service.py) the
--   bounded queue with its writer, of which a run is an inductive relation.
-- - Examples: runs of the model, and each theorem applied at a concrete input.
-- - Common: tests, lists, texts, orders and the stable sort that the parts share.
--
-- A text goes from Detection (`finalize`) to Pipeline's guards and then to Tokenization, which selects
-- spans under the policy, calls the vault once and splices. The answer goes to Restoration. Long
-- documents are first cut by Documents into segments that Detection reads one by one, and
-- Spans puts the detections together again; Analysis labels them under the policy, and Protection
-- gives them to the same tokenizer. What leaves goes through Outbound, which scans it once more.
--
-- Loops are recursion on the data, but for two on fuel: the segmentation loop, with one more than
-- the length of the text since its start grows in each round, and the keystream of a surrogate,
-- with the number of bytes wanted since each digest gives at least one. Dicts are lists of pairs;
-- tuples of sort keys are comparisons. Offsets are natural numbers, integers where the code tests
-- their sign.
--
-- Not modelled: the recognizers and Presidio, the database, the HTTP API, the providers, metrics,
-- logging and settings, the clock and the deadlines, and the storage and parsing of documents. They
-- are I/O or third-party code around the parts above. Log context is left out.
pub mod Common
pub mod Domain
pub mod Detection
pub mod Policy
pub mod Tokenization
pub mod Restoration
pub mod Documents
pub mod Pipeline
pub mod Outbound
pub mod Auth
pub mod Vault
pub mod Audit
pub mod Examples
