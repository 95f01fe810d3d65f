-- ===== src/Audit/Service.antt =====
-- The bounded queue between a request and the audit table (app/audit/service.py). `W` is the world of
-- the sink, which is a parameter: it takes one record and says whether its write succeeded. The time
-- stamp, the metrics and the logs are left out.
pub mod Runs
use aiprivacy_gateway.Common.{
  ℕ, zero, suc, Bool, true, false, not, ◌&&◌, ◌||◌, List, [], ◌∷◌, ◌++◌, length, ltb, leb,
  if◌then◌else◌,
}
use aiprivacy_gateway.Domain.Errors.{Result, ok, err, value_error, audit_unavailable}
use aiprivacy_gateway.Audit.Records.{AuditRecord}

pub record AuditConfig : Type 0 where
  pub fail_closed : Bool
  pub max_queue_size : ℕ

-- The state. `running` says whether there is a writer.
pub record AuditService : Type 0 where
  pub queue : List AuditRecord
  pub degraded : Bool
  pub stopped : Bool
  pub running : Bool

unfoldable pub audit_service : AuditConfig → Result AuditService
audit_service config =
    if ltb config.max_queue_size 1
    then err value_error
    else ok (record { queue = []; degraded = false; stopped = false; running = false })

unfoldable pub start : AuditService → AuditService
start s = if s.running then s else record s { stopped = false; running = true }

-- `_refuse`: raises, or drops the record.
unfoldable pub refuse : AuditConfig → Result (Unit {0})
refuse config = if config.fail_closed then err audit_unavailable else ok tt

unfoldable pub submit : AuditConfig → AuditRecord → AuditService → Result (Unit {0}) × AuditService
unfolding refuse
submit config item s =
    if s.stopped
    then (refuse config, s)
    else if leb config.max_queue_size (length s.queue)
    then (refuse config, s)
    else (
      if s.degraded && config.fail_closed then err audit_unavailable else ok tt,
      record s { queue = s.queue ++ item ∷ [] },
    )

abbrev pub Sink : Type 0 → Type 0
Sink W = AuditRecord → W → Bool × W

module _ {W : Type 0} (sink : Sink W) where
  -- One round of the writer, for the record that it took from the queue.
  unfoldable pub write : AuditRecord → List AuditRecord → AuditService → W → AuditService × W
  write item rest s world =
      let (done, world') = sink item world in
      (record s { queue = rest; degraded = not done }, world')

  -- One round, which waits if the queue is empty.
  unfoldable pub round_on : List AuditRecord → AuditService → W → AuditService × W
  unfolding write
  round_on [] s world = (s, world)
  round_on (item ∷ rest) s world = write item rest s world

  unfoldable pub run_round : AuditService → W → AuditService × W
  unfolding round_on
  run_round s world = round_on s.queue s world

  -- The rounds that the writer makes before the drain ends or times out.
  unfoldable pub drain : ℕ → AuditService → W → AuditService × W
  unfolding run_round
  drain zero s world = (s, world)
  drain (suc rounds) s world = let (s', world') = run_round s world in drain rounds s' world'

  -- `stop`, where the drain leaves the writer the time for `rounds`. A writer that is not there is
  -- not waited for.
  unfoldable pub stop : ℕ → AuditService → W → AuditService × W
  unfolding drain
  stop rounds s world =
      let (s', world') = drain rounds (record s { stopped = true }) world in
      if s.running
      then (record s' { running = false }, world')
      else (record s { stopped = true }, world)
