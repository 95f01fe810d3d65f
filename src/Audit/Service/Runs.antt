-- ===== src/Audit/Service/Runs.antt =====
-- Runs of the audit service (app/audit/service.py).
use aiprivacy_gateway.Common.{
  ℕ, zero, suc, ◌+◌, ◌≤◌, ◌<◌, ◌≡◌, refl, sym, ap, ◌∙◌, subst, ◌⊎◌, inl, inr, Bool, true, false,
  not, List, [], ◌∷◌, ◌++◌, append_assoc, length, length-append, ltb, leb, Bool-cases, List-cases,
  if◌then◌else◌, arith,
}
use aiprivacy_gateway.Domain.Errors.{ok, err, audit_unavailable}
use aiprivacy_gateway.Audit.Records.{AuditRecord}
use aiprivacy_gateway.Audit.Service.{
  AuditConfig, AuditService, start, submit, audit_service, Sink, write, round_on, run_round, drain,
  stop,
}

-- Whether the queue has grown.
abbrev pub grown : AuditService → AuditService → Bool
grown s s' = ltb (length s.queue) (length s'.queue)

-- If the service fails closed, a submission either returns, has put the record at the end of the
-- queue, and the service was neither stopped nor degraded nor its queue full; or it raises the
-- error for an unavailable audit, and the service was stopped, degraded or its queue full.
pub submit_cases :
    (config : AuditConfig) (item : AuditRecord) (s : AuditService)
    → config.fail_closed ≡ true
    → ((submit config item s ≡ (ok tt, record s { queue = s.queue ++ item ∷ [] }))
        × (s.stopped ≡ false)
        × (s.degraded ≡ false)
        × (length s.queue < config.max_queue_size))
      ⊎ (((submit config item s).0 ≡ err audit_unavailable)
          × ((s.stopped ≡ true) ⊎ ((config.max_queue_size ≤ length s.queue) ⊎ (s.degraded ≡ true))))
unfolding submit
submit_cases config item s h = elim (Bool-cases s.stopped) [
  | inl e ↦ inr (rw (e, h) refl, inl e)
  | inr e ↦ elim (Bool-cases (leb config.max_queue_size (length s.queue))) [
    | inl f ↦ inr (rw (e, f, h) refl, inr (inl (ground (arith, f))))
    | inr f ↦ elim (Bool-cases s.degraded) [
      | inl g ↦ inr (rw (e, f, g, h) refl, inr (inr g))
      | inr g ↦ inl (rw (e, f, g) refl, e, g, ground (arith, f))
    ]
  ]
]

if-true : {A : Type 0} (b : Bool) (x y : A) → b ≡ true → (if b then x else y) ≡ x
if-true true x y h = refl
if-true false x y h = cc

if-false : {A : Type 0} (b : Bool) (x y : A) → b ≡ false → (if b then x else y) ≡ y
if-false true x y h = cc
if-false false x y h = refl

module _ {W : Type 0} (config : AuditConfig) (sink : Sink W) where
  -- The runs of a service: whether the last write failed, the records that its queue took, those
  -- that the writer took from it, the state, and the world of the sink.
  pub data Run : Bool → List AuditRecord → List AuditRecord → AuditService → W → Type 0 where
    opened : {s : AuditService} (world : W) → audit_service config ≡ ok s → Run false [] [] s world
    submitted :
        {failed : Bool} {accepted taken : List AuditRecord} {s : AuditService} {world : W}
        (item : AuditRecord)
        → Run failed accepted taken s world
        → Run failed
            (if grown s (submit config item s).1 then accepted ++ item ∷ [] else accepted)
            taken
            (submit config item s).1
            world
    started :
        {failed : Bool} {accepted taken : List AuditRecord} {s : AuditService} {world : W}
        → Run failed accepted taken s world
        → Run failed accepted taken (start s) world
    -- A round of the writer.
    wrote :
        {failed : Bool} {accepted taken : List AuditRecord} {s : AuditService} {world : W}
        (item : AuditRecord) (rest : List AuditRecord)
        → s.queue ≡ item ∷ rest
        → Run failed accepted taken s world
        → Run
            (not (sink item world).0)
            accepted
            (taken ++ item ∷ [])
            (run_round sink s world).0
            (run_round sink s world).1
    -- The two ends of `stop`: no record is taken any more, and the writer is cancelled, in its wait
    -- or in a write, of which nothing is known.
    stopping :
        {failed : Bool} {accepted taken : List AuditRecord} {s : AuditService} {world : W}
        → Run failed accepted taken s world
        → Run failed accepted taken (record s { stopped = true }) world
    cancelled :
        {failed : Bool} {accepted taken : List AuditRecord} {s : AuditService} {world : W}
        → Run failed accepted taken s world
        → Run failed accepted taken (record s { running = false }) world
    interrupted :
        {failed : Bool} {accepted taken : List AuditRecord} {s : AuditService} {world : W}
        (item : AuditRecord) (rest : List AuditRecord) (world' : W)
        → s.queue ≡ item ∷ rest
        → Run failed accepted taken s world
        → Run failed accepted
            (taken ++ item ∷ [])
            (record s { queue = rest; running = false })
            world'

  -- Nothing that the queue took is lost, doubled or reordered, and it stays within its bound; the
  -- service is degraded exactly while the last write has failed.
  pub record IsLedger (failed : Bool) (accepted taken : List AuditRecord) (s : AuditService)
      : Type 0 where
    pub conserved : accepted ≡ taken ++ s.queue
    pub bounded : length s.queue ≤ config.max_queue_size
    pub degraded : s.degraded ≡ failed

  length-snoc : (xs : List AuditRecord) (x : AuditRecord) → length (xs ++ x ∷ []) ≡ length xs + 1
  length-snoc xs x = omega (arith, length-append {0} xs (x ∷ []))

  submit_next :
      (item : AuditRecord) (s : AuditService)
      → ((submit config item s).1 ≡ s)
        ⊎ (((submit config item s).1 ≡ record s { queue = s.queue ++ item ∷ [] })
            × (length s.queue < config.max_queue_size))
  unfolding submit
  submit_next item s = elim (Bool-cases s.stopped) [
    | inl e ↦ inl (rw e refl)
    | inr e ↦ elim (Bool-cases (leb config.max_queue_size (length s.queue))) [
      | inl f ↦ inl (rw (e, f) refl)
      | inr f ↦ inr (rw (e, f) refl, ground (arith, f))
    ]
  ]

  abbrev After :
      Bool
      → List AuditRecord
      → List AuditRecord
      → AuditService
      → AuditRecord
      → AuditService
      → Type 0
  After failed accepted taken s item s' =
      IsLedger failed (if grown s s' then accepted ++ item ∷ [] else accepted) taken s'

  submit-IsLedger :
      (failed : Bool) (accepted taken : List AuditRecord) (s : AuditService) (item : AuditRecord)
      → IsLedger failed accepted taken s
      → After failed accepted taken s item (submit config item s).1
  submit-IsLedger failed accepted taken s item l =
      let same : grown s s ≡ false = ground arith in
      let more : grown s (record s { queue = s.queue ++ item ∷ [] }) ≡ true =
        ground (arith, length-snoc s.queue item) in
      elim (submit_next item s) [
        | inl e ↦ subst (After failed accepted taken s item) (sym e) (rw same l)
        | inr (e, room) ↦ subst (After failed accepted taken s item) (sym e) (
            rw more (record {
              conserved =
                  ap (λ (r : List AuditRecord). r ++ item ∷ []) l.conserved
                  ∙ append_assoc taken s.queue (item ∷ []);
              bounded = omega (arith, length-snoc s.queue item, room);
              degraded = l.degraded;
            }))
      ]

  -- The writer takes the first record.
  take-IsLedger :
      (failed failed' : Bool) (accepted taken : List AuditRecord) (s s' : AuditService)
      (item : AuditRecord) (rest : List AuditRecord)
      → s.queue ≡ item ∷ rest
      → s'.queue ≡ rest
      → s'.degraded ≡ failed'
      → IsLedger failed accepted taken s
      → IsLedger failed' accepted (taken ++ item ∷ []) s'
  take-IsLedger failed failed' accepted taken s s' item rest q q' d l = record {
    conserved =
        l.conserved
        ∙ ap (λ (r : List AuditRecord). taken ++ r)
            (q ∙ ap (λ (r : List AuditRecord). item ∷ r) (sym q'))
        ∙ sym (append_assoc taken (item ∷ []) s'.queue);
    bounded =
        let shorter : length s.queue ≡ suc (length s'.queue) =
          ap length q ∙ ap (λ (r : List AuditRecord). suc (length r)) (sym q') in
        omega (arith, shorter, l.bounded);
    degraded = d;
  }

  run_round-next :
      (s : AuditService) (world : W) (item : AuditRecord) (rest : List AuditRecord)
      → s.queue ≡ item ∷ rest
      → run_round sink s world ≡ write sink item rest s world
  unfolding run_round
  run_round-next s world item rest q = ap (λ (l : List AuditRecord). round_on sink l s world) q

  -- In every run of the audit service, of submissions, starts, rounds of the writer and the
  -- steps of a stop: the records that its queue took are those that the writer took from it
  -- followed by those in it, in order; the queue is within its bound; and the service is
  -- degraded exactly if the last write that ended has failed.
  pub Run-IsLedger :
      {failed : Bool} {accepted taken : List AuditRecord} {s : AuditService} {world : W}
      → Run failed accepted taken s world
      → IsLedger failed accepted taken s
  unfolding start write audit_service
  Run-IsLedger {s} (opened world h) = elim (Bool-cases (ltb config.max_queue_size 1)) [
    | inl e ↦ absurd (let h' = rw e at h in cc)
    | inr e ↦
        let h' = rw e at h in
        let empty : record { queue = []; degraded = false; stopped = false; running = false } ≡ s =
          cc in
        subst (λ (x : AuditService). IsLedger false [] [] x) empty
          (record { conserved = refl; bounded = omega arith; degraded = refl })
  ]
  Run-IsLedger (submitted {failed} {accepted} {taken} {s} item r) =
      submit-IsLedger failed accepted taken s item (Run-IsLedger r)
  Run-IsLedger (started {failed} {accepted} {taken} {s} r) =
      let l = Run-IsLedger r in
      elim (Bool-cases s.running) [
        | inl e ↦
            rw e (record { conserved = l.conserved; bounded = l.bounded; degraded = l.degraded })
        | inr e ↦
            rw e (record { conserved = l.conserved; bounded = l.bounded; degraded = l.degraded })
      ]
  Run-IsLedger (wrote {failed} {accepted} {taken} {s} {world} item rest q r) =
      take-IsLedger failed (not (sink item world).0) accepted taken s (run_round sink s world).0
        item rest q (ap (λ (x : AuditService × W). x.0.queue) (run_round-next s world item rest q))
        (ap (λ (x : AuditService × W). x.0.degraded) (run_round-next s world item rest q))
        (Run-IsLedger r)
  Run-IsLedger (stopping r) =
      let l = Run-IsLedger r in
      record { conserved = l.conserved; bounded = l.bounded; degraded = l.degraded }
  Run-IsLedger (cancelled r) =
      let l = Run-IsLedger r in
      record { conserved = l.conserved; bounded = l.bounded; degraded = l.degraded }
  Run-IsLedger (interrupted {failed} {accepted} {taken} {s} item rest world' q r) =
      let l = Run-IsLedger r in
      take-IsLedger failed failed accepted taken s (record s { queue = rest; running = false }) item
        rest q refl l.degraded l

  run_round-nil :
      (s : AuditService) (world : W) → s.queue ≡ [] → run_round sink s world ≡ (s, world)
  unfolding run_round
  run_round-nil s world q = ap (λ (l : List AuditRecord). round_on sink l s world) q

  abbrev SomeRun : List AuditRecord → AuditService × W → Type 0
  SomeRun accepted end =
      (failed : Bool) × (taken : List AuditRecord) × Run failed accepted taken end.0 end.1

  -- The rounds of the writer, and the whole of `stop`, are runs.
  drain-Run :
      {accepted : List AuditRecord} (rounds : ℕ) {failed : Bool} {taken : List AuditRecord}
      {s : AuditService} {world : W}
      → Run failed accepted taken s world
      → SomeRun accepted (drain sink rounds s world)
  unfolding drain
  drain-Run zero {failed} {taken} r = (failed, taken, r)
  drain-Run {accepted} (suc rounds) {failed} {taken} {s} {world} r = elim (List-cases s.queue) [
    | inl e ↦
        subst (λ (x : AuditService × W). SomeRun accepted (drain sink rounds x.0 x.1))
          (sym (run_round-nil s world e)) (drain-Run rounds r)
    | inr (item, rest, q) ↦ drain-Run rounds (wrote item rest q r)
  ]

  stop-running :
      (rounds : ℕ) (s : AuditService) (world : W)
      → s.running ≡ true
      → stop sink rounds s world ≡ (
        record (drain sink rounds (record s { stopped = true }) world).0 { running = false },
        (drain sink rounds (record s { stopped = true }) world).1,
      )
  unfolding stop
  stop-running rounds s world e = if-true s.running _ _ e

  stop-idle :
      (rounds : ℕ) (s : AuditService) (world : W)
      → s.running ≡ false
      → stop sink rounds s world ≡ (record s { stopped = true }, world)
  unfolding stop
  stop-idle rounds s world e = if-false s.running _ _ e

  pub stop-Run :
      {accepted : List AuditRecord} (rounds : ℕ) {failed : Bool} {taken : List AuditRecord}
      {s : AuditService} {world : W}
      → Run failed accepted taken s world
      → SomeRun accepted (stop sink rounds s world)
  stop-Run {accepted} rounds {failed} {taken} {s} {world} r =
      let (failed', taken', drained) = drain-Run rounds (stopping r) in
      elim (Bool-cases s.running) [
        | inl e ↦
            subst (SomeRun accepted) (sym (stop-running rounds s world e))
              (failed', taken', cancelled drained)
        | inr e ↦
            subst (SomeRun accepted) (sym (stop-idle rounds s world e)) (failed, taken, stopping r)
      ]

  -- As many rounds as there are records empty the queue, and the sink is given its records in their
  -- order, whether or not a write succeeds.
  abbrev pub given : List AuditRecord → W → W
  given [] world = world
  given (item ∷ items) world = given items (sink item world).1

  pub drain-given :
      (items : List AuditRecord) (s : AuditService) (world : W)
      → s.queue ≡ items
      → (((drain sink (length items) s world).0).queue ≡ [])
        × ((drain sink (length items) s world).1 ≡ given items world)
  unfolding drain run_round write
  drain-given [] s world q = (q, refl)
  drain-given (item ∷ items) s world q =
      rw (drain, run_round-next s world item items q)
        (drain-given items (record s { queue = items; degraded = not (sink item world).0 })
          (sink item world).1 refl)
