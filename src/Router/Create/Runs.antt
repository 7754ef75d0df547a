-- ===== src/Router/Create/Runs.antt =====
-- All runs of the create job: attempts, replays and further calls of `enqueueCreate`.
use message_sync.Base.{
  All, false, ℕ, ◌≤◌, Option, none, some, List, [], ◌∷◌, Bool-cases, Option-cases, inl, inr, lookup,
  ◌≡◌, subst, arith,
}
use message_sync.Transport.Failure.{GoError}
use message_sync.Store.Ledger.{
  CreateStep, delivery_operation, upsert_delivery_operation, upsert_create_step, tombstone,
  is_no_rows,
}
use message_sync.Store.Ledger.Keys.{StepKey, StepKind, primary, companion, eq_step_key}
use message_sync.Store.Ledger.Laws.{
  tombstone-Quiet, delivery_operation-Quiet, mark_awaiting_replay-Quiet,
  upsert_delivery_operation-Quiet, upsert_create_step-lookup, upsert_create_step-reliable,
}
use message_sync.Router.Create.{
  World, CreateJob, op_key, step_key, put_store, job, enqueue_create, has_companion, fresh_step,
  fresh_operation, queue_steps, queue_create, in_flight,
}
use message_sync.Router.Create.Once.{IsOrderly, deliveries, allowed, IsOnce, put_store-IsOnce}
use message_sync.Router.Create.Attempts.{StepState-cases, job-IsOnce}

-- Queueing a step allows as much as before.
upsert_fresh-IsOnce :
    (j : CreateJob) (k : StepKey) (w : World)
    → IsOnce j w
    → IsOnce j (put_store w (upsert_create_step w.store k fresh_step).0)
upsert_fresh-IsOnce j k w once = record {
  reliable = upsert_create_step-reliable w.store k fresh_step once.reliable;
  bounded = λ kind. elim (upsert_create_step-lookup w.store k fresh_step (step_key j kind)) [
    | inl same ↦ rw same (once.bounded kind)
    | inr (absent, written) ↦
        rw written (subst (λ o. deliveries j kind w.log ≤ allowed o) absent (once.bounded kind))
  ];
  orderly = once.orderly;
}

queue_steps-IsOnce :
    (j : CreateJob) (w : World) → IsOnce j w → IsOnce j (put_store w (queue_steps j w.store).0)
queue_steps-IsOnce j w once =
    let first = upsert_create_step w.store (step_key j primary) fresh_step in
    let once1 = upsert_fresh-IsOnce j (step_key j primary) w once in
    elim (Option-cases first.1) [
      | inr (e, err) ↦ simp (err, queue_steps) once1
      | inl ok ↦ elim (Bool-cases (has_companion j)) [
        | inl both ↦
            simp (ok, both, queue_steps) (upsert_fresh-IsOnce j (step_key j companion) _ once1)
        | inr alone ↦ simp (ok, alone, queue_steps) once1
      ]
    ]

queue_create-IsOnce :
    (j : CreateJob) (lane : Option GoError) (w : World)
    → IsOnce j w
    → IsOnce j (queue_create j lane w).0
queue_create-IsOnce j lane w once =
    let inserted = upsert_delivery_operation w.store (op_key j) fresh_operation in
    let stepped = queue_steps j inserted.0 in
    let once1 =
      put_store-IsOnce j w inserted.0
        (upsert_delivery_operation-Quiet w.store (op_key j) fresh_operation) once in
    let once2 = queue_steps-IsOnce j (put_store w inserted.0) once1 in
    elim (Option-cases inserted.1) [
      | inr (e, err) ↦ simp (err, queue_create) once1
      | inl ok ↦ elim (Option-cases stepped.1) [
        | inr (e, err) ↦ simp (ok, err, queue_create) once2
        | inl ok2 ↦ elim (Option-cases lane) [
          | inl taken ↦ simp (ok, ok2, taken, queue_create) once2
          | inr (e, err) ↦
              simp (ok, ok2, err, queue_create)
                (put_store-IsOnce j _ _ (mark_awaiting_replay-Quiet stepped.0 (op_key j)) once2)
        ]
      ]
    ]

enqueue_create-IsOnce :
    (j : CreateJob) (label lane : Option GoError) (w : World)
    → IsOnce j w
    → IsOnce j (enqueue_create j label lane w).0
unfolding enqueue_create
enqueue_create-IsOnce j (some e) lane w once = once
enqueue_create-IsOnce j none lane w once =
    let read = delivery_operation w.store (op_key j) in
    let once1 = put_store-IsOnce j w read.0 (delivery_operation-Quiet w.store (op_key j)) once in
    elim (Option-cases read.1.0) [
      | inr (op, found) ↦ elim (Bool-cases (in_flight op)) [
        | inl busy ↦ simp (found, busy, enqueue_create) once1
        | inr idle ↦ simp (found, idle, enqueue_create) (queue_create-IsOnce j lane _ once1)
      ]
      | inl absent ↦ elim (Bool-cases (is_no_rows read.1.1)) [
        | inl fresh ↦ simp (absent, fresh, enqueue_create) (queue_create-IsOnce j lane _ once1)
        | inr failed ↦ simp (absent, failed, enqueue_create) once1
      ]
    ]

-- What happens to a new message and one destination, in any order: `Handle` asks for its delivery,
-- a lane runs an attempt, a user tombstones it.
pub data Event : Type 0 where
  enqueued : (label lane : Option GoError) → Event
  attempted : ℕ → Event
  tombstoned : Event

unfoldable pub happen : CreateJob → Event → World → World
happen j (enqueued label lane) w = (enqueue_create j label lane w).0
happen j (attempted n) w = (job j n w).0
happen j tombstoned w = put_store w (tombstone w.store j.canonical)

unfoldable pub history : CreateJob → List Event → World → World
unfolding happen
history j [] w = w
history j (e ∷ es) w = history j es (happen j e w)

happen-IsOnce : (j : CreateJob) (e : Event) (w : World) → IsOnce j w → IsOnce j (happen j e w)
unfolding happen
happen-IsOnce j (enqueued label lane) w once = enqueue_create-IsOnce j label lane w once
happen-IsOnce j (attempted n) w once = job-IsOnce j n w once
happen-IsOnce j tombstoned w once =
    put_store-IsOnce j w _ (tombstone-Quiet w.store j.canonical) once

history-IsOnce :
    (j : CreateJob) (es : List Event) (w : World) → IsOnce j w → IsOnce j (history j es w)
unfolding history
history-IsOnce j [] w once = once
history-IsOnce j (e ∷ es) w once = history-IsOnce j es (happen j e w) (happen-IsOnce j e w once)

allowed_one : (o : Option CreateStep) → allowed o ≤ 1
allowed_one none = ground arith
allowed_one (some step) = elim (StepState-cases step.state) [
  | inl h ↦ simp h (ground arith)
  | inr (inl h) ↦ simp h (ground arith)
  | inr (inr h) ↦ simp h (ground arith)
]

-- When no statement of the database fails, no context of the job is cancelled and every message that the
-- provider accepts has a valid reference, and when nothing was sent yet, then over every history of calls of
-- `enqueueCreate`, attempts of its job and deletions of the message, whatever else the provider answers,
-- the destination gets at most one request of each kind (the companion and the message itself) that the
-- provider accepted or may have accepted.
pub sends_at_most_once :
    (j : CreateJob) (es : List Event) (w : World) (kind : StepKind)
    → w.store.faults ≡ []
    → w.canceled ≡ false
    → All (IsOrderly j) w.replies
    → w.log ≡ []
    → deliveries j kind (history j es w).log ≤ 1
sends_at_most_once j es w kind reliable alive orderly silent =
    let once = history-IsOnce j es w (record {
      reliable = reliable;
      bounded = λ k. simp silent (ground arith);
      orderly = orderly;
    }) in
    ground (
      arith,
      once.bounded kind,
      allowed_one (lookup (step_key j kind) (history j es w).store.steps),
    )
