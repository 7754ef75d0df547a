-- ===== src/Router/Create/Attempts.antt =====
-- One attempt of the create job keeps the count of each step.
use message_sync.Base.{
  ℕ, true, false, Option, none, some, Bool-cases, Option-cases, inl, inr, lookup, ◌≡◌, refl, ◌⊎◌,
  arith,
}
use message_sync.Transport.Failure.{GoError}
use message_sync.Store.Cursors.{next_fault}
use message_sync.Store.Ledger.{
  Store, CreateStep, StepState, pending, complete, ambiguous, create_step, is_tombstoned,
}
use message_sync.Store.Ledger.Keys.{StepKey, primary, companion, eq_step_key}
use message_sync.Store.Ledger.Laws.{
  Quiet, delete_delivery_operation-Quiet, begin_delivery_attempt-Quiet, is_tombstoned-Quiet,
  read-Quiet, complete_create_step-Completes,
}
use message_sync.Router.Create.{
  World, CreateJob, Answer, accepted, refused, op_key, step_key, on_primary, run_primary,
  on_companion, run_companion, assert_route_set, owns_route, job, send, after_begin, after_route,
  has_companion, primary_answer, companion_answer,
}
use message_sync.Router.Create.Once.{
  IsNamed, may_have_arrived, IsOnce, put_store-IsOnce, finish_failure-IsOnce, record_copy-IsOnce,
}
use message_sync.Router.Create.Sent.{
  IsSent, refuse-IsOnce, accept_primary-IsOnce, send-IsSent, complete-IsOnce,
}

pub StepState-cases : (s : StepState) → (s ≡ pending) ⊎ ((s ≡ complete) ⊎ (s ≡ ambiguous))
StepState-cases pending = inl refl
StepState-cases complete = inr (inl refl)
StepState-cases ambiguous = inr (inr refl)

primary_answer-IsOnce :
    (j : CreateJob) (n : ℕ) (w : World) (answer : Answer)
    → IsSent j primary (may_have_arrived answer) w
    → IsNamed j answer
    → IsOnce j (primary_answer j n w answer).0
primary_answer-IsOnce j n w (refused e) s named = refuse-IsOnce j n primary e w s
primary_answer-IsOnce j n w (accepted ref) s named = accept_primary-IsOnce j n ref w named s

on_primary-IsOnce :
    (j : CreateJob) (n : ℕ) (step : CreateStep) (w : World)
    → lookup (step_key j primary) w.store.steps ≡ some step
    → IsOnce j w
    → IsOnce j (on_primary j n step w).0
unfolding on_primary
on_primary-IsOnce j n step w there once = elim (StepState-cases step.state) [
  | inl fresh ↦
      simp (fresh, on_primary)
        (let out = send-IsSent j primary step w there fresh once in
          primary_answer-IsOnce j n _ (send j primary w).1 out.0 out.1)
  | inr (inl done) ↦ simp (done, on_primary) (record_copy-IsOnce j n _ w once)
  | inr (inr unsure) ↦ simp (unsure, on_primary) once
]

-- A step that was read, and the world after it was.
read_step :
    (s : Store) (k : StepKey) (step : CreateStep)
    → (create_step s k).1.0 ≡ some step
    → lookup k (create_step s k).0.steps ≡ some step
unfolding create_step
read_step s k step read = elim (Bool-cases (next_fault s.faults)) [
  | inl bad ↦ ground (arith, bad, read)
  | inr good ↦ ground (arith, good, read)
]

create_step-Quiet : (s : Store) (k : StepKey) → Quiet s (create_step s k).0
unfolding create_step
create_step-Quiet s k = elim (Bool-cases (next_fault s.faults)) [
  | inl bad ↦ simp (bad, create_step) (read-Quiet s)
  | inr good ↦ simp (good, create_step) (read-Quiet s)
]

run_primary-IsOnce :
    (j : CreateJob) (n : ℕ) (w : World) → IsOnce j w → IsOnce j (run_primary j n w).0
unfolding run_primary
run_primary-IsOnce j n w once =
    let read = create_step w.store (step_key j primary) in
    let once1 = put_store-IsOnce j w read.0 (create_step-Quiet w.store (step_key j primary)) once in
    elim (Option-cases read.1.0) [
      | inl missing ↦ simp (missing, run_primary) (finish_failure-IsOnce j n _ _ once1)
      | inr (step, found) ↦
          simp (found, run_primary)
            (on_primary-IsOnce j n step _ (read_step w.store _ step found) once1)
    ]

companion_answer-IsOnce :
    (j : CreateJob) (n : ℕ) (w : World) (answer : Answer)
    → IsSent j companion (may_have_arrived answer) w
    → IsNamed j answer
    → IsOnce j (companion_answer j n w answer).0
companion_answer-IsOnce j n w (refused e) s named = refuse-IsOnce j n companion e w s
companion_answer-IsOnce j n w (accepted ref) s named =
    let c =
      complete_create_step-Completes w.store (step_key j companion) s.found.0 "" false s.reliable
        s.found.1 in
    simp (c.succeeds, companion_answer)
      (run_primary-IsOnce j n _ (complete-IsOnce j companion true "" false w s))

on_companion-IsOnce :
    (j : CreateJob) (n : ℕ) (step : CreateStep) (w : World)
    → lookup (step_key j companion) w.store.steps ≡ some step
    → IsOnce j w
    → IsOnce j (on_companion j n step w).0
unfolding on_companion
on_companion-IsOnce j n step w there once = elim (StepState-cases step.state) [
  | inl fresh ↦
      simp (fresh, on_companion)
        (let out = send-IsSent j companion step w there fresh once in
          companion_answer-IsOnce j n _ (send j companion w).1 out.0 out.1)
  | inr (inl done) ↦ simp (done, on_companion) (run_primary-IsOnce j n w once)
  | inr (inr unsure) ↦ simp (unsure, on_companion) once
]

run_companion-IsOnce :
    (j : CreateJob) (n : ℕ) (w : World) → IsOnce j w → IsOnce j (run_companion j n w).0
unfolding run_companion
run_companion-IsOnce j n w once =
    let read = create_step w.store (step_key j companion) in
    let once1 =
      put_store-IsOnce j w read.0 (create_step-Quiet w.store (step_key j companion)) once in
    elim (Bool-cases (has_companion j)) [
      | inr alone ↦ simp (alone, run_companion) (run_primary-IsOnce j n w once)
      | inl both ↦ elim (Option-cases read.1.0) [
        | inl missing ↦ simp (both, missing, run_companion) (finish_failure-IsOnce j n _ _ once1)
        | inr (step, found) ↦
            simp (both, found, run_companion)
              (on_companion-IsOnce j n step _ (read_step w.store _ step found) once1)
      ]
    ]

assert_route_set-Quiet : (s : Store) (j : CreateJob) → Quiet s (assert_route_set s j).0
unfolding assert_route_set
assert_route_set-Quiet s j = elim (Bool-cases (next_fault s.faults)) [
  | inl bad ↦ simp (bad, assert_route_set) (read-Quiet s)
  | inr good ↦ elim (Bool-cases (owns_route s j)) [
    | inl owned ↦ simp (good, owned, assert_route_set) (read-Quiet s)
    | inr lost ↦ simp (good, lost, assert_route_set) (read-Quiet s)
  ]
]

after_route-IsOnce :
    (j : CreateJob) (n : ℕ) (w : World) (e : Option GoError)
    → IsOnce j w
    → IsOnce j (after_route j n w e).0
after_route-IsOnce j n w (some e) once = finish_failure-IsOnce j n e w once
after_route-IsOnce j n w none once = run_companion-IsOnce j n w once

after_begin-IsOnce :
    (j : CreateJob) (n : ℕ) (w : World) (e : Option GoError)
    → IsOnce j w
    → IsOnce j (after_begin j n w e).0
after_begin-IsOnce j n w (some e) once = once
after_begin-IsOnce j n w none once =
    after_route-IsOnce j n _ _ (put_store-IsOnce j w _ (assert_route_set-Quiet w.store j) once)

pub job-IsOnce : (j : CreateJob) (n : ℕ) (w : World) → IsOnce j w → IsOnce j (job j n w).0
unfolding job
job-IsOnce j n w once =
    let read = is_tombstoned w.store j.canonical in
    let once1 = put_store-IsOnce j w read.0 (is_tombstoned-Quiet w.store j.canonical) once in
    elim (Option-cases read.1.0) [
      | inl failed ↦ simp (failed, job) once1
      | inr (true, gone) ↦
          simp (gone, job)
            (put_store-IsOnce j _ _ (delete_delivery_operation-Quiet read.0 (op_key j)) once1)
      | inr (false, live) ↦
          simp (live, job)
            (after_begin-IsOnce j n _ _
              (put_store-IsOnce j _ _ (begin_delivery_attempt-Quiet read.0 (op_key j)) once1))
    ]
