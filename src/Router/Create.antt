-- ===== src/Router/Create.antt =====
-- internal/router/router.go, `enqueueCreate` and the job it queues: a new message is sent to one
-- destination. The provider is the list of its answers, one for each request, each with what else
-- happens while the request runs. Statements with `jobCtx` fail when it is cancelled: `faults` covers
-- them. `flushPendingMutations`, `ensurePollResultCompanion` and `afterPersist` are entries of the log.
mod Context
pub mod Cases
pub mod Once
pub mod Sent
pub mod Attempts
pub mod Runs
pub use Context.*
use message_sync.Base.{
  ℕ, Bool, true, false, not, ◌&&◌, ◌||◌, Option, none, some, String, List, [], ◌∷◌, leb,
  if◌then◌else◌, ◌==◌, eq_nat, eq_string, Map, lookup, insert, pos, codes, all,
}
use message_sync.Transport.Failure.{
  GoError, plain, Failure, classify, send_unknown, new_failure, destination_missing,
}
use message_sync.Store.Cursors.{next_fault, later_faults}
use message_sync.Store.Ledger.{
  Store, Operation, CreateStep, StepState, pending, complete, ambiguous, queued, retrying, is_space,
  is_tombstoned, tombstone, upsert_delivery_operation, begin_delivery_attempt, mark_awaiting_replay,
  mark_failed, delete_delivery_operation, upsert_create_step, create_step, complete_create_step,
  add_message_copy, delivery_operation, is_no_rows, save_poll_provider_ref, count_in_set,
  err_database,
}
use message_sync.Store.Ledger.Keys.{
  OpKey, StepKey, StepKind, CopyKey, primary, companion, eq_copy_key,
}

unfoldable pub finish_failure : CreateJob → ℕ → GoError → World → Result
finish_failure j attempt e w =
    let failure = classify (some e) in
    let replayed = mark_awaiting_replay w.store (op_key j) in
    let failed = mark_failed w.store (op_key j) failure.class in
    if failure.certainty == send_unknown
    then (put_store w replayed.0, none)
    else if not failure.retryable || leb max_attempts attempt || w.canceled
    then (if (failure.retryable && w.canceled) || (failure.retryable && leb max_attempts attempt)
        then (put_store w replayed.0, replayed.1)
        else (put_store w failed.0, failed.1))
    else (w, some e)

-- The next answer of the provider, and what happens meanwhile.
unfoldable pub send : CreateJob → StepKind → World → World × Answer
unfolding tombstone
send j kind w = elim w.replies [
  | [] ↦ (note (sent kind (refused (plain "closed"))) w, refused (plain "closed"))
  | r ∷ rs ↦ (
    record w {
      store = if r.tombstones then tombstone w.store j.canonical else w.store;
      replies = rs;
      canceled = w.canceled || r.cancels;
      log = sent kind r.answer ∷ w.log;
    },
    r.answer,
  )
]

-- The aliases of a route that its sync set still owns are all of them.
unfoldable pub owns_route : Store → CreateJob → Bool
unfolding count_in_set
owns_route s j =
    count_in_set s j.sync_set j.source j.destination == (if j.source == j.destination then 1 else 2)

-- `assertRouteSet`
unfoldable pub assert_route_set : Store → CreateJob → Store × Option GoError
assert_route_set s j =
    let s' = record s { faults = later_faults s.faults } in
    if next_fault s.faults
    then (s', some err_database)
    else if owns_route s j
    then (s', none)
    else (s', new_failure destination_missing (pos 0) (some (plain "route ownership changed")))

-- `SavePollProviderRef`, of a poll that has one.
abbrev pub save_poll : CreateJob → MessageRef → Store → Store × Option GoError
save_poll j ref s =
    if j.kind == "poll" && not (ref.provider == "") && not (ref.provider_reference == "")
    then save_poll_provider_ref s
        (record { canonical = j.canonical; endpoint = j.destination; provider = ref.provider })
        ref.provider_reference
    else (s, none)

-- The end of a delivery that succeeded, with the copy and the poll reference stored.
abbrev pub conclude : CreateJob → MessageRef → World → World
conclude j ref w = record w {
  store = (delete_delivery_operation w.store (op_key j)).0;
  known_copies =
      insert (record { first = j.destination; second = ref.remote_message_id }) j.canonical
        w.known_copies;
  log = flushed ∷ persisted ∷ (if j.kind == "poll" then poll_companion ∷ w.log else w.log);
}

unfoldable pub finish_success : CreateJob → ℕ → MessageRef → World → Result
finish_success j attempt ref w =
    let saved = save_poll j ref w.store in
    elim saved.1 [
      | some e ↦ finish_failure j attempt e (put_store w saved.0)
      | none ↦ (conclude j ref (put_store w saved.0), none)
    ]

unfoldable pub record_copy : CreateJob → ℕ → MessageRef → World → Result
record_copy j attempt ref w =
    let read = is_tombstoned w.store j.canonical in
    let w1 = put_store w read.0 in
    elim read.1.0 [
      | none ↦ finish_failure j attempt read.1.1 w1
      | some true ↦ (
        put_store (note (deleted ref) w1) (delete_delivery_operation w1.store (op_key j)).0,
        none,
      )
      | some false ↦
          let added =
            add_message_copy w1.store j.canonical j.destination ref.remote_message_id true in
          elim added.1 [
            | some e ↦ finish_failure j attempt e (put_store w1 added.0)
            | none ↦ finish_success j attempt ref (put_store w1 added.0)
          ]
    ]

-- A refused request: the step is ambiguous when the provider may have accepted it.
unfoldable pub refuse : CreateJob → ℕ → StepKind → GoError → World → Result
refuse j attempt kind e w = finish_failure j attempt e (
    if (classify (some e)).certainty == send_unknown
    then put_store w (complete_create_step w.store (step_key j kind) "" true).0
    else w)

unfoldable pub valid_ref : CreateJob → MessageRef → Bool
unfolding is_space
valid_ref j ref = ref.endpoint == j.destination && not (all is_space (codes ref.remote_message_id))

unfoldable pub accept_primary : CreateJob → ℕ → MessageRef → World → Result
accept_primary j attempt ref w =
    if not (valid_ref j ref)
    then finish_failure j attempt (plain "transport returned invalid destination message reference")
        w
    else (let done =
          complete_create_step w.store (step_key j primary) ref.remote_message_id false in
        elim done.1 [
          | some e ↦ finish_failure j attempt e (put_store w done.0)
          | none ↦ record_copy j attempt ref (put_store w done.0)
        ])

abbrev primary_answer : CreateJob → ℕ → World → Answer → Result
primary_answer j attempt w (refused e) = refuse j attempt primary e w
primary_answer j attempt w (accepted ref) = accept_primary j attempt ref w

unfoldable pub on_primary : CreateJob → ℕ → CreateStep → World → Result
on_primary j attempt step w = elim step.state [
  | ambiguous ↦ (w, none)
  | complete ↦
      record_copy j attempt
        (record {
          endpoint = j.destination;
          remote_message_id = step.remote_message_id;
          provider = "";
          provider_reference = "";
        })
        w
  | pending ↦ primary_answer j attempt (send j primary w).0 (send j primary w).1
]

unfoldable pub run_primary : CreateJob → ℕ → World → Result
run_primary j attempt w =
    let read = create_step w.store (step_key j primary) in
    elim read.1.0 [
      | none ↦ finish_failure j attempt read.1.1 (put_store w read.0)
      | some step ↦ on_primary j attempt step (put_store w read.0)
    ]

abbrev companion_answer : CreateJob → ℕ → World → Answer → Result
companion_answer j attempt w (refused e) = refuse j attempt companion e w
companion_answer j attempt w (accepted ref) =
    let done = complete_create_step w.store (step_key j companion) "" false in
    elim done.1 [
      | some e ↦ finish_failure j attempt e (put_store w done.0)
      | none ↦ run_primary j attempt (put_store w done.0)
    ]

unfoldable pub on_companion : CreateJob → ℕ → CreateStep → World → Result
on_companion j attempt step w = elim step.state [
  | ambiguous ↦ (w, none)
  | complete ↦ run_primary j attempt w
  | pending ↦ companion_answer j attempt (send j companion w).0 (send j companion w).1
]

unfoldable pub run_companion : CreateJob → ℕ → World → Result
run_companion j attempt w =
    let read = create_step w.store (step_key j companion) in
    if has_companion j
    then elim read.1.0 [
      | none ↦ finish_failure j attempt read.1.1 (put_store w read.0)
      | some step ↦ on_companion j attempt step (put_store w read.0)
    ]
    else run_primary j attempt w

abbrev after_route : CreateJob → ℕ → World → Option GoError → Result
after_route j attempt w (some e) = finish_failure j attempt e w
after_route j attempt w none = run_companion j attempt w

abbrev after_begin : CreateJob → ℕ → World → Option GoError → Result
after_begin j attempt w (some e) = (w, some e)
after_begin j attempt w none =
    let asserted = assert_route_set w.store j in
    after_route j attempt (put_store w asserted.0) asserted.1

-- The job, at an attempt's number.
unfoldable pub job : CreateJob → ℕ → World → Result
job j attempt w =
    let read = is_tombstoned w.store j.canonical in
    let w1 = put_store w read.0 in
    elim read.1.0 [
      | none ↦ (w1, some read.1.1)
      | some true ↦ (put_store w1 (delete_delivery_operation w1.store (op_key j)).0, none)
      | some false ↦
          let begun = begin_delivery_attempt w1.store (op_key j) in
          after_begin j attempt (put_store w1 begun.0) begun.1
    ]

abbrev pub fresh_step : CreateStep
fresh_step = record { state = pending; remote_message_id = "" }

-- The steps that a create has.
abbrev pub queue_steps : CreateJob → Store → Store × Option GoError
queue_steps j s =
    let first = upsert_create_step s (step_key j primary) fresh_step in
    elim first.1 [
      | some e ↦ first
      | none ↦
          if has_companion j
          then upsert_create_step first.0 (step_key j companion) fresh_step
          else first
    ]

abbrev pub in_flight : Operation → Bool
in_flight op = elim op.state [ queued ↦ true | retrying ↦ true | _ ↦ false ]

abbrev pub fresh_operation : Operation
fresh_operation = record { state = queued; attempt_count = 0; failure_class = none }

abbrev pub queue_create : CreateJob → Option GoError → World → Result
queue_create j lane w =
    let inserted = upsert_delivery_operation w.store (op_key j) fresh_operation in
    let stepped = queue_steps j inserted.0 in
    elim inserted.1 [
      | some e ↦ (put_store w inserted.0, some e)
      | none ↦ elim stepped.1 [
        | some e ↦ (put_store w stepped.0, some e)
        | none ↦ elim lane [
          | none ↦ (put_store w stepped.0, none)
          | some e ↦ (put_store w (mark_awaiting_replay stepped.0 (op_key j)).0, some e)
        ]
      ]
    ]

-- Until the job is queued: `label` and `lane` are the errors of `senderLabelFor` and `EnqueueRetry`.
unfoldable pub enqueue_create : CreateJob → (label lane : Option GoError) → World → Result
enqueue_create j (some e) lane w = (w, some e)
enqueue_create j none lane w =
    let read = delivery_operation w.store (op_key j) in
    let w1 = put_store w read.0 in
    elim read.1.0 [
      | some op ↦ if in_flight op then (w1, none) else queue_create j lane w1
      | none ↦ if is_no_rows read.1.1 then queue_create j lane w1 else (w1, some read.1.1)
    ]
