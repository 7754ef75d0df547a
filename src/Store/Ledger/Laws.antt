-- ===== src/Store/Ledger/Laws.antt =====
-- The statements that leave the create steps alone, and what completing a step does.
use message_sync.Base.{
  ◌+◌, eq_string, delete, Bool, true, false, Option, none, some, String, List, [], if◌then◌else◌,
  ◌&&◌, Bool-cases, ◌⊎◌, Option-cases, inl, inr, lookup, insert, lookup-insert, ◌≡◌, refl, arith,
}
use message_sync.Transport.Failure.{GoError, FailureClass}
use message_sync.Store.Cursors.{next_fault, later_faults}
use message_sync.Store.Ledger.{
  require_opaque, validate_endpoint, err_invalid, err_database, Store, Operation, CreateStep,
  DeliveryState, retrying, awaiting_replay, delivery_failed, complete, ambiguous, exec,
  change_operation, tombstone, begin_delivery_attempt, set_delivery_operation_state,
  mark_awaiting_replay, mark_failed, delete_delivery_operation, upsert_delivery_operation,
  complete_create_step, upsert_create_step, add_message_copy, save_poll_provider_ref, is_tombstoned,
  delivery_operation,
}
use message_sync.Store.Ledger.Keys.{
  OpKey, StepKey, PollKey, eq_poll_key, eq_op_key, eq_step_key, eq_copy_key,
}

-- A statement that brings no failure to come and leaves the create steps alone.
pub record Quiet (s s' : Store) : Type 0 where
  pub reliable : s.faults ≡ [] → s'.faults ≡ []
  pub same_steps : s'.steps ≡ s.steps

abbrev QuietResult : {A : Type 0} → Store → Store × A → Type 0
QuietResult s r = Quiet s r.0

later_faults-[] : (fs : List Bool) → fs ≡ [] → later_faults fs ≡ []
later_faults-[] fs h = rw h refl

pub Quiet-refl : (s : Store) → Quiet s s
Quiet-refl s = record { reliable = λ h. h; same_steps = refl }

pub read-Quiet : (s : Store) → Quiet s (record s { faults = later_faults s.faults })
read-Quiet s = record { reliable = later_faults-[] s.faults; same_steps = refl }

exec-Quiet :
    (s : Store) (valid : Bool) (written : Store)
    → written.steps ≡ s.steps
    → Quiet s (exec s valid written).0
unfolding exec
exec-Quiet s false written same = Quiet-refl s
exec-Quiet s true written same = elim (Bool-cases (next_fault s.faults)) [
  | inl bad ↦ simp (bad, exec) (read-Quiet s)
  | inr good ↦ simp (good, exec) (record { reliable = later_faults-[] s.faults; same_steps = same })
]

change_operation-steps :
    (s : Store) (k : OpKey) (f : Operation → Operation) → (change_operation s k f).steps ≡ s.steps
change_operation-steps s k f = elim (Option-cases (lookup k s.operations)) [
  | inl absent ↦ simp (absent, change_operation) refl
  | inr (op, there) ↦ simp (there, change_operation) refl
]

pub begin_delivery_attempt-Quiet : (s : Store) (k : OpKey) → Quiet s (begin_delivery_attempt s k).0
unfolding begin_delivery_attempt
begin_delivery_attempt-Quiet s k =
    exec-Quiet s _
      (change_operation s k
        λ op. record op { state = retrying; attempt_count = op.attempt_count + 1 })
      (change_operation-steps s k _)

set_delivery_operation_state-Quiet :
    (s : Store) (k : OpKey) (state : DeliveryState) (class : Option FailureClass)
    → Quiet s (set_delivery_operation_state s k state class).0
unfolding set_delivery_operation_state
set_delivery_operation_state-Quiet s k state class =
    exec-Quiet s _ (change_operation s k λ op. record op { state = state; failure_class = class })
      (change_operation-steps s k _)

pub mark_awaiting_replay-Quiet : (s : Store) (k : OpKey) → Quiet s (mark_awaiting_replay s k).0
unfolding mark_awaiting_replay
mark_awaiting_replay-Quiet s k = set_delivery_operation_state-Quiet s k awaiting_replay none

pub mark_failed-Quiet :
    (s : Store) (k : OpKey) (class : FailureClass) → Quiet s (mark_failed s k class).0
unfolding mark_failed
mark_failed-Quiet s k class = set_delivery_operation_state-Quiet s k delivery_failed (some class)

pub delete_delivery_operation-Quiet :
    (s : Store) (k : OpKey) → Quiet s (delete_delivery_operation s k).0
unfolding delete_delivery_operation
delete_delivery_operation-Quiet s k =
    exec-Quiet s _ (record s { operations = delete k s.operations }) refl

pub upsert_delivery_operation-Quiet :
    (s : Store) (k : OpKey) (op : Operation) → Quiet s (upsert_delivery_operation s k op).0
unfolding upsert_delivery_operation
upsert_delivery_operation-Quiet s k op = elim (Option-cases (lookup k s.operations)) [
  | inl absent ↦
      simp (absent, upsert_delivery_operation)
        (exec-Quiet s _ (record s { operations = insert k op s.operations }) refl)
  | inr (old, there) ↦ simp (there, upsert_delivery_operation) (exec-Quiet s _ s refl)
]

pub save_poll_provider_ref-Quiet :
    (s : Store) (k : PollKey) (reference : String)
    → Quiet s (save_poll_provider_ref s k reference).0
unfolding save_poll_provider_ref
save_poll_provider_ref-Quiet s k reference =
    exec-Quiet s _ (record s { poll_refs = insert k reference s.poll_refs }) refl

pub is_tombstoned-Quiet : (s : Store) (c : String) → Quiet s (is_tombstoned s c).0
unfolding is_tombstoned
is_tombstoned-Quiet s c = elim (Bool-cases (require_opaque c)) [
  | inr wrong ↦ simp (wrong, is_tombstoned) (Quiet-refl s)
  | inl right ↦ elim (Bool-cases (next_fault s.faults)) [
    | inl bad ↦ simp (right, bad, is_tombstoned) (read-Quiet s)
    | inr good ↦ simp (right, good, is_tombstoned) (read-Quiet s)
  ]
]

pub delivery_operation-Quiet : (s : Store) (k : OpKey) → Quiet s (delivery_operation s k).0
unfolding delivery_operation
delivery_operation-Quiet s k = elim (Bool-cases (next_fault s.faults)) [
  | inl bad ↦ simp (bad, delivery_operation) (read-Quiet s)
  | inr good ↦ simp (good, delivery_operation) (read-Quiet s)
]

pub tombstone-Quiet : (s : Store) (c : String) → Quiet s (tombstone s c)
unfolding tombstone
tombstone-Quiet s c = elim (Option-cases (lookup c s.canonicals)) [
  | inl absent ↦ simp (absent, tombstone) (Quiet-refl s)
  | inr (t, there) ↦ simp (there, tombstone) (record { reliable = λ h. h; same_steps = refl })
]

-- The three ends of `AddMessageCopy`: invalid arguments, a failed statement, and the new row.
pub added_cases {ℓ} :
    (P : Store × Option GoError → Type ℓ) (s : Store) (c e r : String) (own : Bool)
    → P (s, some err_invalid)
    → P (record s { faults = later_faults s.faults }, some err_database)
    → P (
      record s {
        faults = later_faults s.faults;
        copies =
            insert
              (record { first = c; second = e })
              (record { remote_message_id = r; from_self = own })
              s.copies;
        remotes = insert (record { first = e; second = r }) c s.remotes;
      },
      none,
    )
    → P (add_message_copy s c e r own)
unfolding add_message_copy
added_cases P s c e r own wrong bad good =
    elim (Bool-cases (require_opaque c && validate_endpoint e && require_opaque r)) [
      | inr h ↦ simp (h, add_message_copy) wrong
      | inl h ↦ elim (Bool-cases (next_fault s.faults)) [
        | inl f ↦ simp (h, f, add_message_copy) bad
        | inr f ↦ elim (Option-cases (lookup c s.canonicals)) [
          | inl a ↦ simp (h, f, a, add_message_copy) bad
          | inr (t, a) ↦ elim (Option-cases (lookup (record { first = c; second = e }) s.copies)) [
            | inr (o, b) ↦ simp (h, f, a, b, add_message_copy) bad
            | inl b ↦ elim (Option-cases (lookup (record { first = e; second = r }) s.remotes)) [
              | inr (o, d) ↦ simp (h, f, a, b, d, add_message_copy) bad
              | inl d ↦ simp (h, f, a, b, d, add_message_copy) good
            ]
          ]
        ]
      ]
    ]

pub add_message_copy-Quiet :
    (s : Store) (c e r : String) (own : Bool) → Quiet s (add_message_copy s c e r own).0
add_message_copy-Quiet s c e r own =
    added_cases (QuietResult s) s c e r own (Quiet-refl s) (read-Quiet s)
      (record { reliable = later_faults-[] s.faults; same_steps = refl })

-- With a reliable store, completing a step that is there writes it, and touches no other step.
pub record Completes (s : Store) (k : StepKey) (remote : String) (amb : Bool) : Type 0 where
  pub succeeds : (complete_create_step s k remote amb).1 ≡ none
  pub stays_reliable : (complete_create_step s k remote amb).0.faults ≡ []
  pub writes :
      (j : StepKey)
      → lookup j (complete_create_step s k remote amb).0.steps ≡ (
          if eq_step_key.equal k j
          then some
              (record { state = if amb then ambiguous else complete; remote_message_id = remote })
          else lookup j s.steps)

pub complete_create_step-Completes :
    (s : Store) (k : StepKey) (step : CreateStep) (remote : String) (amb : Bool)
    → s.faults ≡ []
    → lookup k s.steps ≡ some step
    → Completes s k remote amb
unfolding complete_create_step exec
complete_create_step-Completes s k step remote amb reliable there = record {
  succeeds = simp (there, reliable) refl;
  stays_reliable = simp (there, reliable) refl;
  writes = λ j. simp (there, reliable) (lookup-insert k j _ s.steps);
}

-- Queueing a step changes only a step that is not there.
pub upsert_create_step-lookup :
    (s : Store) (k : StepKey) (step : CreateStep) (j : StepKey)
    → (lookup j (upsert_create_step s k step).0.steps ≡ lookup j s.steps)
      ⊎ ((lookup j s.steps ≡ none) × (lookup j (upsert_create_step s k step).0.steps ≡ some step))
unfolding upsert_create_step exec
upsert_create_step-lookup s k step j = elim (Option-cases (lookup k s.steps)) [
  | inr (old, there) ↦ rw there (ground arith)
  | inl absent ↦
      rw absent (ground (arith, lookup-insert k j step s.steps, eq_step_key.equal_iff k j))
]

exec-reliable :
    (s : Store) (valid : Bool) (written : Store)
    → s.faults ≡ []
    → (exec s valid written).0.faults ≡ []
unfolding exec
exec-reliable s false written h = h
exec-reliable s true written h = simp (h, exec) refl

pub upsert_create_step-reliable :
    (s : Store) (k : StepKey) (step : CreateStep)
    → s.faults ≡ []
    → (upsert_create_step s k step).0.faults ≡ []
unfolding upsert_create_step exec
upsert_create_step-reliable s k step h = elim (Option-cases (lookup k s.steps)) [
  | inl absent ↦
      simp (absent, upsert_create_step)
        (exec-reliable s _ (record s { steps = insert k step s.steps }) h)
  | inr (old, there) ↦ simp (there, upsert_create_step) (exec-reliable s _ s h)
]
