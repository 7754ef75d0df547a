-- ===== src/Router/Mutations.antt =====
-- internal/router/router.go, `enqueueMutation` and the job it queues, with the edits of one message at
-- one destination as its user: `pendingEdits` at that key, and the revisions. What the provider
-- answers to each edit is a list. Reactions and poll result edits use the same job.
pub mod Edits
use message_sync.Base.{
  ℕ, ◌+◌, Bool, true, false, not, ◌||◌, Option, none, some, String, List, [], ◌∷◌, leb,
  if◌then◌else◌, ◌==◌, eq_nat,
}
use message_sync.Transport.Failure.{GoError, plain, classify}
use message_sync.Store.Ledger.{
  Store, begin_delivery_attempt, upsert_delivery_operation, delete_delivery_operation, mark_failed,
  mark_awaiting_replay,
}
use message_sync.Store.Ledger.Keys.{OpKey}
use message_sync.Router.Create.{fresh_operation, max_attempts}

pub record PendingEdit : Type 0 where
  pub revision : ℕ
  pub text : String

pub record EditWorld : Type 0 where
  pub store : Store
  pub pending : Option PendingEdit
  pub next_revision : ℕ
  pub answers : List (Option GoError)
  pub canceled : Bool
  -- The edits that the provider was asked for, latest first.
  pub executed : List PendingEdit

abbrev pub set_store : EditWorld → Store → EditWorld
set_store w s = record w { store = s }

-- The end of an attempt that failed.
unfoldable pub fail_mutation : OpKey → ℕ → GoError → EditWorld → EditWorld × Option GoError
fail_mutation k attempt e w =
    let failure = classify (some e) in
    if not failure.retryable
    then (set_store w (mark_failed w.store k failure.class).0, none)
    else if leb max_attempts attempt || w.canceled
    then (set_store w (mark_awaiting_replay w.store k).0, none)
    else (w, some e)

-- `execute`, and what follows.
unfoldable pub execute_mutation :
    OpKey
    → (EditWorld → EditWorld × Option GoError)
    → (EditWorld → EditWorld)
    → ℕ
    → EditWorld
    → EditWorld × Option GoError
execute_mutation k execute succeeded attempt w = elim (execute w).1 [
  | some e ↦ fail_mutation k attempt e (execute w).0
  | none ↦
      let w' = (execute w).0 in
      (succeeded (set_store w' (delete_delivery_operation w'.store k).0), none)
]

unfoldable pub mutation_job :
    OpKey
    → (EditWorld → Bool)
    → (EditWorld → EditWorld × Option GoError)
    → (EditWorld → EditWorld)
    → ℕ
    → EditWorld
    → EditWorld × Option GoError
mutation_job k current execute succeeded attempt w =
    let begun = begin_delivery_attempt w.store k in
    if not (current w)
    then (set_store w (delete_delivery_operation w.store k).0, none)
    else elim begun.1 [
      | some e ↦ (set_store w begun.0, some e)
      | none ↦ execute_mutation k execute succeeded attempt (set_store w begun.0)
    ]

-- `lane` is the error of `EnqueueRetry`.
unfoldable pub enqueue_mutation :
    OpKey → (lane : Option GoError) → EditWorld → EditWorld × Option GoError
enqueue_mutation k lane w =
    let inserted = upsert_delivery_operation w.store k fresh_operation in
    elim inserted.1 [
      | some e ↦ (set_store w inserted.0, some e)
      | none ↦ elim lane [
        | none ↦ (set_store w inserted.0, none)
        | some e ↦ (set_store w (mark_awaiting_replay inserted.0 k).0, some e)
      ]
    ]

abbrev pub is_revision : ℕ → Option PendingEdit → Bool
is_revision revision none = false
is_revision revision (some edit) = edit.revision == revision

-- `pendingEditCurrent`
unfoldable pub pending_edit_current : ℕ → EditWorld → Bool
pending_edit_current revision w = is_revision revision w.pending

abbrev first_answer : List (Option GoError) → Option GoError
first_answer [] = some (plain "closed")
first_answer (a ∷ as_rest) = a

abbrev later_answers : List (Option GoError) → List (Option GoError)
later_answers [] = []
later_answers (a ∷ as_rest) = as_rest

unfoldable pub execute_edit : PendingEdit → EditWorld → EditWorld × Option GoError
execute_edit edit w = (
  record w { answers = later_answers w.answers; executed = edit ∷ w.executed },
  first_answer w.answers,
)

unfoldable pub forget_edit : ℕ → EditWorld → EditWorld
unfolding pending_edit_current
forget_edit revision w = if pending_edit_current revision w then record w { pending = none } else w

unfoldable pub edit_job : OpKey → PendingEdit → ℕ → EditWorld → EditWorld × Option GoError
edit_job k edit attempt w =
    mutation_job k (pending_edit_current edit.revision) (execute_edit edit)
      (forget_edit edit.revision) attempt w

-- An edit of the source message: the next revision, pending; when the destination has a copy of the
-- message, its job is queued under the key.
unfoldable pub request_edit :
    (ℕ → OpKey) → String → (has_copy : Bool) → (lane : Option GoError) → EditWorld → EditWorld
request_edit key text has_copy lane w =
    let revision = w.next_revision + 1 in
    let noted = record w {
      next_revision = revision;
      pending = some (record { revision = revision; text = text });
    } in
    if has_copy then (enqueue_mutation (key revision) lane noted).0 else noted

-- The edit part of `flushPendingMutations`, once the destination has a copy.
unfoldable pub flush_edit :
    (ℕ → OpKey) → (has_copy : Bool) → (lane : Option GoError) → EditWorld → EditWorld
flush_edit key has_copy lane w = elim w.pending [
  | none ↦ w
  | some edit ↦ if has_copy then (enqueue_mutation (key edit.revision) lane w).0 else w
]
