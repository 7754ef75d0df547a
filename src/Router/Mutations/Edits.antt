-- ===== src/Router/Mutations/Edits.antt =====
-- The order of the edits of one message at one destination.
use message_sync.Base.{
  ℕ, ◌+◌, ◌≤◌, Bool, true, ◌||◌, Option, none, some, String, List, [], ◌∷◌, All, leb, eq_nat,
  nat_eq_iff, Bool-cases, Option-cases, inl, inr, ◌≡◌, arith, sym, subst,
}
use message_sync.Transport.Failure.{GoError, classify}
use message_sync.Store.Ledger.{Store, begin_delivery_attempt, upsert_delivery_operation}
use message_sync.Store.Ledger.Keys.{OpKey}
use message_sync.Router.Create.{fresh_operation, max_attempts}
use message_sync.Router.Mutations.{
  PendingEdit, EditWorld, set_store, fail_mutation, execute_mutation, mutation_job,
  enqueue_mutation, pending_edit_current, execute_edit, forget_edit, edit_job, request_edit,
  flush_edit,
}

abbrev pub Below : ℕ → List PendingEdit → Type 0
Below n = All (λ e. e.revision ≤ n)

-- Latest first: no edit is older than one before it.
abbrev pub NewestFirst : List PendingEdit → Type 0
NewestFirst [] = Unit {0}
NewestFirst (e ∷ es) = Below e.revision es × NewestFirst es

abbrev Awaited : List PendingEdit → ℕ → Option PendingEdit → Type 0
Awaited es next none = Unit {0}
Awaited es next (some p) = Below p.revision es × (p.revision ≤ next)

-- What holds of the pending edit and of those that were executed.
pub record IsOrdered (w : EditWorld) : Type 0 where
  pub known : Below w.next_revision w.executed
  pub ordered : NewestFirst w.executed
  pub awaited : Awaited w.executed w.next_revision w.pending

Below-mono : (m n : ℕ) (es : List PendingEdit) → m ≤ n → Below m es → Below n es
Below-mono m n [] l h = tt
Below-mono m n (e ∷ es) l h = (omega (arith, h.0), Below-mono m n es l h.1)

set_store-IsOrdered : (w : EditWorld) (s : Store) → IsOrdered w → IsOrdered (set_store w s)
set_store-IsOrdered w s o = record { known = o.known; ordered = o.ordered; awaited = o.awaited }

fail_mutation-IsOrdered :
    (k : OpKey) (n : ℕ) (e : GoError) (w : EditWorld)
    → IsOrdered w
    → IsOrdered (fail_mutation k n e w).0
unfolding fail_mutation
fail_mutation-IsOrdered k n e w o = elim (Bool-cases (classify (some e)).retryable) [
  | inr final ↦ simp (final, fail_mutation) (set_store-IsOrdered w _ o)
  | inl again ↦ elim (Bool-cases (leb max_attempts n || w.canceled)) [
    | inl over ↦ simp (again, over, fail_mutation) (set_store-IsOrdered w _ o)
    | inr more ↦ simp (again, more, fail_mutation) o
  ]
]

forget_edit-IsOrdered : (r : ℕ) (w : EditWorld) → IsOrdered w → IsOrdered (forget_edit r w)
unfolding forget_edit
forget_edit-IsOrdered r w o = elim (Bool-cases (pending_edit_current r w)) [
  | inl mine ↦
      simp (mine, forget_edit) (record { known = o.known; ordered = o.ordered; awaited = tt })
  | inr other ↦ simp (other, forget_edit) o
]

execute_edit-IsOrdered :
    (edit : PendingEdit) (w : EditWorld)
    → pending_edit_current edit.revision w ≡ true
    → IsOrdered w
    → IsOrdered (execute_edit edit w).0
unfolding execute_edit pending_edit_current
execute_edit-IsOrdered edit w mine o = elim (Option-cases w.pending) [
  | inl idle ↦ absurd (ground (arith, simp idle at mine))
  | inr (p, there) ↦
      let same = (nat_eq_iff p.revision edit.revision).0 (simp there at mine) in
      let waits = subst (Awaited w.executed w.next_revision) there o.awaited in
      record {
        known = (omega (arith, waits.1, same), o.known);
        ordered = (subst (λ r. Below r w.executed) same waits.0, o.ordered);
        awaited =
            subst (Awaited (edit ∷ w.executed) w.next_revision) (sym there)
              ((omega (arith, same), waits.0), waits.1);
      }
]

current_store :
    (r : ℕ) (w : EditWorld) (s : Store)
    → pending_edit_current r w ≡ true
    → pending_edit_current r (set_store w s) ≡ true
unfolding pending_edit_current
current_store r w s h = h

edit_job-IsOrdered :
    (k : OpKey) (edit : PendingEdit) (n : ℕ) (w : EditWorld)
    → IsOrdered w
    → IsOrdered (edit_job k edit n w).0
unfolding edit_job mutation_job execute_mutation
edit_job-IsOrdered k edit n w o = elim (Bool-cases (pending_edit_current edit.revision w)) [
  | inr stale ↦ simp (stale, edit_job, mutation_job) (set_store-IsOrdered w _ o)
  | inl mine ↦
      let w1 = set_store w (begin_delivery_attempt w.store k).0 in
      let o1 = set_store-IsOrdered w (begin_delivery_attempt w.store k).0 o in
      let o2 = execute_edit-IsOrdered edit w1 (current_store edit.revision w _ mine) o1 in
      elim (Option-cases (begin_delivery_attempt w.store k).1) [
        | inr (e, err) ↦ simp (mine, err, edit_job, mutation_job) o1
        | inl begun ↦ elim (Option-cases (execute_edit edit w1).1) [
          | inr (e, err) ↦
              simp (mine, begun, err, edit_job, mutation_job, execute_mutation)
                (fail_mutation-IsOrdered k n e _ o2)
          | inl done ↦
              simp (mine, begun, done, edit_job, mutation_job, execute_mutation)
                (forget_edit-IsOrdered edit.revision _ (set_store-IsOrdered _ _ o2))
        ]
      ]
]

enqueue_mutation-IsOrdered :
    (k : OpKey) (lane : Option GoError) (w : EditWorld)
    → IsOrdered w
    → IsOrdered (enqueue_mutation k lane w).0
unfolding enqueue_mutation
enqueue_mutation-IsOrdered k lane w o =
    elim (Option-cases (upsert_delivery_operation w.store k fresh_operation).1) [
      | inr (e, err) ↦ simp (err, enqueue_mutation) (set_store-IsOrdered w _ o)
      | inl ok ↦ elim (Option-cases lane) [
        | inl taken ↦ simp (ok, taken, enqueue_mutation) (set_store-IsOrdered w _ o)
        | inr (e, err) ↦ simp (ok, err, enqueue_mutation) (set_store-IsOrdered w _ o)
      ]
    ]

request_edit-IsOrdered :
    (key : ℕ → OpKey) (text : String) (has_copy : Bool) (lane : Option GoError) (w : EditWorld)
    → IsOrdered w
    → IsOrdered (request_edit key text has_copy lane w)
unfolding request_edit
request_edit-IsOrdered key text has_copy lane w o =
    let newer = Below-mono w.next_revision (w.next_revision + 1) w.executed (omega arith) o.known in
    let noted : IsOrdered (record w {
      next_revision = w.next_revision + 1;
      pending = some (record { revision = w.next_revision + 1; text = text });
    }) =
      record { known = newer; ordered = o.ordered; awaited = (newer, omega arith) } in
    elim (Bool-cases has_copy) [
      | inl copied ↦ rw copied (enqueue_mutation-IsOrdered (key (w.next_revision + 1)) lane _ noted)
      | inr bare ↦ rw bare noted
    ]

flush_edit-IsOrdered :
    (key : ℕ → OpKey) (has_copy : Bool) (lane : Option GoError) (w : EditWorld)
    → IsOrdered w
    → IsOrdered (flush_edit key has_copy lane w)
unfolding flush_edit
flush_edit-IsOrdered key has_copy lane w o = elim (Option-cases w.pending) [
  | inl idle ↦ simp (idle, flush_edit) o
  | inr (edit, there) ↦ elim (Bool-cases has_copy) [
    | inl copied ↦
        simp (there, copied, flush_edit) (enqueue_mutation-IsOrdered (key edit.revision) lane w o)
    | inr bare ↦ simp (there, bare, flush_edit) o
  ]
]

-- A user edits the message, the edit waiting for the message's copy is queued, or a lane runs an
-- attempt of the job of some edit, of this or an earlier revision.
pub data EditEvent : Type 0 where
  requested : (text : String) (has_copy : Bool) (lane : Option GoError) → EditEvent
  flushed : (has_copy : Bool) (lane : Option GoError) → EditEvent
  attempted : PendingEdit → (attempt : ℕ) → EditEvent

unfoldable pub edit_event : (ℕ → OpKey) → EditEvent → EditWorld → EditWorld
edit_event key (requested text has_copy lane) w = request_edit key text has_copy lane w
edit_event key (flushed has_copy lane) w = flush_edit key has_copy lane w
edit_event key (attempted edit n) w = (edit_job (key edit.revision) edit n w).0

unfoldable pub edit_history : (ℕ → OpKey) → List EditEvent → EditWorld → EditWorld
unfolding edit_event
edit_history key [] w = w
edit_history key (e ∷ es) w = edit_history key es (edit_event key e w)

edit_history-IsOrdered :
    (key : ℕ → OpKey) (es : List EditEvent) (w : EditWorld)
    → IsOrdered w
    → IsOrdered (edit_history key es w)
unfolding edit_history edit_event
edit_history-IsOrdered key [] w o = o
edit_history-IsOrdered key (requested text has_copy lane ∷ es) w o =
    edit_history-IsOrdered key es _ (request_edit-IsOrdered key text has_copy lane w o)
edit_history-IsOrdered key (flushed has_copy lane ∷ es) w o =
    edit_history-IsOrdered key es _ (flush_edit-IsOrdered key has_copy lane w o)
edit_history-IsOrdered key (attempted edit n ∷ es) w o =
    edit_history-IsOrdered key es _ (edit_job-IsOrdered (key edit.revision) edit n w o)

-- From no edits on, over every history of edits and of attempts of their jobs, in any order, with any
-- answers of the provider and any failures of the database: the provider is never asked for an edit
-- that is older than one that it was asked for before.
pub edits_in_order :
    (key : ℕ → OpKey) (es : List EditEvent) (w : EditWorld)
    → w.pending ≡ none
    → w.executed ≡ []
    → NewestFirst (edit_history key es w).executed
edits_in_order key es w idle silent =
    (edit_history-IsOrdered key es w (record {
      known = subst (Below w.next_revision) (sym silent) tt;
      ordered = subst NewestFirst (sym silent) tt;
      awaited = subst (Awaited w.executed w.next_revision) (sym idle) tt;
    })).ordered
