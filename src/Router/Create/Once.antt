-- ===== src/Router/Create/Once.antt =====
-- A new message reaches a destination at most once, over all runs of its job.
use message_sync.Base.{
  All, subst, sym, ℕ, suc, ◌≤◌, Bool, true, false, not, ◌&&◌, Option, none, some, List, [], ◌∷◌,
  ◌==◌, eq_nat, if◌then◌else◌, Bool-cases, Option-cases, inl, inr, lookup, ◌≡◌, refl, eq_string,
}
use message_sync.Transport.Failure.{GoError, classify, send_unknown}
use message_sync.Store.Ledger.{
  Store, CreateStep, pending, complete, ambiguous, is_tombstoned, add_message_copy,
}
use message_sync.Store.Ledger.Keys.{StepKind, eq_step_key, step_kind_eq}
use message_sync.Store.Ledger.Laws.{
  Quiet, Quiet-refl, mark_awaiting_replay-Quiet, mark_failed-Quiet, delete_delivery_operation-Quiet,
  save_poll_provider_ref-Quiet, is_tombstoned-Quiet, add_message_copy-Quiet,
}
use message_sync.Router.Create.{
  World, CreateJob, MessageRef, Answer, accepted, refused, Reply, Action, sent, step_key, put_store,
  valid_ref, finish_failure, finish_success, record_copy, save_poll, conclude,
}
use message_sync.Router.Create.Cases.{finish_failure_cases}

-- Whether a request was delivered, as far as anyone can tell: the provider accepted it, with whatever
-- reference, or it is unknown whether it did.
abbrev pub may_have_arrived : Answer → Bool
may_have_arrived (refused e) = (classify (some e)).certainty == send_unknown
may_have_arrived (accepted ref) = true

-- A provider that accepts the message itself names it at its destination.
abbrev pub IsNamed : CreateJob → Answer → Type 0
IsNamed j (refused e) = Unit {0}
IsNamed j (accepted ref) = valid_ref j ref ≡ true

-- What the provider answers, while the job's context stays alive.
abbrev pub IsOrderly : CreateJob → Reply → Type 0
IsOrderly j r = IsNamed j r.answer × (r.cancels ≡ false)

abbrev pub is_delivered : CreateJob → StepKind → Action → Bool
is_delivered j kind (sent k answer) = step_kind_eq k kind && may_have_arrived answer
is_delivered j kind _ = false

abbrev pub deliveries : CreateJob → StepKind → List Action → ℕ
deliveries j kind [] = 0
deliveries j kind (a ∷ log) =
    let rest = deliveries j kind log in if is_delivered j kind a then suc rest else rest

-- The deliveries that a step's state allows to have happened.
abbrev pub allowed : Option CreateStep → ℕ
allowed none = 0
allowed (some step) = elim step.state [ pending ↦ 0 | complete ↦ 1 | ambiguous ↦ 1 ]

-- No statement to come fails, no step had more deliveries than it allows, and the provider is orderly.
pub record IsOnce (j : CreateJob) (w : World) : Type 0 where
  pub reliable : w.store.faults ≡ []
  pub bounded :
      (kind : StepKind) → deliveries j kind w.log ≤ allowed (lookup (step_key j kind) w.store.steps)
  pub orderly : All (IsOrderly j) w.replies

-- What leaves both the steps and the deliveries alone.
record Kept (j : CreateJob) (w w' : World) : Type 0 where
  quiet : Quiet w.store w'.store
  same_log : (kind : StepKind) → deliveries j kind w'.log ≡ deliveries j kind w.log
  same_replies : w'.replies ≡ w.replies

Kept-IsOnce : (j : CreateJob) (w w' : World) → Kept j w w' → IsOnce j w → IsOnce j w'
Kept-IsOnce j w w' kept once = record {
  reliable = kept.quiet.reliable once.reliable;
  bounded = λ kind. simp (kept.quiet.same_steps, kept.same_log kind) (once.bounded kind);
  orderly = subst (All (IsOrderly j)) (sym kept.same_replies) once.orderly;
}

store-Kept : (j : CreateJob) (w : World) (s : Store) → Quiet w.store s → Kept j w (put_store w s)
store-Kept j w s quiet = record { quiet = quiet; same_log = λ kind. refl; same_replies = refl }

pub put_store-IsOnce :
    (j : CreateJob) (w : World) (s : Store)
    → Quiet w.store s
    → IsOnce j w
    → IsOnce j (put_store w s)
put_store-IsOnce j w s quiet once = Kept-IsOnce j w (put_store w s) (store-Kept j w s quiet) once

pub finish_failure-IsOnce :
    (j : CreateJob) (n : ℕ) (e : GoError) (w : World)
    → IsOnce j w
    → IsOnce j (finish_failure j n e w).0
finish_failure-IsOnce j n e w once =
    finish_failure_cases (λ r. IsOnce j r.0) j n e w
      (λ _. put_store-IsOnce j w _ (mark_awaiting_replay-Quiet w.store _) once)
      (λ _. put_store-IsOnce j w _ (mark_failed-Quiet w.store _ _) once) once

save_poll-Quiet : (j : CreateJob) (ref : MessageRef) (s : Store) → Quiet s (save_poll j ref s).0
save_poll-Quiet j ref s =
    elim (Bool-cases
      (j.kind == "poll" && not (ref.provider == "") && not (ref.provider_reference == ""))) [
        | inl poll ↦ simp (poll, save_poll) (save_poll_provider_ref-Quiet s _ _)
        | inr plain ↦ simp (plain, save_poll) (Quiet-refl s)
      ]

conclude-IsOnce :
    (j : CreateJob) (ref : MessageRef) (w : World) → IsOnce j w → IsOnce j (conclude j ref w)
conclude-IsOnce j ref w once =
    Kept-IsOnce j w _
      (record {
        quiet = delete_delivery_operation-Quiet w.store _;
        same_log = λ kind. elim (Bool-cases (j.kind == "poll")) [
          | inl poll ↦ simp (poll, conclude) refl
          | inr plain ↦ simp (plain, conclude) refl
        ];
        same_replies = refl;
      })
      once

finish_success-IsOnce :
    (j : CreateJob) (n : ℕ) (ref : MessageRef) (w : World)
    → IsOnce j w
    → IsOnce j (finish_success j n ref w).0
unfolding finish_success
finish_success-IsOnce j n ref w once =
    let stored =
      put_store-IsOnce j w (save_poll j ref w.store).0 (save_poll-Quiet j ref w.store) once in
    elim (Option-cases (save_poll j ref w.store).1) [
      | inl ok ↦ simp (ok, finish_success) (conclude-IsOnce j ref _ stored)
      | inr (e, err) ↦ simp (err, finish_success) (finish_failure-IsOnce j n e _ stored)
    ]

pub record_copy-IsOnce :
    (j : CreateJob) (n : ℕ) (ref : MessageRef) (w : World)
    → IsOnce j w
    → IsOnce j (record_copy j n ref w).0
unfolding record_copy
record_copy-IsOnce j n ref w once =
    let read = is_tombstoned w.store j.canonical in
    let once1 = put_store-IsOnce j w read.0 (is_tombstoned-Quiet w.store j.canonical) once in
    let added = add_message_copy read.0 j.canonical j.destination ref.remote_message_id true in
    let once2 =
      put_store-IsOnce j (put_store w read.0) added.0 (add_message_copy-Quiet read.0 _ _ _ _)
        once1 in
    elim (Option-cases read.1.0) [
      | inl failed ↦ simp (failed, record_copy) (finish_failure-IsOnce j n _ _ once1)
      | inr (true, gone) ↦
          simp (gone, record_copy)
            (Kept-IsOnce j (put_store w read.0) _
              (record {
                quiet = delete_delivery_operation-Quiet read.0 _;
                same_log = λ kind. refl;
                same_replies = refl;
              })
              once1)
      | inr (false, live) ↦ elim (Option-cases added.1) [
        | inl ok ↦ simp (live, ok, record_copy) (finish_success-IsOnce j n ref _ once2)
        | inr (e, err) ↦ simp (live, err, record_copy) (finish_failure-IsOnce j n e _ once2)
      ]
    ]
