-- ===== src/Router/Create/Cases.antt =====
-- The ends of the create job's parts, as rules: a property of each end is one of the whole.
use message_sync.Base.{ℕ, Option, some, leb, ◌==◌, eq_nat, Bool-cases, inl, inr, subst}
use message_sync.Transport.Failure.{GoError, classify, send_unknown}
use message_sync.Store.Ledger.{mark_awaiting_replay, mark_failed}
use message_sync.Store.Ledger.Keys.{eq_copy_key}
use message_sync.Router.Create.{
  World, CreateJob, Result, op_key, put_store, max_attempts, finish_failure,
}

pub finish_failure_cases {ℓ} :
    (P : Result → Type ℓ) (j : CreateJob) (n : ℕ) (e : GoError) (w : World)
    → ((o : Option GoError) → P (put_store w (mark_awaiting_replay w.store (op_key j)).0, o))
    → ((o : Option GoError)
        → P (put_store w (mark_failed w.store (op_key j) (classify (some e)).class).0, o))
    → P (w, some e)
    → P (finish_failure j n e w)
unfolding finish_failure
finish_failure_cases P j n e w replayed failed again =
    elim (Bool-cases ((classify (some e)).certainty == send_unknown)) [
      | inl a ↦ simp (a, finish_failure) (replayed _)
      | inr a ↦ elim (Bool-cases (classify (some e)).retryable) [
        | inr b ↦ simp (a, b, finish_failure) (failed _)
        | inl b ↦ elim (Bool-cases (leb max_attempts n)) [
          | inl c ↦ elim (Bool-cases w.canceled) [
            | inl d ↦
                simp (a, b, c, d, finish_failure)
                  (subst
                    (λ x. P (
                      record w {
                        store = (mark_awaiting_replay w.store (op_key j)).0;
                        canceled = x;
                      },
                      (mark_awaiting_replay w.store (op_key j)).1,
                    ))
                    d (replayed _))
            | inr d ↦
                simp (a, b, c, d, finish_failure)
                  (subst
                    (λ x. P (
                      record w {
                        store = (mark_awaiting_replay w.store (op_key j)).0;
                        canceled = x;
                      },
                      (mark_awaiting_replay w.store (op_key j)).1,
                    ))
                    d (replayed _))
          ]
          | inr c ↦ elim (Bool-cases w.canceled) [
            | inl d ↦
                simp (a, b, c, d, finish_failure)
                  (subst
                    (λ x. P (
                      record w {
                        store = (mark_awaiting_replay w.store (op_key j)).0;
                        canceled = x;
                      },
                      (mark_awaiting_replay w.store (op_key j)).1,
                    ))
                    d (replayed _))
            | inr d ↦ simp (a, b, c, d, finish_failure) again
          ]
        ]
      ]
    ]
