-- ===== src/Delivery/Lanes/Order.antt =====
-- A lane runs the jobs that it accepted in their order, whatever the lanes go through.
use mathlib.Core.List.{append_assoc, append-nil}
use message_sync.Base.{
  subst, insert, ℕ, zero, suc, ap, some, String, List, [], ◌∷◌, ◌++◌, ◌≡◌, refl, sym, ◌∙◌, arith,
  eq_nat, lookup, lookup-insert, length, Bool-cases, Option-cases, inl, inr, ltb, ◌==◌, ==_refl,
  eq_string,
}
use message_sync.Delivery.Retry.{RetryPolicy}
use message_sync.Delivery.Lanes.{
  Lane, Manager, queue, update, offer, enqueue, take_job, work, close, set_retry_policy, Event,
  enqueues, works, updates, policies, closes, Step, step, run, accepted_if,
}
use message_sync.Delivery.Lanes.Views.{
  started_at, accepted_at, started_at-append, accepted_at-append,
}

module _ {J : Type 0} (i : ℕ) where
  -- What has started and what waits is what waited and what was accepted.
  abbrev Balanced : Manager J → Step J → Type 0
  Balanced m s = started_at i s.started ++ queue s.manager i ≡ queue m i ++ accepted_at i s.accepted

  offer-Balanced :
      (m : Manager J) (l : Lane) (j : J)
      → queue (offer m l j).0 i
        ≡ queue m i ++ accepted_at i (accepted_if (offer m l j).1 (some l) j)
  unfolding offer
  offer-Balanced m l j = elim (Bool-cases (ltb (length (queue m l.number)) l.capacity)) [
    | inr full ↦ simp (full, offer) (sym (append-nil (queue m i)))
    | inl room ↦
        simp (room, offer)
          (elim (Bool-cases (l.number == i)) [
            | inl same ↦
                rw (lookup-insert l.number i (queue m l.number ++ j ∷ []) m.queues, same)
                  (ap (λ k. queue m k ++ j ∷ []) ((eq_nat.equal_iff l.number i).0 same))
            | inr other ↦
                rw (lookup-insert l.number i (queue m l.number ++ j ∷ []) m.queues, other)
                  (sym (append-nil (queue m i)))
          ])
  ]

  enqueue-Balanced : (m : Manager J) (k : String) (j : J) → Balanced m (step m (enqueues k j))
  unfolding step enqueue
  enqueue-Balanced m k j = elim (Bool-cases m.closed) [
    | inl shut ↦ rw (shut, enqueue) (sym (append-nil (queue m i)))
    | inr live ↦
        rw (live, enqueue)
          (elim (Option-cases (lookup k m.lanes)) [
            | inl absent ↦ rw absent (sym (append-nil (queue m i)))
            | inr (l, present) ↦ rw present (offer-Balanced m l j)
          ])
  ]

  take_job-Balanced :
      (m : Manager J) (k : ℕ) (js : List J)
      → queue m k ≡ js
      → started_at i (take_job m k js).1 ++ queue (take_job m k js).0 i ≡ queue m i
  unfolding take_job
  take_job-Balanced m k [] q = refl
  take_job-Balanced m k (j ∷ js) q = elim (Bool-cases (k == i)) [
    | inl same ↦
        rw (lookup-insert k i js m.queues, same)
          (sym q ∙ ap (queue m) ((eq_nat.equal_iff k i).0 same))
    | inr other ↦ rw (lookup-insert k i js m.queues, other) refl
  ]

  work-Balanced : (m : Manager J) (k : ℕ) → Balanced m (step m (works k))
  unfolding step work
  work-Balanced m k = take_job-Balanced m k (queue m k) refl ∙ sym (append-nil (queue m i))

  update-Balanced : (m : Manager J) (es : List String) → Balanced m (step m (updates es))
  unfolding step update
  update-Balanced m es = ground (arith, append-nil (queue m i))

  close-Balanced : (m : Manager J) → Balanced m (step m closes)
  unfolding step close
  close-Balanced m = ground (arith, append-nil (queue m i))

  policy-Balanced : (m : Manager J) (p : RetryPolicy) → Balanced m (step m (policies p))
  unfolding step set_retry_policy
  policy-Balanced m p = ground (arith, append-nil (queue m i))

  step-Balanced : (m : Manager J) (ev : Event J) → Balanced m (step m ev)
  step-Balanced m (enqueues k j) = enqueue-Balanced m k j
  step-Balanced m (works k) = work-Balanced m k
  step-Balanced m (updates es) = update-Balanced m es
  step-Balanced m (policies p) = policy-Balanced m p
  step-Balanced m closes = close-Balanced m

  run-Balanced : (m : Manager J) (evs : List (Event J)) → Balanced m (run m evs)
  unfolding run
  run-Balanced m [] = sym (append-nil (queue m i))
  run-Balanced m (ev ∷ evs) =
      let s = step m ev in
      let rest = run s.manager evs in
      rw
        (
          started_at-append i s.started rest.started,
          accepted_at-append i s.accepted rest.accepted,
          append_assoc,
          run-Balanced s.manager evs,
          ← append_assoc,
        )
        (ap (λ started. started ++ accepted_at i rest.accepted) (step-Balanced m ev)
          ∙ append_assoc (queue m i) (accepted_at i s.accepted) (accepted_at i rest.accepted))

  -- Rounds of the lane's goroutine.
  abbrev pub rounds : ℕ → List (Event J)
  rounds zero = []
  rounds (suc n) = works i ∷ rounds n

  rounds_start :
      (m : Manager J) (js : List J)
      → queue m i ≡ js
      → started_at i (run m (rounds (length js))).started ≡ js
  unfolding run step work take_job
  rounds_start m [] q = refl
  rounds_start m (j ∷ js) q =
      let after : Manager J = record m { queues = insert i js m.queues } in
      let rest = rounds_start after js (rw (lookup-insert i i js m.queues, ==_refl i) refl) in
      subst
        (λ qs.
          started_at i
            ((take_job m i qs).1 ++ (run (take_job m i qs).0 (rounds (length js))).started)
          ≡ (j ∷ js))
        (sym q) (rw (==_refl i) (ap (λ started. j ∷ started) rest))

  -- Over any sequence of calls, of rounds of the lanes' goroutines, of reconfigurations and of a close, in
  -- whatever order they interleave: for each lane, the jobs that started, in order, followed by those that
  -- still wait are exactly those that waited at first followed by those that `Enqueue` accepted for it, in
  -- order; and as many more rounds of its goroutine as jobs wait start these, in order. So no accepted job
  -- is lost, starts twice or overtakes another of its lane, also when the lane is removed. A lane that is
  -- added again for an endpoint is another lane, whose jobs may overtake those of the old one.
  pub run_in_order :
      (m : Manager J) (evs : List (Event J))
      → (started_at i (run m evs).started ++ queue (run m evs).manager i
          ≡ queue m i ++ accepted_at i (run m evs).accepted)
        × (started_at i
              (run (run m evs).manager (rounds (length (queue (run m evs).manager i)))).started
            ≡ queue (run m evs).manager i)
  run_in_order m evs =
      (run-Balanced m evs, rounds_start (run m evs).manager (queue (run m evs).manager i) refl)
