-- ===== src/Tests/Delivery.antt =====
-- Properties at concrete inputs: lanes, retries and failures.
use message_sync.Base.{
  ℕ, suc, ◌+◌, ◌*◌, ◌-◌, ◌==◌, if◌then◌else◌, ◌≤◌, true, false, none, some, String, List, [], ◌∷◌,
  ◌++◌, ◌≡◌, ◌⊎◌, refl, pos, pos_part, lookup, insert, has, contains, min, arith, ◌^◌, length,
  eq_string, eq_nat,
}
use message_sync.Transport.Failure.{
  GoError, plain, failed, transient, other, send_unknown, classify, find_failure,
  new_failure_with_certainty,
}
use message_sync.Transport.Failure.Laws.{IsCoherent, classify-new_failure, wrap_all}
use message_sync.Delivery.Retry.{
  default_retry_policy, invalid_policy, RetryEnv, run_retry, retry_delay,
}
use message_sync.Delivery.Retry.Attempts.{Counts, run_retry-calls, run_retry-Settled}
use message_sync.Delivery.Retry.Backoff.{retry_delay_exact}
use message_sync.Delivery.Lanes.{
  Manager, Event, enqueues, works, updates, update, new, run, keep_wanted, add_missing, step,
  enqueue, offer, queue, work, take_job,
}
use message_sync.Delivery.Lanes.Views.{started_at, accepted_at}
use message_sync.Delivery.Lanes.Order.{rounds, run_in_order}
use message_sync.Delivery.Lanes.Bounds.{new-run-bounded, update_exact}

abbrev two_lanes : Manager ℕ
two_lanes = record {
  capacity = 2;
  lanes =
      ("a", record { number = 0; capacity = 2 }) ∷ ("b", record { number = 1; capacity = 2 }) ∷ [];
  queues = (1, 7 ∷ []) ∷ [];
  stopped = [];
  next_lane = 2;
  closed = false;
  policy = default_retry_policy;
}

-- The lane of "a" is removed and added again; both then work.
abbrev lane_events : List (Event ℕ)
lane_events =
    enqueues "a" 1
    ∷ enqueues "a" 2
    ∷ updates ("b" ∷ [])
    ∷ updates ("a" ∷ "b" ∷ [])
    ∷ enqueues "a" 3
    ∷ works 2
    ∷ works 0
    ∷ []

new_lane_overtakes :
    (run two_lanes lane_events).started
    ≡ record { lane = 2; job = 3; canceled = false }
      ∷ record { lane = 0; job = 1; canceled = true }
      ∷ []
unfolding run step enqueue offer work take_job update keep_wanted add_missing lookup insert
new_lane_overtakes = refl

run_in_order_example :
    (started_at 0 (run two_lanes lane_events).started ++ queue (run two_lanes lane_events).manager 0
      ≡ queue two_lanes 0 ++ accepted_at 0 (run two_lanes lane_events).accepted)
    × (started_at 0
          (run
            (run two_lanes lane_events).manager
            (rounds 0 (length (queue (run two_lanes lane_events).manager 0)))).started
        ≡ queue (run two_lanes lane_events).manager 0)
run_in_order_example = run_in_order 0 two_lanes lane_events

-- What a retried job leaves: its calls, its successes and the reports.
record Tally : Type 0 where
  calls : ℕ
  successes : ℕ
  reports : ℕ

-- A job that succeeds at its second attempt.
abbrev second_time : RetryEnv Tally
second_time = record {
  job = λ n w. (
    record w { calls = suc w.calls; successes = if n == 2 then suc w.successes else w.successes },
    if n == 2 then none else some (plain "busy"),
  );
  since = λ w. pos 0;
  wait = λ d w. (w, none);
  on_exhausted = λ e w. record w { reports = suc w.reports };
}

second_success :
    (n : ℕ) (w : Tally)
    → (second_time.job n w).1 ≡ none
    → (second_time.job n w).0.successes ≡ suc w.successes
second_success n w h = ground arith

second_failure :
    (n : ℕ) (w : Tally) {e : GoError}
    → (second_time.job n w).1 ≡ some e
    → (second_time.job n w).0.successes ≡ w.successes
second_failure n w h = ground arith

abbrev tally_counts : Counts second_time
tally_counts = record {
  calls = λ w. w.calls;
  successes = λ w. w.successes;
  reports = λ w. w.reports;
  job_calls = λ n w. refl;
  job_reports = λ n w. refl;
  job_success = second_success;
  job_failure = λ n w h. second_failure n w h;
  wait_successes = λ d w. refl;
  wait_calls = λ d w. refl;
  wait_reports = λ d w. refl;
  exhausted_calls = λ e w. refl;
  exhausted_reports = λ e w. refl;
}

abbrev no_tally : Tally
no_tally = record { calls = 0; successes = 0; reports = 0 }

run_retry-Settled_example :
    (((run_retry default_retry_policy second_time no_tally).successes ≡ 1)
      × ((run_retry default_retry_policy second_time no_tally).reports ≡ 0))
    ⊎ ((run_retry default_retry_policy second_time no_tally).reports ≡ 1)
unfolding invalid_policy
run_retry-Settled_example =
    run_retry-Settled default_retry_policy second_time tally_counts no_tally refl

run_retry-calls_example : (run_retry default_retry_policy second_time no_tally).calls ≤ 0 + 4
run_retry-calls_example = run_retry-calls default_retry_policy second_time tally_counts no_tally

retry_delay_exact_example :
    retry_delay default_retry_policy (classify (some (plain "busy"))) 3
    ≡ pos (min 160_000_000 (10_000_000 * 2 ^ (3 - 1)))
unfolding invalid_policy classify find_failure
retry_delay_exact_example =
    retry_delay_exact default_retry_policy (classify (some (plain "busy"))) 3 10_000_000 160_000_000
      refl refl refl (omega arith)

-- The manager that `New` builds for one endpoint.
abbrev one_lane : Manager ℕ
one_lane = record {
  capacity = 2;
  lanes = ("a", record { number = 0; capacity = 2 }) ∷ [];
  queues = [];
  stopped = [];
  next_lane = 1;
  closed = false;
  policy = default_retry_policy;
}

abbrev crowd : List (Event ℕ)
crowd = enqueues "a" 1 ∷ enqueues "a" 2 ∷ enqueues "a" 3 ∷ []

new-run-bounded_example : length (queue (run one_lane crowd).manager 0) ≤ pos_part (pos 2)
unfolding new update keep_wanted add_missing lookup insert
new-run-bounded_example = new-run-bounded true (pos 2) ("a" ∷ []) crowd 0 {m = one_lane} refl

update_exact_example :
    has "b" (update one_lane ("a" ∷ "b" ∷ [])).0.lanes ≡ contains {A = String} ("a" ∷ "b" ∷ []) "b"
unfolding update
update_exact_example = update_exact one_lane ("a" ∷ "b" ∷ []) "b" refl

classify-new_failure_example :
    let f =
      classify (some (wrap_all ("outer" ∷ []) (failed transient true (pos 5) 2 (plain "cause")))) in
    IsCoherent f
    × (f.class ≡ transient)
    × (pos_part f.retry_after ≡ 5)
    × (f.certainty ≡ min 7 send_unknown)
unfolding new_failure_with_certainty classify find_failure wrap_all
classify-new_failure_example =
    classify-new_failure ("outer" ∷ []) (other "strange") (pos 5) 7 (plain "cause")
