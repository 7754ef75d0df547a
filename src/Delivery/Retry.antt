-- ===== src/Delivery/Retry.antt =====
-- internal/delivery/lanes.go: the retry policy and the job that `EnqueueRetry` builds.
-- Durations are int64 nanoseconds. The job, the clock and the policy's two functions are a record
-- of functions over a world `W`; whether the two functions are nil is a flag of the policy.
pub mod Backoff
pub mod Attempts
use message_sync.Base.{
  ℕ, zero, suc, ◌+◌, ◌-◌, ◌^◌, Bool, true, false, not, Option, none, some, ℤ, pos, pos_part, ltb_ℤ,
  leb_ℤ, double_i64, if◌then◌else◌, ◌||◌, ◌&&◌,
}
use message_sync.Transport.Failure.{GoError, Failure, classify}

pub record RetryPolicy : Type 0 where
  pub max_attempts : ℤ
  pub max_window : ℤ
  pub base_delay : ℤ
  pub max_delay : ℤ
  pub wait_set : Bool
  pub on_exhausted_set : Bool

abbrev pub default_retry_policy : RetryPolicy
default_retry_policy = record {
  max_attempts = pos 4;
  max_window = pos 10_000_000_000;
  base_delay = pos 10_000_000;
  max_delay = pos 160_000_000;
  wait_set = true;
  on_exhausted_set = true;
}

-- The guard of `SetRetryPolicy`.
unfoldable pub invalid_policy : RetryPolicy → Bool
invalid_policy p =
    leb_ℤ p.max_attempts (pos 0)
    || leb_ℤ p.max_window (pos 0)
    || leb_ℤ p.base_delay (pos 0)
    || ltb_ℤ p.max_delay p.base_delay
    || not p.wait_set
    || not p.on_exhausted_set

-- `for i := 1; i < attempt; i++`, with the rounds left in front.
unfoldable pub grow_delay : ℕ → ℤ → ℤ → ℤ
grow_delay zero delay limit = delay
grow_delay (suc rounds) delay limit =
    let doubled = double_i64 delay in
    let rest = grow_delay rounds doubled limit in if leb_ℤ limit doubled then limit else rest

-- The delay before the next attempt.
unfoldable pub retry_delay : RetryPolicy → Failure → ℕ → ℤ
retry_delay p failure attempt =
    let delay =
      if leb_ℤ failure.retry_after (pos 0)
      then grow_delay (attempt - 1) p.base_delay p.max_delay
      else failure.retry_after in
    if ltb_ℤ p.max_delay delay then p.max_delay else delay

-- What a retried job runs in: the job itself at an attempt's number, the time since the start,
-- `policy.Wait` and `policy.OnExhausted`.
pub record RetryEnv (W : Type 0) : Type 0 where
  pub job : ℕ → W → W × Option GoError
  pub since : W → ℤ
  pub wait : ℤ → W → W × Option GoError
  pub on_exhausted : GoError → W → W

module _ {W : Type 0} (p : RetryPolicy) (env : RetryEnv W) where
  open env use {job, since, wait, on_exhausted}

  unfoldable pub gives_up : Failure → ℕ → W → Bool
  gives_up failure attempt w =
      not failure.retryable
      || (leb_ℤ (pos attempt) p.max_attempts && leb_ℤ p.max_attempts (pos attempt))
      || leb_ℤ p.max_window (since w)

  -- The loop from `attempt` on, with the rounds left in front.
  unfoldable pub attempts_from : ℕ → ℕ → W → W
  attempts_from zero attempt w = w
  attempts_from (suc rounds) attempt w =
      let w1 = (job attempt w).0 in
      elim ((job attempt w).1) [
        | none ↦ w1
        | some e ↦
            let failure = classify (some e) in
            elim (gives_up failure attempt w1) [
              | true ↦ on_exhausted e w1
              | false ↦
                  let w2 = (wait (retry_delay p failure attempt) w1).0 in
                  elim ((wait (retry_delay p failure attempt) w1).1) [
                    | some canceled ↦ on_exhausted canceled (job (attempt + 1) w2).0
                    | none ↦ attempts_from rounds (attempt + 1) w2
                  ]
            ]
      ]

  unfoldable pub run_retry : W → W
  unfolding attempts_from gives_up
  run_retry w = attempts_from (pos_part p.max_attempts) 1 w
