-- ===== src/Delivery/Retry/Attempts.antt =====
-- How often a retried job runs, and how it ends.
use message_sync.Base.{
  ℕ, zero, suc, ◌+◌, ◌≤◌, ◌≡◌, ◌≢◌, ◌<◌, ◌⊎◌, inl, inr, none, some, ℤ, pos_part, arith, Bool-cases,
  Option-cases, false,
}
use message_sync.Transport.Failure.{GoError, classify}
use message_sync.Delivery.Retry.{
  RetryPolicy, RetryEnv, retry_delay, gives_up, attempts_from, run_retry, invalid_policy,
}

-- Counters that a world keeps of what was called: attempts, attempts that returned nil, and calls
-- of `OnExhausted`.
pub record Counts {W : Type 0} (env : RetryEnv W) : Type 0 where
  pub calls : W → ℕ
  pub successes : W → ℕ
  pub reports : W → ℕ
  pub job_calls : (n : ℕ) (w : W) → calls (env.job n w).0 ≡ suc (calls w)
  pub job_reports : (n : ℕ) (w : W) → reports (env.job n w).0 ≡ reports w
  pub job_success :
      (n : ℕ) (w : W) → (env.job n w).1 ≡ none → successes (env.job n w).0 ≡ suc (successes w)
  pub job_failure :
      (n : ℕ) (w : W) {e : GoError}
      → (env.job n w).1 ≡ some e
      → successes (env.job n w).0 ≡ successes w
  pub wait_successes : (d : ℤ) (w : W) → successes (env.wait d w).0 ≡ successes w
  pub wait_calls : (d : ℤ) (w : W) → calls (env.wait d w).0 ≡ calls w
  pub wait_reports : (d : ℤ) (w : W) → reports (env.wait d w).0 ≡ reports w
  pub exhausted_calls : (e : GoError) (w : W) → calls (env.on_exhausted e w) ≡ calls w
  pub exhausted_reports : (e : GoError) (w : W) → reports (env.on_exhausted e w) ≡ suc (reports w)

positive : (p : RetryPolicy) → invalid_policy p ≡ false → 0 < pos_part p.max_attempts
unfolding invalid_policy
positive p v = ground arith

module _ {W : Type 0} (p : RetryPolicy) (env : RetryEnv W) where
  -- The four ways out of a round.
  round_cases {ℓ} :
      (P : W → Type ℓ) (rounds attempt : ℕ) (w : W)
      → ((env.job attempt w).1 ≡ none → P (env.job attempt w).0)
      → ((e : GoError) → P (env.on_exhausted e (env.job attempt w).0))
      → ((e canceled : GoError) (d : ℤ)
          → (env.job attempt w).1 ≡ some e
          → gives_up p env (classify (some e)) attempt (env.job attempt w).0 ≡ false
          → P (
              env.on_exhausted canceled
                (env.job (attempt + 1) (env.wait d (env.job attempt w).0).0).0))
      → ((e : GoError) (d : ℤ)
          → (env.job attempt w).1 ≡ some e
          → gives_up p env (classify (some e)) attempt (env.job attempt w).0 ≡ false
          → P (attempts_from p env rounds (attempt + 1) (env.wait d (env.job attempt w).0).0))
      → P (attempts_from p env (suc rounds) attempt w)
  unfolding attempts_from
  round_cases P rounds attempt w finished reported canceled again =
      elim (Option-cases (env.job attempt w).1) [
        | inl done ↦ rw (done, attempts_from) (finished done)
        | inr (e, failing) ↦
            rw (failing, attempts_from)
              (elim (Bool-cases
                (gives_up p env (classify (some e)) attempt (env.job attempt w).0)) [
                  | inl over ↦ rw over (reported e)
                  | inr more ↦
                      rw more
                        (elim (Option-cases
                          (env.wait (retry_delay p (classify (some e)) attempt)
                            (env.job attempt w).0).1) [
                              | inl slept ↦ rw slept (again e _ failing more)
                              | inr (stop, cut) ↦ rw cut (canceled e stop _ failing more)
                            ])
                ])
      ]

  gives_up_before :
      (e : GoError) (attempt : ℕ) (w : W)
      → 0 < attempt
      → gives_up p env (classify (some e)) attempt w ≡ false
      → attempt ≢ pos_part p.max_attempts
  unfolding gives_up
  gives_up_before e attempt w h g = ground arith

  module _ (c : Counts env) where
    open c use {calls, successes, reports}

    attempts_from-calls :
        (rounds attempt : ℕ) (w : W)
        → 0 < attempt
        → attempt + rounds ≡ suc (pos_part p.max_attempts)
        → calls (attempts_from p env rounds attempt w) ≤ calls w + rounds
    unfolding attempts_from
    attempts_from-calls zero attempt w l h = omega arith
    attempts_from-calls (suc rounds) attempt w l h =
        round_cases (λ u. calls u ≤ calls w + suc rounds) rounds attempt w
          (λ _. ground (arith, c.job_calls attempt w))
          (λ e. ground (arith, c.job_calls attempt w, c.exhausted_calls e (env.job attempt w).0))
          (λ e x d _ g. omega (
            arith,
            c.exhausted_calls x (env.job (attempt + 1) (env.wait d (env.job attempt w).0).0).0,
            c.job_calls (attempt + 1) (env.wait d (env.job attempt w).0).0,
            c.wait_calls d (env.job attempt w).0,
            c.job_calls attempt w,
            gives_up_before e attempt (env.job attempt w).0 l g,
          ))
          (λ e d _ g. omega (
            arith,
            attempts_from-calls rounds (attempt + 1) (env.wait d (env.job attempt w).0).0
                (omega arith) (omega arith),
            c.wait_calls d (env.job attempt w).0,
            c.job_calls attempt w,
          ))

    -- Either one more success and no report, or one more report.
    abbrev Settled : W → W → Type 0
    Settled w u =
        ((successes u ≡ suc (successes w)) × (reports u ≡ reports w))
        ⊎ (reports u ≡ suc (reports w))

    attempts_from-Settled :
        (rounds attempt : ℕ) (w : W)
        → 0 < attempt
        → attempt + rounds ≡ suc (pos_part p.max_attempts)
        → 0 < rounds
        → Settled w (attempts_from p env rounds attempt w)
    attempts_from-Settled zero attempt w l h r = absurd (omega arith)
    attempts_from-Settled (suc rounds) attempt w l h r =
        round_cases (Settled w) rounds attempt w
          (λ done. inl (c.job_success attempt w done, c.job_reports attempt w))
          (λ e.
            inr
              (omega (arith, c.exhausted_reports e (env.job attempt w).0, c.job_reports attempt w)))
          (λ e x d _ g. inr (
            omega (
              arith,
              c.exhausted_reports x (env.job (attempt + 1) (env.wait d (env.job attempt w).0).0).0,
              c.job_reports (attempt + 1) (env.wait d (env.job attempt w).0).0,
              c.wait_reports d (env.job attempt w).0,
              c.job_reports attempt w,
            )))
          (λ e d failing g. ground (
            arith,
            attempts_from-Settled rounds (attempt + 1) (env.wait d (env.job attempt w).0).0
                (omega arith) (omega arith)
                (omega (arith, gives_up_before e attempt (env.job attempt w).0 l g)),
            c.wait_reports d (env.job attempt w).0,
            c.wait_successes d (env.job attempt w).0,
            c.job_reports attempt w,
            c.job_failure attempt w failing,
          ))

-- A retried job runs at most `MaxAttempts` times, the final canceled attempt included.
pub run_retry-calls :
    {W : Type 0} (p : RetryPolicy) (env : RetryEnv W) (c : Counts env) (w : W)
    → c.calls (run_retry p env w) ≤ c.calls w + pos_part p.max_attempts
unfolding run_retry
run_retry-calls p env c w =
    attempts_from-calls p env c (pos_part p.max_attempts) 1 w (omega arith) (omega arith)

-- Under a valid policy a retried job never ends in silence: either its last attempt returned nil
-- and nothing is reported, or `OnExhausted` is called exactly once.
pub run_retry-Settled :
    {W : Type 0} (p : RetryPolicy) (env : RetryEnv W) (c : Counts env) (w : W)
    → invalid_policy p ≡ false
    → ((c.successes (run_retry p env w) ≡ suc (c.successes w))
        × (c.reports (run_retry p env w) ≡ c.reports w))
      ⊎ (c.reports (run_retry p env w) ≡ suc (c.reports w))
unfolding run_retry
run_retry-Settled p env c w v =
    attempts_from-Settled p env c (pos_part p.max_attempts) 1 w (omega arith) (omega arith)
      (positive p v)
