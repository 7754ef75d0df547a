-- ===== src/Delivery/Retry/Backoff.antt =====
-- The delay between two attempts.
use message_sync.Base.{
  ap, ℕ, zero, suc, ◌-◌, ◌*◌, ◌^◌, ◌≤◌, ◌<◌, min, false, pos, pos_part, leb_ℤ, ◌≡◌, arith,
  double_i64, if◌then◌else◌,
}
use message_sync.Transport.Failure.{Failure}
use native.Mathlib.Nat.{pow-zero, pow-suc}
use native.Mathlib.Decide.{dec_le}
use message_sync.Delivery.Retry.{RetryPolicy, invalid_policy, grow_delay, retry_delay}

double_small : (d : ℕ) → d < 2 ^ 62 → double_i64 (pos d) ≡ pos (d * 2)
double_small d h = ground arith

pow_pos : (n : ℕ) → 0 < 2 ^ n
pow_pos zero = omega (arith, pow-zero 2)
pow_pos (suc n) = omega (arith, pow-suc 2 n, pow_pos n)

double_pow : (d n : ℕ) → d * 2 ^ suc n ≡ d * 2 * 2 ^ n
double_pow d n = rw (pow-suc 2 n) (grind arith)

double-le : (d n : ℕ) → d * 2 ≤ d * 2 * 2 ^ n
double-le d n = let h : 1 ≤ 2 ^ n = pow_pos n in grind arith

grow_exact :
    (rounds d limit : ℕ)
    → 0 < d
    → d ≤ limit
    → limit < 2 ^ 62
    → grow_delay rounds (pos d) (pos limit) ≡ pos (min limit (d * 2 ^ rounds))
unfolding grow_delay
grow_exact zero d limit h k l = ap pos (omega (arith, pow-zero 2))
grow_exact (suc rounds) d limit h k l =
    rw (double_small d (omega arith)) (elim (dec_le limit (d * 2)) [
      | yes over ↦ ground (arith, double-le d rounds, double_pow d rounds)
      | no under ↦ ground (
        arith,
        double_pow d rounds,
        grow_exact rounds (d * 2) limit (omega arith) (omega arith) l,
      )
    ])

valid_delays :
    (p : RetryPolicy) (base limit : ℕ)
    → p.base_delay ≡ pos base
    → p.max_delay ≡ pos limit
    → invalid_policy p ≡ false
    → (0 < base) × (base ≤ limit)
unfolding invalid_policy
valid_delays p base limit eb el v = ground arith

-- Under a valid policy whose limit is below 2^62 nanoseconds, the delay after the given attempt is
-- the base delay doubled once for each earlier attempt, up to the limit, unless the failure asks
-- for a delay of its own; then it is that delay, up to the limit.
pub retry_delay_exact :
    (p : RetryPolicy) (failure : Failure) (attempt base limit : ℕ)
    → p.base_delay ≡ pos base
    → p.max_delay ≡ pos limit
    → invalid_policy p ≡ false
    → limit < 2 ^ 62
    → retry_delay p failure attempt
      ≡ pos (
          min limit (
            if leb_ℤ failure.retry_after (pos 0)
            then base * 2 ^ (attempt - 1)
            else pos_part failure.retry_after))
unfolding retry_delay
retry_delay_exact p failure attempt base limit eb el v l =
    let (lo, hi) = valid_delays p base limit eb el v in
    ground (arith, eb, el, grow_exact (attempt - 1) base limit lo hi l)
