-- ===== src/Transport/Failure.antt =====
-- internal/transport/failure.go. A Go `error` is an `Option GoError`, `none` for nil; a chain of
-- `%w` wrappers ends in a plain error or passes a `*Failure`. A typed nil `*Failure` is left out.
pub mod Laws
use message_sync.Base.{
  ℕ, String, Bool, true, false, Option, none, some, ℤ, pos, ltb, ltb_ℤ, if◌then◌else◌, ◌||◌,
}

pub data FailureClass : Type 0 where
  transient rate_limited permission_denied destination_missing : FailureClass
  payload_rejected unsupported : FailureClass
  other : String → FailureClass

-- `SendCertainty` is a uint8.
abbrev pub send_definitely_not_sent : ℕ
send_definitely_not_sent = 0

abbrev pub send_accepted : ℕ
send_accepted = 1

abbrev pub send_unknown : ℕ
send_unknown = 2

pub data GoError : Type 0 where
  plain : String → GoError
  wrapped : String → GoError → GoError
  failed :
      FailureClass → (retryable : Bool) → (retry_after : ℤ) → (certainty : ℕ) → GoError → GoError

-- The fields of `Failure` that a caller reads; `cause` is unexported.
pub record Failure : Type 0 where
  pub class : FailureClass
  pub retryable : Bool
  pub retry_after : ℤ
  pub certainty : ℕ

unfoldable pub valid_failure_class : FailureClass → Bool
valid_failure_class (other s) = false
valid_failure_class _ = true

unfoldable pub class_retryable : FailureClass → Bool
class_retryable transient = true
class_retryable rate_limited = true
class_retryable _ = false

unfoldable pub new_failure_with_certainty : FailureClass → ℤ → ℕ → Option GoError → Option GoError
unfolding valid_failure_class class_retryable
new_failure_with_certainty c after certainty none = none
new_failure_with_certainty c after certainty (some cause) =
    let c' = if valid_failure_class c then c else transient in
    let after' = if ltb_ℤ after (pos 0) then pos 0 else after in
    let certainty' = if ltb send_unknown certainty then send_unknown else certainty in
    some (failed c' (class_retryable c') after' certainty' cause)

unfoldable pub new_failure : FailureClass → ℤ → Option GoError → Option GoError
unfolding new_failure_with_certainty
new_failure c after cause = new_failure_with_certainty c after send_definitely_not_sent cause

-- `errors.As(err, &failure)`: the first `*Failure` of the chain.
unfoldable pub find_failure : GoError → Option Failure
find_failure (plain s) = none
find_failure (wrapped s e) = find_failure e
find_failure (failed c r a k cause) =
    some (record { class = c; retryable = r; retry_after = a; certainty = k })

unfoldable pub classify : Option GoError → Failure
unfolding find_failure
classify none = record { class = other ""; retryable = false; retry_after = pos 0; certainty = 0 }
classify (some e) = elim (find_failure e) [
  | some f ↦ f
  | none ↦ record {
    class = transient;
    retryable = true;
    retry_after = pos 0;
    certainty = send_definitely_not_sent;
  }
]
