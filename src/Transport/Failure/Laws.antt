-- ===== src/Transport/Failure/Laws.antt =====
-- What a caller may rely on in a classified failure.
use message_sync.Base.{
  ℕ, String, true, Option, none, some, ℤ, pos_part, neg_part, List, [], ◌∷◌, ◌≡◌, refl, ◌≤◌,
  if◌then◌else◌, arith, subst, Option-cases, inl, inr, min,
}
use message_sync.Transport.Failure.{
  FailureClass, transient, GoError, plain, wrapped, failed, Failure, valid_failure_class,
  class_retryable, new_failure_with_certainty, find_failure, classify, send_unknown,
}

-- A failure whose fields agree with one another.
pub record IsCoherent (f : Failure) : Type 0 where
  pub known : valid_failure_class f.class ≡ true
  pub retries : f.retryable ≡ class_retryable f.class
  pub waits : neg_part f.retry_after ≡ 0
  pub bounded : f.certainty ≤ send_unknown

-- Every `*Failure` of the chain came from a constructor of the package.
abbrev pub Built : GoError → Type 0
Built (plain s) = Unit {0}
Built (wrapped s e) = Built e
Built (failed c r a k cause) =
    IsCoherent (record { class = c; retryable = r; retry_after = a; certainty = k }) × Built cause

-- `fmt.Errorf("...: %w", err)`, outermost wrapper first.
unfoldable pub wrap_all : List String → GoError → GoError
wrap_all [] e = e
wrap_all (s ∷ ss) e = wrapped s (wrap_all ss e)

abbrev map_error : (GoError → GoError) → Option GoError → Option GoError
map_error f none = none
map_error f (some e) = some (f e)

find_failure-IsCoherent :
    (e : GoError) {f : Failure} → Built e → find_failure e ≡ some f → IsCoherent f
unfolding find_failure
find_failure-IsCoherent (plain s) b h = cc
find_failure-IsCoherent (wrapped s e) b h = find_failure-IsCoherent e b h
find_failure-IsCoherent (failed c r a k cause) b h = subst IsCoherent (cc) b.0

-- Whatever error a caller hands in, provider errors included, the view has a known class, a
-- retry flag that follows from the class, a delay that is not negative and a known certainty.
pub classify-IsCoherent : (e : GoError) → Built e → IsCoherent (classify (some e))
unfolding classify valid_failure_class class_retryable
classify-IsCoherent e b = elim (Option-cases (find_failure e)) [
  | inl absent ↦
      rw (absent, classify)
        (record { known = refl; retries = refl; waits = refl; bounded = omega arith })
  | inr (f, found) ↦ rw (found, classify) (find_failure-IsCoherent e b found)
]

-- Wrapping an error any number of times does not change its classification.
pub classify-wrap_all :
    (ws : List String) (e : GoError) → classify (some (wrap_all ws e)) ≡ classify (some e)
unfolding classify wrap_all
classify-wrap_all [] e = refl
classify-wrap_all (w ∷ ws) e = classify-wrap_all ws e

-- A failure made by the package's constructor is classified the same under any wrappers: its class
-- is the given one, or transient if that is unknown; it is retryable exactly for the transient and
-- rate-limited classes; a negative delay is 0, and a certainty above unknown is unknown.
pub classify-new_failure :
    (ws : List String) (c : FailureClass) (after : ℤ) (certainty : ℕ) (cause : GoError)
    → let f =
        classify
          (map_error (wrap_all ws) (new_failure_with_certainty c after certainty (some cause))) in
      IsCoherent f
      × (f.class ≡ (if valid_failure_class c then c else transient))
      × (pos_part f.retry_after ≡ pos_part after)
      × (f.certainty ≡ min certainty send_unknown)
unfolding new_failure_with_certainty classify valid_failure_class class_retryable
classify-new_failure ws c after certainty cause =
    rw (classify-wrap_all ws) (ground arith, ground arith, ground arith, ground arith)
