-- ===== src/Api/Locked.antt =====
-- internal/api/auth.go: what `recordLoginFailure` leaves for `allowLogin`.
use message_sync.Base.{
  ℕ, ◌+◌, ◌≤◌, true, false, some, String, ◌≡◌, refl, lookup, lookup-insert, eq_string, eq_nat,
  ==_refl, Bool-cases, inl, inr, arith, ap, ◌∙◌, leb, ltb,
}
use message_sync.Api.Handlers.{
  Server, allow_login, failure_of, minute, next_failure, record_login_failure,
}

-- What a failure leaves under the key of the client.
recorded :
    (s : Server) (now : ℕ) (key : String)
    → lookup key (record_login_failure s now key).failed
      ≡ some (next_failure now (failure_of (lookup key s.failed)))
unfolding record_login_failure
recorded s now key =
    simp
      (
        lookup-insert key key (next_failure now (failure_of (lookup key s.failed))) s.failed,
        ==_refl key,
      )
      refl

-- The client may not log in before a time.
abbrev pub Locked : Server → String → ℕ → Type 0
Locked s key until =
    (c : ℕ) × (later : ℕ) × (until ≤ later)
    × (lookup key s.failed ≡ some (record { count = c; until = some later }))

pub recorded_lock :
    (s : Server) (now : ℕ) (key : String)
    → leb 5 ((failure_of (lookup key s.failed)).count + 1) ≡ true
    → Locked (record_login_failure s now key) key (now + minute)
unfolding next_failure
recorded_lock s now key locks =
    (0, now + minute, omega arith, recorded s now key ∙ ap some (simp (locks, next_failure) refl))

pub recorded_count :
    (s : Server) (now : ℕ) (key : String)
    → leb 5 ((failure_of (lookup key s.failed)).count + 1) ≡ false
    → (failure_of (lookup key (record_login_failure s now key).failed)).count
      ≡ (failure_of (lookup key s.failed)).count + 1
unfolding next_failure
recorded_count s now key goes_on =
    ap (λ o. (failure_of o).count) (recorded s now key) ∙ simp (goes_on, next_failure) refl

-- One more failure of a locked client keeps the lock or makes it longer.
pub recorded-Locked :
    (s : Server) (start now : ℕ) (key : String)
    → start ≤ now
    → Locked s key (start + minute)
    → Locked (record_login_failure s now key) key (start + minute)
unfolding next_failure
recorded-Locked s start now key after locked =
    elim (Bool-cases (leb 5 ((failure_of (lookup key s.failed)).count + 1))) [
      | inl locks ↦
          let l = recorded_lock s now key locks in (l.0, l.1, omega (arith, l.2, after), l.3)
      | inr goes_on ↦ (
        locked.0 + 1,
        locked.1,
        locked.2,
        recorded s now key ∙ ap some (simp (goes_on, next_failure) (simp locked.3 refl)),
      )
    ]

pub Locked-allow_login :
    (s : Server) (key : String) (until now : ℕ)
    → now ≤ until
    → Locked s key until
    → allow_login s now key ≡ false
unfolding allow_login
Locked-allow_login s key until now early locked =
    let shut : ltb locked.1 now ≡ false = ground (arith, early, locked.2) in
    simp (locked.3, shut) refl
