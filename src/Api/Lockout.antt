-- ===== src/Api/Lockout.antt =====
-- internal/api/auth.go: the lock after failed logins, where logins overlap. `handleAuthLogin` takes the lock of
-- the sessions for `allowLogin` and takes it again for `recordLoginFailure`, and bcrypt compares the
-- password in between: any number of other logins may pass `allowLogin` meanwhile.
use mathlib.Core.Option.{some-injective}
use message_sync.Base.{
  ℕ, zero, suc, ◌+◌, ◌≤◌, Option, none, some, String, ◌≡◌, refl, lookup, if◌then◌else◌, eq_string,
  eq_nat, Bool-cases, Option-cases, inl, inr, arith, List, [], ◌∷◌, ap, leb, length,
}
use message_sync.Api.Accounts.{Crypto, Draws}
use message_sync.Api.Handlers.{
  Server, Credentials, allow_login, failure_of, minute, record_login_failure, authenticate,
  compare_login,
}
use message_sync.Api.Locked.{
  Locked, recorded_lock, recorded_count, recorded-Locked, Locked-allow_login,
}

-- The logins of one client: the server, and the credentials that passed `allowLogin` and wait for
-- their comparison.
pub record Logins : Type 0 where
  pub server : Server
  pub comparing : List Credentials

pub data LoginEvent : Type 0 where
  arrives : (now : ℕ) → Credentials → LoginEvent
  compares : Draws → ℕ → LoginEvent

-- The entry at an index, and the others.
abbrev pub pick : ℕ → List Credentials → Option (Credentials × List Credentials)
pick n [] = none
pick zero (c ∷ cs) = some (c, cs)
pick (suc n) (c ∷ cs) =
    let later = pick n cs in elim later [ none ↦ none | some (d, ds) ↦ some (d, c ∷ ds) ]

unfoldable pub login_step : Crypto → String → LoginEvent → Logins → Logins
login_step crypto key (arrives now req) l =
    if allow_login l.server now key then record l { comparing = req ∷ l.comparing } else l
login_step crypto key (compares d n) l = elim (pick n l.comparing) [
  | none ↦ l
  | some (req, others) ↦ record {
    server = (compare_login crypto l.server d key req).0;
    comparing = others;
  }
]

-- One if the login gets its password compared.
abbrev pub admits : String → LoginEvent → Logins → ℕ
admits key (arrives now req) l = if allow_login l.server now key then 1 else 0
admits key (compares d n) l = 0

-- How many logins of the client get their passwords compared.
unfoldable pub admitted : Crypto → String → List LoginEvent → Logins → ℕ
admitted crypto key [] l = 0
admitted crypto key (ev ∷ evs) l =
    admits key ev l + admitted crypto key evs (login_step crypto key ev l)

-- An event within a minute from a time, after which at most `k` logins overlap; what is compared is wrong.
abbrev pub IsGuess : Crypto → ℕ → ℕ → String → LoginEvent → Logins → Type 0
IsGuess crypto k start key (arrives now req) l =
    (now ≤ start + minute) × (length (login_step crypto key (arrives now req) l).comparing ≤ k)
IsGuess crypto k start key (compares d n) l =
    (start ≤ d.now)
    × ((req : Credentials)
        → (others : List Credentials) → pick n l.comparing ≡ some (req, others)
        → authenticate crypto l.server.db d req ≡ none)

abbrev pub AreGuesses : Crypto → ℕ → ℕ → String → List LoginEvent → Logins → Type 0
AreGuesses crypto k start key [] l = Unit {0}
AreGuesses crypto k start key (ev ∷ evs) l =
    IsGuess crypto k start key ev l × AreGuesses crypto k start key evs (login_step crypto key ev l)

pick-length :
    (n : ℕ) (cs : List Credentials) (c : Credentials) (others : List Credentials)
    → pick n cs ≡ some (c, others)
    → length cs ≡ suc (length others)
pick-length n [] c others is = absurd (ground (arith, is))
pick-length zero (d ∷ ds) c others is =
    ap (λ (p : Credentials × List Credentials). suc (length p.1))
      (some-injective (d, ds) (c, others) is)
pick-length (suc n) (d ∷ ds) c others is = elim (Option-cases (pick n ds)) [
  | inl missing ↦ absurd (ground (arith, simp missing at is))
  | inr (found, there) ↦
      let shape =
        ap (λ (p : Credentials × List Credentials). length p.1)
          (some-injective (found.0, d ∷ found.1) (c, others) (simp there at is)) in
      omega (arith, pick-length n ds found.0 found.1 there, shape)
]

-- A comparison of wrong credentials that were in flight.
compares_cases {ℓ} :
    (P : Logins → Type ℓ) (crypto : Crypto) (k start : ℕ) (key : String) (d : Draws) (n : ℕ)
    (l : Logins)
    → IsGuess crypto k start key (compares d n) l
    → (pick n l.comparing ≡ none → P l)
    → ((others : List Credentials)
        → length l.comparing ≡ suc (length others)
        → P (record { server = record_login_failure l.server d.now key; comparing = others }))
    → P (login_step crypto key (compares d n) l)
unfolding login_step
compares_cases P crypto k start key d n l guess missing failed =
    elim (Option-cases (pick n l.comparing)) [
      | inl nothing ↦ simp (nothing, login_step) (missing nothing)
      | inr ((req, others), there) ↦
          simp (there, guess.1 req others there, compare_login, login_step)
            (failed others (pick-length n l.comparing req others there))
    ]

Locked-admitted :
    (crypto : Crypto) (k start : ℕ) (key : String) (evs : List LoginEvent) (l : Logins)
    → Locked l.server key (start + minute)
    → AreGuesses crypto k start key evs l
    → admitted crypto key evs l ≡ 0
unfolding admitted login_step
Locked-admitted crypto k start key [] l locked guesses = refl
Locked-admitted crypto k start key (arrives now req ∷ evs) l locked guesses =
    let shut = Locked-allow_login l.server key (start + minute) now guesses.0.0 locked in
    let rest = Locked-admitted crypto k start key evs l locked (rw shut at guesses.1) in
    rw shut (omega (arith, rest))
Locked-admitted crypto k start key (compares d n ∷ evs) l locked guesses =
    let rest : admitted crypto key evs (login_step crypto key (compares d n) l) ≡ 0 =
      compares_cases
        (λ after. AreGuesses crypto k start key evs after → admitted crypto key evs after ≡ 0)
        crypto k start key d n l guesses.0
        (λ nothing later. Locked-admitted crypto k start key evs l locked later)
        (λ others shorter later.
          Locked-admitted crypto k start key evs _
            (recorded-Locked l.server start d.now key guesses.0.0 locked) later)
        guesses.1 in
    omega (arith, rest)

-- Passwords compared and those that wait, with the failures counted before the lock.
guesses_bounded :
    (crypto : Crypto) (k start c : ℕ) (key : String) (evs : List LoginEvent) (l : Logins)
    → c ≤ (failure_of (lookup key l.server.failed)).count
    → c ≤ 4
    → length l.comparing ≤ k
    → AreGuesses crypto k start key evs l
    → admitted crypto key evs l + length l.comparing + c ≤ k + 4
unfolding admitted login_step
guesses_bounded crypto k start c key [] l below small few guesses = omega (arith, small, few)
guesses_bounded crypto k start c key (arrives now req ∷ evs) l below small few guesses =
    elim (Bool-cases (allow_login l.server now key)) [
      | inr shut ↦
          let rest =
            guesses_bounded crypto k start c key evs l below small few (rw shut at guesses.1) in
          rw shut (omega (arith, rest))
      | inl may ↦
          let fits : suc (length l.comparing) ≤ k = rw may at guesses.0.1 in
          let rest =
            guesses_bounded crypto k start c key evs (record l { comparing = req ∷ l.comparing })
              below small fits (rw may at guesses.1) in
          rw may (omega (arith, rest))
    ]
guesses_bounded crypto k start c key (compares d n ∷ evs) l below small few guesses =
    let rest : admitted crypto key evs (login_step crypto key (compares d n) l)
          + length l.comparing
          + c
        ≤ k + 4 =
      compares_cases
        (λ after.
          AreGuesses crypto k start key evs after
          → admitted crypto key evs after + length l.comparing + c ≤ k + 4)
        crypto k start key d n l guesses.0
        (λ nothing later. guesses_bounded crypto k start c key evs l below small few later)
        (λ others shorter later.
          elim (Bool-cases (leb 5 ((failure_of (lookup key l.server.failed)).count + 1))) [
            | inl locks ↦
                let l' = recorded_lock l.server d.now key locks in
                let locked : Locked (record_login_failure l.server d.now key) key (start + minute) =
                  (l'.0, l'.1, omega (arith, l'.2, guesses.0.0), l'.3) in
                omega (
                  arith,
                  small,
                  few,
                  Locked-admitted crypto k start key evs
                      (record {
                        server = record_login_failure l.server d.now key;
                        comparing = others;
                      })
                      locked later,
                )
            | inr goes_on ↦ omega (
              arith,
              shorter,
              guesses_bounded crypto k start (c + 1) key evs
                  (record { server = record_login_failure l.server d.now key; comparing = others })
                  (omega (arith, below, recorded_count l.server d.now key goes_on))
                  (ground (arith, goes_on, below)) (omega (arith, shorter, few)) later,
            )
          ])
        guesses.1 in
    omega (arith, rest)

-- Whatever was entered before: within a minute from a time on, a client that enters wrong credentials and
-- never has more than `k` logins in flight, none at first, gets at most k + 4 passwords compared, however
-- its logins interleave; so at most five where each login waits for the one before.
pub guesses_per_minute :
    (crypto : Crypto) (s : Server) (key : String) (k start : ℕ) (events : List LoginEvent)
    → AreGuesses crypto k start key events (record { server = s; comparing = [] })
    → admitted crypto key events (record { server = s; comparing = [] }) ≤ k + 4
guesses_per_minute crypto s key k start events guesses = omega (
  arith,
  guesses_bounded crypto k start 0 key events (record { server = s; comparing = [] }) (omega arith)
      (omega arith) (omega arith) guesses,
)
