-- ===== src/Store/Claims/Laws.antt =====
-- A queued operation is claimed once.
use message_sync.Base.{
  ℕ, zero, suc, ◌+◌, ◌≤◌, Bool, true, false, Option, none, some, Bool-cases, Option-cases, inl, inr,
  ◌≡◌, refl, arith, lookup, lookup-insert, ==_refl,
}
use message_sync.Store.Cursors.{next_fault, later_faults}
use message_sync.Store.Ledger.{Store, retrying, validate_delivery_identity}
use message_sync.Store.Ledger.Keys.{OpKey, eq_op_key}
use message_sync.Store.Claims.{is_queued, claimed_rows, claim_delivery_operation}

abbrev count_true : Option Bool → ℕ
count_true (some true) = 1
count_true _ = 0

-- How many of a number of claims of one operation succeed.
unfoldable pub successful_claims : ℕ → Store → OpKey → ℕ
successful_claims zero s k = 0
successful_claims (suc n) s k =
    count_true (claim_delivery_operation s k).1
    + successful_claims n (claim_delivery_operation s k).0 k

claimed_rows-is_queued :
    (s : Store) (k : OpKey) → is_queued (lookup k (claimed_rows s.operations k)) ≡ false
claimed_rows-is_queued s k = elim (Option-cases (lookup k s.operations)) [
  | inl absent ↦ simp (absent, claimed_rows) refl
  | inr (op, there) ↦
      simp
        (
          there,
          claimed_rows,
          lookup-insert k k (record op { state = retrying; attempt_count = op.attempt_count + 1 })
              s.operations,
          ==_refl k,
        )
        refl
]

-- What one claim does.
claim_cases {ℓ} :
    (P : Store × Option Bool → Type ℓ) (s : Store) (k : OpKey)
    → ((s' : Store) (o : Option Bool) → s'.operations ≡ s.operations → count_true o ≡ 0 → P (s', o))
    → (is_queued (lookup k s.operations) ≡ true
        → P (
          record s { faults = later_faults s.faults; operations = claimed_rows s.operations k },
          some true,
        ))
    → P (claim_delivery_operation s k)
unfolding claim_delivery_operation
claim_cases P s k idle claimed = elim (Bool-cases (validate_delivery_identity k)) [
  | inr wrong ↦ simp (wrong, claim_delivery_operation) (idle s none refl refl)
  | inl valid ↦ elim (Bool-cases (next_fault s.faults)) [
    | inl bad ↦ simp (valid, bad, claim_delivery_operation) (idle _ none refl refl)
    | inr good ↦ elim (Bool-cases (is_queued (lookup k s.operations))) [
      | inl free ↦ simp (valid, good, free, claim_delivery_operation) (claimed free)
      | inr taken ↦
          simp (valid, good, taken, claim_delivery_operation) (idle _ (some false) refl refl)
    ]
  ]
]

no_claims :
    (n : ℕ) (s : Store) (k : OpKey)
    → is_queued (lookup k s.operations) ≡ false
    → successful_claims n s k ≡ 0
unfolding successful_claims
no_claims zero s k taken = refl
no_claims (suc n) s k taken =
    claim_cases (λ r. count_true r.1 + successful_claims n r.0 k ≡ 0) s k
      (λ s' o same none_won. omega (arith, none_won, no_claims n s' k (rw same taken))) (λ free. cc)

-- However many workers claim an operation, one after the other, and whichever statements fail, at most
-- one claim succeeds.
pub claims_at_most_once : (n : ℕ) (s : Store) (k : OpKey) → successful_claims n s k ≤ 1
unfolding successful_claims
claims_at_most_once zero s k = omega arith
claims_at_most_once (suc n) s k =
    claim_cases (λ r. count_true r.1 + successful_claims n r.0 k ≤ 1) s k
      (λ s' o same none_won. omega (arith, none_won, claims_at_most_once n s' k))
      (λ free. omega (
        arith,
        no_claims n
            (record s { faults = later_faults s.faults; operations = claimed_rows s.operations k })
            k (claimed_rows-is_queued s k),
      ))
