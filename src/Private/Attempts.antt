-- ===== src/Private/Attempts.antt =====
-- A copy is asked to be deleted at most three times.
use mathlib.Core.Option.{some-injective}
use message_sync.Base.{
  ℕ, zero, suc, ◌+◌, ◌-◌, ◌/◌, ◌≤◌, Bool, true, false, ◌||◌, Option, none, some, String, List, [],
  ◌∷◌, leb, ltb, if◌then◌else◌, ◌==◌, eq_nat, eq_string, Map, lookup, insert, delete, Distinct,
  Bool-cases, Option-cases, inl, inr, arith, ◌≡◌, refl, subst, ap,
}
use message_sync.Store.Cursors.{next_fault, later_faults}
use message_sync.Private.Records.{PrivateTables, Candidate, record_limit}
use message_sync.Private.Cleanup.{
  Due, delete_expired, prune_batches, prune_table, batch_limit, prune, may_begin, begun, claim,
  begin_cleanup, finish_cleanup,
}

-- A step of the table of candidates, without new candidates.
pub data CleanupStep : Type 0 where
  begins : Due → ℕ → Bool → CleanupStep
  finishes : Due → Bool → Bool → CleanupStep
  prunes : ℕ → ℕ → List Bool → CleanupStep

abbrev pub cleanup_after : PrivateTables → CleanupStep → PrivateTables
cleanup_after t (begins due now fails) = (begin_cleanup t due now fails).0
cleanup_after t (finishes due succeeded fails) = (finish_cleanup t due succeeded fails).0
cleanup_after t (prunes now n faults) = (prune t now n faults).0

abbrev pub one_if_claimed : Option Bool → Bool → ℕ
one_if_claimed none same = 0
one_if_claimed (some false) same = 0
one_if_claimed (some true) same = if same then 1 else 0

-- One for an attempt that is claimed for the key, before the provider is asked.
abbrev pub claimed : String → PrivateTables → CleanupStep → ℕ
claimed key t (begins due now fails) =
    one_if_claimed (begin_cleanup t due now fails).1 (due.key == key)
claimed key t _ = 0

unfoldable pub claims : String → PrivateTables → List CleanupStep → ℕ
claims key t [] = 0
claims key t (step ∷ steps) = claimed key t step + claims key (cleanup_after t step) steps

-- The attempts that are left for the rows with the key.
abbrev left : String → Map String Candidate → ℕ
left key [] = 0
left key ((k, row) ∷ rows) = (if k == key then 3 - row.attempts else 0) + left key rows

left-absent :
    (key : String) (rows : Map String Candidate) → lookup key rows ≡ none → left key rows ≡ 0
unfolding lookup
left-absent key [] none_there = refl
left-absent key ((k, row) ∷ rows) none_there = elim (Bool-cases (k == key)) [
  | inl same ↦ absurd (ground (arith, simp (same, lookup) at none_there))
  | inr other ↦ ground (arith, other, left-absent key rows (simp (other, lookup) at none_there))
]

left-Distinct : (key : String) (rows : Map String Candidate) → Distinct rows → left key rows ≤ 3
left-Distinct key [] d = omega arith
left-Distinct key ((k, row) ∷ rows) d = elim (Bool-cases (k == key)) [
  | inl same ↦ ground (
    arith,
    same,
    left-absent key rows
        (subst (λ i. lookup i rows ≡ none) ((eq_string.equal_iff k key).0 same) d.0),
  )
  | inr other ↦ ground (arith, other, left-Distinct key rows d.1)
]

left-delete :
    (key k : String) (rows : Map String Candidate) → left key (delete k rows) ≤ left key rows
unfolding delete
left-delete key k [] = omega arith
left-delete key k ((j, row) ∷ rows) = ground (arith, left-delete key k rows)

left-insert :
    (key k : String) (row new : Candidate) (rows : Map String Candidate)
    → lookup k rows ≡ some row
    → left key (insert k new rows) + (if k == key then 3 - row.attempts else 0)
      ≡ left key rows + (if k == key then 3 - new.attempts else 0)
unfolding insert lookup
left-insert key k row new [] there = absurd (ground (arith, there))
left-insert key k row new ((j, w) ∷ rows) there = elim (Bool-cases (j == k)) [
  | inl same ↦
      let keys_agree =
        ap (λ i. if i == key then 3 - w.attempts else 0) ((eq_string.equal_iff j k).0 same) in
      let rows_agree =
        ap (λ r. if k == key then 3 - r.attempts else 0)
          (some-injective w row (simp (same, lookup) at there)) in
      simp (same, insert) (omega (arith, keys_agree, rows_agree))
  | inr other ↦
      simp (other, insert)
        (omega (arith, left-insert key k row new rows (simp (other, lookup) at there)))
]

left-delete_expired :
    (key : String) (now limit : ℕ) (rows : Map String Candidate)
    → left key (delete_expired (λ row. row.expires_at) now limit rows).0 ≤ left key rows
unfolding delete_expired
left-delete_expired key now limit [] = omega arith
left-delete_expired key now zero (row ∷ rows) = omega arith
left-delete_expired key now (suc limit) ((k, row) ∷ rows) =
    elim (Bool-cases (leb row.expires_at now)) [
      | inl old ↦ simp (old, delete_expired) (omega (arith, left-delete_expired key now limit rows))
      | inr young ↦
          simp (young, delete_expired) (omega (arith, left-delete_expired key now (suc limit) rows))
    ]

left-prune_batches :
    (key : String) (now limit batches : ℕ) (faults : List Bool) (rows : Map String Candidate)
    → left key (prune_batches (λ row. row.expires_at) now limit batches faults rows).0
      ≤ left key rows
unfolding prune_batches
left-prune_batches key now limit zero faults rows = omega arith
left-prune_batches key now limit (suc batches) faults rows =
    let fewer = (delete_expired (λ row. row.expires_at) now limit rows).0 in
    let less = left-delete_expired key now limit rows in
    elim (Bool-cases (next_fault faults)) [
      | inl fails ↦ simp (fails, prune_batches) (omega arith)
      | inr works ↦
          elim (Bool-cases (ltb (delete_expired (λ row. row.expires_at) now limit rows).1 limit)) [
            | inl last ↦ simp (works, last, prune_batches) less
            | inr full ↦
                simp (works, full, prune_batches)
                  (omega (
                    arith,
                    less,
                    left-prune_batches key now limit batches (later_faults faults) fewer,
                  ))
          ]
    ]

left-prune_table :
    (key : String) (now limit : ℕ) (faults : List Bool) (ok : Bool) (rows : Map String Candidate)
    → left key (prune_table (λ row. row.expires_at) now limit faults ok rows).0 ≤ left key rows
unfolding prune_table
left-prune_table key now limit faults true rows =
    left-prune_batches key now limit (record_limit / limit + 1) faults rows
left-prune_table key now limit faults false rows = omega arith

left-prune :
    (key : String) (t : PrivateTables) (now n : ℕ) (faults : List Bool)
    → left key (prune t now n faults).0.cleanup ≤ left key t.cleanup
unfolding prune
left-prune key t now n faults = left-prune_table key now (batch_limit n) _ _ t.cleanup

left-begin :
    (key : String) (t : PrivateTables) (due : Due) (now : ℕ) (fails : Bool)
    → one_if_claimed (begin_cleanup t due now fails).1 (due.key == key)
        + left key (begin_cleanup t due now fails).0.cleanup
      ≤ left key t.cleanup
unfolding begin_cleanup
left-begin key t due now fails = elim (Bool-cases fails) [
  | inl bad ↦ simp (bad, begin_cleanup) (omega arith)
  | inr good ↦ elim (Option-cases (lookup due.key t.cleanup)) [
    | inl missing ↦ simp (good, missing, begin_cleanup) (omega arith)
    | inr (row, there) ↦ elim (Bool-cases (may_begin now due.attempts row)) [
      | inr not_now ↦ simp (good, there, not_now, begin_cleanup, claim) (omega arith)
      | inl starts ↦
          simp (good, there, starts, begin_cleanup, claim)
            (ground (arith, starts, left-insert key due.key row (begun now row) t.cleanup there))
    ]
  ]
]

left-finish :
    (key : String) (t : PrivateTables) (due : Due) (succeeded fails : Bool)
    → left key (finish_cleanup t due succeeded fails).0.cleanup ≤ left key t.cleanup
unfolding finish_cleanup
left-finish key t due succeeded fails = elim (Bool-cases (succeeded || leb 2 due.attempts)) [
  | inr keeps ↦ simp (keeps, finish_cleanup) (omega arith)
  | inl over ↦ elim (Bool-cases fails) [
    | inl bad ↦ simp (over, bad, finish_cleanup) (omega arith)
    | inr good ↦ simp (over, good, finish_cleanup) (left-delete key due.key t.cleanup)
  ]
]

claimed-left :
    (key : String) (t : PrivateTables) (step : CleanupStep)
    → claimed key t step + left key (cleanup_after t step).cleanup ≤ left key t.cleanup
claimed-left key t (begins due now fails) = left-begin key t due now fails
claimed-left key t (finishes due succeeded fails) =
    omega (arith, left-finish key t due succeeded fails)
claimed-left key t (prunes now n faults) = omega (arith, left-prune key t now n faults)

claims-left :
    (key : String) (t : PrivateTables) (steps : List CleanupStep)
    → claims key t steps ≤ left key t.cleanup
unfolding claims
claims-left key t [] = omega arith
claims-left key t (step ∷ steps) =
    omega (arith, claimed-left key t step, claims-left key (cleanup_after t step) steps)

-- Over any attempts, conclusions and deletions of expired rows, with whatever failures, at most three
-- attempts for a candidate are claimed until it is queued again.
pub claims_bounded :
    (key : String) (t : PrivateTables) (steps : List CleanupStep)
    → Distinct t.cleanup
    → claims key t steps ≤ 3
claims_bounded key t steps distinct =
    omega (arith, claims-left key t steps, left-Distinct key t.cleanup distinct)
