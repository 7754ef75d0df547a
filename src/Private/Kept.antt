-- ===== src/Private/Kept.antt =====
-- Pruning keeps the rows that have not expired.
use mathlib.Core.Option.{some-injective}
use message_sync.Base.{
  ℕ, zero, suc, ◌+◌, ◌/◌, ◌<◌, Bool, true, false, some, String, List, [], ◌∷◌, leb, ltb, ◌==◌,
  eq_string, Map, lookup, Bool-cases, inl, inr, arith, ◌≡◌, ap,
}
use message_sync.Store.Cursors.{next_fault, later_faults}
use message_sync.Private.Records.{PrivateTables, SealedRow, record_limit}
use message_sync.Private.Cleanup.{delete_expired, prune_batches, batch_limit, prune, prune_table}

module _ {V : Type 0} (expiry : V → ℕ) (now : ℕ) (k : String) (v : V) where
  delete_expired-lookup :
      (limit : ℕ) (rows : Map String V)
      → now < expiry v
      → lookup k rows ≡ some v
      → lookup k (delete_expired expiry now limit rows).0 ≡ some v
  unfolding delete_expired lookup
  delete_expired-lookup limit [] fresh there = there
  delete_expired-lookup zero (row ∷ rows) fresh there = there
  delete_expired-lookup (suc limit) ((j, w) ∷ rows) fresh there =
      elim (Bool-cases (leb (expiry w) now)) [
        | inl old ↦ elim (Bool-cases (j == k)) [
          | inl same ↦ absurd (
              ground
                (arith, old, fresh, ap expiry (some-injective w v (simp (same, lookup) at there))))
          | inr other ↦
              simp (old, delete_expired)
                (delete_expired-lookup limit rows fresh (simp (other, lookup) at there))
        ]
        | inr young ↦ elim (Bool-cases (j == k)) [
          | inl same ↦ simp (young, delete_expired, same, lookup) (simp (same, lookup) at there)
          | inr other ↦
              simp (young, delete_expired, other, lookup)
                (delete_expired-lookup (suc limit) rows fresh (simp (other, lookup) at there))
        ]
      ]

  pub prune_batches-lookup :
      (limit batches : ℕ) (faults : List Bool) (rows : Map String V)
      → now < expiry v
      → lookup k rows ≡ some v
      → lookup k (prune_batches expiry now limit batches faults rows).0 ≡ some v
  unfolding prune_batches
  prune_batches-lookup limit zero faults rows fresh there = there
  prune_batches-lookup limit (suc batches) faults rows fresh there =
      let fewer = delete_expired-lookup limit rows fresh there in
      elim (Bool-cases (next_fault faults)) [
        | inl fails ↦ simp (fails, prune_batches) there
        | inr works ↦ elim (Bool-cases (ltb (delete_expired expiry now limit rows).1 limit)) [
          | inl last ↦ simp (works, last, prune_batches) fewer
          | inr full ↦
              simp (works, full, prune_batches)
                (prune_batches-lookup limit batches (later_faults faults)
                  (delete_expired expiry now limit rows).0 fresh fewer)
        ]
      ]

  prune_table-lookup :
      (limit : ℕ) (faults : List Bool) (ok : Bool) (rows : Map String V)
      → now < expiry v
      → lookup k rows ≡ some v
      → lookup k (prune_table expiry now limit faults ok rows).0 ≡ some v
  unfolding prune_table
  prune_table-lookup limit faults true rows fresh there =
      prune_batches-lookup limit (record_limit / limit + 1) faults rows fresh there
  prune_table-lookup limit faults false rows fresh there = there

-- A row that has not expired survives.
pub prune-seen :
    (t : PrivateTables) (now n : ℕ) (faults : List Bool) (k : String) (expires : ℕ)
    → now < expires
    → lookup k t.seen ≡ some expires
    → lookup k (prune t now n faults).0.seen ≡ some expires
unfolding prune
prune-seen t now n faults k expires fresh there =
    prune_table-lookup (λ e. e) now k expires (batch_limit n) _ _ t.seen fresh there

pub prune-replies :
    (t : PrivateTables) (now n : ℕ) (faults : List Bool) (k : String) (row : SealedRow)
    → now < row.expires_at
    → lookup k t.replies ≡ some row
    → lookup k (prune t now n faults).0.replies ≡ some row
unfolding prune
prune-replies t now n faults k row fresh there =
    prune_table-lookup (λ r. r.expires_at) now k row (batch_limit n) faults true t.replies fresh
      there
