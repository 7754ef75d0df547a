-- ===== src/Recovery/Persistence.antt =====
-- The persisted cursor of a stream is the cursor in memory, and it never goes back.
use message_sync.Base.{
  lookup, ◌∙◌, ℕ, ◌≤◌, false, Option, none, String, List, [], ◌∷◌, leb, ltb, ◌==◌, eq_string, keep,
  keys, ◌≡◌, refl, arith, Bool-cases, inl, inr, ◌||◌, not, ==_refl, ap,
}
use message_sync.Store.Cursors.{Cursors, StoreError, put_recovery_cursor, position_of}
use message_sync.Store.Cursors.Laws.{
  position_at, put_recovery_cursor-position, put_recovery_cursor-failed,
}
use message_sync.Recovery.{
  Checkpoint, HandleResult, outcome, refused, StreamState, insert_sorted, sort, ack_positions,
  advance_row, advance_over, advance, settle, acknowledge,
}
use message_sync.Recovery.Safety.{advance_over_cases}

-- The positions do not fall, and start at the bound or above it.
abbrev pub Ascending : ℕ → List ℕ → Type 0
Ascending c [] = Unit
Ascending c (p ∷ ps) = (c ≤ p) × Ascending p ps

insert_sorted-Ascending :
    (c p : ℕ) (qs : List ℕ) → c ≤ p → Ascending c qs → Ascending c (insert_sorted p qs)
unfolding insert_sorted
insert_sorted-Ascending c p [] l h = (l, tt)
insert_sorted-Ascending c p (q ∷ qs) l h = elim (Bool-cases (leb p q)) [
  | inl le ↦ rw le (l, (ground arith, h.1))
  | inr gt ↦ rw gt (h.0, insert_sorted-Ascending q p qs (ground arith) h.1)
]

pub sort-keep-Ascending : (c : ℕ) (ps : List ℕ) → Ascending c (sort (keep (λ p. ltb c p) ps))
unfolding sort
sort-keep-Ascending c [] = tt
sort-keep-Ascending c (p ∷ ps) = elim (Bool-cases (ltb c p)) [
  | inl above ↦ rw above (insert_sorted-Ascending c p _ (ground arith) (sort-keep-Ascending c ps))
  | inr below ↦ rw below (sort-keep-Ascending c ps)
]

-- What a loop of `advance` does to the persisted positions.
pub record Persists (key : String) (s : Cursors) (r : StreamState × Cursors × Option StoreError)
    : Type 0 where
  pub agrees : position_at key r.1 ≡ r.0.cursor
  pub grows : (k : String) → position_at k s ≤ position_at k r.1
  pub apart : (k : String) → (key == k) ≡ false → position_at k r.1 ≡ position_at k s

advance_over-Persists :
    (key : String) (now : ℕ) (ps : List ℕ) (st : StreamState) (s : Cursors)
    → Ascending st.cursor ps
    → position_at key s ≡ st.cursor
    → Persists key s (advance_over key now ps st s)
unfolding advance_over
advance_over-Persists key now [] st s a e = record {
  agrees = e;
  grows = λ k. omega arith;
  apart = λ k n. refl;
}
advance_over-Persists key now (p ∷ ps) st s a e =
    advance_over_cases (Persists key s) key now p ps st s
      (λ _. record { agrees = e; grows = λ k. omega arith; apart = λ k n. refl })
      (λ err failed.
        let same = λ (k : String).
          ap (λ rows. position_of (lookup k rows))
            (put_recovery_cursor-failed s key (advance_row st now p) failed) in
        record { agrees = same key ∙ e; grows = λ k. omega (arith, same k); apart = λ k n. same k })
      λ clear done.
        let moved =
          λ (k : String). put_recovery_cursor-position s key k (advance_row st now p) done in
        let rest =
          advance_over-Persists key now ps _ (put_recovery_cursor s key (advance_row st now p)).0
            a.1 (ground (arith, moved key, ==_refl key)) in
        record {
          agrees = rest.agrees;
          grows = λ k. ground (arith, moved k, rest.grows k);
          apart = λ k n. ground (arith, moved k, rest.apart k n);
        }

pub advance-Persists :
    (key : String) (now : ℕ) (st : StreamState) (s : Cursors)
    → position_at key s ≡ st.cursor
    → Persists key s (advance key now st s)
unfolding advance ack_positions
advance-Persists key now st s e =
    advance_over-Persists key now (sort (keep (λ p. ltb st.cursor p) (keys st.acked))) st s
      (sort-keep-Ascending st.cursor (keys st.acked)) e

pub settle-Persists :
    (key : String) (now : ℕ) (cp : Checkpoint) (result : HandleResult) (st : StreamState)
    (s : Cursors)
    → position_at key s ≡ st.cursor
    → Persists key s ((settle key now cp result st s).0, (settle key now cp result st s).1, none)
unfolding settle
settle-Persists key now cp (refused err) st s e = record {
  agrees = e;
  grows = λ k. omega arith;
  apart = λ k n. refl;
}
settle-Persists key now cp (outcome o) st s e = elim (Bool-cases o.accepted) [
  | inl good ↦ simp good (elim (Bool-cases (o.no_op || not o.safe_to_advance)) [
    | inl held ↦
        simp held (record { agrees = ground arith; grows = λ k. omega arith; apart = λ k n. refl })
    | inr safe ↦ simp safe (
        let done = advance-Persists key now (acknowledge cp st) s e in
        record { agrees = done.agrees; grows = done.grows; apart = done.apart })
  ])
  | inr bad ↦ simp bad (record { agrees = e; grows = λ k. omega arith; apart = λ k n. refl })
]
