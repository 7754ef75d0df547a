-- ===== src/Recovery/Safety.antt =====
-- The recovery cursor never passes an event that failed or is still pending.
use message_sync.Base.{
  ℕ, ◌<◌, true, false, not, ◌||◌, Option, none, some, String, List, [], ◌∷◌, leb, if◌then◌else◌,
  ◌==◌, eq_nat, eq_string, any, Map, insert, delete, keys, All, ◌≡◌, refl, arith, Bool-cases,
  Option-cases, inl, inr,
}
use message_sync.Store.Cursors.{Cursors, StoreError, put_recovery_cursor}
use message_sync.Recovery.{
  Checkpoint, Outcome, HandleResult, outcome, refused, StreamState, ack_positions, blocked,
  advance_row, advance_over, advance, settle, acknowledge,
}

-- All positions of a map's keys lie above a bound.
abbrev pub Above : ℕ → List ℕ → Type 0
Above c = All (λ p. c < p)

pub record IsSafe (st : StreamState) : Type 0 where
  pub failed_ahead : Above st.cursor (keys st.failed)
  pub pending_ahead : Above st.cursor (keys st.pending)

any-All : (q : ℕ) (ps : List ℕ) → any (λ p. leb p q) ps ≡ false → Above q ps
any-All q [] h = tt
any-All q (p ∷ ps) h = ground (arith, any-All q ps)

insert-Above :
    {V : Type 0} (c p : ℕ) (v : V) (m : Map ℕ V)
    → c < p
    → Above c (keys m)
    → Above c (keys (insert p v m))
unfolding insert
insert-Above c p v [] l h = (l, tt)
insert-Above c p v ((q, w) ∷ m) l h = elim (Bool-cases (q == p)) [
  | inl same ↦ rw same (l, h.1)
  | inr other ↦ rw other (h.0, insert-Above c p v m l h.1)
]

delete-Above : {V : Type 0} (c p : ℕ) (m : Map ℕ V) → Above c (keys m) → Above c (keys (delete p m))
unfolding delete
delete-Above c p [] h = tt
delete-Above c p ((q, w) ∷ m) h = elim (Bool-cases (q == p)) [
  | inl same ↦ rw same (delete-Above c p m h.1)
  | inr other ↦ rw other (h.0, delete-Above c p m h.1)
]

-- The three ways out of a round of `advance`.
pub advance_over_cases {ℓ} :
    (P : StreamState × Cursors × Option StoreError → Type ℓ) (key : String) (now p : ℕ)
    (ps : List ℕ) (st : StreamState) (s : Cursors)
    → (blocked st p ≡ true → P (st, s, none))
    → ((e : StoreError)
        → (put_recovery_cursor s key (advance_row st now p)).1 ≡ some e
        → P (st, (put_recovery_cursor s key (advance_row st now p)).0, some e))
    → (blocked st p ≡ false
        → (put_recovery_cursor s key (advance_row st now p)).1 ≡ none
        → P (
            advance_over key now ps
              (record st { cursor = p; acked = delete p st.acked })
              (put_recovery_cursor s key (advance_row st now p)).0))
    → P (advance_over key now (p ∷ ps) st s)
unfolding advance_over
advance_over_cases P key now p ps st s stopped failing going = elim (Bool-cases (blocked st p)) [
  | inl stop ↦ simp (stop, advance_over) (stopped stop)
  | inr clear ↦
      simp (clear, advance_over)
        (elim (Option-cases (put_recovery_cursor s key (advance_row st now p)).1) [
          | inl done ↦ simp done (going clear done)
          | inr (e, err) ↦ simp err (failing e err)
        ])
]

clear_ahead :
    (st : StreamState) (p : ℕ)
    → blocked st p ≡ false
    → Above p (keys st.pending) × Above p (keys st.failed)
unfolding blocked
clear_ahead st p h =
    (any-All p (keys st.pending) (ground arith), any-All p (keys st.failed) (ground arith))

advance_over-IsSafe :
    (key : String) (now : ℕ) (ps : List ℕ) (st : StreamState) (s : Cursors)
    → IsSafe st
    → st.loaded ≡ true
    → IsSafe (advance_over key now ps st s).0
unfolding advance_over
advance_over-IsSafe key now [] st s h l = h
advance_over-IsSafe key now (p ∷ ps) st s h l =
    advance_over_cases (λ r. IsSafe r.0) key now p ps st s (λ _. h) (λ e _. h)
      λ clear done.
        let ahead = clear_ahead st p clear in
        advance_over-IsSafe key now ps _ _
          (record { failed_ahead = ahead.1; pending_ahead = ahead.0 }) l

failed-IsSafe :
    (st : StreamState) (cp : Checkpoint)
    → st.loaded ≡ true
    → st.cursor < cp.position
    → IsSafe st
    → IsSafe (record st { failed = insert cp.position tt st.failed })
failed-IsSafe st cp loaded l h = record {
  failed_ahead = insert-Above st.cursor cp.position tt st.failed l h.failed_ahead;
  pending_ahead = h.pending_ahead;
}

held-IsSafe :
    (o : Outcome) (st : StreamState) (cp : Checkpoint)
    → st.loaded ≡ true
    → st.cursor < cp.position
    → IsSafe st
    → IsSafe (
        if o.safe_to_advance
        then st
        else record st { pending = insert cp.position cp.event_timestamp st.pending })
held-IsSafe o st cp loaded l h = elim (Bool-cases o.safe_to_advance) [
  | inl safe ↦ rw safe h
  | inr unsafe ↦ rw unsafe (record {
    failed_ahead = h.failed_ahead;
    pending_ahead =
        insert-Above st.cursor cp.position cp.event_timestamp st.pending l h.pending_ahead;
  })
]

pub settle-IsSafe :
    (key : String) (now : ℕ) (cp : Checkpoint) (result : HandleResult) (st : StreamState)
    (s : Cursors)
    → st.cursor < cp.position
    → st.loaded ≡ true
    → IsSafe st
    → IsSafe (settle key now cp result st s).0
unfolding settle advance
settle-IsSafe key now cp (refused e) st s l loaded h = failed-IsSafe st cp loaded l h
settle-IsSafe key now cp (outcome o) st s l loaded h = elim (Bool-cases o.accepted) [
  | inl yes' ↦ simp yes' (elim (Bool-cases (o.no_op || not o.safe_to_advance)) [
    | inl held ↦ simp held (held-IsSafe o st cp loaded l h)
    | inr safe ↦ simp safe (
        advance_over-IsSafe key now _ _ s
          (record {
            failed_ahead = delete-Above st.cursor cp.position st.failed h.failed_ahead;
            pending_ahead = delete-Above st.cursor cp.position st.pending h.pending_ahead;
          })
          loaded)
  ])
  | inr no' ↦ simp no' (failed-IsSafe st cp loaded l h)
]

advance_over-loaded :
    (key : String) (now : ℕ) (ps : List ℕ) (st : StreamState) (s : Cursors)
    → (advance_over key now ps st s).0.loaded ≡ st.loaded
unfolding advance_over
advance_over-loaded key now [] st s = refl
advance_over-loaded key now (p ∷ ps) st s =
    advance_over_cases (λ r. r.0.loaded ≡ st.loaded) key now p ps st s (λ _. refl) (λ e _. refl)
      (λ clear done. advance_over-loaded key now ps _ _)

pub settle-loaded :
    (key : String) (now : ℕ) (cp : Checkpoint) (result : HandleResult) (st : StreamState)
    (s : Cursors)
    → (settle key now cp result st s).0.loaded ≡ st.loaded
unfolding settle advance
settle-loaded key now cp (refused e) st s = refl
settle-loaded key now cp (outcome o) st s =
    ground
      (arith, advance_over-loaded key now (ack_positions (acknowledge cp st)) (acknowledge cp st) s)
