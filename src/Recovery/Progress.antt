-- ===== src/Recovery/Progress.antt =====
-- An acknowledged event is persisted as soon as nothing before it is open.
use message_sync.Base.{
  ◌∙◌, nat_eq_iff, ℕ, ◌≤◌, ◌<◌, true, false, none, String, List, [], ◌∷◌, leb, ltb, any, contains,
  keys, keep, ◌==◌, eq_nat, ◌||◌, ◌≡◌, refl, arith, Bool-cases, inl, inr, Map, insert,
}
use message_sync.Store.Cursors.{Cursors, CursorRow, put_recovery_cursor, valid_stream_key}
use message_sync.Recovery.{
  Checkpoint, Outcome, outcome, StreamState, insert_sorted, sort, ack_positions, blocked,
  advance_row, advance_over, advance, settle, acknowledge,
}
use message_sync.Recovery.Safety.{advance_over_cases}
use message_sync.Recovery.Persistence.{Ascending, sort-keep-Ascending, advance-Persists}
use message_sync.Store.Cursors.Laws.{position_at}

put_recovery_cursor_ok :
    (s : Cursors) (key : String) (row : CursorRow)
    → valid_stream_key key ≡ true
    → s.faults ≡ []
    → ((put_recovery_cursor s key row).1 ≡ none) × ((put_recovery_cursor s key row).0.faults ≡ [])
unfolding put_recovery_cursor
put_recovery_cursor_ok s key row v f = ground arith

any-leb_mono :
    (q p : ℕ) (ks : List ℕ) → q ≤ p → any (λ k. leb k p) ks ≡ false → any (λ k. leb k q) ks ≡ false
any-leb_mono q p [] l h = refl
any-leb_mono q p (k ∷ ks) l h = ground (arith, any-leb_mono q p ks l)

blocked_mono : (st : StreamState) (q p : ℕ) → q ≤ p → blocked st p ≡ false → blocked st q ≡ false
unfolding blocked
blocked_mono st q p l h =
    ground (arith, any-leb_mono q p (keys st.pending) l, any-leb_mono q p (keys st.failed) l)

cursor_mono :
    (key : String) (now : ℕ) (ps : List ℕ) (st : StreamState) (s : Cursors)
    → Ascending st.cursor ps
    → st.cursor ≤ (advance_over key now ps st s).0.cursor
unfolding advance_over
cursor_mono key now [] st s a = omega arith
cursor_mono key now (p ∷ ps) st s a =
    advance_over_cases (λ r. st.cursor ≤ r.0.cursor) key now p ps st s (λ _. omega arith)
      (λ e _. omega arith)
      λ clear done.
        omega
          (arith, cursor_mono key now ps _ (put_recovery_cursor s key (advance_row st now p)).0 a.1)

contains-Ascending : (c p : ℕ) (ps : List ℕ) → Ascending c ps → contains ps p ≡ true → c ≤ p
contains-Ascending c p [] a h = cc
contains-Ascending c p (q ∷ qs) a h = ground (arith, contains-Ascending q p qs a.1)

head-le : (q p : ℕ) (qs : List ℕ) → Ascending q qs → contains (q ∷ qs) p ≡ true → q ≤ p
head-le q p qs a m = ground (arith, contains-Ascending q p qs a)

advance_over_reaches :
    (key : String) (now p : ℕ) (ps : List ℕ) (st : StreamState) (s : Cursors)
    → valid_stream_key key ≡ true
    → s.faults ≡ []
    → Ascending st.cursor ps
    → contains ps p ≡ true
    → blocked st p ≡ false
    → p ≤ (advance_over key now ps st s).0.cursor
unfolding advance_over blocked
advance_over_reaches key now p [] st s v f a m b = cc
advance_over_reaches key now p (q ∷ qs) st s v f a m b =
    let before : q ≤ p = head-le q p qs a.1 m in
    let put = put_recovery_cursor_ok s key (advance_row st now q) v f in
    advance_over_cases (λ r. p ≤ r.0.cursor) key now q qs st s
      (λ stop. cc (blocked_mono st q p before b)) (λ e failed. cc put.0)
      λ clear done. elim (Bool-cases (q == p)) [
        | inl same ↦ omega (
          arith,
          (nat_eq_iff q p).0 same,
          cursor_mono key now qs _ (put_recovery_cursor s key (advance_row st now q)).0 a.1,
        )
        | inr other ↦ advance_over_reaches key now p qs _ _ v put.1 a.1 (rw other at m) b
      ]

contains-insert_sorted :
    (p q : ℕ) (qs : List ℕ) → contains (insert_sorted p qs) q ≡ (p == q || contains qs q)
unfolding insert_sorted
contains-insert_sorted p q [] = refl
contains-insert_sorted p q (r ∷ qs) = ground (arith, contains-insert_sorted p q qs)

contains-sort-keep :
    (c q : ℕ) (ps : List ℕ) → c < q → contains (sort (keep (λ p. ltb c p) ps)) q ≡ contains ps q
unfolding sort
contains-sort-keep c q [] l = refl
contains-sort-keep c q (p ∷ ps) l =
    ground (
      arith,
      contains-insert_sorted p q (sort (keep (λ r. ltb c r) ps)),
      contains-sort-keep c q ps l,
    )

contains-keys-insert :
    {V : Type 0} (p : ℕ) (v : V) (m : Map ℕ V) → contains (keys (insert p v m)) p ≡ true
unfolding insert
contains-keys-insert p v [] = ground arith
contains-keys-insert p v ((q, w) ∷ m) = ground (arith, contains-keys-insert p v m)

-- When the router reports an event as accepted and safe, the stream's cursor was read, the
-- database answers, and no other event at that position or before it is failed or pending, then
-- the event's position is persisted: recovery will not ask for it again.
pub settle_persists :
    (key : String) (now : ℕ) (cp : Checkpoint) (o : Outcome) (st : StreamState) (s : Cursors)
    → valid_stream_key key ≡ true
    → s.faults ≡ []
    → position_at key s ≡ st.cursor
    → st.cursor < cp.position
    → o.accepted ≡ true
    → o.no_op ≡ false
    → o.safe_to_advance ≡ true
    → blocked (acknowledge cp st) cp.position ≡ false
    → cp.position ≤ position_at key (settle key now cp (outcome o) st s).1
unfolding settle advance ack_positions
settle_persists key now cp o st s v f e l acc act safe b =
    let p = advance-Persists key now (acknowledge cp st) s e in
    let st' = acknowledge cp st in
    let reached =
      advance_over_reaches key now cp.position (ack_positions st') st' s v f
        (sort-keep-Ascending st.cursor (keys st'.acked))
        (contains-sort-keep st.cursor cp.position (keys st'.acked) l
          ∙ contains-keys-insert cp.position cp.event_timestamp st.acked)
        b in
    simp (acc, act, safe) (omega (arith, p.agrees, reached))
