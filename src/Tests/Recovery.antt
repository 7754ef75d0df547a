-- ===== src/Tests/Recovery.antt =====
-- Properties at concrete inputs: the recovery coordinator.
use message_sync.Base.{
  ℕ, zero, suc, ◌+◌, ◌≤◌, ◌<◌, All, insert, true, false, none, [], ◌∷◌, ◌≡◌, refl, lookup, delete,
  arith, eq_string, eq_nat,
}
use message_sync.Store.Cursors.{
  Cursors, recovery_cursor, put_recovery_cursor, matches_stream_key, is_alnum,
}
use message_sync.Store.Cursors.Laws.{position_at}
use message_sync.Recovery.{
  Checkpoint, Outcome, outcome, Handler, StreamState, new_stream, handle_all, settle, blocked,
  Coordinator, handle, handle_loaded, load, advance, advance_over, ack_positions, sort,
  insert_sorted,
}
use message_sync.Recovery.Unsettled.{wait_event, wait_all, cursor_never_passes}
use message_sync.Recovery.Progress.{settle_persists}

-- A router that fails the event at position 1.
abbrev checkpoint_at : ℕ → Checkpoint
checkpoint_at p = record { stream_key = "wa:1"; position = p; event_timestamp = none; valid = true }

abbrev accept : Outcome
accept = record { accepted = true; no_op = false; safe_to_advance = true }

abbrev deny : Outcome
deny = record { accepted = false; no_op = false; safe_to_advance = false }

abbrev picky_router : Handler ℕ ℕ
picky_router = record {
  checkpoint = checkpoint_at;
  handle_event = λ seen p. (
    seen + 1,
    outcome (elim p [ zero ↦ accept | suc q ↦ elim q [ zero ↦ deny | suc r ↦ accept ] ]),
  );
}

abbrev no_cursors : Cursors
no_cursors = record { rows = []; faults = [] }

abbrev fresh_coordinator : Coordinator ℕ
fresh_coordinator = record { streams = []; cursors = no_cursors; router = 0 }

-- The event at position 1 fails, and so it waits, whatever is accepted after it.
one_waits :
    wait_all picky_router "wa:1" fresh_coordinator ((10, 1) ∷ (11, 2) ∷ (12, 3) ∷ []) [] ≡ 1 ∷ []
unfolding wait_all wait_event handle handle_loaded load settle advance advance_over ack_positions
    blocked sort insert_sorted lookup insert delete recovery_cursor put_recovery_cursor
    matches_stream_key is_alnum
one_waits = refl

cursor_never_passes_example :
    All
      (λ p.
        position_at "wa:1"
          (handle_all picky_router fresh_coordinator ((10, 1) ∷ (11, 2) ∷ (12, 3) ∷ [])).cursors
        < p)
      (wait_all picky_router "wa:1" fresh_coordinator ((10, 1) ∷ (11, 2) ∷ (12, 3) ∷ []) [])
cursor_never_passes_example =
    cursor_never_passes picky_router no_cursors 0 ((10, 1) ∷ (11, 2) ∷ (12, 3) ∷ []) "wa:1"

abbrev loaded_stream : StreamState
loaded_stream = record new_stream { loaded = true }

settle_persists_example :
    3
    ≤ position_at "wa:1"
        (settle "wa:1" 10 (checkpoint_at 3) (outcome accept) loaded_stream no_cursors).1
unfolding blocked matches_stream_key is_alnum lookup delete
settle_persists_example =
    settle_persists "wa:1" 10 (checkpoint_at 3) accept loaded_stream no_cursors refl refl refl
      (omega arith) refl refl refl refl
