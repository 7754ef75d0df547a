-- ===== src/Recovery.antt =====
-- internal/recovery/coordinator.go: `Handle` and `advance`. A stream's lock is held for the whole of
-- `Handle`, so a call is one step. The router is the argument `Handler`. Positions are natural
-- numbers: a negative one takes the same branch as 0, since a cursor is never negative.
pub mod Safety
pub mod Persistence
pub mod Handle
pub mod Covers
pub mod Unsettled
pub mod Progress
use message_sync.Base.{
  ℕ, zero, suc, Bool, true, false, not, ◌&&◌, ◌||◌, Option, none, some, String, List, [], ◌∷◌, ◌++◌,
  leb, ltb, if◌then◌else◌, ◌==◌, eq_nat, eq_string, any, keep, Map, lookup, insert, delete, keys,
}
use message_sync.Transport.Failure.{GoError}
use message_sync.Store.Cursors.{
  Cursors, CursorRow, StoreError, CursorRead, found, no_rows, unreadable, put_recovery_cursor,
  recovery_cursor,
}

pub record Checkpoint : Type 0 where
  pub stream_key : String
  pub position : ℕ
  pub event_timestamp : Option ℕ
  pub valid : Bool

pub record Outcome : Type 0 where
  pub accepted : Bool
  pub no_op : Bool
  pub safe_to_advance : Bool

pub data HandleError : Type 0 where
  routing : GoError → HandleError
  storage : StoreError → HandleError

pub data HandleResult : Type 0 where
  outcome : Outcome → HandleResult
  refused : HandleError → HandleResult

-- The router's `HandleEvent`, over the router's state and an incoming event.
pub record Handler (R I : Type 0) : Type 0 where
  pub checkpoint : I → Checkpoint
  pub handle_event : R → I → R × HandleResult

pub record StreamState : Type 0 where
  pub loaded : Bool
  pub cursor : ℕ
  pub acked : Map ℕ (Option ℕ)
  pub failed : Map ℕ (Unit {0})
  pub pending : Map ℕ (Option ℕ)

abbrev pub new_stream : StreamState
new_stream = record { loaded = false; cursor = 0; acked = []; failed = []; pending = [] }

-- `sort.Slice` on the positions.
unfoldable pub insert_sorted : ℕ → List ℕ → List ℕ
insert_sorted p [] = p ∷ []
insert_sorted p (q ∷ qs) = if leb p q then p ∷ q ∷ qs else q ∷ insert_sorted p qs

unfoldable pub sort : List ℕ → List ℕ
unfolding insert_sorted
sort [] = []
sort (p ∷ ps) = insert_sorted p (sort ps)

unfoldable pub ack_positions : StreamState → List ℕ
unfolding sort
ack_positions st = sort (keep (λ p. ltb st.cursor p) (keys st.acked))

-- Something pending or failed stands at the position or before it.
unfoldable pub blocked : StreamState → ℕ → Bool
blocked st p = any (λ q. leb q p) (keys st.pending) || any (λ q. leb q p) (keys st.failed)

abbrev pub ack_time : Option (Option ℕ) → Option ℕ
ack_time none = none
ack_time (some t) = t

-- The cursor that a position is persisted as.
abbrev pub advance_row : StreamState → ℕ → ℕ → CursorRow
advance_row st now p = record {
  position = p;
  event_timestamp = ack_time (lookup p st.acked);
  updated_at = now;
}

-- The loop of `advance`; `now` is `time.Now()`.
unfoldable pub advance_over :
    String → ℕ → List ℕ → StreamState → Cursors → StreamState × Cursors × Option StoreError
unfolding blocked
advance_over key now [] st s = (st, s, none)
advance_over key now (p ∷ ps) st s =
    let put = put_recovery_cursor s key (advance_row st now p) in
    let rest =
      advance_over key now ps (record st { cursor = p; acked = delete p st.acked }) put.0 in
    if blocked st p
    then (st, s, none)
    else elim (put.1) [ some e ↦ (st, put.0, some e) | none ↦ rest ]

unfoldable pub advance :
    String → ℕ → StreamState → Cursors → StreamState × Cursors × Option StoreError
unfolding advance_over ack_positions
advance key now st s = advance_over key now (ack_positions st) st s

-- The cursor that a stream starts from, read once.
unfoldable pub load : String → StreamState → Cursors → StreamState × Cursors × Option StoreError
load key st s =
    if st.loaded
    then (st, s, none)
    else (let (s', read) = recovery_cursor s key in
        elim read [
          | found row ↦ (record st { cursor = row.position; loaded = true }, s', none)
          | no_rows ↦ (record st { loaded = true }, s', none)
          | unreadable e ↦ (st, s', some e)
        ])

abbrev pub already_handled : Outcome
already_handled = record { accepted = true; no_op = true; safe_to_advance = false }

abbrev pub acknowledge : Checkpoint → StreamState → StreamState
acknowledge cp st = record st {
  acked = insert cp.position cp.event_timestamp st.acked;
  failed = delete cp.position st.failed;
  pending = delete cp.position st.pending;
}

-- What an outcome of the router does to the stream.
unfoldable pub settle :
    String
    → ℕ
    → Checkpoint
    → HandleResult
    → StreamState
    → Cursors
    → StreamState × Cursors × HandleResult
settle key now cp (refused e) st s =
    (record st { failed = insert cp.position tt st.failed }, s, refused e)
settle key now cp (outcome o) st s =
    if not o.accepted
    then (record st { failed = insert cp.position tt st.failed }, s, outcome o)
    else if o.no_op || not o.safe_to_advance
    then (
      if o.safe_to_advance
          then st
          else record st { pending = insert cp.position cp.event_timestamp st.pending },
      s,
      outcome o,
    )
    else (let (st', s', err) = advance key now (acknowledge cp st) s in
        (st', s', elim err [ some e ↦ refused (storage e) | none ↦ outcome o ]))

pub record Coordinator (R : Type 0) : Type 0 where
  pub streams : Map String StreamState
  pub cursors : Cursors
  pub router : R

abbrev pub or_new : Option StreamState → StreamState
or_new none = new_stream
or_new (some st) = st

-- `Coordinator.stream`: a stream that is new enters the map when `Handle` stores it.
abbrev pub stream : Map String StreamState → String → StreamState
stream streams key = or_new (lookup key streams)

module _ {R I : Type 0} (h : Handler R I) where
  open h use {checkpoint, handle_event}

  -- The part of `Handle` behind the load: skip what the cursor covers, else route and settle.
  unfoldable pub handle_loaded :
      ℕ → Coordinator R → I → StreamState → Cursors → Coordinator R × HandleResult
  handle_loaded now c incoming st s =
      let cp = checkpoint incoming in
      if leb cp.position st.cursor
      then (
        record c { streams = insert cp.stream_key st c.streams; cursors = s },
        outcome already_handled,
      )
      else (let (r, result) = handle_event c.router incoming in
          let (st', s', result') = settle cp.stream_key now cp result st s in
          (
            record { streams = insert cp.stream_key st' c.streams; cursors = s'; router = r },
            result',
          ))

  unfoldable pub handle : ℕ → Coordinator R → I → Coordinator R × HandleResult
  unfolding handle_loaded
  handle now c incoming =
      let cp = checkpoint incoming in
      if not cp.valid || cp.stream_key == ""
      then (let (r, result) = handle_event c.router incoming in (record c { router = r }, result))
      else (let (st, s, err) = load cp.stream_key (stream c.streams cp.stream_key) c.cursors in
          elim err [
            | some e ↦ (
              record c { streams = insert cp.stream_key st c.streams; cursors = s },
              refused (storage e),
            )
            | none ↦ handle_loaded now c incoming st s
          ])

  -- A sequence of events, each with the time at which it is handled.
  unfoldable pub handle_all : Coordinator R → List (ℕ × I) → Coordinator R
  handle_all c [] = c
  handle_all c ((now, incoming) ∷ rest) = handle_all (handle now c incoming).0 rest
