-- ===== src/Recovery/Handle.antt =====
-- `Handle` over any sequence of events.
use message_sync.Base.{
  ℕ, true, false, none, String, List, [], ◌∷◌, leb, ◌==◌, eq_string, ◌≡◌, ◌⊎◌, refl, arith, lookup,
  insert, Bool-cases, Option-cases, inl, inr, ◌||◌, not, ap, lookup-insert, ◌∙◌, subst,
}
use message_sync.Store.Cursors.{
  Cursors, CursorRow, StoreError, CursorRead, found, no_rows, unreadable, position_of,
  recovery_cursor,
}
use message_sync.Store.Cursors.Laws.{
  position_at, recovery_cursor-rows, recovery_cursor-found, recovery_cursor-no_rows,
}
use message_sync.Recovery.{
  Handler, StreamState, new_stream, load, settle, Coordinator, stream, handle_loaded, handle,
  handle_all,
}
use message_sync.Recovery.Safety.{IsSafe, settle-IsSafe, settle-loaded}
use message_sync.Recovery.Persistence.{settle-Persists}

-- What holds of one stream and the table.
pub record Tracks (key : String) (st : StreamState) (s : Cursors) : Type 0 where
  pub safe : IsSafe st
  pub agrees : st.loaded ≡ true → position_at key s ≡ st.cursor
  pub fresh : st.loaded ≡ false → st ≡ new_stream

pub CursorRead-cases :
    (r : CursorRead)
    → ((row : CursorRow) × (r ≡ found row))
      ⊎ ((r ≡ no_rows) ⊎ ((e : StoreError) × (r ≡ unreadable e)))
CursorRead-cases (found row) = inl (row, refl)
CursorRead-cases no_rows = inr (inl refl)
CursorRead-cases (unreadable e) = inr (inr (e, refl))

load-rows : (key : String) (st : StreamState) (s : Cursors) → (load key st s).1.rows ≡ s.rows
unfolding load
load-rows key st s = ground (arith, recovery_cursor-rows s key)

cold_Tracks :
    (key : String) (st : StreamState) (s : Cursors) (p : ℕ)
    → st ≡ new_stream
    → position_at key s ≡ p
    → Tracks key (record st { loaded = true; cursor = p }) s
cold_Tracks key st s p f e = rw f (record {
  safe = record { failed_ahead = tt; pending_ahead = tt };
  agrees = λ l. e;
  fresh = λ l. cc;
})

load-Tracks :
    (key : String) (st : StreamState) (s : Cursors)
    → Tracks key st s
    → Tracks key (load key st s).0 s
unfolding load
load-Tracks key st s t = elim (Bool-cases st.loaded) [
  | inl ready ↦ simp (ready, load) t
  | inr cold ↦
      simp (cold, load)
        (elim (CursorRead-cases (recovery_cursor s key).1) [
          | inl (row, e) ↦ simp e (
              cold_Tracks key st s row.position (t.fresh cold)
                (ap position_of (recovery_cursor-found s key row e)))
          | inr (inl e) ↦ simp e (
              rw (t.fresh cold) (
                cold_Tracks key new_stream s 0 refl
                  (ap position_of (recovery_cursor-no_rows s key e))))
          | inr (inr (err, e)) ↦ simp e t
        ])
]

load-loaded :
    (key : String) (st : StreamState) (s : Cursors)
    → (load key st s).2 ≡ none
    → (load key st s).0.loaded ≡ true
unfolding load
load-loaded key st s h = ground arith

start_Tracks : (k : String) (s : Cursors) → Tracks k (stream [] k) s
unfolding lookup
start_Tracks k s = record {
  safe = record { failed_ahead = tt; pending_ahead = tt };
  agrees = λ l. cc;
  fresh = λ l. refl;
}

module _ {R I : Type 0} (h : Handler R I) where
  open h use {checkpoint, handle_event}

  abbrev Inv : Coordinator R → Type 0
  Inv c = (k : String) → Tracks k (stream c.streams k) c.cursors

  replaced-Inv :
      (c : Coordinator R) (key : String) (st : StreamState) (s : Cursors) (r : R)
      → Tracks key st s
      → ((k : String) → (key == k) ≡ false → position_at k s ≡ position_at k c.cursors)
      → Inv c
      → Inv (record { streams = insert key st c.streams; cursors = s; router = r })
  replaced-Inv c key st s r t apart inv k = elim (Bool-cases (key == k)) [
    | inl same ↦
        rw (lookup-insert key k st c.streams, same)
          (subst (λ x. Tracks x st s) ((eq_string.equal_iff key k).0 same) t)
    | inr other ↦
        rw (lookup-insert key k st c.streams, other)
          (record {
            safe = (inv k).safe;
            agrees = λ l. apart k other ∙ (inv k).agrees l;
            fresh = (inv k).fresh;
          })
  ]

  moved-Tracks :
      (k : String) (st : StreamState) (s s' : Cursors)
      → s'.rows ≡ s.rows
      → Tracks k st s
      → Tracks k st s'
  moved-Tracks k st s s' e t = record {
    safe = t.safe;
    agrees = λ l. ap (λ rows. position_of (lookup k rows)) e ∙ t.agrees l;
    fresh = t.fresh;
  }

  handle_loaded-Inv :
      (now : ℕ) (c : Coordinator R) (incoming : I) (st : StreamState) (s : Cursors)
      → s.rows ≡ c.cursors.rows
      → st.loaded ≡ true
      → Tracks (checkpoint incoming).stream_key st s
      → Inv c
      → Inv (handle_loaded h now c incoming st s).0
  unfolding handle_loaded
  handle_loaded-Inv now c incoming st s same loaded t inv =
      let key = (checkpoint incoming).stream_key in
      let unmoved =
        λ (k : String) (n : (key == k) ≡ false). ap (λ rows. position_of (lookup k rows)) same in
      elim (Bool-cases (leb (checkpoint incoming).position st.cursor)) [
        | inl behind ↦ simp behind (replaced-Inv c key st s c.router t unmoved inv)
        | inr ahead ↦ simp ahead (
            let result = (handle_event c.router incoming).1 in
            let after = settle key now (checkpoint incoming) result st s in
            let p = settle-Persists key now (checkpoint incoming) result st s (t.agrees loaded) in
            replaced-Inv c key after.0 after.1 (handle_event c.router incoming).0
              (record {
                safe =
                    settle-IsSafe key now (checkpoint incoming) result st s (ground arith) loaded
                      t.safe;
                agrees = λ l. p.agrees;
                fresh = λ l. cc (settle-loaded key now (checkpoint incoming) result st s);
              })
              (λ k n. p.apart k n ∙ unmoved k n) inv)
      ]

  handle-Inv :
      (now : ℕ) (c : Coordinator R) (incoming : I) → Inv c → Inv (handle h now c incoming).0
  unfolding handle
  handle-Inv now c incoming inv =
      let key = (checkpoint incoming).stream_key in
      elim (Bool-cases (not (checkpoint incoming).valid || key == "")) [
        | inl live ↦ simp live inv
        | inr kept ↦ simp kept (
            let loaded = load key (stream c.streams key) c.cursors in
            let t =
              moved-Tracks key loaded.0 c.cursors loaded.1
                (load-rows key (stream c.streams key) c.cursors)
                (load-Tracks key (stream c.streams key) c.cursors (inv key)) in
            elim (Option-cases loaded.2) [
              | inl fine ↦ simp fine (
                  handle_loaded-Inv now c incoming loaded.0 loaded.1
                    (load-rows key (stream c.streams key) c.cursors)
                    (load-loaded key (stream c.streams key) c.cursors fine) t inv)
              | inr (e, err) ↦ simp err (
                  replaced-Inv c key loaded.0 loaded.1 c.router t
                    (λ k n.
                      ap (λ rows. position_of (lookup k rows))
                        (load-rows key (stream c.streams key) c.cursors))
                    inv)
            ])
      ]

  handle_all-Inv : (c : Coordinator R) (events : List (ℕ × I)) → Inv c → Inv (handle_all h c events)
  unfolding handle_all
  handle_all-Inv c [] inv = inv
  handle_all-Inv c ((now, incoming) ∷ rest) inv =
      handle_all-Inv (handle h now c incoming).0 rest (handle-Inv now c incoming inv)

  -- After any sequence of events on a coordinator that starts with no stream in memory.
  pub handle_all-Tracks :
      (s : Cursors) (r : R) (events : List (ℕ × I)) (key : String)
      → let c = handle_all h (record { streams = []; cursors = s; router = r }) events in
        Tracks key (stream c.streams key) c.cursors
  handle_all-Tracks s r events key =
      handle_all-Inv (record { streams = []; cursors = s; router = r }) events
        (λ k. start_Tracks k s) key
