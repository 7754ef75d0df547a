-- ===== src/Recovery/Unsettled.antt =====
-- The events that the router failed or left unsafe, followed through `Handle` of
-- internal/recovery/coordinator.go beside the coordinator's own maps.
use message_sync.Base.{
  ℕ, ◌<◌, true, false, not, ◌&&◌, ◌||◌, none, some, String, List, [], ◌∷◌, leb, if◌then◌else◌, ◌==◌,
  eq_nat, eq_string, Map, lookup, insert, has, All, ◌≡◌, refl, sym, subst, arith, Bool-cases,
  Option-cases, inl, inr, lookup-insert,
}
use message_sync.Store.Cursors.{Cursors}
use message_sync.Store.Cursors.Laws.{position_at}
use message_sync.Recovery.{
  Handler, StreamState, new_stream, load, settle, Coordinator, stream, handle_loaded, handle,
  handle_all,
}
use message_sync.Recovery.Covers.{after_answer, Covers, settle-Covers, load-Covers, has-Above}
use message_sync.Recovery.Handle.{handle_all-Tracks, Tracks}

below :
    (st : StreamState) (key : String) (s : Cursors)
    → Tracks key st s
    → (waiting : List ℕ) → Covers st waiting
    → All (λ p. position_at key s < p) waiting
unfolding lookup
below st key s t [] c = tt
below st key s t (p ∷ ps) c = elim (Bool-cases st.loaded) [
  | inr cold ↦
      let started : (has p new_stream.failed || has p new_stream.pending) ≡ true =
        subst (λ (x : StreamState). (has p x.failed || has p x.pending) ≡ true) (t.fresh cold)
          c.0 in
      absurd (ground (arith, started))
  | inl ready ↦ elim (Bool-cases (has p st.failed)) [
    | inl failed ↦ (
      omega (arith, t.agrees ready, has-Above st.cursor p st.failed failed t.safe.failed_ahead),
      below st key s t ps c.1,
    )
    | inr other ↦ (
      omega (
        arith,
        t.agrees ready,
        has-Above st.cursor p st.pending (ground (arith, other, c.0)) t.safe.pending_ahead,
      ),
      below st key s t ps c.1,
    )
  ]
]

module _ {R I : Type 0} (h : Handler R I) where
  open h use {checkpoint, handle_event}

  -- The waiting positions of a stream after one more event. The router is asked about the event when
  -- it has an order, the cursor could be read, and the event lies ahead of it.
  unfoldable pub wait_event : String → Coordinator R → I → List ℕ → List ℕ
  wait_event key c incoming waiting =
      let cp = checkpoint incoming in
      let (st, s, err) = load cp.stream_key (stream c.streams cp.stream_key) c.cursors in
      if not (cp.valid && not (cp.stream_key == "") && cp.stream_key == key)
      then waiting
      else elim err [
        | some e ↦ waiting
        | none ↦
            if leb cp.position st.cursor
            then waiting
            else after_answer (handle_event c.router incoming).1 cp.position waiting
      ]

  -- The positions of a stream that wait after some events, none before.
  unfoldable pub wait_all : String → Coordinator R → List (ℕ × I) → List ℕ → List ℕ
  wait_all key c [] waiting = waiting
  wait_all key c ((now, incoming) ∷ rest) waiting =
      wait_all key (handle h now c incoming).0 rest (wait_event key c incoming waiting)

  -- The stream under a key after one was stored.
  stored-Covers :
      (streams : Map String StreamState) (key k : String) (st : StreamState)
      (waiting waits : List ℕ)
      → ((key == k) ≡ true → Covers st waits)
      → ((key == k) ≡ false → waits ≡ waiting)
      → Covers (stream streams k) waiting
      → Covers (stream (insert key st streams) k) waits
  stored-Covers streams key k st waiting waits own others c = elim (Bool-cases (key == k)) [
    | inl same ↦ rw (lookup-insert key k st streams, same) (own same)
    | inr other ↦ rw (lookup-insert key k st streams, other, others other) c
  ]

  handle-Covers :
      (now : ℕ) (c : Coordinator R) (incoming : I) (k : String) (waiting : List ℕ)
      → Covers (stream c.streams k) waiting
      → Covers (stream (handle h now c incoming).0.streams k) (wait_event k c incoming waiting)
  unfolding handle handle_loaded wait_event
  handle-Covers now c incoming k waiting cov =
      let cp = checkpoint incoming in
      let key = cp.stream_key in
      let before = stream c.streams key in
      let loaded = load key before c.cursors in
      let result = (handle_event c.router incoming).1 in
      let here = λ (same : (key == k) ≡ true). load-Covers key before c.cursors waiting (
        subst (λ x. Covers (stream c.streams x) waiting) (sym ((eq_string.equal_iff key k).0 same))
          cov) in
      let on = λ (same : (key == k) ≡ true) (kept : (not cp.valid || key == "") ≡ false).
        let holds : (not (cp.valid && not (key == "") && key == k)) ≡ false =
          ground (arith, kept, same) in
        holds in
      let off = λ (other : (key == k) ≡ false).
        let holds : (not (cp.valid && not (key == "") && key == k)) ≡ true =
          ground (arith, other) in
        holds in
      elim (Bool-cases (not cp.valid || key == "")) [
        | inl live ↦
            let off : (not (cp.valid && not (key == "") && key == k)) ≡ true =
              ground (arith, live) in
            rw (live, off) cov
        | inr kept ↦ elim (Option-cases loaded.2) [
          | inr (e, err) ↦
              simp (kept, err)
                (stored-Covers c.streams key k loaded.0 waiting _
                  (λ same. rw (on same kept) (here same)) (λ other. rw (off other) refl) cov)
          | inl fine ↦ elim (Bool-cases (leb cp.position loaded.0.cursor)) [
            | inl behind ↦
                simp (kept, fine, behind)
                  (stored-Covers c.streams key k loaded.0 waiting _
                    (λ same. rw (on same kept) (here same)) (λ other. rw (off other) refl) cov)
            | inr ahead ↦
                simp (kept, fine, ahead)
                  (stored-Covers c.streams key k (settle key now cp result loaded.0 loaded.1).0
                    waiting _
                    (λ same.
                      rw (on same kept)
                        (settle-Covers key now cp result loaded.0 loaded.1 waiting (here same)))
                    (λ other. rw (off other) refl) cov)
          ]
        ]
      ]

  wait_all-Covers :
      (c : Coordinator R) (events : List (ℕ × I)) (k : String) (waiting : List ℕ)
      → Covers (stream c.streams k) waiting
      → Covers (stream (handle_all h c events).streams k) (wait_all k c events waiting)
  unfolding handle_all wait_all
  wait_all-Covers c [] k waiting cov = cov
  wait_all-Covers c ((now, incoming) ∷ rest) k waiting cov =
      wait_all-Covers (handle h now c incoming).0 rest k _
        (handle-Covers now c incoming k waiting cov)

  -- After any sequence of events on a coordinator that starts with no stream in memory, whatever the
  -- router answers and whichever statements of the database fail: the persisted position of a stream
  -- lies below each position for which the router failed, did not accept the event or did not call it
  -- safe, and for which it accepted no safe event since. So a restart replays them all.
  pub cursor_never_passes :
      (s : Cursors) (r : R) (events : List (ℕ × I)) (key : String)
      → let c0 : Coordinator R = record { streams = []; cursors = s; router = r } in
        All (λ p. position_at key (handle_all h c0 events).cursors < p) (wait_all key c0 events [])
  cursor_never_passes s r events key =
      let c0 : Coordinator R = record { streams = []; cursors = s; router = r } in
      let st = stream (handle_all h c0 events).streams key in
      below st key (handle_all h c0 events).cursors (handle_all-Tracks h s r events key)
        (wait_all key c0 events []) (wait_all-Covers c0 events key [] tt)
