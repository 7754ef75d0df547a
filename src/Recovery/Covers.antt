-- ===== src/Recovery/Covers.antt =====
-- What `Handle` of internal/recovery/coordinator.go keeps of the positions that wait for a replay.
use message_sync.Base.{
  ℕ, ◌<◌, true, false, not, ◌||◌, Option, String, List, [], ◌∷◌, if◌then◌else◌, ◌==◌, eq_nat,
  eq_string, keep, Map, lookup, insert, delete, has, keys, All, ◌≡◌, refl, sym, subst, arith,
  Bool-cases, inl, inr, lookup-insert, lookup-delete,
}
use message_sync.Store.Cursors.{Cursors, recovery_cursor}
use message_sync.Recovery.{
  Checkpoint, Outcome, HandleResult, outcome, refused, StreamState, load, advance_over, advance,
  ack_positions, acknowledge, settle,
}
use message_sync.Recovery.Safety.{Above, advance_over_cases}
use message_sync.Recovery.Handle.{CursorRead-cases}

-- What an answer of the router for a position makes of the positions that wait for a replay: one that
-- failed, was not accepted or is not safe yet enters them, and one that is safe leaves them.
abbrev pub after_answer : HandleResult → ℕ → List ℕ → List ℕ
after_answer (refused e) p waiting = p ∷ waiting
after_answer (outcome o) p waiting =
    if not o.accepted || not o.safe_to_advance
    then p ∷ waiting
    else (if o.no_op then waiting else keep (λ q. not (q == p)) waiting)

-- Each waiting position is failed or pending for the stream.
abbrev pub Covers : StreamState → List ℕ → Type 0
Covers st = All (λ p. (has p st.failed || has p st.pending) ≡ true)

has-insert :
    {V : Type 0} (p q : ℕ) (v : V) (m : Map ℕ V) → has q (insert p v m) ≡ (p == q || has q m)
has-insert p q v m = ground (arith, lookup-insert p q v m)

has-delete : {V : Type 0} (p q : ℕ) (m : Map ℕ V) → (p == q) ≡ false → has q (delete p m) ≡ has q m
has-delete p q m other = ground (arith, lookup-delete p q m, other)

pub has-Above : {V : Type 0} (c p : ℕ) (m : Map ℕ V) → has p m ≡ true → Above c (keys m) → c < p
unfolding lookup
has-Above c p [] there above = absurd (ground (arith, there))
has-Above c p ((q, v) ∷ m) there above = elim (Bool-cases (q == p)) [
  | inl same ↦ ground (arith, (eq_nat.equal_iff q p).0 same, above.0)
  | inr other ↦ has-Above c p m (ground (arith, other, there)) above.1
]

failed-Covers :
    (p : ℕ) (st : StreamState) (waiting : List ℕ)
    → Covers st waiting
    → Covers (record st { failed = insert p tt st.failed }) waiting
failed-Covers p st [] c = tt
failed-Covers p st (q ∷ qs) c =
    (ground (arith, has-insert p q tt st.failed, c.0), failed-Covers p st qs c.1)

pending-Covers :
    (p : ℕ) (t : Option ℕ) (st : StreamState) (waiting : List ℕ)
    → Covers st waiting
    → Covers (record st { pending = insert p t st.pending }) waiting
pending-Covers p t st [] c = tt
pending-Covers p t st (q ∷ qs) c =
    (ground (arith, has-insert p q t st.pending, c.0), pending-Covers p t st qs c.1)

acknowledge-Covers :
    (cp : Checkpoint) (st : StreamState) (waiting : List ℕ)
    → Covers st waiting
    → Covers (acknowledge cp st) (keep (λ q. not (q == cp.position)) waiting)
acknowledge-Covers cp st [] c = tt
acknowledge-Covers cp st (q ∷ qs) c = elim (Bool-cases (q == cp.position)) [
  | inl same ↦ rw same (acknowledge-Covers cp st qs c.1)
  | inr other ↦
      let differ : (cp.position == q) ≡ false =
        ground (arith, other, eq_nat.equal_iff q cp.position, eq_nat.equal_iff cp.position q) in
      rw other (
        ground (
          arith,
          has-delete cp.position q st.failed differ,
          has-delete cp.position q st.pending differ,
          c.0,
        ),
        acknowledge-Covers cp st qs c.1,
      )
]

advance_over-Covers :
    (key : String) (now : ℕ) (ps : List ℕ) (st : StreamState) (s : Cursors) (waiting : List ℕ)
    → Covers st waiting
    → Covers (advance_over key now ps st s).0 waiting
unfolding advance_over
advance_over-Covers key now [] st s waiting c = c
advance_over-Covers key now (p ∷ ps) st s waiting c =
    advance_over_cases (λ r. Covers r.0 waiting) key now p ps st s (λ _. c) (λ e _. c)
      (λ clear done. advance_over-Covers key now ps _ _ waiting c)

settle_refused :
    (key : String) (now : ℕ) (cp : Checkpoint) (o : Outcome) (st : StreamState) (s : Cursors)
    → o.accepted ≡ false
    → (settle key now cp (outcome o) st s).0
      ≡ record st { failed = insert cp.position tt st.failed }
unfolding settle
settle_refused key now cp o st s no' = simp no' refl

settle_held :
    (key : String) (now : ℕ) (cp : Checkpoint) (o : Outcome) (st : StreamState) (s : Cursors)
    → o.accepted ≡ true
    → o.safe_to_advance ≡ false
    → (settle key now cp (outcome o) st s).0
      ≡ record st { pending = insert cp.position cp.event_timestamp st.pending }
unfolding settle
settle_held key now cp o st s yes' unsafe =
    let held : (o.no_op || not o.safe_to_advance) ≡ true = ground (arith, unsafe) in
    rw (yes', held, unsafe) refl

settle_idle :
    (key : String) (now : ℕ) (cp : Checkpoint) (o : Outcome) (st : StreamState) (s : Cursors)
    → o.accepted ≡ true
    → o.safe_to_advance ≡ true
    → o.no_op ≡ true
    → (settle key now cp (outcome o) st s).0 ≡ st
unfolding settle
settle_idle key now cp o st s yes' safe idle =
    let held : (o.no_op || not o.safe_to_advance) ≡ true = ground (arith, idle) in
    rw (yes', held, safe) refl

settle_safe :
    (key : String) (now : ℕ) (cp : Checkpoint) (o : Outcome) (st : StreamState) (s : Cursors)
    → o.accepted ≡ true
    → o.safe_to_advance ≡ true
    → o.no_op ≡ false
    → (settle key now cp (outcome o) st s).0 ≡ (advance key now (acknowledge cp st) s).0
unfolding settle
settle_safe key now cp o st s yes' safe busy =
    let free : (o.no_op || not o.safe_to_advance) ≡ false = ground (arith, busy, safe) in
    rw (yes', free) refl

advance-Covers :
    (key : String) (now : ℕ) (st : StreamState) (s : Cursors) (waiting : List ℕ)
    → Covers st waiting
    → Covers (advance key now st s).0 waiting
unfolding advance
advance-Covers key now st s waiting c =
    advance_over-Covers key now (ack_positions st) st s waiting c

outcome-Covers :
    (key : String) (now : ℕ) (cp : Checkpoint) (o : Outcome) (st : StreamState) (s : Cursors)
    (waiting : List ℕ)
    → Covers st waiting
    → Covers (settle key now cp (outcome o) st s).0 (after_answer (outcome o) cp.position waiting)
outcome-Covers key now cp o st s waiting c =
    let p = cp.position in
    let t = cp.event_timestamp in
    elim (Bool-cases o.accepted) [
      | inr no' ↦
          subst (λ (x : StreamState). Covers x (after_answer (outcome o) p waiting))
            (sym (settle_refused key now cp o st s no'))
            (rw no' (ground (arith, has-insert p p tt st.failed), failed-Covers p st waiting c))
      | inl yes' ↦ elim (Bool-cases o.safe_to_advance) [
        | inr unsafe ↦
            subst (λ (x : StreamState). Covers x (after_answer (outcome o) p waiting))
              (sym (settle_held key now cp o st s yes' unsafe))
              (rw (yes', unsafe)
                (ground (arith, has-insert p p t st.pending), pending-Covers p t st waiting c))
        | inl safe ↦ elim (Bool-cases o.no_op) [
          | inl idle ↦
              subst (λ (x : StreamState). Covers x (after_answer (outcome o) p waiting))
                (sym (settle_idle key now cp o st s yes' safe idle)) (rw (yes', safe, idle) c)
          | inr busy ↦
              subst (λ (x : StreamState). Covers x (after_answer (outcome o) p waiting))
                (sym (settle_safe key now cp o st s yes' safe busy))
                (rw (yes', safe, busy)
                  (advance-Covers key now (acknowledge cp st) s (keep (λ q. not (q == p)) waiting)
                    (acknowledge-Covers cp st waiting c)))
        ]
      ]
    ]

pub settle-Covers :
    (key : String) (now : ℕ) (cp : Checkpoint) (result : HandleResult) (st : StreamState)
    (s : Cursors) (waiting : List ℕ)
    → Covers st waiting
    → Covers (settle key now cp result st s).0 (after_answer result cp.position waiting)
unfolding settle
settle-Covers key now cp (refused e) st s waiting c = (
  ground (arith, has-insert cp.position cp.position tt st.failed),
  failed-Covers cp.position st waiting c,
)
settle-Covers key now cp (outcome o) st s waiting c = outcome-Covers key now cp o st s waiting c

pub load-Covers :
    (key : String) (st : StreamState) (s : Cursors) (waiting : List ℕ)
    → Covers st waiting
    → Covers (load key st s).0 waiting
unfolding load
load-Covers key st s waiting c = elim (Bool-cases st.loaded) [
  | inl ready ↦ simp (ready, load) c
  | inr cold ↦
      simp (cold, load)
        (elim (CursorRead-cases (recovery_cursor s key).1) [
          | inl (row, e) ↦ simp e c
          | inr (inl e) ↦ simp e c
          | inr (inr (err, e)) ↦ simp e c
        ])
]
