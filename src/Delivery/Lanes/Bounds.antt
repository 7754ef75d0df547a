-- ===== src/Delivery/Lanes/Bounds.antt =====
-- The lanes of a manager between two events.
use message_sync.Base.{
  subst, ◌∙◌, any, pos_part, ltb, ap, ℕ, suc, ◌≤◌, Bool, true, none, some, String, List, [], ◌∷◌,
  ◌++◌, ◌≡◌, refl, arith, eq_string, eq_nat, Map, lookup, insert, length, length-append, AllValues,
  insert-AllValues, lookup-AllValues, has, contains, ◌||◌, ◌&&◌, Bool-cases, Option-cases, inl, inr,
  ℤ, lookup-insert, ◌==◌,
}
use message_sync.Delivery.Retry.{RetryPolicy}
use message_sync.Delivery.Lanes.{
  Lane, Manager, queue, keep_wanted, add_missing, update, new, empty_manager, offer, enqueue,
  take_job, work, close, set_retry_policy, Event, enqueues, works, updates, policies, closes, step,
  run,
}

or_assoc : (a b c : Bool) → (a || b || c) ≡ (a || (b || c))
or_assoc a b c = ground arith

-- A lane's channel has room for as many jobs as the manager says.
abbrev Sized : ℕ → Lane → Type 0
Sized capacity l = l.capacity ≡ capacity

keep_wanted-Sized :
    (c : ℕ) (wanted : List String) (lanes : Map String Lane)
    → AllValues (Sized c) lanes
    → AllValues (Sized c) (keep_wanted wanted lanes).0
unfolding keep_wanted
keep_wanted-Sized c wanted [] h = tt
keep_wanted-Sized c wanted ((k, l) ∷ lanes) h = elim (Bool-cases (contains wanted k)) [
  | inl kept ↦ rw kept (h.0, keep_wanted-Sized c wanted lanes h.1)
  | inr dropped ↦ rw dropped (keep_wanted-Sized c wanted lanes h.1)
]

add_missing-Sized :
    (c : ℕ) (es : List String) (lanes : Map String Lane) (next : ℕ)
    → AllValues (Sized c) lanes
    → AllValues (Sized c) (add_missing c es lanes next).0
unfolding add_missing
add_missing-Sized c [] lanes next h = h
add_missing-Sized c (e ∷ es) lanes next h = elim (Bool-cases (has e lanes)) [
  | inl old ↦ rw old (add_missing-Sized c es lanes next h)
  | inr absent ↦ rw absent (
      add_missing-Sized c es _ (suc next)
        (insert-AllValues (Sized c) e (record { number = next; capacity = c }) lanes refl h))
]

keep_wanted-has :
    (wanted : List String) (lanes : Map String Lane) (e : String)
    → has e (keep_wanted wanted lanes).0 ≡ (contains wanted e && has e lanes)
unfolding keep_wanted lookup
keep_wanted-has wanted [] e = ground arith
keep_wanted-has wanted ((k, l) ∷ lanes) e =
    ground (arith, eq_string.equal_iff k e, keep_wanted-has wanted lanes e)

add_missing-has :
    (c : ℕ) (es : List String) (lanes : Map String Lane) (next : ℕ) (e : String)
    → has e (add_missing c es lanes next).0 ≡ (has e lanes || contains es e)
unfolding add_missing
add_missing-has c [] lanes next e = ground arith
add_missing-has c (k ∷ es) lanes next e = elim (Bool-cases (has k lanes)) [
  | inl old ↦
      let present : (has e lanes || contains es e) ≡ (has e lanes || (k == e || contains es e)) =
        elim (Bool-cases (k == e)) [
          | inl same ↦
              let there : has e lanes ≡ true =
                subst (λ x. has x lanes ≡ true) ((eq_string.equal_iff k e).0 same) old in
              ground (arith, there, same)
          | inr other ↦ ground (arith, other)
        ] in
      rw old (add_missing-has c es lanes next e ∙ present)
  | inr absent ↦ rw absent (
      add_missing-has c es (insert k (record { number = next; capacity = c }) lanes) (suc next) e
      ∙ ground (arith, lookup-insert k e (record { number = next; capacity = c }) lanes))
]

module _ {J : Type 0} where
  -- No lane's channel holds more than the capacity, also of a lane that was removed.
  pub record IsBounded (c : ℕ) (m : Manager J) : Type 0 where
    pub limit : m.capacity ≡ c
    pub sized : AllValues (Sized m.capacity) m.lanes
    pub within : (i : ℕ) → length (queue m i) ≤ c

  offer-IsBounded :
      {c : ℕ} (m : Manager J) (k : String) (l : Lane) (j : J)
      → lookup k m.lanes ≡ some l
      → IsBounded c m
      → IsBounded c (offer m l j).0
  unfolding offer
  offer-IsBounded m k l j found b = elim (Bool-cases (ltb (length (queue m l.number)) l.capacity)) [
    | inr full ↦ simp (full, offer) b
    | inl room ↦
        let size = lookup-AllValues (Sized m.capacity) k m.lanes b.sized found in
        simp (room, offer)
          (record {
            limit = b.limit;
            sized = b.sized;
            within = λ i. elim (Bool-cases (l.number == i)) [
              | inl same ↦
                  rw (lookup-insert l.number i (queue m l.number ++ j ∷ []) m.queues, same)
                    (ground (arith, room, size, b.limit, length-append (queue m l.number) (j ∷ [])))
              | inr other ↦
                  rw (lookup-insert l.number i (queue m l.number ++ j ∷ []) m.queues, other)
                    (b.within i)
            ];
          })
  ]

  enqueue-IsBounded :
      {c : ℕ} (m : Manager J) (k : String) (j : J)
      → IsBounded c m
      → IsBounded c (enqueue m true k (some j)).0
  unfolding enqueue
  enqueue-IsBounded m k j b = elim (Bool-cases m.closed) [
    | inl shut ↦ simp (shut, enqueue) b
    | inr live ↦
        rw (live, enqueue)
          (elim (Option-cases (lookup k m.lanes)) [
            | inl absent ↦ rw absent b
            | inr (l, found) ↦ rw found (offer-IsBounded m k l j found b)
          ])
  ]

  take_job-IsBounded :
      {c : ℕ} (m : Manager J) (k : ℕ) (js : List J)
      → queue m k ≡ js
      → IsBounded c m
      → IsBounded c (take_job m k js).0
  unfolding take_job
  take_job-IsBounded m k [] q b = b
  take_job-IsBounded m k (j ∷ js) q b = record {
    limit = b.limit;
    sized = b.sized;
    within = λ i. elim (Bool-cases (k == i)) [
      | inl same ↦ rw (lookup-insert k i js m.queues, same) (omega (arith, b.within k, ap length q))
      | inr other ↦ rw (lookup-insert k i js m.queues, other) (b.within i)
    ];
  }

  update-IsBounded :
      {c : ℕ} (m : Manager J) (es : List String) → IsBounded c m → IsBounded c (update m es).0
  unfolding update
  update-IsBounded m es b = elim (Bool-cases m.closed) [
    | inl shut ↦ simp (shut, update) b
    | inr live ↦ elim (Bool-cases (any (λ e. e == "") es)) [
      | inl bad ↦ simp (live, bad, update) b
      | inr good ↦
          simp (live, good, update)
            (record {
              limit = b.limit;
              sized =
                  add_missing-Sized m.capacity es _ m.next_lane
                    (keep_wanted-Sized m.capacity es m.lanes b.sized);
              within = b.within;
            })
    ]
  ]

  set_retry_policy-IsBounded :
      {c : ℕ} (m : Manager J) (p : RetryPolicy)
      → IsBounded c m
      → IsBounded c (set_retry_policy m p).0
  unfolding set_retry_policy
  set_retry_policy-IsBounded m p b = ground arith

  close-IsBounded : {c : ℕ} (m : Manager J) → IsBounded c m → IsBounded c (close m)
  unfolding close
  close-IsBounded m b = elim (Bool-cases m.closed) [
    | inl shut ↦ simp (shut, close) b
    | inr live ↦ simp (live, close) (record { limit = b.limit; sized = tt; within = b.within })
  ]

  -- Every event keeps every lane within its capacity.
  pub step-IsBounded :
      {c : ℕ} (m : Manager J) (ev : Event J) → IsBounded c m → IsBounded c (step m ev).manager
  unfolding step work
  step-IsBounded m (enqueues k j) b = enqueue-IsBounded m k j b
  step-IsBounded m (works k) b = take_job-IsBounded m k (queue m k) refl b
  step-IsBounded m (updates es) b = update-IsBounded m es b
  step-IsBounded m (policies p) b = set_retry_policy-IsBounded m p b
  step-IsBounded m closes b = close-IsBounded m b

  run-IsBounded :
      {c : ℕ} (m : Manager J) (evs : List (Event J))
      → IsBounded c m
      → IsBounded c (run m evs).manager
  unfolding run
  run-IsBounded m [] b = b
  run-IsBounded m (ev ∷ evs) b = run-IsBounded (step m ev).manager evs (step-IsBounded m ev b)

  empty_manager-IsBounded : (c : ℕ) → IsBounded c (empty_manager {J = J} c)
  unfolding lookup
  empty_manager-IsBounded c = record { limit = refl; sized = tt; within = λ i. omega arith }

  pub new-update :
      (ctx_set : Bool) (capacity : ℤ) (es : List String) {m : Manager J}
      → (new ctx_set capacity es).0 ≡ some m
      → (update (empty_manager (pos_part capacity)) es).0 ≡ m
  unfolding new
  new-update ctx_set capacity es h = ground arith

  new-IsBounded :
      (ctx_set : Bool) (capacity : ℤ) (es : List String) {m : Manager J}
      → (new ctx_set capacity es).0 ≡ some m
      → IsBounded (pos_part capacity) m
  new-IsBounded ctx_set capacity es h =
      subst (IsBounded (pos_part capacity)) (new-update ctx_set capacity es h)
        (update-IsBounded _ es (empty_manager-IsBounded (pos_part capacity)))

  -- A manager that `New` built stays bounded under any events: no lane, in use or removed, ever holds more
  -- jobs than the capacity that `New` was given.
  pub new-run-bounded :
      (ctx_set : Bool) (capacity : ℤ) (es : List String) (evs : List (Event J)) (i : ℕ)
      {m : Manager J}
      → (new ctx_set capacity es).0 ≡ some m
      → length (queue (run m evs).manager i) ≤ pos_part capacity
  new-run-bounded ctx_set capacity es evs i {m} h =
      (run-IsBounded m evs (new-IsBounded ctx_set capacity es h)).within i

  -- After a successful `Update` the lanes are exactly those of the endpoints that were asked for.
  pub update_exact :
      (m : Manager J) (es : List String) (e : String)
      → (update m es).1 ≡ none
      → has e (update m es).0.lanes ≡ contains es e
  unfolding update
  update_exact m es e h = ground (
    arith,
    add_missing-has m.capacity es (keep_wanted es m.lanes).0 m.next_lane e,
    keep_wanted-has es m.lanes e,
  )
