-- ===== src/Router/Create/Sent.antt =====
-- A request in the middle of a run: what its step allows once it is settled.
use message_sync.Base.{
  All, ◌||◌, ℕ, ◌≤◌, Bool, true, false, some, String, List, [], ◌∷◌, ◌==◌, eq_nat, if◌then◌else◌,
  Bool-cases, inl, inr, lookup, ◌≡◌, refl, sym, subst, arith, eq_string, ◌⊎◌,
}
use message_sync.Transport.Failure.{GoError, plain, classify, send_unknown}
use message_sync.Store.Ledger.{
  Store, CreateStep, pending, complete, ambiguous, complete_create_step, tombstone,
}
use message_sync.Store.Ledger.Keys.{StepKind, primary, companion, eq_step_key, step_kind_eq}
use message_sync.Store.Ledger.Laws.{
  Quiet, Quiet-refl, tombstone-Quiet, Completes, complete_create_step-Completes,
}
use message_sync.Router.Create.{
  World, CreateJob, MessageRef, Answer, Action, sent, step_key, put_store, valid_ref,
  accept_primary, refuse, send, Reply, refused,
}
use message_sync.Router.Create.Once.{
  IsNamed, IsOrderly, may_have_arrived, deliveries, allowed, IsOnce, finish_failure-IsOnce,
  record_copy-IsOnce,
}

-- A request of one kind that is about to be settled: its own step had none, the other's are bounded.
pub record IsSent (j : CreateJob) (kind : StepKind) (arrived : Bool) (w : World) : Type 0 where
  pub reliable : w.store.faults ≡ []
  pub found : (step : CreateStep) × (lookup (step_key j kind) w.store.steps ≡ some step)
  pub own : deliveries j kind w.log ≤ (if arrived then 1 else 0)
  pub others :
      (other : StepKind)
      → step_kind_eq kind other ≡ false
      → deliveries j other w.log ≤ allowed (lookup (step_key j other) w.store.steps)
  pub orderly : All (IsOrderly j) w.replies

key_kind :
    (j : CreateJob) (a b : StepKind)
    → eq_step_key.equal (step_key j a) (step_key j b) ≡ step_kind_eq a b
key_kind j a b = ground (
  arith,
  eq_string.equal_iff j.canonical j.canonical,
  eq_string.equal_iff j.destination j.destination,
)

same_kind : (a b : StepKind) → step_kind_eq a b ≡ true → a ≡ b
same_kind primary primary h = refl
same_kind companion companion h = refl
same_kind primary companion h = ground arith
same_kind companion primary h = ground arith

-- Both ends of a step allow one request.
allows_one :
    (d : ℕ) (arrived amb : Bool) (remote : String)
    → d ≤ (if arrived then 1 else 0)
    → d
      ≤ allowed (
          some (record { state = if amb then ambiguous else complete; remote_message_id = remote }))
allows_one d false false remote h = ground arith
allows_one d false true remote h = ground arith
allows_one d true false remote h = h
allows_one d true true remote h = h

written_step :
    (j : CreateJob) (kind other : StepKind) (s : Store) (remote : String) (amb : Bool)
    → Completes s (step_key j kind) remote amb
    → lookup (step_key j other) (complete_create_step s (step_key j kind) remote amb).0.steps ≡ (
        if step_kind_eq kind other
        then some
            (record { state = if amb then ambiguous else complete; remote_message_id = remote })
        else lookup (step_key j other) s.steps)
written_step j kind other s remote amb c =
    subst
      (λ b.
        lookup (step_key j other) (complete_create_step s (step_key j kind) remote amb).0.steps ≡ (
          if b
          then some
              (record { state = if amb then ambiguous else complete; remote_message_id = remote })
          else lookup (step_key j other) s.steps))
      (key_kind j kind other) (c.writes (step_key j other))

-- Completing the step allows for the request.
pub complete-IsOnce :
    (j : CreateJob) (kind : StepKind) (arrived : Bool) (remote : String) (amb : Bool) (w : World)
    → IsSent j kind arrived w
    → IsOnce j (put_store w (complete_create_step w.store (step_key j kind) remote amb).0)
complete-IsOnce j kind arrived remote amb w s =
    let c =
      complete_create_step-Completes w.store (step_key j kind) s.found.0 remote amb s.reliable
        s.found.1 in
    record {
      reliable = c.stays_reliable;
      bounded = λ other.
          subst (λ x. deliveries j other w.log ≤ allowed x)
            (sym (written_step j kind other w.store remote amb c))
            (elim (Bool-cases (step_kind_eq kind other)) [
              | inl same ↦ rw same (
                  allows_one _ arrived amb remote (
                    subst (λ k. deliveries j k w.log ≤ (if arrived then 1 else 0))
                      (same_kind kind other same) s.own))
              | inr different ↦ rw different (s.others other different)
            ]);
      orderly = s.orderly;
    }

-- A request that did not arrive needs no step.
unsent-IsOnce : (j : CreateJob) (kind : StepKind) (w : World) → IsSent j kind false w → IsOnce j w
unsent-IsOnce j kind w s = record {
  reliable = s.reliable;
  bounded = λ other. elim (Bool-cases (step_kind_eq kind other)) [
    | inl same ↦
        subst (λ k. deliveries j k w.log ≤ allowed (lookup (step_key j k) w.store.steps))
          (same_kind kind other same) (ground (arith, s.own))
    | inr different ↦ s.others other different
  ];
  orderly = s.orderly;
}

pub refuse-IsOnce :
    (j : CreateJob) (n : ℕ) (kind : StepKind) (e : GoError) (w : World)
    → IsSent j kind ((classify (some e)).certainty == send_unknown) w
    → IsOnce j (refuse j n kind e w).0
unfolding refuse
refuse-IsOnce j n kind e w s =
    finish_failure-IsOnce j n e _
      (elim (Bool-cases ((classify (some e)).certainty == send_unknown)) [
        | inl unknown ↦ rw unknown (complete-IsOnce j kind _ "" true w s)
        | inr not_sent ↦
            rw not_sent (unsent-IsOnce j kind w (subst (λ b. IsSent j kind b w) not_sent s))
      ])

pub accept_primary-IsOnce :
    (j : CreateJob) (n : ℕ) (ref : MessageRef) (w : World)
    → valid_ref j ref ≡ true
    → IsSent j primary true w
    → IsOnce j (accept_primary j n ref w).0
unfolding accept_primary
accept_primary-IsOnce j n ref w valid s =
    let completed =
      complete_create_step-Completes w.store (step_key j primary) s.found.0 ref.remote_message_id
        false s.reliable s.found.1 in
    simp (valid, completed.succeeds, accept_primary)
      (record_copy-IsOnce j n ref _
        (complete-IsOnce j primary true ref.remote_message_id false w s))

List-cases : (rs : List Reply) → (rs ≡ []) ⊎ ((r : Reply) × (rest : List Reply) × (rs ≡ (r ∷ rest)))
List-cases [] = inl refl
List-cases (r ∷ rest) = inr (r, rest, refl)

-- One more request of a kind, in the log.
deliveries-sent :
    (j : CreateJob) (kind : StepKind) (answer : Answer) (log : List Action)
    → deliveries j kind log ≤ 0
    → deliveries j kind (sent kind answer ∷ log) ≤ (if may_have_arrived answer then 1 else 0)
deliveries-sent j primary answer log h = ground arith
deliveries-sent j companion answer log h = ground arith

deliveries-other :
    (j : CreateJob) (kind other : StepKind) (answer : Answer) (log : List Action)
    → step_kind_eq kind other ≡ false
    → deliveries j other (sent kind answer ∷ log) ≡ deliveries j other log
deliveries-other j kind other answer log h = rw h refl

sent-IsSent :
    (j : CreateJob) (kind : StepKind) (answer : Answer) (step : CreateStep) (w w' : World)
    → lookup (step_key j kind) w.store.steps ≡ some step
    → step.state ≡ pending
    → IsOnce j w
    → All (IsOrderly j) w'.replies
    → Quiet w.store w'.store
    → w'.log ≡ (sent kind answer ∷ w.log)
    → IsSent j kind (may_have_arrived answer) w'
sent-IsSent j kind answer step w w' there fresh once orderly quiet logged = record {
  reliable = quiet.reliable once.reliable;
  found = (step, subst (λ m. lookup (step_key j kind) m ≡ some step) (sym quiet.same_steps) there);
  own =
      subst (λ l. deliveries j kind l ≤ (if may_have_arrived answer then 1 else 0)) (sym logged)
        (deliveries-sent j kind answer w.log (
          subst (λ n. deliveries j kind w.log ≤ n) (simp (there, fresh) refl) (once.bounded kind)));
  others = λ other different.
      subst (λ l. deliveries j other l ≤ allowed (lookup (step_key j other) w'.store.steps))
        (sym logged)
        (rw (deliveries-other j kind other answer w.log different, quiet.same_steps)
          (once.bounded other));
  orderly = orderly;
}

-- What sending leaves: the answer is the provider's, and the others are still to come.
send_cases {ℓ} :
    (P : World × Answer → Type ℓ) (j : CreateJob) (kind : StepKind) (w : World)
    → (w.replies ≡ []
        → P (
          record w { replies = []; log = sent kind (refused (plain "closed")) ∷ w.log },
          refused (plain "closed"),
        ))
    → ((r : Reply) (rest : List Reply)
        → w.replies ≡ (r ∷ rest)
        → P (
          record w {
            store = if r.tombstones then tombstone w.store j.canonical else w.store;
            replies = rest;
            canceled = w.canceled || r.cancels;
            log = sent kind r.answer ∷ w.log;
          },
          r.answer,
        ))
    → P (send j kind w)
unfolding send
send_cases P j kind w over more = elim (List-cases w.replies) [
  | inl none_left ↦ simp (none_left, send) (over none_left)
  | inr (r, rest, left) ↦ simp (left, send) (more r rest left)
]

-- Sending when the step is pending.
pub send-IsSent :
    (j : CreateJob) (kind : StepKind) (step : CreateStep) (w : World)
    → lookup (step_key j kind) w.store.steps ≡ some step
    → step.state ≡ pending
    → IsOnce j w
    → IsSent j kind (may_have_arrived (send j kind w).1) (send j kind w).0
      × IsNamed j (send j kind w).1
send-IsSent j kind step w there fresh once =
    send_cases (λ s. IsSent j kind (may_have_arrived s.1) s.0 × IsNamed j s.1) j kind w
      (λ over. (sent-IsSent j kind _ step w _ there fresh once tt (Quiet-refl w.store) refl, tt))
      (λ r rest left.
        let orderly = subst (All (IsOrderly j)) left once.orderly in
        (
          sent-IsSent j kind r.answer step w _ there fresh once orderly.1
              (elim (Bool-cases r.tombstones) [
                | inl gone ↦ rw gone (tombstone-Quiet w.store j.canonical)
                | inr live ↦ rw live (Quiet-refl w.store)
              ])
              refl,
          orderly.0.0,
        ))
