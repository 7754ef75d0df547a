-- ===== src/Delivery/Lanes.antt =====
-- internal/delivery/lanes.go: `Manager` and its lanes. A job is a value of `J`. A lane is an object with a
-- number that no other lane gets: `queues` is the store of the buffered channels, each the list of its
-- waiting jobs, oldest first, and the manager's map holds the lanes that take jobs. `Update` and `Close`
-- take lanes out of the map and stop them; these still run what they hold, while other calls go on. A
-- round of a lane's goroutine is a step of its own, `work`. The parent context lives.
pub mod Views
pub mod Order
pub mod Bounds
use message_sync.Base.{
  ℕ, zero, suc, ◌+◌, Bool, true, false, not, Option, none, some, String, List, [], ◌∷◌, ◌++◌, map,
  length, ltb, ℤ, pos, pos_part, leb_ℤ, if◌then◌else◌, ◌==◌, eq_string, eq_nat, Map, lookup, insert,
  has, contains, any,
}
use message_sync.Delivery.Retry.{RetryPolicy, default_retry_policy, invalid_policy}

pub data LaneError : Type 0 where
  full unavailable context_required capacity_not_positive job_required : LaneError
  invalid_retry_policy manager_closed endpoint_required : LaneError

-- What the manager's map holds of a lane.
pub record Lane : Type 0 where
  pub number : ℕ
  pub capacity : ℕ

pub record Manager (J : Type 0) : Type 0 where
  pub capacity : ℕ
  pub lanes : Map String Lane
  pub queues : Map ℕ (List J)
  -- The lanes whose context is canceled, and the number of the next lane.
  pub stopped : List ℕ
  pub next_lane : ℕ
  pub closed : Bool
  pub policy : RetryPolicy

-- A job that has started: its lane, the job, and whether its context is canceled.
pub record Run (J : Type 0) : Type 0 where
  pub lane : ℕ
  pub job : J
  pub canceled : Bool

pub record EndpointStatus : Type 0 where
  pub endpoint_id : String
  pub queue_depth : ℕ
  pub queue_capacity : ℕ
  pub lane_state : String

unfoldable pub lane_state : Bool → ℕ → String
lane_state is_closed depth =
    if is_closed then "stopped" else if ltb 0 depth then "queued" else "healthy"

-- The lanes that `Update` keeps, and the numbers of the others.
unfoldable pub keep_wanted : List String → Map String Lane → Map String Lane × List ℕ
keep_wanted wanted [] = ([], [])
keep_wanted wanted ((e, l) ∷ lanes) =
    let (kept, removed) = keep_wanted wanted lanes in
    if contains wanted e then ((e, l) ∷ kept, removed) else (kept, l.number ∷ removed)

-- `for endpoint := range wanted`: a new lane for each that has none, and the next number after them.
unfoldable pub add_missing : ℕ → List String → Map String Lane → ℕ → Map String Lane × ℕ
add_missing capacity [] lanes next = (lanes, next)
add_missing capacity (e ∷ es) lanes next =
    let old = add_missing capacity es lanes next in
    let added =
      add_missing capacity es (insert e (record { number = next; capacity = capacity }) lanes)
        (suc next) in
    if has e lanes then old else added

abbrev pub numbers : Map String Lane → List ℕ
numbers = map λ e. e.1.number

abbrev pub jobs_of {ℓ} : {J : Type ℓ} → Option (List J) → List J
jobs_of none = []
jobs_of (some jobs) = jobs

module _ {J : Type 0} where
  -- The waiting jobs of a lane; a channel is empty at first.
  abbrev pub queue : Manager J → ℕ → List J
  queue m number = jobs_of (lookup number m.queues)

  unfoldable pub update : Manager J → List String → Manager J × Option LaneError
  update m endpoints =
      if m.closed
      then (m, some manager_closed)
      else if any (λ e. e == "") endpoints
      then (m, some endpoint_required)
      else (let (kept, removed) = keep_wanted endpoints m.lanes in
          let (lanes, next) = add_missing m.capacity endpoints kept m.next_lane in
          (record m { lanes = lanes; next_lane = next; stopped = removed ++ m.stopped }, none))

  abbrev pub empty_manager : ℕ → Manager J
  empty_manager capacity = record {
    capacity = capacity;
    lanes = [];
    queues = [];
    stopped = [];
    next_lane = 0;
    closed = false;
    policy = default_retry_policy;
  }

  unfoldable pub new : Bool → ℤ → List String → Option (Manager J) × Option LaneError
  new ctx_set capacity endpoints =
      if not ctx_set
      then (none, some context_required)
      else if leb_ℤ capacity (pos 0)
      then (none, some capacity_not_positive)
      else (let (m, err) = update (empty_manager (pos_part capacity)) endpoints in
          elim err [ some e ↦ (none, some e) | none ↦ (some m, none) ])

  unfoldable pub set_retry_policy : Manager J → RetryPolicy → Manager J × Option LaneError
  set_retry_policy m p =
      if invalid_policy p
      then (m, some invalid_retry_policy)
      else if m.closed
      then (m, some manager_closed)
      else (record m { policy = p }, none)

  -- The `select` on `l.jobs <- job` with a default case.
  unfoldable pub offer : Manager J → Lane → J → Manager J × Option LaneError
  offer m l job =
      if ltb (length (queue m l.number)) l.capacity
      then (record m { queues = insert l.number (queue m l.number ++ job ∷ []) m.queues }, none)
      else (m, some full)

  unfoldable pub enqueue : Manager J → Bool → String → Option J → Manager J × Option LaneError
  unfolding offer
  enqueue m ctx_set endpoint none = (m, some job_required)
  enqueue m ctx_set endpoint (some job) =
      if not ctx_set
      then (m, some job_required)
      else if m.closed
      then (m, some unavailable)
      else elim (lookup endpoint m.lanes) [ none ↦ (m, some unavailable) | some l ↦ offer m l job ]

  unfoldable pub take_job : Manager J → ℕ → List J → Manager J × List (Run J)
  take_job m number [] = (m, [])
  take_job m number (j ∷ js) = (
    record m { queues = insert number js m.queues },
    record { lane = number; job = j; canceled = contains m.stopped number } ∷ [],
  )

  -- One round of `lane.run`, before and after the lane is stopped.
  unfoldable pub work : Manager J → ℕ → Manager J × List (Run J)
  unfolding take_job
  work m number = take_job m number (queue m number)

  unfoldable pub close : Manager J → Manager J
  close m =
      if m.closed
      then m
      else record m { closed = true; lanes = []; stopped = numbers m.lanes ++ m.stopped }

  unfoldable pub status : Manager J → List EndpointStatus
  unfolding lane_state
  status m =
      map
        (λ (e, l). record {
          endpoint_id = e;
          queue_depth = length (queue m l.number);
          queue_capacity = l.capacity;
          lane_state = lane_state m.closed (length (queue m l.number));
        })
        m.lanes

-- What happens to a manager: calls, and rounds of its lanes' goroutines.
pub data Event (J : Type 0) : Type 0 where
  enqueues : String → J → Event J
  works : ℕ → Event J
  updates : List String → Event J
  policies : RetryPolicy → Event J
  closes : Event J

-- The manager after an event, the jobs that started, and those that were accepted, with their lanes.
pub record Step (J : Type 0) : Type 0 where
  pub manager : Manager J
  pub started : List (Run J)
  pub accepted : List (ℕ × J)

module _ {J : Type 0} where
  abbrev pub accepted_if : Option LaneError → Option Lane → J → List (ℕ × J)
  accepted_if none (some l) job = (l.number, job) ∷ []
  accepted_if none none job = []
  accepted_if (some e) l job = []

  unfoldable pub step : Manager J → Event J → Step J
  step m (enqueues endpoint job) =
      let (m', err) = enqueue m true endpoint (some job) in
      record {
        manager = m';
        started = [];
        accepted = accepted_if err (lookup endpoint m.lanes) job;
      }
  step m (works number) =
      let (m', runs) = work m number in record { manager = m'; started = runs; accepted = [] }
  step m (updates endpoints) =
      let (m', _) = update m endpoints in record { manager = m'; started = []; accepted = [] }
  step m (policies p) =
      let (m', _) = set_retry_policy m p in record { manager = m'; started = []; accepted = [] }
  step m closes = record { manager = close m; started = []; accepted = [] }

  unfoldable pub run : Manager J → List (Event J) → Step J
  run m [] = record { manager = m; started = []; accepted = [] }
  run m (ev ∷ evs) =
      let s = step m ev in
      let rest = run s.manager evs in
      record {
        manager = rest.manager;
        started = s.started ++ rest.started;
        accepted = s.accepted ++ rest.accepted;
      }
