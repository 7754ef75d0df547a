-- ===== src/Connection.antt =====
-- internal/connection/manager.go. `Register`, `Stop` and `Restart` hold the manager's lock for their checks
-- and their change of the entry, and release it before they call the registry and the adapters: the
-- locked part is one step, and the `Rest` of the call another, with other calls in between. What a
-- goroutine of `forwardEvents` does is a step of its own. `Close` and `UpdateConfig` are one step each:
-- behind the lock they only close or configure adapters. A context is a number: the manager's next one,
-- and those that are cancelled. The recovery coordinator's sources are the adapters registered with it.
pub mod Consistency
pub mod Locked
pub mod Released
pub mod Calm
pub mod Dispatching
use message_sync.Base.{
  ℕ, ◌+◌, Bool, true, false, not, ◌&&◌, ◌||◌, Option, none, some, String, List, [], ◌∷◌, ◌++◌,
  if◌then◌else◌, ◌==◌, eq_nat, eq_string, Map, lookup, insert, delete, keep, map,
}
use message_sync.Transport.Failure.{GoError, plain}
use message_sync.Router.Registry.{
  Adapter, AdapterRegistry, EndpointConfig, register_adapter, unregister_adapter, update_config,
}

pub data State : Type 0 where
  starting running stopped error : State

pub record Entry : Type 0 where
  pub transport : String
  pub adapter : Adapter
  pub state : State
  pub err_str : String
  pub context : ℕ

-- What the adapters are: the optional interfaces that each has.
pub record Interfaces : Type 0 where
  pub is_recovery_source : Adapter → Bool
  pub is_closer : Adapter → Bool
  pub is_updatable : Adapter → Bool

pub record Manager : Type 0 where
  pub registry : AdapterRegistry
  pub sources : List Adapter
  pub entries : Map String Entry
  pub closed : Bool
  pub next_context : ℕ
  pub canceled : List ℕ
  -- The adapters closed, and those that took a new configuration, latest first.
  pub closings : List Adapter
  pub updates : List Adapter

abbrev pub err_connection : GoError
err_connection = plain "connection"

abbrev pub is_running : State → Bool
is_running running = true
is_running _ = false

abbrev pub is_stopped : State → Bool
is_stopped stopped = true
is_stopped _ = false

unfoldable pub new_manager : AdapterRegistry → Manager
new_manager r = record {
  registry = r;
  sources = [];
  entries = [];
  closed = false;
  next_context = 0;
  canceled = [];
  closings = [];
  updates = [];
}

abbrev pub is_live : Option Entry → Bool
is_live none = false
is_live (some e) = is_running e.state

-- Calls on adapters that have the interface.
abbrev pub register_source : Interfaces → Adapter → List Adapter → List Adapter
register_source i a sources = if i.is_recovery_source a then a ∷ sources else sources

abbrev pub unregister_source : Interfaces → Adapter → List Adapter → List Adapter
unregister_source i a sources =
    if i.is_recovery_source a then keep (λ b. not (b == a)) sources else sources

abbrev pub close_adapter : Interfaces → Adapter → List Adapter → List Adapter
close_adapter i a closings = if i.is_closer a then a ∷ closings else closings

-- The closed stream of a forwarder whose `select` took it.
unfoldable pub stream_closed : Manager → String → Manager
stream_closed m id = elim (lookup id m.entries) [
  | none ↦ m
  | some e ↦
      if is_running e.state
      then record m {
        entries =
            insert id (record e { state = stopped; err_str = "adapter event stream closed" })
              m.entries;
      }
      else m
]

abbrev pub stop_all : Map String Entry → Map String Entry
stop_all = map λ e. (e.0, record e.1 { state = stopped })

abbrev pub live_contexts : Map String Entry → List ℕ
live_contexts [] = []
live_contexts ((id, e) ∷ es) =
    let rest = live_contexts es in if is_stopped e.state then rest else e.context ∷ rest

abbrev pub live_adapters : Map String Entry → List Adapter
live_adapters [] = []
live_adapters ((id, e) ∷ es) =
    let rest = live_adapters es in if is_stopped e.state then rest else e.adapter ∷ rest

-- What a call for a connection has left to do when it released the lock.
pub data Rest : Type 0 where
  registering : Adapter → (context : ℕ) → Rest
  dropping : GoError → Rest
  stopping : Adapter → (context : ℕ) → Rest
  restarting : (old added : Adapter) → (context : ℕ) → Rest

pub data Progress : Type 0 where
  refuses : GoError → Progress
  returns : Progress
  goes_on : Rest → Progress

-- `Register` under the lock. A nil adapter is `none`.
unfoldable pub lock_register : Manager → String → String → Option Adapter → Manager × Progress
lock_register m id transport none = (m, refuses err_connection)
lock_register m id transport (some a) =
    if id == "" || m.closed || is_live (lookup id m.entries) then (m, refuses err_connection) else (
      record m {
        entries =
            insert id
              (record {
                transport = transport;
                adapter = a;
                state = running;
                err_str = "";
                context = m.next_context;
              })
              m.entries;
        next_context = m.next_context + 1;
      },
      goes_on (registering a m.next_context),
    )

-- `Stop` under the lock.
unfoldable pub lock_stop : Manager → String → Manager × Progress
lock_stop m id = elim (lookup id m.entries) [
  | none ↦ (m, refuses err_connection)
  | some e ↦ if is_stopped e.state then (m, returns) else (
    record m { entries = insert id (record e { state = stopped }) m.entries },
    goes_on (stopping e.adapter e.context),
  )
]

-- `Restart` under the lock.
unfoldable pub lock_restart : Manager → String → Option Adapter → Manager × Progress
lock_restart m id none = (m, refuses err_connection)
lock_restart m id (some a) =
    if id == "" || m.closed then (m, refuses err_connection) else elim (lookup id m.entries) [
      | none ↦ (m, refuses err_connection)
      | some e ↦ (
        record m {
          entries =
              insert id
                (record e { adapter = a; state = running; err_str = ""; context = m.next_context })
                m.entries;
          next_context = m.next_context + 1;
        },
        goes_on (restarting e.adapter a e.context),
      )
    ]

module _ (i : Interfaces) where
  unfoldable pub proceed : String → Rest → Manager → Manager × Progress
  proceed id (registering a context) m =
      let registered = register_adapter m.registry id (some a) in
      elim registered.1 [
        | some e ↦ (
          record m { registry = registered.0; canceled = context ∷ m.canceled },
          goes_on (dropping e),
        )
        | none ↦
            (record m { registry = registered.0; sources = register_source i a m.sources }, returns)
      ]
  proceed id (dropping e) m = (record m { entries = delete id m.entries }, refuses e)
  proceed id (stopping a context) m = (
    record m {
      registry = unregister_adapter m.registry id;
      sources = unregister_source i a m.sources;
      canceled = context ∷ m.canceled;
      closings = close_adapter i a m.closings;
    },
    returns,
  )
  -- The error of `RegisterAdapter` is dropped.
  proceed id (restarting old a context) m = (
    record m {
      registry = (register_adapter m.registry id (some a)).0;
      sources = register_source i a (unregister_source i old m.sources);
      canceled = context ∷ m.canceled;
      closings = close_adapter i old m.closings;
    },
    returns,
  )

  -- A `Stop` that no other call interrupts.
  unfoldable pub stop : Manager → String → Manager × Option GoError
  unfolding proceed
  stop m id =
      let (m', progress) = lock_stop m id in
      elim progress [
        | refuses e ↦ (m', some e)
        | returns ↦ (m', none)
        | goes_on r ↦ ((proceed id r m').0, none)
      ]

  abbrev pub running_adapters : Map String Entry → List Adapter
  running_adapters [] = []
  running_adapters ((id, e) ∷ es) =
      let rest = running_adapters es in if is_running e.state then e.adapter ∷ rest else rest

  unfoldable pub configure : Manager → Option (Map String EndpointConfig) → Manager × Option GoError
  configure m cfg =
      let updated = update_config m.registry cfg in
      elim updated.1 [
        | some e ↦ (m, some e)
        | none ↦ (
          record m {
            registry = updated.0;
            updates = keep i.is_updatable (running_adapters m.entries) ++ m.updates;
          },
          none,
        )
      ]

  unfoldable pub close : Manager → Manager
  close m = if m.closed then m else record m {
    closed = true;
    entries = stop_all m.entries;
    canceled = live_contexts m.entries ++ m.canceled;
    closings = keep i.is_closer (live_adapters m.entries) ++ m.closings;
  }

unfoldable pub get_adapter : Manager → String → Option Adapter
get_adapter m id = elim (lookup id m.entries) [
  | none ↦ none
  | some e ↦ if is_running e.state then some e.adapter else none
]

-- `Status`: the transport, the state and the error text.
unfoldable pub status : Manager → String → Option (String × (State × String))
status m id = elim (lookup id m.entries) [
  | none ↦ none
  | some e ↦ some (e.transport, (e.state, e.err_str))
]
