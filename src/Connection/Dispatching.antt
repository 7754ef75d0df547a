-- ===== src/Connection/Dispatching.antt =====
-- Runs of a connection manager: where the registry sends what is addressed to an endpoint.
use message_sync.Base.{
  Option, none, some, String, List, [], ◌∷◌, eq_string, eq_nat, Option-cases, inl, inr, ◌≡◌, refl,
  arith, Map, lookup, lookup-insert, ==_refl,
}
use message_sync.Router.Registry.{Adapter, AdapterRegistry, EndpointConfig, adapter_for, to_adapter}
use message_sync.Connection.{
  Entry, Interfaces, Manager, running, stopped, new_manager, lock_register, stop, lock_stop,
  lock_restart, Rest, proceed, configure, stream_closed, close, get_adapter,
}
use message_sync.Connection.Consistency.{Runtime, advance_call, IsConsistent, idle_entry}
use message_sync.Connection.Locked.{
  lock_register-IsConsistent, lock_stop-IsConsistent, lock_restart-IsConsistent,
}
use message_sync.Connection.Released.{proceed-IsConsistent}
use message_sync.Connection.Calm.{
  configure-IsConsistent, stream_closed-IsConsistent, close-IsConsistent,
}

-- What can happen to a manager: a call for a connection begins, or goes on behind the lock; the
-- configuration, the end of an adapter's stream, and `Close`.
pub data Operation : Type 0 where
  registers : (id transport : String) → Option Adapter → Operation
  stops : (id : String) → Operation
  restarts : (id : String) → Option Adapter → Operation
  proceeds : (id : String) → Operation
  configures : Option (Map String EndpointConfig) → Operation
  closes_stream : (id : String) → Operation
  closes : Operation

-- A call for a connection begins only when no other is under way for this connection.
unfoldable pub operate : Interfaces → Operation → Runtime → Runtime
operate i (registers id transport a) s = elim (lookup id s.calls) [
  | none ↦ advance_call s id (lock_register s.manager id transport a)
  | some r ↦ s
]
operate i (stops id) s = elim (lookup id s.calls) [
  | none ↦ advance_call s id (lock_stop s.manager id)
  | some r ↦ s
]
operate i (restarts id a) s = elim (lookup id s.calls) [
  | none ↦ advance_call s id (lock_restart s.manager id a)
  | some r ↦ s
]
operate i (proceeds id) s = elim (lookup id s.calls) [
  | none ↦ s
  | some r ↦ advance_call s id (proceed i id r s.manager)
]
operate i (configures cfg) s = record s { manager = (configure i s.manager cfg).0 }
operate i (closes_stream id) s = record s { manager = stream_closed s.manager id }
operate i closes s = record s { manager = close i s.manager }

unfoldable pub operate_all : Interfaces → List Operation → Runtime → Runtime
unfolding operate
operate_all i [] s = s
operate_all i (o ∷ os) s = operate_all i os (operate i o s)

-- Where a call may begin or go on.
at_call {ℓ} :
    (P : Runtime → Type ℓ) (s : Runtime) (free : Runtime) (busy : Rest → Runtime) (id : String)
    → (lookup id s.calls ≡ none → P free)
    → ((r : Rest) → lookup id s.calls ≡ some r → P (busy r))
    → P (elim (lookup id s.calls) [ none ↦ free | some r ↦ busy r ])
at_call P s free busy id idle under = elim (Option-cases (lookup id s.calls)) [
  | inl nothing ↦ rw nothing (idle nothing)
  | inr (r, there) ↦ rw there (under r there)
]

operate-IsConsistent :
    (i : Interfaces) (o : Operation) (s : Runtime) → IsConsistent s → IsConsistent (operate i o s)
unfolding operate
operate-IsConsistent i (registers id transport a) s c =
    at_call IsConsistent s _ (λ r. s) id
      (λ idle. lock_register-IsConsistent s id transport a idle c) (λ r there. c)
operate-IsConsistent i (stops id) s c =
    at_call IsConsistent s _ (λ r. s) id (λ idle. lock_stop-IsConsistent s id idle c) (λ r there. c)
operate-IsConsistent i (restarts id a) s c =
    at_call IsConsistent s _ (λ r. s) id (λ idle. lock_restart-IsConsistent s id a idle c)
      (λ r there. c)
operate-IsConsistent i (proceeds id) s c =
    at_call IsConsistent s s (λ r. advance_call s id (proceed i id r s.manager)) id (λ idle. c)
      (λ r there. proceed-IsConsistent i s id r there c)
operate-IsConsistent i (configures cfg) s c = configure-IsConsistent i s cfg c
operate-IsConsistent i (closes_stream id) s c = stream_closed-IsConsistent s id c
operate-IsConsistent i closes s c = close-IsConsistent i s c

operate_all-IsConsistent :
    (i : Interfaces) (os : List Operation) (s : Runtime)
    → IsConsistent s
    → IsConsistent (operate_all i os s)
unfolding operate_all
operate_all-IsConsistent i [] s c = c
operate_all-IsConsistent i (o ∷ os) s c =
    operate_all-IsConsistent i os (operate i o s) (operate-IsConsistent i o s c)

abbrev pub new_runtime : AdapterRegistry → Runtime
new_runtime r = record { manager = new_manager r; calls = [] }

new_runtime-IsConsistent : (r : AdapterRegistry) → IsConsistent (new_runtime r)
unfolding new_manager lookup
new_runtime-IsConsistent r id e found = absurd (ground (arith, found))

get_adapter-entry :
    (m : Manager) (id : String) (a : Adapter)
    → get_adapter m id ≡ some a
    → (e : Entry) × ((lookup id m.entries ≡ some e) × ((e.state ≡ running) × (e.adapter ≡ a)))
unfolding get_adapter
get_adapter-entry m id a got = elim (Option-cases (lookup id m.entries)) [
  | inl missing ↦ ground (arith, missing, got)
  | inr (e, there) ↦ (e, (there, (ground (arith, there, got), ground (arith, there, got))))
]

-- After any operations on a new manager, where calls for different connections interleave in any way and those
-- for one connection do not overlap: when no call for a connection is under way and the manager gives an
-- adapter for it, the registry sends what is addressed to each endpoint of that connection to the same
-- adapter.
pub running_adapter_is_dispatched :
    (i : Interfaces) (r : AdapterRegistry) (os : List Operation) (id endpoint : String)
    (a : Adapter)
    → let s = operate_all i os (new_runtime r) in
      lookup id s.calls ≡ none
      → get_adapter s.manager id ≡ some a
      → lookup endpoint s.manager.registry.endpoints ≡ some id
      → adapter_for s.manager.registry endpoint ≡ to_adapter a
unfolding adapter_for
running_adapter_is_dispatched i r os id endpoint a idle got owned =
    let s = operate_all i os (new_runtime r) in
    let found = get_adapter-entry s.manager id a got in
    let agrees =
      idle_entry s id found.0 idle
        (operate_all-IsConsistent i os (new_runtime r) (new_runtime-IsConsistent r)) found.1.0 in
    simp (owned, agrees found.1.1.0, found.1.1.1, adapter_for) refl

stop-stopped :
    (i : Interfaces) (m : Manager) (id : String) (e : Entry)
    → lookup id m.entries ≡ some e
    → e.state ≡ stopped
    → stop i m id ≡ (m, none)
unfolding stop lock_stop
stop-stopped i m id e there idle = simp (there, idle, lock_stop, stop) refl

stream_closed-entry :
    (m : Manager) (id : String) (e : Entry)
    → lookup id m.entries ≡ some e
    → e.state ≡ running
    → (s : String) × (lookup id (stream_closed m id).entries
        ≡ some (record e { state = stopped; err_str = s }))
unfolding stream_closed
stream_closed-entry m id e there live = (
  "adapter event stream closed",
  simp (there, live, stream_closed)
      (ground (
        arith,
        lookup-insert id id (record e { state = stopped; err_str = "adapter event stream closed" })
            m.entries,
        ==_refl id,
      )),
)

-- When the adapter of a running connection closes its event stream, a later `Stop` succeeds and does
-- nothing: the adapter is not closed and not unregistered, so that the registry goes on sending to it.
pub closed_stream_keeps_adapter :
    (i : Interfaces) (m : Manager) (id endpoint : String) (e : Entry)
    → lookup id m.entries ≡ some e
    → e.state ≡ running
    → adapter_for m.registry endpoint ≡ to_adapter e.adapter
    → (stop i (stream_closed m id) id ≡ (stream_closed m id, none))
      × (adapter_for (stream_closed m id).registry endpoint ≡ to_adapter e.adapter)
unfolding stream_closed
closed_stream_keeps_adapter i m id endpoint e there live sends = (
  stop-stopped i (stream_closed m id) id _ (stream_closed-entry m id e there live).1 refl,
  simp (there, live, stream_closed) sends,
)
