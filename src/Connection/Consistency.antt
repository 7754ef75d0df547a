-- ===== src/Connection/Consistency.antt =====
-- The connection manager and the registry have the same adapters for the running connections, while calls for
-- different connections interleave.
use message_sync.Base.{
  true, false, Option, none, some, String, ◌==◌, eq_nat, eq_string, Bool-cases, inl, inr, ◌≡◌, refl,
  sym, subst, Map, lookup, insert, delete, if◌then◌else◌, lookup-insert, lookup-delete, ◌∙◌,
}
use message_sync.Router.Registry.{
  Adapter, AdapterRegistry, register_adapter, valid_connection_id, err_registry,
}
use message_sync.Connection.{
  Entry, Manager, running, is_running, Rest, registering, dropping, stopping, restarting, Progress,
  refuses, returns, goes_on,
}

-- A manager, and the calls that have released its lock and are not done, at most one for a connection.
pub record Runtime : Type 0 where
  pub manager : Manager
  pub calls : Map String Rest

abbrev pub call_of : Progress → Option Rest
call_of (refuses e) = none
call_of returns = none
call_of (goes_on r) = some r

-- What a part of a call leaves.
abbrev pub advance_call : Runtime → String → Manager × Progress → Runtime
advance_call s id (m, refuses e) = record { manager = m; calls = delete id s.calls }
advance_call s id (m, returns) = record { manager = m; calls = delete id s.calls }
advance_call s id (m, goes_on r) = record { manager = m; calls = insert id r s.calls }

-- What an entry says of the adapter that the registry has for its connection, where a call may be under way.
abbrev pub Fits : String → Option Adapter → Entry → Option Rest → Type 0
Fits id registered e none =
    (valid_connection_id id ≡ true) × (e.state ≡ running → registered ≡ some e.adapter)
Fits id registered e (some (registering a context)) = (e.adapter ≡ a)
Fits id registered e (some (dropping err)) = Unit {0}
Fits id registered e (some (stopping a context)) =
    (valid_connection_id id ≡ true) × (is_running e.state ≡ false)
Fits id registered e (some (restarting old a context)) =
    (valid_connection_id id ≡ true) × (e.adapter ≡ a)

abbrev pub IsConsistent : Runtime → Type 0
IsConsistent s =
    (id : String) (e : Entry)
    → lookup id s.manager.entries ≡ some e
    → Fits id (lookup id s.manager.registry.adapters) e (lookup id s.calls)

-- A running entry without a call under way has its adapter in the registry.
pub idle_entry :
    (s : Runtime) (id : String) (e : Entry)
    → lookup id s.calls ≡ none
    → IsConsistent s
    → lookup id s.manager.entries ≡ some e
    → e.state ≡ running
    → lookup id s.manager.registry.adapters ≡ some e.adapter
idle_entry s id e idle c found =
    (subst (Fits id (lookup id s.manager.registry.adapters) e) idle (c id e found)).1

-- Nothing but one connection changes.
pub record Apart (m m' : Manager) (id : String) : Type 0 where
  pub entries : (k : String) → (id == k) ≡ false → lookup k m'.entries ≡ lookup k m.entries
  pub adapters :
      (k : String)
      → (id == k) ≡ false
      → lookup k m'.registry.adapters ≡ lookup k m.registry.adapters

calls_after :
    (s : Runtime) (id k : String) (m : Manager) (p : Progress)
    → lookup k (advance_call s id (m, p)).calls ≡ (if id == k then call_of p else lookup k s.calls)
calls_after s id k m (refuses e) = lookup-delete id k s.calls
calls_after s id k m returns = lookup-delete id k s.calls
calls_after s id k m (goes_on r) = lookup-insert id k r s.calls

manager_after :
    (s : Runtime) (id : String) (m : Manager) (p : Progress)
    → (advance_call s id (m, p)).manager ≡ m
manager_after s id m (refuses e) = refl
manager_after s id m returns = refl
manager_after s id m (goes_on r) = refl

pub advance_call-IsConsistent :
    (s : Runtime) (id : String) (m : Manager) (p : Progress)
    → Apart s.manager m id
    → ((e : Entry)
        → lookup id m.entries ≡ some e
        → Fits id (lookup id m.registry.adapters) e (call_of p))
    → IsConsistent s
    → IsConsistent (advance_call s id (m, p))
advance_call-IsConsistent s id m p apart own c k e found =
    let there : lookup k m.entries ≡ some e =
      subst (λ (x : Manager). lookup k x.entries ≡ some e) (manager_after s id m p) found in
    subst
      (λ (x : Manager).
        Fits k (lookup k x.registry.adapters) e (lookup k (advance_call s id (m, p)).calls))
      (sym (manager_after s id m p))
      (subst (Fits k (lookup k m.registry.adapters) e) (sym (calls_after s id k m p))
        (elim (Bool-cases (id == k)) [
          | inl same ↦ rw same (
              subst (λ x. Fits x (lookup x m.registry.adapters) e (call_of p))
                ((eq_string.equal_iff id k).0 same)
                (own e (
                  subst (λ x. lookup x m.entries ≡ some e) (sym ((eq_string.equal_iff id k).0 same))
                    there)))
          | inr other ↦ rw other (
              subst (λ x. Fits k x e (lookup k s.calls)) (sym (apart.adapters k other))
                (c k e (sym (apart.entries k other) ∙ there)))
        ]))

pub Apart-refl : (m : Manager) (id : String) → Apart m m id
Apart-refl m id = record { entries = λ k other. refl; adapters = λ k other. refl }

pub register_adapter-valid :
    (r : AdapterRegistry) (id : String) (a : Adapter)
    → valid_connection_id id ≡ true
    → register_adapter r id (some a) ≡ (record r { adapters = insert id a r.adapters }, none)
unfolding register_adapter
register_adapter-valid r id a v = rw v refl

pub register_adapter-invalid :
    (r : AdapterRegistry) (id : String) (a : Adapter)
    → valid_connection_id id ≡ false
    → register_adapter r id (some a) ≡ (r, some err_registry)
unfolding register_adapter
register_adapter-invalid r id a v = rw v refl
