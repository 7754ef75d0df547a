-- ===== src/Connection/Locked.antt =====
-- The parts of `Register`, `Stop` and `Restart` under the lock, of internal/connection/manager.go, keep a manager consistent.
use message_sync.Base.{
  ℕ, ◌+◌, false, ◌||◌, Option, none, some, String, ◌==◌, eq_nat, eq_string, Bool-cases,
  Option-cases, inl, inr, ◌≡◌, refl, sym, ap, subst, Map, lookup, insert, lookup-insert, ==_refl,
  ◌∙◌,
}
use mathlib.Core.Option.{some-injective}
use message_sync.Router.Registry.{Adapter}
use message_sync.Connection.{
  Entry, Manager, stopped, is_running, is_stopped, is_live, registering, stopping, restarting,
  Progress, refuses, returns, goes_on, lock_register, lock_stop, lock_restart, err_connection,
}
use message_sync.Connection.Consistency.{
  Runtime, call_of, advance_call, Fits, IsConsistent, Apart, advance_call-IsConsistent, Apart-refl,
}

-- The entry that was just written.
pub written_entry :
    {V : Type 0} (id : String) (v v' : V) (m : Map String V)
    → lookup id (insert id v m) ≡ some v'
    → v ≡ v'
written_entry id v v' m h =
    some-injective v v' (sym (simp (==_refl id) at (lookup-insert id id v m)) ∙ h)

insert-Apart :
    (m : Manager) (id : String) (e : Entry) (next : ℕ)
    → Apart m (record m { entries = insert id e m.entries; next_context = next }) id
insert-Apart m id e next = record {
  entries = λ k other. lookup-insert id k e m.entries ∙ rw other refl;
  adapters = λ k other. refl;
}

-- A part that does nothing, where no call is under way.
unchanged-IsConsistent :
    (s : Runtime) (id : String) (p : Progress)
    → lookup id s.calls ≡ none
    → call_of p ≡ none
    → IsConsistent s
    → IsConsistent (advance_call s id (s.manager, p))
unchanged-IsConsistent s id p idle over c =
    advance_call-IsConsistent s id s.manager p (Apart-refl s.manager id)
      (λ e found.
        subst (Fits id (lookup id s.manager.registry.adapters) e) (idle ∙ sym over) (c id e found))
      c

pub lock_register-IsConsistent :
    (s : Runtime) (id transport : String) (a : Option Adapter)
    → lookup id s.calls ≡ none
    → IsConsistent s
    → IsConsistent (advance_call s id (lock_register s.manager id transport a))
unfolding lock_register
lock_register-IsConsistent s id transport none idle c =
    unchanged-IsConsistent s id (refuses err_connection) idle refl c
lock_register-IsConsistent s id transport (some a) idle c =
    let m = s.manager in
    elim (Bool-cases (id == "" || m.closed || is_live (lookup id m.entries))) [
      | inl refused ↦
          rw (refused, lock_register)
            (unchanged-IsConsistent s id (refuses err_connection) idle refl c)
      | inr taken ↦
          rw (taken, lock_register)
            (advance_call-IsConsistent s id _ (goes_on (registering a m.next_context))
              (insert-Apart m id _ (m.next_context + 1))
              (λ e found.
                sym (ap (λ (x : Entry). x.adapter) (written_entry id _ e m.entries found)))
              c)
    ]

pub lock_stop-IsConsistent :
    (s : Runtime) (id : String)
    → lookup id s.calls ≡ none
    → IsConsistent s
    → IsConsistent (advance_call s id (lock_stop s.manager id))
unfolding lock_stop
lock_stop-IsConsistent s id idle c =
    let m = s.manager in
    elim (Option-cases (lookup id m.entries)) [
      | inl missing ↦
          rw (missing, lock_stop) (unchanged-IsConsistent s id (refuses err_connection) idle refl c)
      | inr (e, there) ↦
          rw (there, lock_stop)
            (elim (Bool-cases (is_stopped e.state)) [
              | inl still ↦ rw still (unchanged-IsConsistent s id returns idle refl c)
              | inr live ↦ rw live (
                  advance_call-IsConsistent s id _ (goes_on (stopping e.adapter e.context))
                    (insert-Apart m id (record e { state = stopped }) m.next_context)
                    (λ e' found. (
                      (subst (Fits id (lookup id m.registry.adapters) e) idle (c id e there)).0,
                      subst (λ (x : Entry). is_running x.state ≡ false)
                          (written_entry id (record e { state = stopped }) e' m.entries found) refl,
                    ))
                    c)
            ])
    ]

pub lock_restart-IsConsistent :
    (s : Runtime) (id : String) (a : Option Adapter)
    → lookup id s.calls ≡ none
    → IsConsistent s
    → IsConsistent (advance_call s id (lock_restart s.manager id a))
unfolding lock_restart
lock_restart-IsConsistent s id none idle c =
    unchanged-IsConsistent s id (refuses err_connection) idle refl c
lock_restart-IsConsistent s id (some a) idle c =
    let m = s.manager in
    elim (Bool-cases (id == "" || m.closed)) [
      | inl refused ↦
          rw (refused, lock_restart)
            (unchanged-IsConsistent s id (refuses err_connection) idle refl c)
      | inr taken ↦
          rw (taken, lock_restart)
            (elim (Option-cases (lookup id m.entries)) [
              | inl missing ↦
                  rw missing (unchanged-IsConsistent s id (refuses err_connection) idle refl c)
              | inr (e, there) ↦ rw there (
                  advance_call-IsConsistent s id _ (goes_on (restarting e.adapter a e.context))
                    (insert-Apart m id _ (m.next_context + 1))
                    (λ e' found. (
                      (subst (Fits id (lookup id m.registry.adapters) e) idle (c id e there)).0,
                      sym (ap (λ (x : Entry). x.adapter) (written_entry id _ e' m.entries found)),
                    ))
                    c)
            ])
    ]
