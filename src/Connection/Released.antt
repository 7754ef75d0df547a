-- ===== src/Connection/Released.antt =====
-- The parts of the calls behind the lock, of internal/connection/manager.go, keep a manager consistent.
use message_sync.Base.{
  ℕ, true, false, Option, none, some, String, ◌∷◌, ◌==◌, eq_nat, eq_string, Bool-cases,
  Option-cases, inl, inr, ◌≡◌, refl, sym, ap, subst, arith, Map, lookup, insert, delete,
  lookup-insert, lookup-delete, ==_refl, ◌∙◌,
}
use message_sync.Transport.Failure.{GoError}
use message_sync.Router.Registry.{
  Adapter, AdapterRegistry, register_adapter, unregister_adapter, valid_connection_id,
}
use message_sync.Connection.{
  Interfaces, Manager, Rest, registering, dropping, stopping, restarting, Progress, refuses,
  returns, goes_on, proceed, register_source, unregister_source, close_adapter,
}
use message_sync.Connection.Consistency.{
  Runtime, advance_call, Fits, IsConsistent, advance_call-IsConsistent, register_adapter-valid,
  register_adapter-invalid,
}

written_adapter :
    (id : String) (a : Adapter) (m : Map String Adapter) → lookup id (insert id a m) ≡ some a
written_adapter id a m = ground (arith, lookup-insert id id a m, ==_refl id)

registered_apart :
    (r : AdapterRegistry) (id k : String) (a : Adapter)
    → (id == k) ≡ false
    → lookup k (register_adapter r id (some a)).0.adapters ≡ lookup k r.adapters
registered_apart r id k a other = elim (Bool-cases (valid_connection_id id)) [
  | inl valid ↦
      ap (λ (x : AdapterRegistry × Option GoError). lookup k x.0.adapters)
        (register_adapter-valid r id a valid)
      ∙ lookup-insert id k a r.adapters
      ∙ rw other refl
  | inr invalid ↦
      ap (λ (x : AdapterRegistry × Option GoError). lookup k x.0.adapters)
        (register_adapter-invalid r id a invalid)
]

registered_adapter :
    (r : AdapterRegistry) (id : String) (a : Adapter)
    → valid_connection_id id ≡ true
    → lookup id (register_adapter r id (some a)).0.adapters ≡ some a
registered_adapter r id a valid =
    ap (λ (x : AdapterRegistry × Option GoError). lookup id x.0.adapters)
      (register_adapter-valid r id a valid)
    ∙ written_adapter id a r.adapters

registered_valid :
    (r : AdapterRegistry) (id : String) (a : Adapter)
    → (register_adapter r id (some a)).1 ≡ none
    → valid_connection_id id ≡ true
registered_valid r id a done = elim (Bool-cases (valid_connection_id id)) [
  | inl valid ↦ valid
  | inr invalid ↦ absurd (
      ground (
        arith,
        ap (λ (x : AdapterRegistry × Option GoError). x.1)
            (register_adapter-invalid r id a invalid),
        done,
      ))
]

-- The rest of a registration, which the registry refuses or takes.
registering_cases {ℓ} :
    (P : Manager × Progress → Type ℓ) (i : Interfaces) (id : String) (a : Adapter) (context : ℕ)
    (m : Manager)
    → ((e : GoError)
        → P (
          record m {
            registry = (register_adapter m.registry id (some a)).0;
            canceled = context ∷ m.canceled;
          },
          goes_on (dropping e),
        ))
    → ((register_adapter m.registry id (some a)).1 ≡ none
        → P (
          record m {
            registry = (register_adapter m.registry id (some a)).0;
            sources = register_source i a m.sources;
          },
          returns,
        ))
    → P (proceed i id (registering a context) m)
unfolding proceed
registering_cases P i id a context m refused taken =
    elim (Option-cases (register_adapter m.registry id (some a)).1) [
      | inl done ↦ simp (done, proceed) (taken done)
      | inr (e, err) ↦ simp (err, proceed) (refused e)
    ]

pub proceed-IsConsistent :
    (i : Interfaces) (s : Runtime) (id : String) (r : Rest)
    → lookup id s.calls ≡ some r
    → IsConsistent s
    → IsConsistent (advance_call s id (proceed i id r s.manager))
unfolding proceed unregister_adapter
proceed-IsConsistent i s id (registering a context) under c =
    let m = s.manager in
    registering_cases (λ out. IsConsistent (advance_call s id out)) i id a context m
      (λ err.
        advance_call-IsConsistent s id
          (record m {
            registry = (register_adapter m.registry id (some a)).0;
            canceled = context ∷ m.canceled;
          })
          (goes_on (dropping err))
          (record {
            entries = λ k other. refl;
            adapters = λ k other. registered_apart m.registry id k a other;
          })
          (λ e found. tt) c)
      (λ done.
        let valid = registered_valid m.registry id a done in
        advance_call-IsConsistent s id
          (record m {
            registry = (register_adapter m.registry id (some a)).0;
            sources = register_source i a m.sources;
          })
          returns
          (record {
            entries = λ k other. refl;
            adapters = λ k other. registered_apart m.registry id k a other;
          })
          (λ e found.
            let same = subst (Fits id (lookup id m.registry.adapters) e) under (c id e found) in
            (valid, λ live. registered_adapter m.registry id a valid ∙ ap some (sym same)))
          c)
proceed-IsConsistent i s id (dropping err) under c =
    let m = s.manager in
    advance_call-IsConsistent s id (record m { entries = delete id m.entries }) (refuses err)
      (record {
        entries = λ k other. lookup-delete id k m.entries ∙ rw other refl;
        adapters = λ k other. refl;
      })
      (λ e found. absurd (ground (arith, lookup-delete id id m.entries, ==_refl id, found))) c
proceed-IsConsistent i s id (stopping a context) under c =
    let m = s.manager in
    advance_call-IsConsistent s id
      (record m {
        registry = unregister_adapter m.registry id;
        sources = unregister_source i a m.sources;
        canceled = context ∷ m.canceled;
        closings = close_adapter i a m.closings;
      })
      returns
      (record {
        entries = λ k other. refl;
        adapters = λ k other. lookup-delete id k m.registry.adapters ∙ rw other refl;
      })
      (λ e found.
        let fits = subst (Fits id (lookup id m.registry.adapters) e) under (c id e found) in
        (fits.0, λ live. absurd (ground (arith, rw live at fits.1))))
      c
proceed-IsConsistent i s id (restarting old a context) under c =
    let m = s.manager in
    advance_call-IsConsistent s id
      (record m {
        registry = (register_adapter m.registry id (some a)).0;
        sources = register_source i a (unregister_source i old m.sources);
        canceled = context ∷ m.canceled;
        closings = close_adapter i old m.closings;
      })
      returns
      (record {
        entries = λ k other. refl;
        adapters = λ k other. registered_apart m.registry id k a other;
      })
      (λ e found.
        let fits = subst (Fits id (lookup id m.registry.adapters) e) under (c id e found) in
        (fits.0, λ live. registered_adapter m.registry id a fits.0 ∙ ap some (sym fits.1)))
      c
