-- ===== src/Connection/Calm.antt =====
-- `Close`, `UpdateConfig` and the end of a stream, of internal/connection/manager.go, keep a manager consistent.
use message_sync.Base.{
  true, Option, none, some, String, [], ◌∷◌, ◌==◌, eq_nat, eq_string, Bool-cases, Option-cases, inl,
  inr, ◌≡◌, refl, sym, ap, subst, arith, Map, lookup, insert, lookup-insert, ◌∙◌, keep, ◌++◌,
}
use mathlib.Core.Option.{some-injective}
use message_sync.Router.Registry.{
  Adapter, AdapterRegistry, EndpointConfig, update_config, build_endpoints,
}
use message_sync.Connection.{
  Entry, Interfaces, Manager, stopped, is_running, configure, stream_closed, close, stop_all, Rest,
  registering, dropping, stopping, restarting, live_contexts, live_adapters, running_adapters,
  live_contexts, live_adapters, running_adapters,
}
use message_sync.Connection.Locked.{written_entry}
use message_sync.Connection.Consistency.{Runtime, Fits, IsConsistent}

calm :
    (call : Option Rest) (k : String) (registered : Option Adapter) (e old : Entry)
    → e.adapter ≡ old.adapter
    → (is_running e.state ≡ true → e.state ≡ old.state)
    → Fits k registered old call
    → Fits k registered e call
calm none k registered e old same state fits =
    (fits.0, λ live. fits.1 (sym (state (rw live refl)) ∙ live) ∙ ap some (sym same))
calm (some (registering a context)) k registered e old same state fits = same ∙ fits
calm (some (dropping err)) k registered e old same state fits = tt
calm (some (stopping a context)) k registered e old same state fits = (
  fits.0,
  elim (Bool-cases (is_running e.state)) [
    | inl live ↦ ap is_running (state live) ∙ fits.1
    | inr still ↦ still
  ],
)
calm (some (restarting was a context)) k registered e old same state fits = (fits.0, same ∙ fits.1)

-- What changes no adapter, and of the entries at most that they run no longer.
pub calmed-IsConsistent :
    (s : Runtime) (m : Manager)
    → ((k : String) → lookup k m.registry.adapters ≡ lookup k s.manager.registry.adapters)
    → ((k : String)
        → (e : Entry) → lookup k m.entries ≡ some e
        → (old : Entry) × (lookup k s.manager.entries ≡ some old)
          × (e.adapter ≡ old.adapter)
          × (is_running e.state ≡ true → e.state ≡ old.state))
    → IsConsistent s
    → IsConsistent (record s { manager = m })
calmed-IsConsistent s m adapters entries c k e found =
    let old = entries k e found in
    rw (adapters k) (
      calm (lookup k s.calls) k (lookup k s.manager.registry.adapters) e old.0 old.2 old.3
        (c k old.0 old.1))

-- The configuration moves endpoints, not adapters.
update_config-adapters :
    (r : AdapterRegistry) (cfg : Option (Map String EndpointConfig))
    → (update_config r cfg).0.adapters ≡ r.adapters
unfolding update_config
update_config-adapters r none = refl
update_config-adapters r (some cfg) = elim (Option-cases (build_endpoints cfg)) [
  | inl bad ↦ simp (bad, update_config) refl
  | inr (es, good) ↦ simp (good, update_config) refl
]

stop_all-entries :
    (es : Map String Entry) (id : String) (e : Entry)
    → lookup id (stop_all es) ≡ some e
    → (old : Entry) × (lookup id es ≡ some old) × (e.adapter ≡ old.adapter) × (e.state ≡ stopped)
unfolding lookup
stop_all-entries [] id e found = ground (arith, found)
stop_all-entries ((j, d) ∷ es) id e found = elim (Bool-cases (j == id)) [
  | inl same ↦
      let it = some-injective (record d { state = stopped }) e (rw same at found) in
      (
        d,
        rw same refl,
        sym (ap (λ (x : Entry). x.adapter) it),
        sym (ap (λ (x : Entry). x.state) it),
      )
  | inr other ↦
      let old = stop_all-entries es id e (rw other at found) in
      (old.0, rw other old.1, old.2, old.3)
]

pub close-IsConsistent :
    (i : Interfaces) (s : Runtime)
    → IsConsistent s
    → IsConsistent (record s { manager = close i s.manager })
unfolding close
close-IsConsistent i s c = elim (Bool-cases s.manager.closed) [
  | inl over ↦ rw (over, close) c
  | inr still ↦
      rw (still, close)
        (calmed-IsConsistent s
          (record s.manager {
            closed = true;
            entries = stop_all s.manager.entries;
            canceled = live_contexts s.manager.entries ++ s.manager.canceled;
            closings = keep i.is_closer (live_adapters s.manager.entries) ++ s.manager.closings;
          })
          (λ k. refl)
          (λ k e found.
            let old = stop_all-entries s.manager.entries k e found in
            (old.0, old.1, old.2, λ live. absurd (ground (arith, rw old.3 at live))))
          c)
]

pub configure-IsConsistent :
    (i : Interfaces) (s : Runtime) (cfg : Option (Map String EndpointConfig))
    → IsConsistent s
    → IsConsistent (record s { manager = (configure i s.manager cfg).0 })
unfolding configure
configure-IsConsistent i s cfg c = elim (Option-cases (update_config s.manager.registry cfg).1) [
  | inr (e, bad) ↦ rw (bad, configure) c
  | inl good ↦
      rw (good, configure)
        (calmed-IsConsistent s
          (record s.manager {
            registry = (update_config s.manager.registry cfg).0;
            updates =
                keep i.is_updatable (running_adapters i s.manager.entries) ++ s.manager.updates;
          })
          (λ k. ap (lookup k) (update_config-adapters s.manager.registry cfg))
          (λ k e found. (e, found, refl, λ live. refl)) c)
]

pub stream_closed-IsConsistent :
    (s : Runtime) (id : String)
    → IsConsistent s
    → IsConsistent (record s { manager = stream_closed s.manager id })
unfolding stream_closed
stream_closed-IsConsistent s id c = elim (Option-cases (lookup id s.manager.entries)) [
  | inl missing ↦ rw (missing, stream_closed) c
  | inr (e, there) ↦
      rw (there, stream_closed)
        (elim (Bool-cases (is_running e.state)) [
          | inr idle ↦ rw idle c
          | inl live ↦ rw live (
              calmed-IsConsistent s
                (record s.manager {
                  entries =
                      insert id
                        (record e { state = stopped; err_str = "adapter event stream closed" })
                        s.manager.entries;
                })
                (λ k. refl)
                (λ k e' found. elim (Bool-cases (id == k)) [
                  | inl same ↦
                      let it =
                        written_entry k
                          (record e { state = stopped; err_str = "adapter event stream closed" }) e'
                          s.manager.entries
                          (subst
                            (λ x.
                              lookup k (
                                insert x
                                  (record e {
                                    state = stopped;
                                    err_str = "adapter event stream closed";
                                  })
                                  s.manager.entries)
                              ≡ some e')
                            ((eq_string.equal_iff id k).0 same) found) in
                      (
                        e,
                        subst (λ x. lookup x s.manager.entries ≡ some e)
                            ((eq_string.equal_iff id k).0 same) there,
                        sym (ap (λ (x : Entry). x.adapter) it),
                        λ runs. absurd (
                            ground (
                              arith,
                              subst (λ (x : Entry). is_running x.state ≡ true) (sym it) runs,
                            )),
                      )
                  | inr other ↦ (
                    e',
                    sym (lookup-insert id k _ s.manager.entries ∙ rw other refl) ∙ found,
                    refl,
                    λ runs. refl,
                  )
                ])
                c)
        ])
]
