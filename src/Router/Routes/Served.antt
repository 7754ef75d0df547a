-- ===== src/Router/Routes/Served.antt =====
-- Every route leads to a lane, at the start and after changes of the configuration.
use mathlib.Core.Option.{some-injective}
use message_sync.Base.{
  Bool, true, not, ◌&&◌, Option, none, some, String, List, [], ◌∷◌, ◌≡◌, refl, ◌==◌, eq_string, any,
  All, Map, lookup, has, contains, Bool-cases, Option-cases, inl, inr, arith, sym, subst, ◌∙◌, keys,
  pos,
}
use message_sync.Config.{Config}
use message_sync.Config.Validation.{validate}
use message_sync.Delivery.Lanes.{Manager, LaneError, new, Lane, update, empty_manager}
use message_sync.Delivery.Lanes.Bounds.{update_exact, new-update}
use message_sync.Router.Routes.{
  RouteTarget, tables_of, Router, needs_hasher, new_router, with_lanes, updated, update_router,
}
use message_sync.Router.Routes.Targets.{IsRoute, routes_sound}

contains-keys : {V : Type 0} (e : String) (m : Map String V) → contains (keys m) e ≡ has e m
unfolding lookup
contains-keys e [] = refl
contains-keys e ((k, v) ∷ m) = elim (Bool-cases (k == e)) [
  | inl same ↦ simp (same, has, lookup) refl
  | inr other ↦ simp (other, has, lookup) (contains-keys e m)
]

served :
    (c : Config) (e : String) (lanes : Map String Lane) (ts : List RouteTarget)
    → ((k : String) → has k lanes ≡ has k c.endpoints)
    → All (IsRoute c e) ts
    → All (λ t. has t.endpoint lanes ≡ true) ts
served c e lanes [] same routes = tt
served c e lanes (t ∷ ts) same routes =
    (same t.endpoint ∙ routes.0.known, served c e lanes ts same routes.1)

module _ {J : Type 0} where
  -- Each target of each route has a lane.
  abbrev pub IsServed : Router J → Type 0
  IsServed r =
      (e : String) (ts : List RouteTarget)
      → lookup e r.tables.routes ≡ some ts
      → All (λ t. has t.endpoint r.lanes.lanes ≡ true) ts

  tables-IsServed :
      (c : Config) (m : Manager J) (hasher : Bool)
      → validate c ≡ true
      → ((k : String) → has k m.lanes ≡ has k c.endpoints)
      → IsServed (record { lanes = m; tables = tables_of c; scope_hasher = hasher })
  tables-IsServed c m hasher valid same e ts found =
      served c e m.lanes ts same (routes_sound c e ts valid found)

  update-lanes :
      (m : Manager J) (c : Config) (k : String)
      → (update m (keys c.endpoints)).1 ≡ none
      → has k (update m (keys c.endpoints)).0.lanes ≡ has k c.endpoints
  update-lanes m c k done = update_exact m (keys c.endpoints) k done ∙ contains-keys k c.endpoints

  update-failed :
      (m : Manager J) (es : List String) {err : LaneError}
      → (update m es).1 ≡ some err
      → (update m es).0 ≡ m
  unfolding update
  update-failed m es failed = elim (Bool-cases m.closed) [
    | inl shut ↦ simp (shut, update) refl
    | inr runs ↦ elim (Bool-cases (any (λ e. e == "") es)) [
      | inl empty ↦ simp (runs, empty, update) refl
      | inr named ↦ absurd (ground (arith, simp (runs, named, update) at failed))
    ]
  ]

  updated-IsServed :
      (r : Router J) (c : Config) (u : Manager J × Option LaneError)
      → validate c ≡ true
      → IsServed r
      → ((k : String) → u.1 ≡ none → has k u.0.lanes ≡ has k c.endpoints)
      → ((err : LaneError) → u.1 ≡ some err → u.0 ≡ r.lanes)
      → IsServed (updated r c u).0
  updated-IsServed r c (m, none) valid before done failed e ts found =
      tables-IsServed c m r.scope_hasher valid (λ k. done k refl) e ts found
  updated-IsServed r c (m, some err) valid before done failed e ts found =
      subst (λ l. All (λ t. has t.endpoint l.lanes ≡ true) ts) (sym (failed err refl))
        (before e ts found)

  update_router-IsServed :
      (r : Router J) (c : Config)
      → validate c ≡ true
      → IsServed r
      → IsServed (update_router r (some c)).0
  unfolding update_router
  update_router-IsServed r c valid before =
      elim (Bool-cases (needs_hasher c && not r.scope_hasher)) [
        | inl missing ↦ simp (missing, update_router) before
        | inr there ↦
            simp (there, update_router)
              (updated-IsServed r c (update r.lanes (keys c.endpoints)) valid before
                (λ k done. update-lanes r.lanes c k done)
                (λ err failed. update-failed r.lanes (keys c.endpoints) failed))
      ]

  new_lanes :
      (es : List String) (k : String) {m : Manager J}
      → (new true (pos 32) es).0 ≡ some m
      → has k m.lanes ≡ contains es k
  unfolding new
  new_lanes es k {m} is = elim (Option-cases (update (empty_manager {J = J} 32) es).1) [
    | inr (err, failed) ↦ absurd (ground (arith, simp failed at is))
    | inl done ↦
        subst (λ l. has k l.lanes ≡ contains es k) (new-update true (pos 32) es is)
          (update_exact (empty_manager 32) es k done)
  ]

  with_lanes-IsServed :
      (hasher : Bool) (c : Config) (made : Option (Manager J) × Option LaneError) {r : Router J}
      → validate c ≡ true
      → with_lanes hasher c made ≡ some r
      → ((m : Manager J) → made.0 ≡ some m → (k : String) → has k m.lanes ≡ has k c.endpoints)
      → IsServed r
  with_lanes-IsServed hasher c (none, err) valid is same = absurd (ground (arith, is))
  with_lanes-IsServed hasher c (some m, err) valid is same =
      subst IsServed (some-injective _ _ is) (tables-IsServed c m hasher valid (same m refl))

  new_router-IsServed :
      (hasher : Bool) (c : Config) {r : Router J}
      → validate c ≡ true
      → new_router hasher (some c) ≡ some r
      → IsServed r
  unfolding new_router
  new_router-IsServed hasher c {r} valid made = elim (Bool-cases (needs_hasher c && not hasher)) [
    | inl missing ↦ absurd (ground (arith, rw missing at made))
    | inr there ↦
        with_lanes-IsServed hasher c (new true (pos 32) (keys c.endpoints)) valid (rw there at made)
          (λ m is k. new_lanes (keys c.endpoints) k is ∙ contains-keys k c.endpoints)
  ]

  -- The configurations that are applied one after the other; those that fail change nothing.
  unfoldable pub configure_all : Router J → List Config → Router J
  configure_all r [] = r
  configure_all r (c ∷ cs) = configure_all (update_router r (some c)).0 cs

  configure_all-IsServed :
      (r : Router J) (cs : List Config)
      → All (λ c. validate c ≡ true) cs
      → IsServed r
      → IsServed (configure_all r cs)
  unfolding configure_all
  configure_all-IsServed r [] valid before = before
  configure_all-IsServed r (c ∷ cs) valid before =
      configure_all-IsServed (update_router r (some c)).0 cs valid.1
        (update_router-IsServed r c valid.0 before)

  -- From a router that was created with a valid configuration, after any valid configurations, each
  -- target of each route has a delivery lane.
  pub routes_have_lanes :
      (hasher : Bool) (c : Config) (cs : List Config) (e : String) {r : Router J}
      (ts : List RouteTarget)
      → validate c ≡ true
      → All (λ d. validate d ≡ true) cs
      → new_router hasher (some c) ≡ some r
      → lookup e (configure_all r cs).tables.routes ≡ some ts
      → All (λ t. has t.endpoint (configure_all r cs).lanes.lanes ≡ true) ts
  routes_have_lanes hasher c cs e {r} ts valid all_valid made found =
      configure_all-IsServed r cs all_valid (new_router-IsServed hasher c valid made) e ts found
