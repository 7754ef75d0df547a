-- ===== src/Router/Routes/Isolation.antt =====
-- The routes of a valid configuration.
use message_sync.Base.{
  true, false, Option, none, some, String, List, [], ◌∷◌, ◌≡◌, refl, if◌then◌else◌, ◌==◌, eq_string,
  any, Map, lookup, insert, lookup-insert, contains, Bool-cases, inl, inr, arith, ap, ◌∙◌,
  option_map,
}
use message_sync.Config.{Endpoint, SyncSet, Config, settings_for_set}
use message_sync.Config.Validation.{validate}
use message_sync.Config.Membership.{AreApart, lists, set_of, validate-AreApart}
use message_sync.Router.Routes.{
  source_targets, fill_set, fill, build_routes, router_endpoint_settings, router_endpoint_sets,
}

pub set_of-none :
    (e : String) (sets : List SyncSet) → any (lists e) sets ≡ false → set_of e sets ≡ none
unfolding set_of
set_of-none e [] none_lists = refl
set_of-none e (set ∷ sets) none_lists = elim (Bool-cases (contains set.endpoints e)) [
  | inl mine ↦ absurd (ground (arith, none_lists, mine))
  | inr other ↦ simp (other, set_of) (set_of-none e sets (ground (arith, none_lists, other)))
]

module _ {V : Type 0} (entry : SyncSet → String → V) where
  fill_set-lookup :
      (set : SyncSet) (es : List String) (table : Map String V) (e : String)
      → lookup e (fill_set entry set es table)
        ≡ (if contains es e then some (entry set e) else lookup e table)
  unfolding fill_set
  fill_set-lookup set [] table e = refl
  fill_set-lookup set (a ∷ es) table e = ground (
    arith,
    fill_set-lookup set es (insert a (entry set a) table) e,
    lookup-insert a e (entry set a) table,
    λ (same : (a == e) ≡ true). ap (λ k. some (entry set k)) ((eq_string.equal_iff a e).0 same),
  )

  abbrev pub entry_of : String → Option V → Option SyncSet → Option V
  entry_of e before none = before
  entry_of e before (some set) = some (entry set e)

  -- A table by endpoint has the entries of the first set that lists an endpoint.
  fill-lookup :
      (endpoints : Map String Endpoint) (sets : List SyncSet) (table : Map String V) (e : String)
      → AreApart endpoints sets
      → lookup e (fill entry sets table) ≡ entry_of e (lookup e table) (set_of e sets)
  unfolding fill set_of
  fill-lookup endpoints [] table e apart = refl
  fill-lookup endpoints (set ∷ sets) table e apart = elim (Bool-cases (contains set.endpoints e)) [
    | inl mine ↦
        simp
          (
            fill-lookup endpoints sets (fill_set entry set set.endpoints table) e apart.1,
            set_of-none e sets (apart.0 e mine).1,
            fill_set-lookup set set.endpoints table e,
            mine,
          )
          refl
    | inr other ↦
        fill-lookup endpoints sets (fill_set entry set set.endpoints table) e apart.1
        ∙ ap (λ o. entry_of e o (set_of e sets))
            (fill_set-lookup set set.endpoints table e
              ∙ ap (λ b. if b then some (entry set e) else lookup e table) other)
        ∙ simp (other, set_of) refl
  ]

  pub filled :
      (endpoints : Map String Endpoint) (sets : List SyncSet) (e : String)
      → AreApart endpoints sets
      → lookup e (fill entry sets []) ≡ option_map (λ set. entry set e) (set_of e sets)
  unfolding lookup
  filled endpoints sets e apart = fill-lookup endpoints sets [] e apart ∙ same (set_of e sets)
    where
      same : (o : Option SyncSet) → entry_of e none o ≡ option_map (λ set. entry set e) o
      same none = refl
      same (some set) = refl

-- The tables of the router for a valid configuration have an entry for an endpoint just where a sync
-- set lists it, and it is that of this set: its targets, its settings, its id.
pub valid_tables_exact :
    (c : Config) (e : String)
    → validate c ≡ true
    → (lookup e (build_routes c)
        ≡ option_map (λ set. source_targets c set e) (set_of e c.sync_sets))
      × (lookup e (router_endpoint_settings c)
          ≡ option_map (settings_for_set c) (set_of e c.sync_sets))
      × (lookup e (router_endpoint_sets c) ≡ option_map (λ set. set.id) (set_of e c.sync_sets))
unfolding build_routes router_endpoint_settings router_endpoint_sets
valid_tables_exact c e valid =
    let apart = validate-AreApart c valid in
    (
      filled (source_targets c) c.endpoints c.sync_sets e apart,
      filled (λ set x. settings_for_set c set) c.endpoints c.sync_sets e apart,
      filled (λ set x. set.id) c.endpoints c.sync_sets e apart,
    )
