-- ===== src/Router/Routes.antt =====
-- internal/router/router.go: the tables of `newRouter` and `UpdateConfig`. The store, the sender and the
-- poll presentation are of other parts; the hasher is there or not.
pub mod Isolation
pub mod Targets
pub mod Served
pub mod Policies
use message_sync.Base.{
  ℕ, Bool, true, false, not, ◌&&◌, ◌||◌, Option, none, some, String, List, [], ◌∷◌, map, any,
  if◌then◌else◌, ◌==◌, eq_string, Map, lookup, insert, keys, pos,
}
use message_sync.Texts.{Text}
use message_sync.Config.{Endpoint, SyncSet, Config, SyncSetSettings, settings_for_set}
use message_sync.Delivery.Lanes.{Manager, LaneError, new, update}

pub record RouteTarget : Type 0 where
  pub sync_set_id : String
  pub endpoint : String
  pub anonymized : Bool

-- The zero value that Go's map gives for an alias without an endpoint.
abbrev pub flag_of : (Endpoint → Bool) → Option Endpoint → Bool
flag_of f none = false
flag_of f (some e) = f e

abbrev pub target : Config → SyncSet → String → RouteTarget
target c set alias = record {
  sync_set_id = set.id;
  endpoint = alias;
  anonymized =
      flag_of (λ e. e.anonymize_incoming || (set.anonymize_to_discord && e.transport == "discord"))
        (lookup alias c.endpoints);
}

abbrev pub anonymize : RouteTarget → RouteTarget
anonymize t = record t { anonymized = true }

-- The targets of a set, as one of its endpoints sends to them.
unfoldable pub source_targets : Config → SyncSet → String → List RouteTarget
source_targets c set source =
    let targets = map (target c set) set.endpoints in
    if flag_of (λ e. e.anonymize_outgoing) (lookup source c.endpoints)
    then map anonymize targets
    else targets

-- A table by endpoint: for each set and each of its endpoints, an entry, which replaces an earlier one.
module _ {V : Type 0} (entry : SyncSet → String → V) where
  unfoldable pub fill_set : SyncSet → List String → Map String V → Map String V
  fill_set set [] table = table
  fill_set set (e ∷ es) table = fill_set set es (insert e (entry set e) table)

  unfoldable pub fill : List SyncSet → Map String V → Map String V
  fill [] table = table
  fill (set ∷ sets) table = fill sets (fill_set set set.endpoints table)

unfoldable pub build_routes : Config → Map String (List RouteTarget)
build_routes c = fill (source_targets c) c.sync_sets []

unfoldable pub router_endpoint_settings : Config → Map String SyncSetSettings
router_endpoint_settings c = fill (λ set e. settings_for_set c set) c.sync_sets []

unfoldable pub router_endpoint_sets : Config → Map String String
router_endpoint_sets c = fill (λ set e. set.id) c.sync_sets []

abbrev pub endpoint_transports : Map String Endpoint → Map String String
endpoint_transports [] = []
endpoint_transports ((alias, e) ∷ rest) = (alias, e.transport) ∷ endpoint_transports rest

-- Something is anonymized.
unfoldable pub needs_hasher : Config → Bool
needs_hasher c =
    any (λ e. e.1.anonymize_incoming || e.1.anonymize_outgoing) c.endpoints
    || any (λ set. set.anonymize_to_discord) c.sync_sets

pub record Tables : Type 0 where
  pub routes : Map String (List RouteTarget)
  pub endpoint_transports : Map String String
  pub endpoint_settings : Map String SyncSetSettings
  pub endpoint_sets : Map String String
  pub child_context_mode : String
  pub agg_trigger : Text
  pub local_prefix : Text

abbrev pub tables_of : Config → Tables
tables_of c = record {
  routes = build_routes c;
  endpoint_transports = endpoint_transports c.endpoints;
  endpoint_settings = router_endpoint_settings c;
  endpoint_sets = router_endpoint_sets c;
  child_context_mode = c.child_context_display_mode;
  agg_trigger = c.aggregation_trigger;
  local_prefix = c.local_prefix;
}

pub data RouterError : Type 0 where
  config_required hasher_required : RouterError
  lanes_error : LaneError → RouterError

-- Over the jobs of its lanes.
pub record Router (J : Type 0) : Type 0 where
  pub lanes : Manager J
  pub tables : Tables
  pub scope_hasher : Bool

module _ {J : Type 0} where
  abbrev pub with_lanes : Bool → Config → Option (Manager J) × Option LaneError → Option (Router J)
  with_lanes hasher c (none, err) = none
  with_lanes hasher c (some lanes, err) =
      some (record { lanes = lanes; tables = tables_of c; scope_hasher = hasher })

  unfoldable pub new_router : Bool → Option Config → Option (Router J)
  new_router hasher none = none
  new_router hasher (some c) =
      if needs_hasher c && not hasher
      then none
      else with_lanes hasher c (new true (pos 32) (keys c.endpoints))

  abbrev pub updated :
      Router J → Config → Manager J × Option LaneError → Router J × Option RouterError
  updated r c (lanes, some err) = (record r { lanes = lanes }, some (lanes_error err))
  updated r c (lanes, none) = (record r { lanes = lanes; tables = tables_of c }, none)

  -- The lanes that end run what they hold, canceled, before this returns.
  unfoldable pub update_router : Router J → Option Config → Router J × Option RouterError
  update_router r none = (r, some config_required)
  update_router r (some c) =
      if needs_hasher c && not r.scope_hasher
      then (r, some hasher_required)
      else updated r c (update r.lanes (keys c.endpoints))

abbrev pub stored_settings : Tables → SyncSetSettings → Option SyncSetSettings → SyncSetSettings
stored_settings t zero_settings none = record zero_settings {
  child_context_display_mode = t.child_context_mode;
}
stored_settings t zero_settings (some s) = s

-- `settingsFor`, with Go's zero settings by the caller.
unfoldable pub settings_for : Tables → SyncSetSettings → String → SyncSetSettings
settings_for t zero_settings endpoint =
    stored_settings t zero_settings (lookup endpoint t.endpoint_settings)

-- `syncSetFor`
unfoldable pub sync_set_for : Tables → String → String
sync_set_for t endpoint = elim (lookup endpoint t.endpoint_sets) [ none ↦ "" | some id ↦ id ]
