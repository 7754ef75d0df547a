-- ===== src/Tests/Routes.antt =====
-- Properties of configurations at a concrete input: two groups in one sync set.
use message_sync.Base.{
  ℕ, true, false, none, some, codes, List, [], ◌∷◌, ◌≡◌, refl, All, lookup, has, insert, option_map,
  pos, eq_nat, eq_string,
}
use message_sync.Config.{
  Config, Endpoint, default_settings, settings_for_endpoint, settings_for_set,
}
use message_sync.Config.Validation.{
  validate, valid_parts, valid_local_prefix, valid_trigger, valid_device_name, check_endpoints,
  valid_remote_id, valid_discord_id, matches_jid, read_digits, check_sets, valid_set,
  valid_settings, check_members,
}
use message_sync.Config.Membership.{sets_listing, one_set, set_of}
use message_sync.Store.Ledger.{is_space, validate_endpoint, matches_endpoint}
use message_sync.Store.Cursors.{is_alnum}
use message_sync.Router.Registry.{valid_connection_id}
use message_sync.Delivery.Lanes.{Lane, new, update, keep_wanted, add_missing}
use message_sync.Delivery.Retry.{default_retry_policy}
use message_sync.Router.Routes.{
  RouteTarget, Router, source_targets, build_routes, fill, fill_set, router_endpoint_settings,
  router_endpoint_sets, new_router, needs_hasher, tables_of, settings_for, update_router,
}
use message_sync.Router.Routes.Isolation.{valid_tables_exact}
use message_sync.Router.Routes.Targets.{IsRoute, routes_sound}
use message_sync.Router.Routes.Served.{configure_all, routes_have_lanes}
use message_sync.Router.Routes.Policies.{settings_for-settings_for_endpoint}

abbrev family : Endpoint
family = record {
  anonymize_incoming = false;
  anonymize_outgoing = true;
  transport = "whatsapp";
  connection_id = "wa";
  remote_id = codes "12-3@g.us";
}

abbrev friends : Endpoint
friends = record {
  anonymize_incoming = false;
  anonymize_outgoing = false;
  transport = "discord";
  connection_id = "dc";
  remote_id = codes "42";
}

abbrev config : Config
config = record {
  private_dm_relay_enabled = false;
  endpoints = ("family", family) ∷ ("friends", friends) ∷ [];
  sync_sets =
      record {
        id = "all";
        endpoints = "family" ∷ "friends" ∷ [];
        anonymize_to_discord = false;
        settings = none;
      }
      ∷ [];
  media = record { enabled = true; max_size_mb = pos 100 };
  recovery = record { enabled = true; max_age_hours = pos 24; max_messages_per_group = pos 200 };
  message_retention_days = pos 90;
  aggregation_trigger = codes "aggregate";
  whatsapp_cleanup = record { enabled = false; retention_days = pos 30 };
  local_prefix = [];
  whatsapp_device_name = codes "sync";
  child_context_display_mode = "opaque";
}

config_valid : validate config ≡ true
unfolding lookup insert validate valid_parts valid_local_prefix valid_trigger valid_device_name
    check_endpoints valid_remote_id valid_discord_id matches_jid read_digits check_sets valid_set
    valid_settings check_members is_space validate_endpoint matches_endpoint is_alnum
    valid_connection_id
config_valid = refl

one_set_example : sets_listing "family" config.sync_sets ≡ 1
unfolding lookup
one_set_example = one_set config "family" config_valid

valid_tables_exact_example :
    (lookup "family" (build_routes config)
      ≡ option_map (λ set. source_targets config set "family") (set_of "family" config.sync_sets))
    × (lookup "family" (router_endpoint_settings config)
        ≡ option_map (settings_for_set config) (set_of "family" config.sync_sets))
    × (lookup "family" (router_endpoint_sets config)
        ≡ option_map (λ set. set.id) (set_of "family" config.sync_sets))
valid_tables_exact_example = valid_tables_exact config "family" config_valid

abbrev family_routes : List RouteTarget
family_routes =
    record { sync_set_id = "all"; endpoint = "family"; anonymized = true }
    ∷ record { sync_set_id = "all"; endpoint = "friends"; anonymized = true }
    ∷ []

family_routed : lookup "family" (build_routes config) ≡ some family_routes
unfolding lookup insert build_routes fill fill_set source_targets
family_routed = refl

routes_sound_example : All (IsRoute config "family") family_routes
routes_sound_example = routes_sound config "family" family_routes config_valid family_routed

abbrev lane_numbered : ℕ → Lane
lane_numbered n = record { number = n; capacity = 32 }

abbrev router : Router (Unit {0})
router = record {
  lanes = record {
    capacity = 32;
    lanes = ("family", lane_numbered 0) ∷ ("friends", lane_numbered 1) ∷ [];
    queues = [];
    stopped = [];
    next_lane = 2;
    closed = false;
    policy = default_retry_policy;
  };
  tables = tables_of config;
  scope_hasher = true;
}

router_made : new_router true (some config) ≡ some router
unfolding lookup insert new_router needs_hasher new update keep_wanted add_missing
router_made = refl

still_routed :
    lookup "family" (configure_all router (config ∷ [])).tables.routes ≡ some family_routes
unfolding lookup insert configure_all update_router needs_hasher update keep_wanted add_missing
    build_routes fill fill_set source_targets
still_routed = refl

routes_have_lanes_example :
    All (λ t. has t.endpoint (configure_all router (config ∷ [])).lanes.lanes ≡ true) family_routes
routes_have_lanes_example =
    routes_have_lanes true config (config ∷ []) "family" family_routes config_valid
      (config_valid, tt) router_made still_routed

settings_for-settings_for_endpoint_example :
    settings_for (tables_of config) default_settings "family"
    ≡ settings_for_endpoint config "family"
unfolding lookup
settings_for-settings_for_endpoint_example =
    settings_for-settings_for_endpoint config default_settings "family" config_valid refl
