-- ===== src/Config.antt =====
-- internal/config/config.go and sync_set_settings.go: the configuration, its validation, and the
-- settings of a sync set. Texts that are edited or measured are lists of bytes, ASCII where their words
-- are split; `int` is unbounded. Errors are told apart by nobody, so a validation is a test.
pub mod Validation
pub mod Membership
use message_sync.Base.{
  ℕ, zero, suc, ◌+◌, ◌*◌, ◌-◌, ◌^◌, Bool, true, false, not, ◌&&◌, ◌||◌, Option, none, some, String,
  codes, List, [], ◌∷◌, leb, ltb, if◌then◌else◌, ◌==◌, eq_nat, eq_string, all, any, length, Map,
  lookup, insert, has, ℤ, pos, leb_ℤ, contains,
}
use message_sync.Texts.{Text, eq_text, trim_space, join_fields, has_control}
use message_sync.Store.Ledger.{validate_endpoint}
use message_sync.Store.Cursors.{is_alnum}
use message_sync.Router.Registry.{valid_connection_id, valid_transport}

pub record Media : Type 0 where
  pub enabled : Bool
  pub max_size_mb : ℤ

pub record Recovery : Type 0 where
  pub enabled : Bool
  pub max_age_hours : ℤ
  pub max_messages_per_group : ℤ

pub record WhatsappCleanup : Type 0 where
  pub enabled : Bool
  pub retention_days : ℤ

pub record SyncSetSettings : Type 0 where
  pub membership_review_enabled : Bool
  pub private_dm_relay_enabled : Bool
  pub child_context_display_mode : String
  pub media : Media
  pub recovery : Recovery
  pub message_retention_days : ℤ
  pub aggregation_trigger : Text
  pub whatsapp_cleanup : WhatsappCleanup
  pub local_prefix : Text

pub record Endpoint : Type 0 where
  pub anonymize_incoming : Bool
  pub anonymize_outgoing : Bool
  pub transport : String
  pub connection_id : String
  pub remote_id : Text

pub record SyncSet : Type 0 where
  pub id : String
  pub endpoints : List String
  pub anonymize_to_discord : Bool
  pub settings : Option SyncSetSettings

pub record Config : Type 0 where
  pub private_dm_relay_enabled : Bool
  pub endpoints : Map String Endpoint
  pub sync_sets : List SyncSet
  pub media : Media
  pub recovery : Recovery
  pub message_retention_days : ℤ
  pub aggregation_trigger : Text
  pub whatsapp_cleanup : WhatsappCleanup
  pub local_prefix : Text
  pub whatsapp_device_name : Text
  pub child_context_display_mode : String

abbrev or_default : ℤ → ℕ → ℤ
or_default (pos zero) d = pos d
or_default n d = n

unfoldable pub apply_defaults : Config → Config
apply_defaults c =
    let trigger = join_fields c.aggregation_trigger in
    record c {
      media = record c.media { max_size_mb = or_default c.media.max_size_mb 100 };
      recovery = record c.recovery {
        max_age_hours = or_default c.recovery.max_age_hours 24;
        max_messages_per_group = or_default c.recovery.max_messages_per_group 200;
      };
      message_retention_days = or_default c.message_retention_days 90;
      aggregation_trigger = if trigger == [] then codes "aggregate-response" else trigger;
      local_prefix = join_fields c.local_prefix;
      whatsapp_cleanup = record c.whatsapp_cleanup {
        retention_days = or_default c.whatsapp_cleanup.retention_days 30;
      };
      whatsapp_device_name =
          if trim_space c.whatsapp_device_name == []
          then codes "message-sync"
          else c.whatsapp_device_name;
      child_context_display_mode =
          if c.child_context_display_mode == "" then "opaque" else c.child_context_display_mode;
    }

unfoldable pub legacy_settings : Config → SyncSetSettings
legacy_settings c =
    let d = apply_defaults c in
    record {
      membership_review_enabled = false;
      private_dm_relay_enabled = false;
      child_context_display_mode = d.child_context_display_mode;
      media = d.media;
      recovery = d.recovery;
      message_retention_days = d.message_retention_days;
      aggregation_trigger = d.aggregation_trigger;
      whatsapp_cleanup = d.whatsapp_cleanup;
      local_prefix = d.local_prefix;
    }

unfoldable pub default_settings : SyncSetSettings
default_settings = record {
  membership_review_enabled = false;
  private_dm_relay_enabled = false;
  child_context_display_mode = "opaque";
  media = record { enabled = true; max_size_mb = pos 100 };
  recovery = record { enabled = true; max_age_hours = pos 24; max_messages_per_group = pos 200 };
  message_retention_days = pos 90;
  aggregation_trigger = codes "aggregate-response";
  whatsapp_cleanup = record { enabled = false; retention_days = pos 30 };
  local_prefix = [];
}

unfoldable pub settings_for_set : Config → SyncSet → SyncSetSettings
settings_for_set c set = elim set.settings [ none ↦ legacy_settings c | some s ↦ s ]

-- The first set that lists the endpoint gives its settings.
unfoldable pub settings_among : Config → String → List SyncSet → SyncSetSettings
settings_among c alias [] = default_settings
settings_among c alias (set ∷ sets) =
    let rest = settings_among c alias sets in
    if contains set.endpoints alias then settings_for_set c set else rest

abbrev pub settings_for_endpoint : Config → String → SyncSetSettings
settings_for_endpoint c alias = settings_among c alias c.sync_sets

-- `PrivateDMConnectionEnabled`
unfoldable pub private_dm_connection_enabled : Config → String → Bool
private_dm_connection_enabled c connection =
    c.private_dm_relay_enabled
    && any
        (λ e.
          e.1.connection_id == connection && (settings_for_endpoint c e.0).private_dm_relay_enabled)
        c.endpoints
