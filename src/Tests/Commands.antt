-- ===== src/Tests/Commands.antt =====
-- Properties of commands at a concrete configuration, whose settings are not spaced evenly.
use message_sync.Base.{codes, true, false, [], ◌≡◌, refl, pos}
use message_sync.Texts.{eq_text, fields, join}
use message_sync.Store.Ledger.{is_space}
use message_sync.Config.{Config, apply_defaults}
use message_sync.Commands.{match_local, match_summary}
use message_sync.Commands.Normal.{apply_defaults-commands}

abbrev config : Config
config = record {
  private_dm_relay_enabled = false;
  endpoints = [];
  sync_sets = [];
  media = record { enabled = true; max_size_mb = pos 100 };
  recovery = record { enabled = true; max_age_hours = pos 24; max_messages_per_group = pos 200 };
  message_retention_days = pos 90;
  aggregation_trigger = codes "  sum   total ";
  whatsapp_cleanup = record { enabled = false; retention_days = pos 30 };
  local_prefix = codes " !!  ## ";
  whatsapp_device_name = codes "message-sync";
  child_context_display_mode = "opaque";
}

spaced_evenly : (apply_defaults config).local_prefix ≡ codes "!! ##"
unfolding apply_defaults fields join is_space
spaced_evenly = refl

second_prefix : match_local (codes "##here") config.local_prefix ≡ true
unfolding match_local fields is_space
second_prefix = refl

no_trigger : match_summary (codes "sum total") config.aggregation_trigger ≡ false
unfolding match_summary fields is_space
no_trigger = refl

apply_defaults-commands_example :
    (match_local (codes "!!hi") (apply_defaults config).local_prefix
      ≡ match_local (codes "!!hi") config.local_prefix)
    × (match_summary (codes "!!hi") (apply_defaults config).aggregation_trigger
        ≡ match_summary (codes "!!hi") config.aggregation_trigger)
apply_defaults-commands_example = apply_defaults-commands config (codes "!!hi")
