-- ===== src/Tests/Private.antt =====
-- Properties of the private relay at concrete inputs.
use message_sync.Base.{
  ◌≤◌, true, false, some, codes, List, [], ◌∷◌, ◌≡◌, ◌≢◌, ◌⊎◌, refl, All, lookup, eq_nat, eq_string,
  arith, pos,
}
use message_sync.Router.Registry.{PrivateInbox}
use message_sync.Config.{
  Config, default_settings, settings_for_set, settings_among, private_dm_connection_enabled,
}
use message_sync.Config.Membership.{set_of}
use message_sync.Private.Records.{
  Side, Mapping, Sealing, Digests, PrivateTables, put_reply, reply, accept_incoming, present,
  absent,
}
use message_sync.Private.Cleanup.{Due}
use message_sync.Private.Accepted.{SeenStep, comes, pruned, all_seen, accepted_once}
use message_sync.Private.Replies.{ReplyStep, puts, prunes, all_replies, reply-put_reply}
use message_sync.Private.Attempts.{begins, finishes, claims, claims_bounded}
use message_sync.Private.Limits.{PermitCall, granted, permits_per_minute}
use message_sync.Private.Route.{Runtime, candidate, same_inbox, select, recipient_route}
use message_sync.Private.Recipients.{IsRecipient, IsAgreed, recipient_route_sound}

abbrev inbox : PrivateInbox
inbox = record {
  connection_id = "wa";
  transport = "whatsapp";
  owner_id = "o";
  chat_id = "c1";
  token = 1 ∷ [];
}

-- A digest that tells messages apart.
abbrev keys : Digests
keys = record {
  inbox_key = λ domain box id. id;
  actor_key = λ connection platform actor. actor;
  cleanup_key = λ copy. copy.owner_id;
}

abbrev empty_tables : PrivateTables
empty_tables = record { replies = []; seen = []; inboxes = []; cleanup = [] }

abbrev seen_steps : List SeenStep
seen_steps = comes inbox "m2" 20 false ∷ pruned 30 100 [] ∷ []

accepted_once_example :
    (accept_incoming keys
      (all_seen keys (accept_incoming keys empty_tables inbox "m1" 10 false).0 seen_steps)
      inbox
      "m1"
      40
      false).1
    ≢ some true
unfolding lookup accept_incoming
accepted_once_example =
    accepted_once keys empty_tables inbox "m1" 10 40 false false seen_steps refl
      (tt, (omega arith, tt))

abbrev side : Side
side = record { endpoint = "family"; binding = "b"; actor_id = "a1"; inbox = inbox }

abbrev mapping : Mapping
mapping = record {
  author_message_id = "m1";
  conversation_id = "v1";
  sync_set_id = "all";
  author = side;
  recipient = side;
}

abbrev sealing : Sealing Mapping
sealing = record { seal = λ m. some "sealed"; unseal = λ s. some mapping }

abbrev reply_steps : List ReplyStep
reply_steps = puts "m3" mapping 20 false ∷ prunes 30 100 [] ∷ []

reply-put_reply_example :
    reply keys sealing
      (all_replies keys sealing
        (put_reply keys sealing empty_tables "m2" mapping 10 false).0
        reply_steps)
      inbox
      "m2"
      40
      false
    ≡ present mapping
unfolding lookup put_reply
reply-put_reply_example =
    reply-put_reply keys sealing empty_tables "m2" mapping 10 40 false reply_steps
      (λ s sealed. refl) refl (omega arith) (tt, (omega arith, tt))

abbrev due : Due
due = record {
  key = "k1";
  copy = record { connection_id = "wa"; transport = "whatsapp"; owner_id = "o"; token = 1 ∷ [] };
  attempts = 0;
}

abbrev cleanup_tables : PrivateTables
cleanup_tables = record empty_tables {
  cleanup =
      (
        "k1",
        record {
          ciphertext = "s";
          cleanup_after = 5;
          expires_at = 9000;
          attempts = 0;
          next_attempt_at = 5;
        },
      )
      ∷ [];
}

claims_bounded_example :
    claims "k1" cleanup_tables (begins due 10 false ∷ finishes due false false ∷ []) ≤ 3
unfolding lookup
claims_bounded_example =
    claims_bounded "k1" cleanup_tables (begins due 10 false ∷ finishes due false false ∷ [])
      (refl, tt)

abbrev calls : List PermitCall
calls =
    record { key = "global"; now = 61; max = 1 } ∷ record { key = "global"; now = 62; max = 1 } ∷ []

permits_per_minute_example : granted "global" [] calls ≤ 1
permits_per_minute_example =
    permits_per_minute "global" 1 1 [] calls
      ((refl, λ h. omega arith), ((refl, λ h. omega arith), tt))

abbrev config : Config
config = record {
  private_dm_relay_enabled = true;
  endpoints =
      (
        "family",
        record {
          anonymize_incoming = false;
          anonymize_outgoing = false;
          transport = "whatsapp";
          connection_id = "wa";
          remote_id = codes "12-3@g.us";
        },
      )
      ∷ [];
  sync_sets =
      record {
        id = "all";
        endpoints = "family" ∷ [];
        anonymize_to_discord = false;
        settings = some (record default_settings { private_dm_relay_enabled = true });
      }
      ∷ [];
  media = record { enabled = true; max_size_mb = pos 100 };
  recovery = record { enabled = true; max_age_hours = pos 24; max_messages_per_group = pos 200 };
  message_retention_days = pos 90;
  aggregation_trigger = [];
  whatsapp_cleanup = record { enabled = false; retention_days = pos 30 };
  local_prefix = [];
  whatsapp_device_name = codes "sync";
  child_context_display_mode = "opaque";
}

abbrev runtime : Runtime
runtime = record {
  verify_member = λ endpoint actor box. true;
  resolve = λ endpoint actor. some inbox;
  known = λ connection platform actor. absent;
}

recipient_route_sound_example :
    IsRecipient config runtime "all" "a1" "family" inbox
    × All
        (λ a. IsAgreed (candidate config runtime "all" "a1") inbox a ⊎ (a ≡ "family"))
        ("family" ∷ [])
unfolding lookup recipient_route select candidate set_of private_dm_connection_enabled
    settings_among settings_for_set same_inbox
recipient_route_sound_example =
    recipient_route_sound config runtime "all" "a1" "family" ("family" ∷ []) inbox refl
