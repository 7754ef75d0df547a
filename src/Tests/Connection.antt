-- ===== src/Tests/Connection.antt =====
-- Properties at concrete inputs: connections and private inboxes.
use message_sync.Base.{
  ℕ, true, false, none, some, String, List, [], ◌∷◌, ◌≡◌, refl, lookup, insert, delete, eq_string,
  eq_nat,
}
use message_sync.Router.Registry.{
  AdapterRegistry, PrivateInbox, Messengers, adapter_for, to_adapter, is_complete,
  resolve_private_inbox, private_messenger_for_endpoint, private_messenger_for_connection,
  register_adapter, unregister_adapter, update_config, build_endpoints, valid_connection_id,
}
use message_sync.Router.Registry.Inboxes.{resolved_inbox_is_dispatched}
use message_sync.Connection.{
  Interfaces, Entry, Manager as ConnectionManager, running, new_manager, lock_register,
  lock_restart, lock_stop, proceed, registering, stopping, configure, stop, stream_closed,
  get_adapter,
}
use message_sync.Connection.Dispatching.{
  Operation, new_runtime, proceeds, registers, restarts, configures, operate, operate_all,
  running_adapter_is_dispatched, closed_stream_keeps_adapter,
}

abbrev plain_adapters : Interfaces
plain_adapters = record {
  is_recovery_source = λ a. false;
  is_closer = λ a. true;
  is_updatable = λ a. false;
}

abbrev empty_registry : AdapterRegistry
empty_registry = record { adapters = []; endpoints = [] }

-- Calls for two connections interleave.
abbrev connection_events : List Operation
connection_events =
    registers "c1" "telegram" (some 5)
    ∷ registers "c2" "discord" (some 8)
    ∷ proceeds "c1"
    ∷ configures (some (("family", record { transport = "telegram"; connection_id = "c1" }) ∷ []))
    ∷ restarts "c1" (some 6)
    ∷ proceeds "c2"
    ∷ proceeds "c1"
    ∷ []

running_adapter_is_dispatched_example :
    adapter_for
      (operate_all plain_adapters connection_events (new_runtime empty_registry)).manager.registry
      "family"
    ≡ to_adapter 6
unfolding new_manager operate operate_all lock_register lock_restart proceed configure get_adapter
    register_adapter update_config build_endpoints valid_connection_id lookup insert delete
running_adapter_is_dispatched_example =
    running_adapter_is_dispatched plain_adapters empty_registry connection_events "c1" "family" 6
      refl refl refl

abbrev telegram_entry : Entry
telegram_entry = record {
  transport = "telegram";
  adapter = 5;
  state = running;
  err_str = "";
  context = 0;
}

abbrev one_connection : ConnectionManager
one_connection = record {
  registry = record { adapters = ("c1", 5) ∷ []; endpoints = ("family", "c1") ∷ [] };
  sources = [];
  entries = ("c1", telegram_entry) ∷ [];
  closed = false;
  next_context = 1;
  canceled = [];
  closings = [];
  updates = [];
}

closed_stream_keeps_adapter_example :
    (stop plain_adapters (stream_closed one_connection "c1") "c1"
      ≡ (stream_closed one_connection "c1", none))
    × (adapter_for (stream_closed one_connection "c1").registry "family" ≡ to_adapter 5)
unfolding lookup adapter_for
closed_stream_keeps_adapter_example =
    closed_stream_keeps_adapter plain_adapters one_connection "c1" "family" telegram_entry refl refl
      refl

abbrev inbox_of : String → PrivateInbox
inbox_of id = record {
  connection_id = id;
  transport = "telegram";
  owner_id = "o";
  chat_id = "7";
  token = 1 ∷ [];
}

-- `Stop` released the lock, then `Register` ran as a whole, and then the rest of `Stop`: the connection runs,
-- and the registry has no adapter for it.
abbrev overlapped : ConnectionManager
overlapped =
    let stopping_call = lock_stop one_connection "c1" in
    let added = lock_register stopping_call.0 "c1" "telegram" (some 9) in
    let registered = proceed plain_adapters "c1" (registering 9 1) added.0 in
    (proceed plain_adapters "c1" (stopping 5 0) registered.0).0

overlap_loses_adapter :
    (get_adapter overlapped "c1" ≡ some 9) × (lookup "c1" overlapped.registry.adapters ≡ none)
unfolding lock_stop lock_register proceed get_adapter register_adapter unregister_adapter
    valid_connection_id lookup insert delete
overlap_loses_adapter = (refl, refl)

abbrev all_messengers : Messengers
all_messengers = record {
  is_messenger = λ a. true;
  verifies_member = λ a endpoint actor. true;
  resolves = λ a endpoint actor. some (inbox_of "c1");
  verifies = λ a endpoint actor inbox. true;
}

resolved_inbox_is_dispatched_example :
    (is_complete (inbox_of "c1") ≡ true)
    × ((a : ℕ) × ((adapter_for one_connection.registry "family" ≡ to_adapter a)
          × (private_messenger_for_connection all_messengers one_connection.registry "c1"
              ≡ some a)))
unfolding resolve_private_inbox private_messenger_for_endpoint adapter_for lookup
resolved_inbox_is_dispatched_example =
    resolved_inbox_is_dispatched all_messengers one_connection.registry "family" "u1"
      (inbox_of "c1") refl
