-- ===== src/Router/Registry.antt =====
-- internal/router/registry.go and config.go's `ValidateConnectionID`. An adapter is a number, its
-- identity; what it does is a function that the caller gives. A nil registry is left out.
pub mod Inboxes
use message_sync.Base.{
  ℕ, Bool, true, false, not, ◌&&◌, ◌||◌, Option, none, some, String, codes, List, [], ◌∷◌, leb,
  if◌then◌else◌, ◌==◌, eq_nat, eq_string, all, length, Map, lookup, insert, delete, pos,
}
use message_sync.Transport.Failure.{GoError, plain, new_failure, destination_missing, transient}
use message_sync.Store.Ledger.{is_space, matches_endpoint}

abbrev pub trim_end : List ℕ → List ℕ
trim_end [] = []
trim_end (c ∷ cs) =
    let rest = trim_end cs in
    elim rest [ [] ↦ if is_space c then [] else c ∷ [] | d ∷ ds ↦ c ∷ d ∷ ds ]

abbrev pub trim_start : List ℕ → List ℕ
trim_start [] = []
trim_start (c ∷ cs) = let rest = trim_start cs in if is_space c then rest else c ∷ cs

-- `ValidateConnectionID` accepts the text. Its pattern is that of an endpoint's alias.
unfoldable pub valid_connection_id : String → Bool
unfolding matches_endpoint is_space
valid_connection_id id = matches_endpoint (trim_end (trim_start (codes id)))

abbrev pub Adapter : Type 0
Adapter = ℕ

pub record AdapterRegistry : Type 0 where
  pub adapters : Map String Adapter
  pub endpoints : Map String String

-- An endpoint of the configuration: its transport and its connection.
pub record EndpointConfig : Type 0 where
  pub transport : String
  pub connection_id : String

abbrev pub valid_transport : String → Bool
valid_transport t = t == "whatsapp" || t == "discord" || t == "telegram"

abbrev pub err_registry : GoError
err_registry = plain "registry"

unfoldable pub register_adapter :
    AdapterRegistry → String → Option Adapter → AdapterRegistry × Option GoError
register_adapter r id adapter =
    if not (valid_connection_id id) then (r, some err_registry) else elim adapter [
      | none ↦ (r, some err_registry)
      | some a ↦ (record r { adapters = insert id a r.adapters }, none)
    ]

unfoldable pub unregister_adapter : AdapterRegistry → String → AdapterRegistry
unregister_adapter r id = record r { adapters = delete id r.adapters }

-- The endpoints of a configuration by alias, when each of them is valid.
unfoldable pub build_endpoints : Map String EndpointConfig → Option (Map String String)
build_endpoints [] = some []
build_endpoints ((alias, e) ∷ cfg) =
    let rest = build_endpoints cfg in
    if valid_transport e.transport && valid_connection_id e.connection_id
    then elim rest [ none ↦ none | some es ↦ some ((alias, e.connection_id) ∷ es) ]
    else none

unfoldable pub update_config :
    AdapterRegistry → Option (Map String EndpointConfig) → AdapterRegistry × Option GoError
update_config r none = (r, some err_registry)
update_config r (some cfg) = elim (build_endpoints cfg) [
  | none ↦ (r, some err_registry)
  | some endpoints ↦ (record r { endpoints = endpoints }, none)
]

-- The copy that `NewAdapterRegistry` makes; a nil adapter is `none`.
abbrev copy_adapters : Map String (Option Adapter) → Option (Map String Adapter)
copy_adapters [] = some []
copy_adapters ((id, a) ∷ m) =
    let rest = copy_adapters m in
    if valid_connection_id id
    then elim a [
      | none ↦ none
      | some adapter ↦ elim rest [ none ↦ none | some copied ↦ some ((id, adapter) ∷ copied) ]
    ]
    else none

unfoldable pub new_adapter_registry :
    Option (Map String EndpointConfig) → Map String (Option Adapter) → Option AdapterRegistry
new_adapter_registry none given = none
new_adapter_registry (some cfg) given = elim (copy_adapters given) [
  | none ↦ none
  | some copied ↦
      let updated = update_config (record { adapters = copied; endpoints = [] }) (some cfg) in
      elim updated.1 [ none ↦ some updated.0 | some e ↦ none ]
]

pub data Dispatch : Type 0 where
  to_adapter : Adapter → Dispatch
  no_adapter : Option GoError → Dispatch

unfoldable pub adapter_for : AdapterRegistry → String → Dispatch
adapter_for r endpoint = elim (lookup endpoint r.endpoints) [
  | none ↦ no_adapter (
      new_failure destination_missing (pos 0)
        (some (plain "destination endpoint is not configured")))
  | some connection ↦ elim (lookup connection r.adapters) [
    | none ↦
        no_adapter
          (new_failure transient (pos 0) (some (plain "connection is stopped or unavailable")))
    | some adapter ↦ to_adapter adapter
  ]
]

-- `Send`, `React`, `Edit` and `Delete`: the call goes to the endpoint's adapter, or its error returns.
unfoldable pub dispatch {ℓ} :
    {A : Type ℓ} → AdapterRegistry → String → (Adapter → A) → (Option GoError → A) → A
dispatch r endpoint call fail = elim (adapter_for r endpoint) [
  | to_adapter a ↦ call a
  | no_adapter e ↦ fail e
]

-- A private inbox, by what the registry checks of it.
pub record PrivateInbox : Type 0 where
  pub connection_id : String
  pub transport : String
  pub owner_id : String
  pub chat_id : String
  pub token : List ℕ

-- What the adapters answer about private messages; `is_messenger` is the type assertion.
pub record Messengers : Type 0 where
  pub is_messenger : Adapter → Bool
  pub verifies_member : Adapter → String → String → Bool
  pub resolves : Adapter → String → String → Option PrivateInbox
  pub verifies : Adapter → String → String → PrivateInbox → Bool

unfoldable pub private_messenger_for_endpoint :
    Messengers → AdapterRegistry → String → Option Adapter
private_messenger_for_endpoint ms r endpoint = elim (adapter_for r endpoint) [
  | no_adapter e ↦ none
  | to_adapter a ↦ if ms.is_messenger a then some a else none
]

unfoldable pub private_messenger_for_connection :
    Messengers → AdapterRegistry → String → Option Adapter
private_messenger_for_connection ms r id = if id == "" then none else elim (lookup id r.adapters) [
  | none ↦ none
  | some a ↦ if ms.is_messenger a then some a else none
]

-- The value of a Go map at a key, "" when it is missing.
abbrev pub owner_of : AdapterRegistry → String → String
owner_of r endpoint = elim (lookup endpoint r.endpoints) [ none ↦ "" | some id ↦ id ]

unfoldable pub verify_private_member : Messengers → AdapterRegistry → String → String → Bool
verify_private_member ms r endpoint actor = elim (private_messenger_for_endpoint ms r endpoint) [
  | none ↦ false
  | some a ↦ ms.verifies_member a endpoint actor
]

unfoldable pub verify_private_inbox_member :
    Messengers → AdapterRegistry → String → String → PrivateInbox → Bool
verify_private_inbox_member ms r endpoint actor inbox =
    if not (owner_of r endpoint == inbox.connection_id)
    then false
    else elim (private_messenger_for_endpoint ms r endpoint) [
      | none ↦ false
      | some a ↦ ms.verifies a endpoint actor inbox
    ]

abbrev is_null : List ℕ → Bool
is_null [] = true
is_null _ = false

abbrev pub is_complete : PrivateInbox → Bool
is_complete i = not (
    i.connection_id == ""
    || i.transport == ""
    || i.owner_id == ""
    || i.chat_id == ""
    || is_null i.token)

unfoldable pub resolve_private_inbox :
    Messengers → AdapterRegistry → String → String → Option PrivateInbox
resolve_private_inbox ms r endpoint actor = elim (private_messenger_for_endpoint ms r endpoint) [
  | none ↦ none
  | some a ↦ elim (ms.resolves a endpoint actor) [
    | none ↦ none
    | some inbox ↦
        if not (is_complete inbox)
        then none
        else if not (inbox.connection_id == owner_of r endpoint)
        then none
        else some inbox
  ]
]

-- `SendPrivate` and `DeletePrivateCopyForMe`: the call goes to the messenger of the connection.
unfoldable pub dispatch_private {ℓ} :
    {A : Type ℓ} → Messengers → AdapterRegistry → String → (Adapter → A) → A → A
dispatch_private ms r id call unavailable = elim (private_messenger_for_connection ms r id) [
  | none ↦ unavailable
  | some a ↦ call a
]
