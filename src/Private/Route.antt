-- ===== src/Private/Route.antt =====
-- internal/privatedm/alias_routes.go, `recipientRoute`, and relay.go's `sameInbox`, `findSet` (`set_of`).
use message_sync.Base.{
  Bool, false, not, ◌&&◌, Option, none, some, String, List, [], ◌∷◌, if◌then◌else◌, ◌==◌, eq_string,
  lookup,
}
use message_sync.Config.{Endpoint, SyncSet, Config, private_dm_connection_enabled}
use message_sync.Config.Membership.{set_of}
use message_sync.Router.Registry.{PrivateInbox}
use message_sync.Private.Records.{Found, absent, unreadable, present}

unfoldable pub same_inbox : PrivateInbox → PrivateInbox → Bool
same_inbox a b =
    a.connection_id == b.connection_id
    && a.transport == b.transport
    && a.owner_id == b.owner_id
    && not (a.chat_id == "")
    && a.chat_id == b.chat_id

-- What the adapters and the table of inboxes route_answer at the time of a call.
pub record Runtime : Type 0 where
  -- `VerifyPrivateInboxMember`: endpoint, actor, inbox.
  pub verify_member : String → String → PrivateInbox → Bool
  -- `ResolvePrivateInbox`: endpoint, actor.
  pub resolve : String → String → Option PrivateInbox
  -- `State.Inbox`: connection, platform, actor.
  pub known : String → String → String → Found PrivateInbox

abbrev pub names_set : String → Option SyncSet → Bool
names_set id none = false
names_set id (some set) = set.id == id

-- The inbox, when it belongs to the endpoint's connection and is the actor's now.
abbrev pub verified : Runtime → String → String → Endpoint → Found PrivateInbox → Found PrivateInbox
verified runtime actor endpoint ep absent = absent
verified runtime actor endpoint ep unreadable = unreadable
verified runtime actor endpoint ep (present inbox) =
    if inbox.connection_id == ep.connection_id
      && inbox.transport == ep.transport
      && runtime.verify_member endpoint actor inbox
    then present inbox
    else absent

abbrev pub resolved : Runtime → String → Endpoint → Option PrivateInbox → Found PrivateInbox
resolved runtime actor ep (some inbox) = present inbox
resolved runtime actor ep none =
    if ep.transport == "telegram" then runtime.known ep.connection_id ep.transport actor else absent

abbrev pub candidate_at :
    Config → Runtime → String → String → String → Option Endpoint → Found PrivateInbox
candidate_at c runtime set_id actor endpoint none = absent
candidate_at c runtime set_id actor endpoint (some ep) =
    if names_set set_id (set_of endpoint c.sync_sets)
      && private_dm_connection_enabled c ep.connection_id
    then verified runtime actor endpoint ep
        (resolved runtime actor ep (runtime.resolve endpoint actor))
    else absent

-- The inbox of an actor through one endpoint.
unfoldable pub candidate : Config → Runtime → String → String → String → Found PrivateInbox
candidate c runtime set_id actor endpoint =
    candidate_at c runtime set_id actor endpoint (lookup endpoint c.endpoints)

pub data RouteAnswer : Type 0 where
  failed nowhere : RouteAnswer
  towards : String → PrivateInbox → RouteAnswer

-- The loop over the endpoints, with the inbox that was selected.
module _ (inbox_of : String → Found PrivateInbox) where
  abbrev pub route_answer : Option (String × PrivateInbox) → RouteAnswer
  route_answer none = nowhere
  route_answer (some (endpoint, inbox)) = towards endpoint inbox

  unfoldable pub select : Option (String × PrivateInbox) → List String → RouteAnswer
  select selected [] = route_answer selected
  select none (e ∷ es) = elim (inbox_of e) [
    | absent ↦ select none es
    | unreadable ↦ failed
    | present inbox ↦ select (some (e, inbox)) es
  ]
  select (some (endpoint, inbox)) (e ∷ es) =
      let rest = select (some (endpoint, inbox)) es in
      elim (inbox_of e) [
        | absent ↦ rest
        | unreadable ↦ failed
        | present other ↦ if same_inbox inbox other then rest else nowhere
      ]

-- Over the endpoints that `ActorEndpoints` lists, `none` for its error.
unfoldable pub recipient_route :
    Config → Runtime → String → String → Option (List String) → RouteAnswer
recipient_route c runtime set_id actor none = failed
recipient_route c runtime set_id actor (some endpoints) =
    select (candidate c runtime set_id actor) none endpoints
