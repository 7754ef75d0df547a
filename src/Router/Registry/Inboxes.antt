-- ===== src/Router/Registry/Inboxes.antt =====
-- Private inboxes and the connections that own them.
use message_sync.Base.{
  true, not, Option, none, some, String, ◌==◌, eq_string, Bool-cases, Option-cases, inl, inr, ◌⊎◌,
  ◌≡◌, refl, sym, arith, lookup, if◌then◌else◌, subst,
}
use mathlib.Core.Option.{some-injective}
use message_sync.Transport.Failure.{GoError}
use message_sync.Router.Registry.{
  Adapter, AdapterRegistry, Messengers, PrivateInbox, Dispatch, to_adapter, no_adapter, adapter_for,
  is_complete, owner_of, private_messenger_for_endpoint, private_messenger_for_connection,
  resolve_private_inbox,
}

Dispatch-cases :
    (d : Dispatch)
    → ((e : Option GoError) × (d ≡ no_adapter e)) ⊎ ((a : Adapter) × (d ≡ to_adapter a))
Dispatch-cases (no_adapter e) = inl (e, refl)
Dispatch-cases (to_adapter a) = inr (a, refl)

-- The adapter of an endpoint is that of the endpoint's connection.
adapter_for-owner :
    (r : AdapterRegistry) (endpoint : String) (a : Adapter)
    → adapter_for r endpoint ≡ to_adapter a
    → lookup (owner_of r endpoint) r.adapters ≡ some a
unfolding adapter_for
adapter_for-owner r endpoint a sends = elim (Option-cases (lookup endpoint r.endpoints)) [
  | inl missing ↦ ground (arith, missing, sends)
  | inr (id, owned) ↦ elim (Option-cases (lookup id r.adapters)) [
    | inl idle ↦ ground (arith, owned, idle, sends)
    | inr (b, there) ↦ ground (arith, owned, there, sends)
  ]
]

messenger-adapter :
    (ms : Messengers) (r : AdapterRegistry) (endpoint : String) (a : Adapter)
    → private_messenger_for_endpoint ms r endpoint ≡ some a
    → (adapter_for r endpoint ≡ to_adapter a) × (ms.is_messenger a ≡ true)
unfolding private_messenger_for_endpoint
messenger-adapter ms r endpoint a found = elim (Dispatch-cases (adapter_for r endpoint)) [
  | inl (e, missing) ↦ ground (arith, missing, found)
  | inr (b, sends) ↦ ground (arith, sends, found)
]

-- What the last tests of `resolve_private_inbox` leave.
checked_inbox :
    (i inbox : PrivateInbox) (owner : String)
    → (if not (is_complete i)
        then none
        else if not (i.connection_id == owner)
        then none
        else some i)
      ≡ some inbox
    → (is_complete inbox ≡ true) × (inbox.connection_id ≡ owner)
checked_inbox i inbox owner h = elim (Bool-cases (is_complete i)) [
  | inr partial ↦ absurd (ground (arith, simp partial at h))
  | inl whole ↦ elim (Bool-cases (i.connection_id == owner)) [
    | inr foreign ↦ absurd (ground (arith, simp (whole, foreign) at h))
    | inl own ↦
        let same : i ≡ inbox = some-injective i inbox (simp (whole, own) at h) in
        (
          subst (λ x. is_complete x ≡ true) same whole,
          subst (λ x. x.connection_id ≡ owner) same
              ((eq_string.equal_iff i.connection_id owner).0 own),
        )
  ]
]

inbox-owner :
    (ms : Messengers) (r : AdapterRegistry) (endpoint actor : String) (inbox : PrivateInbox)
    (a : Adapter)
    → private_messenger_for_endpoint ms r endpoint ≡ some a
    → resolve_private_inbox ms r endpoint actor ≡ some inbox
    → (is_complete inbox ≡ true) × (inbox.connection_id ≡ owner_of r endpoint)
unfolding resolve_private_inbox
inbox-owner ms r endpoint actor inbox a found resolved =
    elim (Option-cases (ms.resolves a endpoint actor)) [
      | inl missing ↦ absurd (ground (arith, found, missing, resolved))
      | inr (i, there) ↦
          checked_inbox i inbox (owner_of r endpoint)
            (simp (found, there, resolve_private_inbox) at resolved)
    ]

messenger_for_connection :
    (ms : Messengers) (r : AdapterRegistry) (inbox : PrivateInbox) (a : Adapter)
    → is_complete inbox ≡ true
    → lookup inbox.connection_id r.adapters ≡ some a
    → ms.is_messenger a ≡ true
    → private_messenger_for_connection ms r inbox.connection_id ≡ some a
unfolding private_messenger_for_connection
messenger_for_connection ms r inbox a whole there speaks =
    elim (Bool-cases (inbox.connection_id == "")) [
      | inl empty ↦ absurd (ground (arith, simp empty at whole))
      | inr named ↦ simp (named, there, speaks, private_messenger_for_connection) refl
    ]

-- An inbox that resolves for an endpoint is complete, and private messages to it go to the adapter of
-- that endpoint, which is a messenger.
pub resolved_inbox_is_dispatched :
    (ms : Messengers) (r : AdapterRegistry) (endpoint actor : String) (inbox : PrivateInbox)
    → resolve_private_inbox ms r endpoint actor ≡ some inbox
    → (is_complete inbox ≡ true)
      × ((a : Adapter) × ((adapter_for r endpoint ≡ to_adapter a)
            × (private_messenger_for_connection ms r inbox.connection_id ≡ some a)))
unfolding resolve_private_inbox
resolved_inbox_is_dispatched ms r endpoint actor inbox resolved =
    elim (Option-cases (private_messenger_for_endpoint ms r endpoint)) [
      | inl missing ↦ absurd (ground (arith, missing, resolved))
      | inr (a, found) ↦
          let adapter = messenger-adapter ms r endpoint a found in
          let owner = inbox-owner ms r endpoint actor inbox a found resolved in
          let there =
            subst (λ id. lookup id r.adapters ≡ some a) (sym owner.1)
              (adapter_for-owner r endpoint a adapter.0) in
          (owner.0, (a, (adapter.0, messenger_for_connection ms r inbox a owner.0 there adapter.1)))
    ]
