-- ===== src/Private/Recipients.antt =====
-- A private message goes to one inbox, verified at the time of the call.
use message_sync.Base.{
  true, ◌&&◌, none, some, String, List, [], ◌∷◌, ◌==◌, eq_string, lookup, All, Bool-cases,
  Option-cases, inl, inr, arith, ◌⊎◌, ◌≡◌, ◌≢◌, refl, subst, sym, ap, ◌∙◌,
}
use message_sync.Config.{Endpoint, Config, private_dm_connection_enabled}
use message_sync.Config.Membership.{set_of}
use message_sync.Router.Registry.{PrivateInbox}
use message_sync.Private.Records.{Found, absent, unreadable, present}
use message_sync.Private.Route.{
  same_inbox, Runtime, names_set, verified, resolved, candidate, RouteAnswer, towards, select,
  recipient_route,
}

-- No other endpoint leads to another inbox, and each could be asked.
pub record IsAgreed (inbox_of : String → Found PrivateInbox) (inbox : PrivateInbox) (e : String)
    : Type 0 where
  pub readable : inbox_of e ≢ unreadable
  pub same : (other : PrivateInbox) → inbox_of e ≡ present other → same_inbox inbox other ≡ true

abbrev found_or : Found PrivateInbox → PrivateInbox → PrivateInbox
found_or (present x) other = x
found_or _ other = other

abbrev endpoint_of : RouteAnswer → String → String
endpoint_of (towards e x) other = e
endpoint_of _ other = other

abbrev inbox_in : RouteAnswer → PrivateInbox → PrivateInbox
inbox_in (towards e x) other = x
inbox_in _ other = other

Found-cases :
    (f : Found PrivateInbox)
    → (f ≡ absent) ⊎ ((f ≡ unreadable) ⊎ ((x : PrivateInbox) × (f ≡ present x)))
Found-cases absent = inl refl
Found-cases unreadable = inr (inl refl)
Found-cases (present x) = inr (inr (x, refl))

module _ (inbox_of : String → Found PrivateInbox) where
  absent-IsAgreed : (a : String) (x : PrivateInbox) → inbox_of a ≡ absent → IsAgreed inbox_of x a
  absent-IsAgreed a x at_a = record {
    readable = λ wrong. absurd (ground (arith, sym at_a ∙ wrong));
    same = λ other wrong. absurd (ground (arith, sym at_a ∙ wrong));
  }

  present-IsAgreed :
      (a : String) (x other : PrivateInbox)
      → inbox_of a ≡ present other
      → same_inbox x other ≡ true
      → IsAgreed inbox_of x a
  present-IsAgreed a x other at_a agrees = record {
    readable = λ wrong. absurd (ground (arith, sym at_a ∙ wrong));
    same = λ found there. subst (λ f. same_inbox x (found_or f x) ≡ true) (sym at_a ∙ there) agrees;
  }

  select-IsAgreed :
      (endpoint : String) (inbox : PrivateInbox) (es : List String) (e : String) (x : PrivateInbox)
      → select inbox_of (some (endpoint, inbox)) es ≡ towards e x
      → (endpoint ≡ e) × (inbox ≡ x) × All (IsAgreed inbox_of inbox) es
  unfolding select
  select-IsAgreed endpoint inbox [] e x is =
      (ap (λ r. endpoint_of r e) is, ap (λ r. inbox_in r x) is, tt)
  select-IsAgreed endpoint inbox (a ∷ es) e x is = elim (Found-cases (inbox_of a)) [
    | inl at_a ↦
        let later = select-IsAgreed endpoint inbox es e x (simp (at_a, select) at is) in
        (later.0, later.1, (absent-IsAgreed a inbox at_a, later.2))
    | inr (inl at_a) ↦ absurd (ground (arith, simp (at_a, select) at is))
    | inr (inr (other, at_a)) ↦ elim (Bool-cases (same_inbox inbox other)) [
      | inr differs ↦ absurd (ground (arith, simp (at_a, differs, select) at is))
      | inl agrees ↦
          let later = select-IsAgreed endpoint inbox es e x (simp (at_a, agrees, select) at is) in
          (later.0, later.1, (present-IsAgreed a inbox other at_a agrees, later.2))
    ]
  ]

  All-inl :
      (e : String) (x : PrivateInbox) (es : List String)
      → All (IsAgreed inbox_of x) es
      → All (λ a. IsAgreed inbox_of x a ⊎ (a ≡ e)) es
  All-inl e x [] agreed = tt
  All-inl e x (a ∷ es) agreed = (inl agreed.0, All-inl e x es agreed.1)

  -- The endpoint that is selected leads to the inbox, and the others agree.
  select-present :
      (es : List String) (e : String) (x : PrivateInbox)
      → select inbox_of none es ≡ towards e x
      → (inbox_of e ≡ present x) × All (λ a. IsAgreed inbox_of x a ⊎ (a ≡ e)) es
  unfolding select
  select-present [] e x is = absurd (ground (arith, is))
  select-present (a ∷ es) e x is = elim (Found-cases (inbox_of a)) [
    | inl at_a ↦
        let later = select-present es e x (simp (at_a, select) at is) in
        (later.0, (inl (absent-IsAgreed a x at_a), later.1))
    | inr (inl at_a) ↦ absurd (ground (arith, simp (at_a, select) at is))
    | inr (inr (other, at_a)) ↦
        let later = select-IsAgreed a other es e x (simp (at_a, select) at is) in
        (
          subst (λ b. inbox_of b ≡ present x) later.0 (at_a ∙ ap present later.1),
          (inr later.0, All-inl e x es (subst (λ y. All (IsAgreed inbox_of y) es) later.1 later.2)),
        )
  ]

-- The endpoint is configured, its sync set is the one asked for, private messages are enabled for its
-- connection, and the inbox is of this connection and was verified for the actor.
pub record IsRecipient (c : Config) (runtime : Runtime) (set_id actor endpoint : String)
    (inbox : PrivateInbox) : Type 0 where
  pub ep : Endpoint
  pub configured : lookup endpoint c.endpoints ≡ some ep
  pub in_set : names_set set_id (set_of endpoint c.sync_sets) ≡ true
  pub enabled : private_dm_connection_enabled c ep.connection_id ≡ true
  pub connection : (inbox.connection_id == ep.connection_id) ≡ true
  pub member : runtime.verify_member endpoint actor inbox ≡ true

verified-IsRecipient :
    (c : Config) (runtime : Runtime) (set_id actor endpoint : String) (x : PrivateInbox)
    (ep : Endpoint)
    → lookup endpoint c.endpoints ≡ some ep
    → (names_set set_id (set_of endpoint c.sync_sets)
        && private_dm_connection_enabled c ep.connection_id)
      ≡ true
    → (f : Found PrivateInbox) → verified runtime actor endpoint ep f ≡ present x
    → IsRecipient c runtime set_id actor endpoint x
verified-IsRecipient c runtime set_id actor endpoint x ep there may absent is =
    absurd (ground (arith, is))
verified-IsRecipient c runtime set_id actor endpoint x ep there may unreadable is =
    absurd (ground (arith, is))
verified-IsRecipient c runtime set_id actor endpoint x ep there may (present inbox) is =
    elim (Bool-cases (
      inbox.connection_id == ep.connection_id
      && inbox.transport == ep.transport
      && runtime.verify_member endpoint actor inbox)) [
        | inr wrong ↦ absurd (ground (arith, rw wrong at is))
        | inl right ↦
            subst (IsRecipient c runtime set_id actor endpoint)
              (ap (λ f. found_or f x) (rw right at is))
              (record {
                ep = ep;
                configured = there;
                in_set = ground (arith, may);
                enabled = ground (arith, may);
                connection = ground (arith, right);
                member = ground (arith, right);
              })
      ]

candidate-IsRecipient :
    (c : Config) (runtime : Runtime) (set_id actor endpoint : String) (x : PrivateInbox)
    → candidate c runtime set_id actor endpoint ≡ present x
    → IsRecipient c runtime set_id actor endpoint x
unfolding candidate
candidate-IsRecipient c runtime set_id actor endpoint x is =
    elim (Option-cases (lookup endpoint c.endpoints)) [
      | inl missing ↦ absurd (ground (arith, simp (missing, candidate) at is))
      | inr (ep, there) ↦
          elim (Bool-cases (
            names_set set_id (set_of endpoint c.sync_sets)
            && private_dm_connection_enabled c ep.connection_id)) [
              | inr may_not ↦ absurd (ground (arith, simp (there, may_not, candidate) at is))
              | inl may ↦
                  verified-IsRecipient c runtime set_id actor endpoint x ep there may
                    (resolved runtime actor ep (runtime.resolve endpoint actor))
                    (simp (there, may, candidate) at is)
            ]
    ]

-- A route to a recipient is an inbox that was verified for the actor now, at an endpoint of the sync
-- set, whose connection has private messages enabled; and no other endpoint of the actor failed or
-- leads to another inbox.
pub recipient_route_sound :
    (c : Config) (runtime : Runtime) (set_id actor e : String) (endpoints : List String)
    (x : PrivateInbox)
    → recipient_route c runtime set_id actor (some endpoints) ≡ towards e x
    → IsRecipient c runtime set_id actor e x
      × All (λ a. IsAgreed (candidate c runtime set_id actor) x a ⊎ (a ≡ e)) endpoints
unfolding recipient_route
recipient_route_sound c runtime set_id actor e endpoints x is =
    let found = select-present (candidate c runtime set_id actor) endpoints e x is in
    (candidate-IsRecipient c runtime set_id actor e x found.0, found.1)
