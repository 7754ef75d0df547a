-- ===== src/Router/Routes/Targets.antt =====
-- What is promised of each route of a valid configuration.
use mathlib.Core.Option.{some-injective}
use message_sync.Base.{
  Bool, true, ◌&&◌, ◌||◌, Option, none, some, String, List, [], ◌∷◌, ◌≡◌, refl, map, ◌==◌, ==_refl,
  eq_string, All, Map, lookup, has, contains, Bool-cases, Option-cases, inl, inr, arith, sym, subst,
  ap, ◌∙◌, option_map,
}
use message_sync.Config.{Endpoint, SyncSet, Config}
use message_sync.Config.Validation.{validate}
use message_sync.Config.Membership.{AreApart, set_of, validate-AreApart}
use message_sync.Router.Routes.{
  RouteTarget, target, flag_of, anonymize, source_targets, build_routes, router_endpoint_sets,
}
use message_sync.Router.Routes.Isolation.{set_of-none, valid_tables_exact}

set_of-same :
    (endpoints : Map String Endpoint) (sets : List SyncSet) (e a : String) (set : SyncSet)
    → AreApart endpoints sets
    → set_of e sets ≡ some set
    → contains set.endpoints a ≡ true
    → set_of a sets ≡ some set
unfolding set_of
set_of-same endpoints [] e a set apart is mine = absurd (ground (arith, is))
set_of-same endpoints (first ∷ sets) e a set apart is mine =
    elim (Bool-cases (contains first.endpoints e)) [
      | inl found ↦
          let same = some-injective first set (simp (found, set_of) at is) in
          simp (subst (λ x. contains x.endpoints a ≡ true) (sym same) mine, set_of) (ap some same)
      | inr later ↦
          let rest = set_of-same endpoints sets e a set apart.1 (simp (later, set_of) at is) mine in
          elim (Bool-cases (contains first.endpoints a)) [
            | inl taken ↦ absurd (ground (arith, rest, set_of-none a sets (apart.0 a taken).1))
            | inr other ↦ simp (other, set_of) rest
          ]
    ]

set_of-known :
    (endpoints : Map String Endpoint) (sets : List SyncSet) (e a : String) (set : SyncSet)
    → AreApart endpoints sets
    → set_of e sets ≡ some set
    → contains set.endpoints a ≡ true
    → has a endpoints ≡ true
unfolding set_of
set_of-known endpoints [] e a set apart is mine = absurd (ground (arith, is))
set_of-known endpoints (first ∷ sets) e a set apart is mine =
    elim (Bool-cases (contains first.endpoints e)) [
      | inl found ↦
          let same = some-injective first set (simp (found, set_of) at is) in
          (apart.0 a (subst (λ x. contains x.endpoints a ≡ true) (sym same) mine)).0
      | inr later ↦ set_of-known endpoints sets e a set apart.1 (simp (later, set_of) at is) mine
    ]

-- What is promised of a target of the routes of an endpoint.
pub record IsRoute (c : Config) (e : String) (t : RouteTarget) : Type 0 where
  pub set : SyncSet
  -- Both endpoints are of one sync set, which is the one that the target names.
  pub source_set : lookup e (router_endpoint_sets c) ≡ some t.sync_set_id
  pub target_set : lookup t.endpoint (router_endpoint_sets c) ≡ some t.sync_set_id
  pub is_set : set_of e c.sync_sets ≡ some set
  pub known : has t.endpoint c.endpoints ≡ true
  -- Senders are hidden where the source, the target, or the set for Discord asks for it.
  pub hidden : t.anonymized ≡ (
      flag_of (λ x. x.anonymize_outgoing) (lookup e c.endpoints)
      || (flag_of (λ x. x.anonymize_incoming) (lookup t.endpoint c.endpoints)
          || (set.anonymize_to_discord
              && flag_of (λ x. x.transport == "discord") (lookup t.endpoint c.endpoints))))

All-map :
    {A : Type 0} (P : A → Type 0) (f : String → A) (xs : List String)
    → ((x : String) → contains xs x ≡ true → P (f x))
    → All P (map f xs)
All-map P f [] each = tt
All-map P f (x ∷ xs) each =
    (each x (ground (arith, ==_refl x)), All-map P f xs (λ y there. each y (ground (arith, there))))

All-anonymize :
    (P : RouteTarget → Type 0) (ts : List RouteTarget)
    → All (λ t. P (anonymize t)) ts
    → All P (map anonymize ts)
All-anonymize P [] h = tt
All-anonymize P (t ∷ ts) h = (h.0, All-anonymize P ts h.1)

target-IsRoute :
    (c : Config) (e a : String) (set : SyncSet) (hidden : Bool)
    → validate c ≡ true
    → set_of e c.sync_sets ≡ some set
    → contains set.endpoints a ≡ true
    → hidden
      ≡ (flag_of (λ x. x.anonymize_outgoing) (lookup e c.endpoints) || (target c set a).anonymized)
    → IsRoute c e (record { sync_set_id = set.id; endpoint = a; anonymized = hidden })
target-IsRoute c e a set hidden valid is mine why =
    let apart = validate-AreApart c valid in
    let same = set_of-same c.endpoints c.sync_sets e a set apart is mine in
    record {
      set = set;
      source_set = (valid_tables_exact c e valid).2 ∙ ap (option_map (λ x. x.id)) is;
      target_set = (valid_tables_exact c a valid).2 ∙ ap (option_map (λ x. x.id)) same;
      is_set = is;
      known = set_of-known c.endpoints c.sync_sets e a set apart is mine;
      hidden =
          why
          ∙ ap (λ b. flag_of (λ x. x.anonymize_outgoing) (lookup e c.endpoints) || b)
              (parts (lookup a c.endpoints));
    }
  where
    parts :
        (o : Option Endpoint)
        → flag_of
            (λ x. x.anonymize_incoming || (set.anonymize_to_discord && x.transport == "discord"))
            o
          ≡ (flag_of (λ x. x.anonymize_incoming) o
              || (set.anonymize_to_discord && flag_of (λ x. x.transport == "discord") o))
    parts none = ground arith
    parts (some x) = refl

source_targets-IsRoute :
    (c : Config) (e : String) (set : SyncSet)
    → validate c ≡ true
    → set_of e c.sync_sets ≡ some set
    → All (IsRoute c e) (source_targets c set e)
unfolding source_targets
source_targets-IsRoute c e set valid is =
    elim (Bool-cases (flag_of (λ x. x.anonymize_outgoing) (lookup e c.endpoints))) [
      | inl hides ↦
          simp (hides, source_targets)
            (All-anonymize (IsRoute c e) (map (target c set) set.endpoints) (
              All-map (λ t. IsRoute c e (anonymize t)) (target c set) set.endpoints
                (λ a mine. target-IsRoute c e a set true valid is mine (ground (arith, hides)))))
      | inr shows ↦
          simp (shows, source_targets)
            (All-map (IsRoute c e) (target c set) set.endpoints (λ a mine.
              target-IsRoute c e a set (target c set a).anonymized valid is mine
                (ground (arith, shows))))
    ]

-- In a valid configuration every target of an endpoint's routes is a configured endpoint of the one sync
-- set of the source, which the target names, and its senders are hidden exactly where the source, the
-- target or the set asks for it.
pub routes_sound :
    (c : Config) (e : String) (ts : List RouteTarget)
    → validate c ≡ true
    → lookup e (build_routes c) ≡ some ts
    → All (IsRoute c e) ts
routes_sound c e ts valid found = elim (Option-cases (set_of e c.sync_sets)) [
  | inl nowhere ↦ absurd (
      ground (
        arith,
        sym found
            ∙ (valid_tables_exact c e valid).0
            ∙ ap (option_map (λ s. source_targets c s e)) nowhere,
      ))
  | inr (set, is) ↦
      subst (All (IsRoute c e))
        (some-injective (source_targets c set e) ts (
          sym (
            sym found
            ∙ (valid_tables_exact c e valid).0
            ∙ ap (option_map (λ s. source_targets c s e)) is)))
        (source_targets-IsRoute c e set valid is)
]
