-- ===== src/Router/Routes/Policies.antt =====
-- The router and the rest of the program read the same settings.
use message_sync.Base.{
  true, Option, none, some, String, List, [], ◌∷◌, ◌≡◌, refl, any, has, contains, Bool-cases, inl,
  inr, arith, sym, ap, ◌∙◌, option_map, eq_string,
}
use message_sync.Config.{
  SyncSet, Config, SyncSetSettings, settings_for_set, settings_among, settings_for_endpoint,
  default_settings,
}
use message_sync.Config.Validation.{validate}
use message_sync.Config.Membership.{lists, set_of, known_listed}
use message_sync.Router.Routes.{tables_of, settings_for, stored_settings}
use message_sync.Router.Routes.Isolation.{valid_tables_exact}

abbrev settings_of : Config → Option SyncSet → SyncSetSettings
settings_of c none = default_settings
settings_of c (some set) = settings_for_set c set

settings_among-set_of :
    (c : Config) (e : String) (sets : List SyncSet)
    → settings_among c e sets ≡ settings_of c (set_of e sets)
unfolding settings_among set_of
settings_among-set_of c e [] = refl
settings_among-set_of c e (set ∷ sets) = elim (Bool-cases (contains set.endpoints e)) [
  | inl mine ↦ simp (mine, settings_among, set_of) refl
  | inr other ↦ simp (other, settings_among, set_of) (settings_among-set_of c e sets)
]

set_of-listed :
    (e : String) (sets : List SyncSet)
    → any (lists e) sets ≡ true
    → (set : SyncSet) × (set_of e sets ≡ some set)
unfolding set_of
set_of-listed e [] listed = absurd (ground (arith, listed))
set_of-listed e (set ∷ sets) listed = elim (Bool-cases (contains set.endpoints e)) [
  | inl mine ↦ (set, simp (mine, set_of) refl)
  | inr other ↦
      let later = set_of-listed e sets (ground (arith, listed, other)) in
      (later.0, simp (other, set_of) later.1)
]

-- In a valid configuration the settings that the router keeps for a configured endpoint are those that
-- `SettingsForEndpoint` gives for it.
pub settings_for-settings_for_endpoint :
    (c : Config) (zero_settings : SyncSetSettings) (e : String)
    → validate c ≡ true
    → has e c.endpoints ≡ true
    → settings_for (tables_of c) zero_settings e ≡ settings_for_endpoint c e
unfolding settings_for
settings_for-settings_for_endpoint c zero_settings e valid known =
    let found = set_of-listed e c.sync_sets (known_listed c e valid known) in
    let stored = (valid_tables_exact c e valid).1 ∙ ap (option_map (settings_for_set c)) found.1 in
    ap (stored_settings (tables_of c) zero_settings) stored
    ∙ (sym (settings_among-set_of c e c.sync_sets ∙ ap (settings_of c) found.1))
