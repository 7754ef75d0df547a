-- ===== src/Config/Validation.antt =====
-- internal/config: `Validate` of a configuration, of settings, and of their parts. A test is true where
-- the source returns no error.
use message_sync.Base.{
  ℕ, ◌+◌, ◌*◌, ◌-◌, ◌^◌, Bool, true, false, not, ◌&&◌, ◌||◌, Option, none, some, String, codes,
  List, [], ◌∷◌, leb, ltb, if◌then◌else◌, ◌==◌, eq_nat, eq_string, all, any, length, Map, insert,
  has, ℤ, pos, leb_ℤ, contains,
}
use message_sync.Texts.{Text, eq_text, trim_space, has_control}
use message_sync.Store.Ledger.{validate_endpoint}
use message_sync.Store.Cursors.{is_alnum}
use message_sync.Router.Registry.{valid_connection_id, valid_transport}
use message_sync.Config.{SyncSetSettings, Endpoint, SyncSet, Config}

abbrev pub valid_mode : String → Bool
valid_mode mode = mode == "opaque" || mode == "friendly"

unfoldable pub valid_device_name : Text → Bool
valid_device_name name =
    let trimmed = trim_space name in
    not (trimmed == []) && not (has_control trimmed) && leb (length trimmed) 64

unfoldable pub valid_local_prefix : Text → Bool
valid_local_prefix prefix =
    not (has_control prefix)
    && not (not (prefix == []) && trim_space prefix == [])
    && leb (length prefix) 256

unfoldable pub valid_trigger : Text → Bool
valid_trigger trigger = not (has_control trigger) && leb (length trigger) 256

abbrev is_digit : ℕ → Bool
is_digit c = leb b'0' c && leb c b'9'

abbrev in_jid : ℕ → Bool
in_jid c = is_alnum c || c == b'.' || c == b'_' || c == b'-'

-- `^[0-9A-Za-z._-]+@g\.us$`, whose class has no `@`.
unfoldable pub matches_jid : Text → Bool
unfolding is_alnum
matches_jid [] = false
matches_jid (c ∷ cs) = let rest = matches_jid cs in in_jid c && (cs == codes "@g.us" || rest)

-- The number that a text of digits writes, after those read before.
unfoldable pub read_digits : ℕ → Text → ℕ
read_digits n [] = n
read_digits n (c ∷ cs) = read_digits (n * 10 + (c - 48)) cs

-- `^[0-9]{1,20}$`, and a number of 64 bits that is not zero.
unfoldable pub valid_discord_id : Text → Bool
unfolding read_digits
valid_discord_id id =
    leb 1 (length id)
    && leb (length id) 20
    && all is_digit id
    && ltb (read_digits 0 id) (2 ^ 64)
    && not (read_digits 0 id == 0)

-- `^-[1-9][0-9]{0,18}$`, and a negative number of 64 bits.
unfoldable pub valid_telegram_id : Text → Bool
unfolding read_digits
valid_telegram_id [] = false
valid_telegram_id (sign ∷ []) = false
valid_telegram_id (sign ∷ first ∷ digits) =
    sign == b'-'
    && leb b'1' first
    && leb first b'9'
    && leb (length digits) 18
    && all is_digit digits
    && leb (read_digits 0 (first ∷ digits)) (2 ^ 63)
    && not (read_digits 0 (first ∷ digits) == 0)

unfoldable pub valid_remote_id : String → Text → Bool
valid_remote_id transport remote_id =
    let trimmed = trim_space remote_id in
    valid_transport transport
    && not (trimmed == [])
    && not (has_control trimmed)
    && not (transport == "whatsapp" && not (matches_jid trimmed))
    && not (transport == "discord" && not (valid_discord_id trimmed))
    && not (transport == "telegram" && not (valid_telegram_id trimmed))

abbrev below_one : ℤ → Bool
below_one n = leb_ℤ n (pos 0)

-- `SyncSetSettings.Validate`
unfoldable pub valid_settings : SyncSetSettings → Bool
valid_settings s =
    valid_mode s.child_context_display_mode
    && not (
        below_one s.media.max_size_mb
        || below_one s.recovery.max_age_hours
        || below_one s.recovery.max_messages_per_group
        || below_one s.message_retention_days
        || below_one s.whatsapp_cleanup.retention_days)
    && valid_local_prefix s.local_prefix
    && valid_trigger s.aggregation_trigger

-- The loop over the endpoints, with the remote targets seen before.
unfoldable pub check_endpoints : List (String × Text) → Map String Endpoint → Bool
check_endpoints seen [] = true
check_endpoints seen ((alias, e) ∷ rest) =
    let target = trim_space e.remote_id in
    let later = check_endpoints ((e.transport, target) ∷ seen) rest in
    validate_endpoint alias
    && valid_connection_id e.connection_id
    && valid_remote_id e.transport e.remote_id
    && not (any (λ t. t.0 == e.transport && t.1 == target) seen)
    && later

-- The loop over the endpoints of one set: `seen` of this set, and the membership so far.
unfoldable pub check_members :
    Map String Endpoint
    → String
    → List String
    → Map String String
    → List String
    → Option (Map String String)
check_members endpoints id seen membership [] = some membership
check_members endpoints id seen membership (alias ∷ rest) =
    let later = check_members endpoints id (alias ∷ seen) (insert alias id membership) rest in
    if not (has alias endpoints) || contains seen alias || has alias membership then none else later

abbrev pub valid_own_settings : Option SyncSetSettings → Bool
valid_own_settings none = true
valid_own_settings (some s) = valid_settings s

unfoldable pub valid_set : SyncSet → Bool
valid_set set =
    valid_own_settings set.settings && validate_endpoint set.id && leb 2 (length set.endpoints)

abbrev pub and_then {ℓ κ} : {A : Type ℓ} {B : Type κ} → Option A → (A → Option B) → Option B
and_then none f = none
and_then (some a) f = f a

-- The loop over the sync sets.
unfoldable pub check_sets :
    Map String Endpoint → Map String String → List SyncSet → Option (Map String String)
check_sets endpoints membership [] = some membership
check_sets endpoints membership (set ∷ sets) =
    if not (valid_set set)
    then none
    else and_then (check_members endpoints set.id [] membership set.endpoints)
        (λ next. check_sets endpoints next sets)

-- Every endpoint is a member.
abbrev pub all_members : Option (Map String String) → Map String Endpoint → Bool
all_members none endpoints = false
all_members (some membership) endpoints = all (λ e. has e.0 membership) endpoints

unfoldable pub valid_parts : Config → Bool
valid_parts c =
    leb 2 (length c.endpoints)
    && not (length c.sync_sets == 0)
    && (c.child_context_display_mode == "" || valid_mode c.child_context_display_mode)
    && valid_local_prefix c.local_prefix
    && valid_trigger c.aggregation_trigger
    && valid_device_name c.whatsapp_device_name
    && not (
        below_one c.media.max_size_mb
        || below_one c.recovery.max_age_hours
        || below_one c.recovery.max_messages_per_group
        || below_one c.message_retention_days
        || (c.whatsapp_cleanup.enabled && below_one c.whatsapp_cleanup.retention_days))

-- `Config.Validate`
unfoldable pub validate : Config → Bool
validate c =
    valid_parts c
    && check_endpoints [] c.endpoints
    && all_members (check_sets c.endpoints [] c.sync_sets) c.endpoints
