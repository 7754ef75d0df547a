-- ===== src/Api/Members.antt =====
-- internal/api/rbac.go: invites, activation, reset tokens and the audit log.
use message_sync.Base.{
  ℕ, ◌+◌, ◌*◌, Bool, not, ◌&&◌, ◌||◌, Option, none, some, String, [], leb, if◌then◌else◌, ◌==◌,
  eq_nat, eq_string, lookup, insert, has, count_rows, update_all,
}
use message_sync.Texts.{Text, eq_text, normalize_username, valid_username}
use message_sync.Api.Accounts.{
  Role, Invite, ControlDb, Principal, Crypto, Draws, begin_tx, commit, select_row, insert_row,
  update_token, insert_audit, is_none,
}
use message_sync.Api.Handlers.{
  Server, Response, refused, secret, valid_password, set_db, with_account, insert_user, created,
}

-- `audit`: its failures are ignored. The actor is a reference to a user.
abbrev pub insert_event : ControlDb → Bool → Option String → String → String → String → ControlDb
insert_event db fails none actor action target = db
insert_event db fails (some id) actor action target =
    if fails || has id db.audit_events || not (has actor db.users) then db else record db {
      audit_events =
          insert id (record { actor_user_id = actor; action = action; target_id = target })
            db.audit_events;
    }

unfoldable pub audit : Server → Draws → Option Principal → String → String → Server
audit s d none action target = s
audit s d (some p) action target =
    set_db s (insert_event s.db (d.fails insert_audit) d.audit_id p.id action target)

pub record InviteRequest : Type 0 where
  -- `none` for any other text.
  pub role : Option Role
  pub ttl_hours : ℕ

abbrev pub hour : ℕ
hour = 3600000

-- A negative number of hours takes the branch of 0.
unfoldable pub invite_hours : ℕ → ℕ
invite_hours n = if n == 0 || not (leb n 168) then 24 else n

-- The id of the principal in the request's context, empty without one.
abbrev pub principal_id : Option Principal → String
principal_id none = ""
principal_id (some p) = p.id

-- `INSERT INTO user_invites`, with its unique columns and its reference.
unfoldable pub insert_invite : Crypto → ControlDb → Draws → String → Text → String → Bool
insert_invite crypto db d id token creator = not (
    d.fails insert_row
    || has (crypto.token_hash token) db.user_invites
    || not (count_rows (λ i. i.id == id) db.user_invites == 0)
    || not (has creator db.users))

unfoldable pub new_invite :
    Crypto → Server → Draws → Option Principal → Role → ℕ → Text → String → Server × Response
new_invite crypto s d p role hours token id =
    if insert_invite crypto s.db d id token (principal_id p)
    then (
      audit
          (set_db s (record s.db {
            user_invites =
                insert (crypto.token_hash token)
                  (record {
                    id = id;
                    target_role = role;
                    expires_at = d.now + hours * hour;
                    creator_user_id = principal_id p;
                    consumed_at = none;
                  })
                  s.db.user_invites;
          }))
          d p "invite_created" id,
      secret token,
    )
    else (s, refused 500)

unfoldable pub handle_create_invite :
    Crypto → Server → Draws → Option Principal → Option InviteRequest → Server × Response
handle_create_invite crypto s d p none = (s, refused 400)
handle_create_invite crypto s d p (some req) = elim req.role [
  | none ↦ (s, refused 400)
  | some role ↦ elim d.bearer_token [
    | none ↦ (s, refused 500)
    | some token ↦ elim d.opaque_id [
      | none ↦ (s, refused 500)
      | some id ↦ new_invite crypto s d p role (invite_hours req.ttl_hours) token id
    ]
  ]
]

pub record RedeemInvite : Type 0 where
  pub token : Text
  pub username : Text
  pub password : Text

-- The row of an unconsumed invite that has not expired.
abbrev pub open_invite : ℕ → Option Invite → Option Invite
open_invite now none = none
open_invite now (some i) =
    if is_none i.consumed_at && not (leb i.expires_at now) then some i else none

-- `UPDATE user_invites SET consumed_at=? WHERE id=? AND consumed_at IS NULL`
abbrev pub consume : ℕ → String → Invite → Invite
consume now id i =
    if i.id == id && is_none i.consumed_at then record i { consumed_at = some now } else i

unfoldable pub redeem :
    Crypto → Server → Draws → Text → Invite → String → String → Server × Response
redeem crypto s d username i hash id =
    if not (insert_user s.db.users d id username)
    then (s, refused 400)
    else if d.fails update_token || d.fails commit
    then (s, refused 500)
    else created crypto
        (set_db s
          (record s.db { user_invites = update_all (consume d.now i.id) s.db.user_invites }))
        d username i.target_role hash id

unfoldable pub redeem_with :
    Crypto → Server → Draws → Text → Text → String → String → Server × Response
redeem_with crypto s d username token hash id =
    if d.fails begin_tx
    then (s, refused 500)
    else if d.fails select_row
    then (s, refused 401)
    else elim (open_invite d.now (lookup (crypto.token_hash token) s.db.user_invites)) [
      | none ↦ (s, refused 401)
      | some i ↦ redeem crypto s d username i hash id
    ]

unfoldable pub handle_invite_redeem :
    Crypto → Server → Draws → Option RedeemInvite → Server × Response
handle_invite_redeem crypto s d none = (s, refused 400)
handle_invite_redeem crypto s d (some req) =
    let username = normalize_username req.username in
    if not (valid_username username && valid_password req.password) || req.token == []
    then (s, refused 400)
    else with_account d s (redeem_with crypto s d username req.token)
