-- ===== src/Api/Activation.antt =====
-- internal/api/rbac.go: `handleSetUserActive`, `handleCreateResetToken` and `handleResetPassword`.
use message_sync.Base.{
  ℕ, ◌+◌, Bool, not, ◌&&◌, ◌||◌, Option, none, some, String, [], leb, if◌then◌else◌, ◌==◌, eq_nat,
  eq_string, lookup, insert, has, count_rows, update_all,
}
use message_sync.Texts.{Text, eq_text}
use message_sync.Api.Accounts.{
  is_admin, User, ResetToken, ControlDb, Principal, Crypto, Draws, begin_tx, commit, select_count,
  select_row, insert_row, update_row, update_token, update_sessions, is_none, revoke_of_user,
}
use message_sync.Api.Handlers.{
  Server, Response, refused, secret, ok, valid_password, set_db, update_user, set_password,
}
use message_sync.Api.Members.{audit, hour, principal_id}

abbrev pub active_admin : User → Bool
active_admin u = is_admin u.role && u.active

-- `SELECT COUNT(*) FROM users WHERE role='admin' AND active=1`; its failure leaves 0.
unfoldable pub count_admins : ControlDb → Draws → ℕ
count_admins db d = if d.fails select_count then 0 else count_rows active_admin db.users

abbrev pub set_active : Bool → User → User
set_active active u = record u { active = active }

unfoldable pub activate :
    Server → Draws → Option Principal → String → Bool → User → Server × Response
activate s d p id active u =
    if not active && active_admin u && leb (count_admins s.db d) 1
    then (s, refused 400)
    else if d.fails update_row || d.fails commit
    then (s, refused 500)
    else (
      audit (set_db s (record s.db { users = update_user id (set_active active) s.db.users })) d p
          "user_activation_changed" id,
      ok,
    )

unfoldable pub handle_set_user_active :
    Server → Draws → Option Principal → String → Option Bool → Server × Response
handle_set_user_active s d p id none = (s, refused 400)
handle_set_user_active s d p id (some active) =
    if not active && id == principal_id p
    then (s, refused 400)
    else if d.fails begin_tx
    then (s, refused 500)
    else if d.fails select_row
    then (s, refused 404)
    else elim (lookup id s.db.users) [
      | none ↦ (s, refused 404)
      | some u ↦ activate s d p id active u
    ]

abbrev pub new_reset_token : ℕ → String → ResetToken
new_reset_token now id = record { user_id = id; expires_at = now + hour; consumed_at = none }

unfoldable pub new_reset :
    Crypto → Server → Draws → Option Principal → String → Text → Server × Response
new_reset crypto s d p id token =
    if d.fails insert_row || has (crypto.token_hash token) s.db.password_reset_tokens
    then (s, refused 500)
    else (
      audit
          (set_db s (record s.db {
            password_reset_tokens =
                insert (crypto.token_hash token) (new_reset_token d.now id)
                  s.db.password_reset_tokens;
          }))
          d p "password_reset_token_created" id,
      secret token,
    )

unfoldable pub handle_create_reset_token :
    Crypto → Server → Draws → Option Principal → String → Server × Response
handle_create_reset_token crypto s d p id =
    if d.fails select_row then (s, refused 404) else elim (lookup id s.db.users) [
      | none ↦ (s, refused 404)
      | some u ↦ if not u.active then (s, refused 400) else elim d.bearer_token [
        | none ↦ (s, refused 500)
        | some token ↦ new_reset crypto s d p id token
      ]
    ]

pub record ResetPassword : Type 0 where
  pub token : Text
  pub password : Text

-- The row of an unconsumed token that has not expired.
abbrev pub open_reset : ℕ → Option ResetToken → Option ResetToken
open_reset now none = none
open_reset now (some r) =
    if is_none r.consumed_at && not (leb r.expires_at now) then some r else none

-- `UPDATE users SET password_hash=? WHERE id=? AND active=1`
abbrev pub set_active_password : String → User → User
set_active_password hash u = if u.active then set_password hash u else u

abbrev pub use_token : ℕ → ResetToken → ResetToken
use_token now r = record r { consumed_at = some now }

-- The tables after the three updates of the transaction.
abbrev pub reset_tables : Crypto → ControlDb → ℕ → Text → ResetToken → String → ControlDb
reset_tables crypto db now token r hash = record db {
  users = update_user r.user_id (set_active_password hash) db.users;
  password_reset_tokens =
      insert (crypto.token_hash token) (use_token now r) db.password_reset_tokens;
  sessions = update_all (revoke_of_user now r.user_id) db.sessions;
}

unfoldable pub reset : Crypto → Server → Draws → Text → ResetToken → String → Server × Response
reset crypto s d token r hash =
    if d.fails update_row || d.fails update_token || d.fails update_sessions || d.fails commit
    then (s, refused 500)
    else (set_db s (reset_tables crypto s.db d.now token r hash), ok)

unfoldable pub reset_with : Crypto → Server → Draws → Text → String → Server × Response
reset_with crypto s d token hash =
    if d.fails begin_tx
    then (s, refused 500)
    else if d.fails select_row
    then (s, refused 401)
    else elim (open_reset d.now (lookup (crypto.token_hash token) s.db.password_reset_tokens)) [
      | none ↦ (s, refused 401)
      | some r ↦ reset crypto s d token r hash
    ]

unfoldable pub handle_reset_password :
    Crypto → Server → Draws → Option ResetPassword → Server × Response
handle_reset_password crypto s d none = (s, refused 400)
handle_reset_password crypto s d (some req) =
    if req.token == [] || not (valid_password req.password)
    then (s, refused 400)
    else elim d.generated_hash [
      | none ↦ (s, refused 500)
      | some hash ↦ reset_with crypto s d req.token hash
    ]
