-- ===== src/Api/Accounts.antt =====
-- internal/api/auth.go, `SessionManager`, over the tables of internal/controlstore/schema.sql. A table
-- is a map by a unique column. Columns that no decision reads are left out: the times of creation, of
-- change and of last use. Hashes are of the caller: `Crypto` for SHA-256 and for bcrypt's comparison,
-- `Draws` for what is drawn at random or may fail in one request.
use message_sync.Base.{
  ℕ, ◌+◌, Bool, true, false, not, ◌&&◌, ◌||◌, Option, none, some, String, [], ◌∷◌, ltb,
  if◌then◌else◌, ◌==◌, eq_nat, eq_string, Map, lookup, insert, has,
}
use message_sync.Texts.{Text, eq_text}

pub data Role : Type 0 where
  admin operator : Role

abbrev pub is_admin : Role → Bool
is_admin admin = true
is_admin operator = false

pub record User : Type 0 where
  pub username : Text
  pub password_hash : String
  pub role : Role
  pub active : Bool

pub record Session : Type 0 where
  pub user_id : String
  pub expires_at : ℕ
  pub revoked_at : Option ℕ

pub record Invite : Type 0 where
  pub id : String
  pub target_role : Role
  pub expires_at : ℕ
  pub creator_user_id : String
  pub consumed_at : Option ℕ

pub record ResetToken : Type 0 where
  pub user_id : String
  pub expires_at : ℕ
  pub consumed_at : Option ℕ

pub record AuditEvent : Type 0 where
  pub actor_user_id : String
  pub action : String
  pub target_id : String

-- Users and audit events by id, sessions, invites and reset tokens by the hash of their token.
pub record ControlDb : Type 0 where
  pub users : Map String User
  pub sessions : Map String Session
  pub user_invites : Map String Invite
  pub password_reset_tokens : Map String ResetToken
  pub audit_events : Map String AuditEvent

pub record Principal : Type 0 where
  pub id : String
  pub role : Role
  pub username : Text

pub record Crypto : Type 0 where
  -- `tokenHash`: the SHA-256 of a token.
  pub token_hash : Text → String
  -- `bcrypt.CompareHashAndPassword` gives no error.
  pub hash_matches : String → Text → Bool
  -- The session TTL, in milliseconds.
  pub token_ttl : ℕ

pub data Statement : Type 0 where
  begin_tx commit select_session select_count select_row insert_row update_row update_token
        update_sessions insert_session insert_audit :
      Statement

-- The environment of one request: the time, the statements that fail, the random values, and the hash
-- of the new password; `none` for an error.
pub record Draws : Type 0 where
  pub now : ℕ
  pub fails : Statement → Bool
  pub opaque_id : Option String
  pub bearer_token : Option Text
  pub session_token : Option Text
  pub audit_id : Option String
  pub generated_hash : Option String

abbrev pub is_none {ℓ} : {A : Type ℓ} → Option A → Bool
is_none none = true
is_none (some _) = false

-- `INSERT INTO sessions`, with the primary key and the reference to the user.
unfoldable pub insert_session_row : Crypto → ControlDb → Draws → String → Text → Bool
insert_session_row crypto db d user_id token =
    not (d.fails insert_session)
    && not (has (crypto.token_hash token) db.sessions)
    && has user_id db.users

unfoldable pub create_session : Crypto → ControlDb → Draws → String → ControlDb × Option Text
create_session crypto db d user_id = elim d.session_token [
  | none ↦ (db, none)
  | some token ↦
      if insert_session_row crypto db d user_id token
      then (
        record db {
          sessions =
              insert (crypto.token_hash token)
                (record {
                  user_id = user_id;
                  expires_at = d.now + crypto.token_ttl;
                  revoked_at = none;
                })
                db.sessions;
        },
        some token,
      )
      else (db, none)
]

-- The join of a session with its user, and the test of the expiry.
abbrev pub session_user : ℕ → Session → Option User → Option Principal
session_user now s none = none
session_user now s (some u) =
    if is_none s.revoked_at && u.active && ltb now s.expires_at
    then some (record { id = s.user_id; role = u.role; username = u.username })
    else none

abbrev pub session_principal : ℕ → Map String User → Option Session → Option Principal
session_principal now users none = none
session_principal now users (some s) = session_user now s (lookup s.user_id users)

unfoldable pub principal : Crypto → ControlDb → Draws → Text → Option Principal
principal crypto db d token =
    if token == [] || d.fails select_session
    then none
    else session_principal d.now db.users (lookup (crypto.token_hash token) db.sessions)

abbrev pub revoke_session : ℕ → Session → Session
revoke_session now s = record s { revoked_at = some now }

-- `UPDATE sessions SET revoked_at=? WHERE token_hash=?`
unfoldable pub revoke : Crypto → ControlDb → Draws → Text → ControlDb
revoke crypto db d token =
    if token == [] || d.fails update_sessions
    then db
    else elim (lookup (crypto.token_hash token) db.sessions) [
      | none ↦ db
      | some s ↦ record db {
        sessions = insert (crypto.token_hash token) (revoke_session d.now s) db.sessions;
      }
    ]

-- `WHERE user_id=? AND revoked_at IS NULL`
abbrev pub revoke_of_user : ℕ → String → Session → Session
revoke_of_user now user_id s =
    if s.user_id == user_id && is_none s.revoked_at then revoke_session now s else s

-- `… AND token_hash<>?`, which the row's key decides.
abbrev pub revoke_others : ℕ → String → String → Map String Session → Map String Session
revoke_others now user_id kept [] = []
revoke_others now user_id kept ((hash, s) ∷ rest) =
    (hash, if hash == kept then s else revoke_of_user now user_id s)
    ∷ revoke_others now user_id kept rest

-- Whether the statement succeeded.
unfoldable pub revoke_other_sessions : Crypto → ControlDb → Draws → String → Text → ControlDb × Bool
revoke_other_sessions crypto db d user_id current =
    if d.fails update_sessions then (db, false) else (
      record db { sessions = revoke_others d.now user_id (crypto.token_hash current) db.sessions },
      true,
    )
