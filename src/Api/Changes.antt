-- ===== src/Api/Changes.antt =====
-- What the requests of accounts may do to the tables: an abstract description of the handlers of
-- internal/api/auth.go and rbac.go as a step relation.
pub mod Handlers
pub mod Requests
pub mod Invites
pub mod Admins
pub mod Secrets
pub mod Members
use message_sync.Base.{
  ℕ, Bool, true, false, not, ◌&&◌, Option, none, some, String, ◌≡◌, refl, leb, Map, lookup, insert,
  has, Option-cases, inl, inr, arith, count_rows, update_all, eq_string,
}
use message_sync.Texts.{Text}
use message_sync.Api.Accounts.{
  User, Session, Invite, ResetToken, AuditEvent, ControlDb, Crypto, revoke_session, revoke_of_user,
  revoke_others, is_admin,
}
use message_sync.Api.Handlers.{update_user, set_password}
use message_sync.Api.Members.{open_invite, consume}
use message_sync.Api.Activation.{active_admin, set_active, open_reset, reset_tables}

pub data Change (crypto : Crypto) (db : ControlDb) : ControlDb → Type 0 where
  add_session :
      (h : String) (x : Session)
      → lookup h db.sessions ≡ none
      → Change crypto db (record db { sessions = insert h x db.sessions })
  end_session :
      (t : ℕ) (h : String) (x : Session)
      → lookup h db.sessions ≡ some x
      → Change crypto db (record db { sessions = insert h (revoke_session t x) db.sessions })
  end_others :
      (t : ℕ) (id kept : String)
      → Change crypto db (record db { sessions = revoke_others t id kept db.sessions })
  first_user :
      (id : String) (u : User)
      → lookup id db.users ≡ none
      → active_admin u ≡ true
      → Change crypto db (record db { users = insert id u db.users })
  invited_user :
      (t : ℕ) (h : String) (i : Invite) (id : String) (u : User)
      → open_invite t (lookup h db.user_invites) ≡ some i
      → lookup id db.users ≡ none
      → Change crypto db (record db {
        users = insert id u db.users;
        user_invites = update_all (consume t i.id) db.user_invites;
      })
  new_password :
      (id hash : String)
      → Change crypto db (record db { users = update_user id (set_password hash) db.users })
  activation :
      (id : String) (u : User) (active : Bool)
      → lookup id db.users ≡ some u
      → (not active && active_admin u && leb (count_rows active_admin db.users) 1) ≡ false
      → Change crypto db (record db { users = update_user id (set_active active) db.users })
  add_invite :
      (h : String) (i : Invite)
      → lookup h db.user_invites ≡ none
      → has i.creator_user_id db.users ≡ true
      → Change crypto db (record db { user_invites = insert h i db.user_invites })
  add_reset :
      (h : String) (r : ResetToken)
      → lookup h db.password_reset_tokens ≡ none
      → Change crypto db (record db { password_reset_tokens = insert h r db.password_reset_tokens })
  use_reset :
      (t : ℕ) (token : Text) (r : ResetToken) (hash : String)
      → open_reset t (lookup (crypto.token_hash token) db.password_reset_tokens) ≡ some r
      → Change crypto db (reset_tables crypto db t token r hash)
  log : (m : Map String AuditEvent) → Change crypto db (record db { audit_events = m })

pub data Changes (crypto : Crypto) (db : ControlDb) : ControlDb → Type 0 where
  unchanged : Changes crypto db db
  changed : {a b : ControlDb} → Changes crypto db a → Change crypto a b → Changes crypto db b

pub Change-Changes : {crypto : Crypto} {a b : ControlDb} → Change crypto a b → Changes crypto a b
Change-Changes c = changed unchanged c

pub Changes-append :
    {crypto : Crypto} {a b c : ControlDb}
    → Changes crypto a b
    → Changes crypto b c
    → Changes crypto a c
Changes-append h unchanged = h
Changes-append h (changed later c) = changed (Changes-append h later) c
