-- ===== src/Api/Changes/Handlers.antt =====
-- The handlers of auth.go change the tables by the steps of `Changes`.
use message_sync.Base.{
  lookup-has, true, not, ◌&&◌, ◌||◌, Option, none, some, String, ◌≡◌, refl, Map, lookup, length,
  eq_string, Bool-cases, Option-cases, inl, inr, arith, ◌==◌, eq_nat, [],
}
use message_sync.Texts.{Text, normalize_username, valid_username, eq_text}
use message_sync.Api.Accounts.{
  Role, admin, User, ControlDb, Principal, Crypto, Draws, select_count, update_sessions, update_row,
  commit, insert_session_row, create_session, revoke, revoke_other_sessions,
}
use message_sync.Api.Handlers.{
  Server, Response, refused, Credentials, ChangePassword, issue_session, new_user, insert_user,
  with_account, setup_user, handle_auth_setup, authenticate, compare_login, handle_auth_login,
  allow_login, current_matches, changed_password, handle_auth_change_password, valid_password,
  clear_login_failure, record_login_failure,
}
use message_sync.Api.Changes.{
  Changes, unchanged, changed, Change-Changes, Changes-append, add_session, end_session, end_others,
  first_user, new_password,
}

create_session-Changes :
    (crypto : Crypto) (db : ControlDb) (d : Draws) (id : String)
    → Changes crypto db (create_session crypto db d id).0
unfolding create_session insert_session_row
create_session-Changes crypto db d id = elim (Option-cases d.session_token) [
  | inl missing ↦ simp (missing, create_session) unchanged
  | inr (token, drawn) ↦ elim (Bool-cases (insert_session_row crypto db d id token)) [
    | inr conflict ↦ simp (drawn, conflict, create_session) unchanged
    | inl fits ↦
        simp (drawn, fits, create_session)
          (Change-Changes (
            add_session (crypto.token_hash token) _
              (lookup-has (crypto.token_hash token) db.sessions (ground (arith, fits)))))
  ]
]

pub issue_session-Changes :
    (crypto : Crypto) (s : Server) (d : Draws) (id : String) (name : Text) (role : Role)
    → Changes crypto s.db (issue_session crypto s d id name role).0.db
unfolding issue_session
issue_session-Changes crypto s d id name role = create_session-Changes crypto s.db d id

pub revoke-Changes :
    (crypto : Crypto) (db : ControlDb) (d : Draws) (token : Text)
    → Changes crypto db (revoke crypto db d token)
unfolding revoke
revoke-Changes crypto db d token = elim (Bool-cases (token == [] || d.fails update_sessions)) [
  | inl idle ↦ simp (idle, revoke) unchanged
  | inr runs ↦ elim (Option-cases (lookup (crypto.token_hash token) db.sessions)) [
    | inl missing ↦ simp (runs, missing, revoke) unchanged
    | inr (x, there) ↦
        simp (runs, there, revoke)
          (Change-Changes (end_session d.now (crypto.token_hash token) x there))
  ]
]

-- What `with_account` does.
pub with_account_cases {ℓ} :
    (P : Server × Response → Type ℓ) (d : Draws) (s : Server)
    (next : String → String → Server × Response)
    → P (s, refused 500)
    → ((hash id : String) → P (next hash id))
    → P (with_account d s next)
with_account_cases P d s next fails works = elim (Option-cases d.generated_hash) [
  | inl missing ↦ simp (missing, with_account) fails
  | inr (hash, made) ↦ elim (Option-cases d.opaque_id) [
    | inl missing ↦ simp (made, missing, with_account) fails
    | inr (id, drawn) ↦ simp (made, drawn, with_account) (works hash id)
  ]
]

pub fresh_user :
    (users : Map String User) (d : Draws) (id : String) (name : Text)
    → insert_user users d id name ≡ true
    → lookup id users ≡ none
unfolding insert_user
fresh_user users d id name fits = lookup-has id users (ground (arith, fits))

setup_user-Changes :
    (crypto : Crypto) (s : Server) (d : Draws) (name : Text) (hash id : String)
    → Changes crypto s.db (setup_user crypto s d name hash id).0.db
unfolding setup_user
setup_user-Changes crypto s d name hash id =
    elim (Bool-cases (insert_user s.db.users d id name && not (d.fails commit))) [
      | inr fails ↦ simp (fails, setup_user) unchanged
      | inl works ↦
          simp (works, setup_user)
            (Changes-append
              (Change-Changes (
                first_user id (new_user name hash admin)
                  (fresh_user s.db.users d id name (ground (arith, works))) refl))
              (issue_session-Changes crypto _ d id name admin))
    ]

pub handle_auth_setup-Changes :
    (crypto : Crypto) (s : Server) (d : Draws) (body : Option Credentials)
    → Changes crypto s.db (handle_auth_setup crypto s d body).0.db
unfolding handle_auth_setup
handle_auth_setup-Changes crypto s d none = unchanged
handle_auth_setup-Changes crypto s d (some req) =
    let name = normalize_username req.username in
    elim (Bool-cases (not (valid_username name && valid_password req.password))) [
      | inl wrong ↦ simp (wrong, handle_auth_setup) unchanged
      | inr right ↦ elim (Bool-cases (d.fails select_count)) [
        | inl fails ↦ simp (right, fails, handle_auth_setup) unchanged
        | inr reads ↦ elim (Bool-cases (not (length s.db.users == 0))) [
          | inl taken ↦ simp (right, reads, taken, handle_auth_setup) unchanged
          | inr first ↦
              simp (right, reads, first, handle_auth_setup)
                (with_account_cases (λ r. Changes crypto s.db r.0.db) d s
                  (setup_user crypto s d name) unchanged (setup_user-Changes crypto s d name))
        ]
      ]
    ]

pub handle_auth_login-Changes :
    (crypto : Crypto) (s : Server) (d : Draws) (key : String) (body : Option Credentials)
    → Changes crypto s.db (handle_auth_login crypto s d key body).0.db
unfolding handle_auth_login record_login_failure clear_login_failure
handle_auth_login-Changes crypto s d key none = unchanged
handle_auth_login-Changes crypto s d key (some req) =
    elim (Bool-cases (not (allow_login s d.now key))) [
      | inl locked ↦ simp (locked, compare_login, handle_auth_login) unchanged
      | inr free ↦ elim (Option-cases (authenticate crypto s.db d req)) [
        | inl wrong ↦ simp (free, wrong, compare_login, handle_auth_login) unchanged
        | inr (account, right) ↦
            simp (free, right, compare_login, handle_auth_login)
              (issue_session-Changes crypto (clear_login_failure s key) d account.0
                account.1.username account.1.role)
      ]
    ]

changed_password-Changes :
    (crypto : Crypto) (s : Server) (d : Draws) (p : Principal) (token : Text) (hash : String)
    → Changes crypto s.db (changed_password crypto s d p token hash).0.db
unfolding changed_password revoke_other_sessions
changed_password-Changes crypto s d p token hash = elim (Bool-cases (d.fails update_row)) [
  | inl fails ↦ simp (fails, changed_password) unchanged
  | inr works ↦ elim (Bool-cases (d.fails update_sessions)) [
    | inl kept ↦
        simp (works, kept, changed_password, revoke_other_sessions)
          (Change-Changes (new_password p.id hash))
    | inr revoked ↦
        simp (works, revoked, changed_password, revoke_other_sessions)
          (changed (Change-Changes (new_password p.id hash))
            (end_others d.now p.id (crypto.token_hash token)))
  ]
]

pub handle_auth_change_password-Changes :
    (crypto : Crypto) (s : Server) (d : Draws) (p : Option Principal) (token : Text)
    (body : Option ChangePassword)
    → Changes crypto s.db (handle_auth_change_password crypto s d p token body).0.db
unfolding handle_auth_change_password
handle_auth_change_password-Changes crypto s d none token body = unchanged
handle_auth_change_password-Changes crypto s d (some p) token none = unchanged
handle_auth_change_password-Changes crypto s d (some p) token (some req) =
    elim (Bool-cases (req.current_password == [] || not (valid_password req.new_password))) [
      | inl wrong ↦ simp (wrong, handle_auth_change_password) unchanged
      | inr right ↦
          elim (Bool-cases (not (current_matches crypto s.db d p.id req.current_password))) [
            | inl denied ↦ simp (right, denied, handle_auth_change_password) unchanged
            | inr granted ↦ elim (Option-cases d.generated_hash) [
              | inl missing ↦ simp (right, granted, missing, handle_auth_change_password) unchanged
              | inr (hash, made) ↦
                  simp (right, granted, made, handle_auth_change_password)
                    (changed_password-Changes crypto s d p token hash)
            ]
          ]
    ]
