-- ===== src/Api/Handlers.antt =====
-- internal/api/auth.go: setup, login, logout and the change of a password. `ReadJSON`'s result is the
-- argument: `none` for a body that cannot be read. The database and the session manager are there
-- (`controlAvailable`). The cookie that an answer sets holds the token of the answer.
use message_sync.Base.{
  ℕ, ◌+◌, Bool, true, false, not, ◌&&◌, ◌||◌, Option, none, some, String, [], ◌∷◌, leb, ltb,
  if◌then◌else◌, ◌==◌, eq_nat, eq_string, Map, lookup, insert, delete, has, length, count_rows,
}
use message_sync.Texts.{Text, eq_text, normalize_username, valid_username}
use message_sync.Api.Accounts.{
  Role, admin, User, ControlDb, Principal, Crypto, Draws, begin_tx, commit, select_count,
  select_row, insert_row, update_row, create_session, revoke, revoke_other_sessions,
}

pub record LoginFailure : Type 0 where
  pub count : ℕ
  pub until : Option ℕ

-- The part of the server that the handlers of accounts change.
pub record Server : Type 0 where
  pub db : ControlDb
  pub failed : Map String LoginFailure

pub data Response : Type 0 where
  -- `WriteError`
  refused : ℕ → Response
  signed_in : Text → Principal → Response
  secret : Text → Response
  ok : Response

pub record Credentials : Type 0 where
  pub username : Text
  pub password : Text

-- `minPasswordLength` and `maxPasswordLength`
abbrev pub valid_password : Text → Bool
valid_password p = leb 8 (length p) && leb (length p) 72

abbrev pub set_db : Server → ControlDb → Server
set_db s db = record s { db = db }

-- The answer with the token of the new session.
abbrev pub session_answer : Principal → Option Text → Response
session_answer p none = refused 500
session_answer p (some token) = signed_in token p

unfoldable pub issue_session : Crypto → Server → Draws → String → Text → Role → Server × Response
issue_session crypto s d id username role =
    let (db, token) = create_session crypto s.db d id in
    (set_db s db, session_answer (record { id = id; role = role; username = username }) token)

-- The unique columns of `users`: the id and the name, which is normalized in every row.
abbrev pub has_username : Text → Map String User → Bool
has_username name users = not (count_rows (λ u. u.username == name) users == 0)

abbrev pub new_user : Text → String → Role → User
new_user username hash role = record {
  username = username;
  password_hash = hash;
  role = role;
  active = true;
}

-- `INSERT INTO users`, in a transaction that is committed.
unfoldable pub insert_user : Map String User → Draws → String → Text → Bool
insert_user users d id username =
    not (d.fails begin_tx || d.fails insert_row || has id users || has_username username users)

abbrev pub created : Crypto → Server → Draws → Text → Role → String → String → Server × Response
created crypto s d username role hash id =
    issue_session crypto
      (set_db s (record s.db { users = insert id (new_user username hash role) s.db.users })) d id
      username role

abbrev pub with_account : Draws → Server → (String → String → Server × Response) → Server × Response
with_account d s next = elim d.generated_hash [
  | none ↦ (s, refused 500)
  | some hash ↦ elim d.opaque_id [ none ↦ (s, refused 500) | some id ↦ next hash id ]
]

unfoldable pub setup_user : Crypto → Server → Draws → Text → String → String → Server × Response
setup_user crypto s d username hash id =
    if insert_user s.db.users d id username && not (d.fails commit)
    then created crypto s d username admin hash id
    else (s, refused 500)

unfoldable pub handle_auth_setup : Crypto → Server → Draws → Option Credentials → Server × Response
handle_auth_setup crypto s d none = (s, refused 400)
handle_auth_setup crypto s d (some req) =
    let username = normalize_username req.username in
    if not (valid_username username && valid_password req.password)
    then (s, refused 400)
    else if d.fails select_count
    then (s, refused 500)
    else if not (length s.db.users == 0)
    then (s, refused 400)
    else with_account d s (setup_user crypto s d username)

-- `allowLogin`, for the entry of the client's key.
abbrev pub may_try : ℕ → Option LoginFailure → Bool
may_try now none = true
may_try now (some f) = elim f.until [ none ↦ true | some until ↦ ltb until now ]

unfoldable pub allow_login : Server → ℕ → String → Bool
allow_login s now key = may_try now (lookup key s.failed)

abbrev pub no_failure : LoginFailure
no_failure = record { count = 0; until = none }

abbrev pub failure_of : Option LoginFailure → LoginFailure
failure_of none = no_failure
failure_of (some f) = f

abbrev pub minute : ℕ
minute = 60000

unfoldable pub next_failure : ℕ → LoginFailure → LoginFailure
next_failure now f =
    if leb 5 (f.count + 1)
    then record { count = 0; until = some (now + minute) }
    else record f { count = f.count + 1 }

unfoldable pub record_login_failure : Server → ℕ → String → Server
record_login_failure s now key = record s {
  failed = insert key (next_failure now (failure_of (lookup key s.failed))) s.failed;
}

unfoldable pub clear_login_failure : Server → String → Server
clear_login_failure s key = record s { failed = delete key s.failed }

-- `SELECT … FROM users WHERE username=? AND active=1`, which finds at most one row.
abbrev pub find_active : Text → Map String User → Option (String × User)
find_active name [] = none
find_active name ((id, u) ∷ rest) =
    let later = find_active name rest in
    if u.username == name && u.active then some (id, u) else later

-- The account that a name and a password open. For a name without a row the comparison is with a
-- hash of no use, and its result is ignored.
unfoldable pub authenticate : Crypto → ControlDb → Draws → Credentials → Option (String × User)
authenticate crypto db d req =
    if d.fails select_row
    then none
    else elim (find_active (normalize_username req.username) db.users) [
      | none ↦ none
      | some (id, u) ↦
          if crypto.hash_matches u.password_hash req.password then some (id, u) else none
    ]

-- `handleAuthLogin` behind `allowLogin`. Other requests may run between the two, see Api/Lockout.
abbrev pub compare_login : Crypto → Server → Draws → String → Credentials → Server × Response
compare_login crypto s d key req = elim (authenticate crypto s.db d req) [
  | none ↦ (record_login_failure s d.now key, refused 401)
  | some (id, u) ↦ issue_session crypto (clear_login_failure s key) d id u.username u.role
]

-- A login that no other request interrupts.
unfoldable pub handle_auth_login :
    Crypto → Server → Draws → String → Option Credentials → Server × Response
handle_auth_login crypto s d key none = (s, refused 400)
handle_auth_login crypto s d key (some req) =
    if not (allow_login s d.now key) then (s, refused 429) else compare_login crypto s d key req

unfoldable pub handle_auth_logout : Crypto → Server → Draws → Text → Server × Response
handle_auth_logout crypto s d token = (set_db s (revoke crypto s.db d token), ok)

pub record ChangePassword : Type 0 where
  pub current_password : Text
  pub new_password : Text

abbrev pub is_active_user : Option User → Bool
is_active_user none = false
is_active_user (some u) = u.active

-- The current password is right: the row is there, active, and its hash matches.
unfoldable pub current_matches : Crypto → ControlDb → Draws → String → Text → Bool
current_matches crypto db d id password = not (d.fails select_row) && elim (lookup id db.users) [
  | none ↦ false
  | some u ↦ u.active && crypto.hash_matches u.password_hash password
]

abbrev pub set_password : String → User → User
set_password hash u = record u { password_hash = hash }

-- `UPDATE users SET … WHERE id=?`
abbrev pub update_user : String → (User → User) → Map String User → Map String User
update_user id f users = elim (lookup id users) [ none ↦ users | some u ↦ insert id (f u) users ]

unfoldable pub changed_password :
    Crypto → Server → Draws → Principal → Text → String → Server × Response
changed_password crypto s d p token hash =
    if d.fails update_row
    then (s, refused 500)
    else (let db = record s.db { users = update_user p.id (set_password hash) s.db.users } in
        let (db', revoked) = revoke_other_sessions crypto db d p.id token in
        (set_db s db', if revoked then ok else refused 500))

unfoldable pub handle_auth_change_password :
    Crypto → Server → Draws → Option Principal → Text → Option ChangePassword → Server × Response
handle_auth_change_password crypto s d none token body = (s, refused 401)
handle_auth_change_password crypto s d (some p) token none = (s, refused 400)
handle_auth_change_password crypto s d (some p) token (some req) =
    if req.current_password == [] || not (valid_password req.new_password)
    then (s, refused 400)
    else if not (current_matches crypto s.db d p.id req.current_password)
    then (s, refused 401)
    else elim d.generated_hash [
      | none ↦ (s, refused 500)
      | some hash ↦ changed_password crypto s d p token hash
    ]
