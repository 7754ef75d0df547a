-- ===== src/Api/Login.antt =====
-- A login gives a token that authenticates its user.
use mathlib.Core.Option.{some-injective}
use message_sync.Base.{
  ℕ, ◌+◌, ◌<◌, true, false, ◌&&◌, ◌||◌, Option, none, some, String, ◌≡◌, ◌≢◌, refl, Map, lookup,
  insert, lookup-insert, Distinct, eq_string, ◌==◌, ==_refl, Bool-cases, Option-cases, inl, inr,
  arith, [], ◌∷◌, ltb, subst, sym, ap, ◌∙◌,
}
use message_sync.Texts.{Text, eq_text, normalize_username}
use message_sync.Api.Accounts.{
  is_none, User, Session, ControlDb, Principal, Crypto, Draws, select_session, select_row,
  session_user, session_principal, principal, insert_session_row, create_session,
}
use message_sync.Api.Handlers.{
  Server, Response, signed_in, Credentials, find_active, authenticate, allow_login,
  clear_login_failure, issue_session, compare_login, handle_auth_login,
}

-- The row that a search by name finds is the one under its id, and it is active.
find_active-lookup :
    (name : Text) (users : Map String User) (id : String) (u : User)
    → Distinct users
    → find_active name users ≡ some (id, u)
    → (lookup id users ≡ some u) × (u.active ≡ true)
unfolding lookup
find_active-lookup name [] id u d found = absurd (ground (arith, found))
find_active-lookup name ((j, w) ∷ rest) id u d found =
    elim (Bool-cases (w.username == name && w.active)) [
      | inl mine ↦
          subst (λ r. (lookup r.0 ((j, w) ∷ rest) ≡ some r.1) × (r.1.active ≡ true))
            (some-injective (j, w) (id, u) (rw mine at found))
            (simp (==_refl j, lookup) refl, ground (arith, mine))
      | inr other ↦
          (let later = find_active-lookup name rest id u d.1 (rw other at found) in
            elim (Bool-cases (j == id)) [
              | inl same ↦ absurd (
                  ground (
                    arith,
                    rw d.0 at (
                        subst (λ k. lookup k rest ≡ some u)
                          (sym ((eq_string.equal_iff j id).0 same)) later.0),
                  ))
              | inr differ ↦ (simp (differ, lookup) later.0, later.1)
            ])
    ]

not_empty : (t : Text) → t ≢ [] → (t == []) ≡ false
not_empty [] long = absurd (long refl)
not_empty (c ∷ cs) long = refl

stored-principal :
    (crypto : Crypto) (db : ControlDb) (d : Draws) (id : String) (u : User) (token : Text)
    (expires : ℕ)
    → lookup (crypto.token_hash token) db.sessions
      ≡ some (record { user_id = id; expires_at = expires; revoked_at = none })
    → lookup id db.users ≡ some u
    → u.active ≡ true
    → token ≢ []
    → d.fails select_session ≡ false
    → d.now < expires
    → principal crypto db d token ≡ some (record { id = id; role = u.role; username = u.username })
unfolding principal
stored-principal crypto db d id u token expires stored known active long reads early =
    let in_time : ltb d.now expires ≡ true = ground (arith, early) in
    simp
      (not_empty token long, reads, stored, known, active, in_time, session_principal, session_user)
      refl

-- A token that was just issued for an active user authenticates the user until it expires.
created-principal :
    (crypto : Crypto) (db : ControlDb) (d later : Draws) (id : String) (u : User) (token : Text)
    → lookup id db.users ≡ some u
    → u.active ≡ true
    → (create_session crypto db d id).1 ≡ some token
    → token ≢ []
    → later.fails select_session ≡ false
    → later.now < d.now + crypto.token_ttl
    → principal crypto (create_session crypto db d id).0 later token
      ≡ some (record { id = id; role = u.role; username = u.username })
unfolding create_session
created-principal crypto db d later id u token known active issued long reads early =
    elim (Option-cases d.session_token) [
      | inl missing ↦ absurd (ground (arith, simp (missing, create_session) at issued))
      | inr (drawn, is) ↦ elim (Bool-cases (insert_session_row crypto db d id drawn)) [
        | inr conflict ↦ absurd (ground (arith, simp (is, conflict, create_session) at issued))
        | inl fits ↦
            let same = some-injective drawn token (simp (is, fits, create_session) at issued) in
            subst
              (λ k.
                principal crypto (create_session crypto db d id).0 later k
                ≡ some (record { id = id; role = u.role; username = u.username }))
              same
              (simp (is, fits, create_session)
                (stored-principal crypto
                  (record db {
                    sessions = insert (crypto.token_hash drawn) (fresh drawn) db.sessions;
                  })
                  later id u drawn (d.now + crypto.token_ttl)
                  (simp
                    (
                      lookup-insert (crypto.token_hash drawn) (crypto.token_hash drawn)
                          (fresh drawn) db.sessions,
                      ==_refl (crypto.token_hash drawn),
                    )
                    refl)
                  known active (λ empty. long (sym same ∙ empty)) reads early))
      ]
    ]
  where
    fresh : Text → Session
    fresh _ = record { user_id = id; expires_at = d.now + crypto.token_ttl; revoked_at = none }

abbrev token_of : Response → Text
token_of (signed_in token p) = token
token_of _ = []

abbrev principal_of : Response → Principal → Principal
principal_of (signed_in token p) other = p
principal_of _ other = other

issued-principal :
    (crypto : Crypto) (s : Server) (d later : Draws) (id : String) (u : User) (token : Text)
    (p : Principal)
    → lookup id s.db.users ≡ some u
    → u.active ≡ true
    → (issue_session crypto s d id u.username u.role).1 ≡ signed_in token p
    → token ≢ []
    → later.fails select_session ≡ false
    → later.now < d.now + crypto.token_ttl
    → principal crypto (issue_session crypto s d id u.username u.role).0.db later token ≡ some p
unfolding issue_session
issued-principal crypto s d later id u token p known active answer long reads early =
    elim (Option-cases (create_session crypto s.db d id).1) [
      | inl missing ↦ absurd (ground (arith, simp missing at answer))
      | inr (drawn, is) ↦
          let said = simp is at answer in
          created-principal crypto s.db d later id u token known active
            (is ∙ ap (λ r. some (token_of r)) said) long reads early
          ∙ ap (λ r. some (principal_of r p)) said
    ]

authenticate-lookup :
    (crypto : Crypto) (db : ControlDb) (d : Draws) (req : Credentials) (account : String × User)
    → Distinct db.users
    → authenticate crypto db d req ≡ some account
    → (lookup account.0 db.users ≡ some account.1) × (account.1.active ≡ true)
unfolding authenticate
authenticate-lookup crypto db d req account distinct is = elim (Bool-cases (d.fails select_row)) [
  | inl unread ↦ absurd (ground (arith, rw unread at is))
  | inr reads ↦ elim (Option-cases (find_active (normalize_username req.username) db.users)) [
    | inl nobody ↦ absurd (ground (arith, simp (reads, nobody) at is))
    | inr (row, found) ↦ elim (Bool-cases (crypto.hash_matches row.1.password_hash req.password)) [
      | inr wrong ↦ absurd (ground (arith, simp (reads, found, wrong) at is))
      | inl right ↦
          subst (λ r. (lookup r.0 db.users ≡ some r.1) × (r.1.active ≡ true))
            (some-injective row account (simp (reads, found, right) at is))
            (find_active-lookup (normalize_username req.username) db.users row.0 row.1 distinct
              found)
    ]
  ]
]

clear_login_failure-db : (s : Server) (key : String) → (clear_login_failure s key).db ≡ s.db
unfolding clear_login_failure
clear_login_failure-db s key = refl

just_issued :
    (crypto : Crypto) (s : Server) (d later : Draws) (key : String) (req : Credentials)
    (token : Text) (p : Principal)
    → Distinct s.db.users
    → (handle_auth_login crypto s d key (some req)).1 ≡ signed_in token p
    → token ≢ []
    → later.fails select_session ≡ false
    → later.now < d.now + crypto.token_ttl
    → principal crypto (handle_auth_login crypto s d key (some req)).0.db later token ≡ some p
unfolding handle_auth_login
just_issued crypto s d later key req token p distinct answer long reads early =
    elim (Bool-cases (allow_login s d.now key)) [
      | inr locked ↦ absurd (ground (arith, simp (locked, handle_auth_login) at answer))
      | inl free ↦ elim (Option-cases (authenticate crypto s.db d req)) [
        | inl wrong ↦
            absurd (ground (arith, simp (free, wrong, compare_login, handle_auth_login) at answer))
        | inr (account, right) ↦
            let known = authenticate-lookup crypto s.db d req account distinct right in
            simp (free, right, compare_login, handle_auth_login)
              (issued-principal crypto (clear_login_failure s key) d later account.0 account.1 token
                p
                (subst (λ db. lookup account.0 db.users ≡ some account.1)
                  (sym (clear_login_failure-db s key)) known.0)
                known.1 (simp (free, right, compare_login, handle_auth_login) at answer) long reads
                early)
      ]
    ]

session_user_of :
    (now : ℕ) (session : Session) (o : Option User) (p : Principal)
    → session_user now session o ≡ some p
    → session.user_id ≡ p.id
session_user_of now session none p is = absurd (ground (arith, is))
session_user_of now session (some u) p is =
    elim (Bool-cases (is_none session.revoked_at && u.active && ltb now session.expires_at)) [
      | inl lives ↦
          ap (λ (q : Principal). q.id)
            (some-injective (record { id = session.user_id; role = u.role; username = u.username })
              p (rw lives at is))
      | inr over ↦ absurd (ground (arith, rw over at is))
    ]

-- A token authenticates the same principal in all tables that agree on its session and its account.
principal_agrees :
    (crypto : Crypto) (db db' : ControlDb) (d : Draws) (token : Text) (p : Principal)
    → principal crypto db d token ≡ some p
    → lookup (crypto.token_hash token) db'.sessions ≡ lookup (crypto.token_hash token) db.sessions
    → lookup p.id db'.users ≡ lookup p.id db.users
    → principal crypto db' d token ≡ some p
unfolding principal
principal_agrees crypto db db' d token p known sessions users =
    elim (Bool-cases (token == [] || d.fails select_session)) [
      | inl nobody ↦ absurd (ground (arith, rw nobody at known))
      | inr asked ↦
          let answer = rw asked at known in
          rw (asked, sessions)
            (elim (Option-cases (lookup (crypto.token_hash token) db.sessions)) [
              | inl missing ↦ absurd (ground (arith, rw missing at answer))
              | inr (session, there) ↦ rw there (of_session session (rw there at answer))
            ])
    ]
  where
    of_session :
        (session : Session)
        → session_principal d.now db.users (some session) ≡ some p
        → session_principal d.now db'.users (some session) ≡ some p
    of_session session answer =
        let own = session_user_of d.now session (lookup session.user_id db.users) p answer in
        rw (subst (λ k. lookup k db'.users ≡ lookup k db.users) (sym own) users) answer

-- The token of a successful login authenticates the account that the answer names until it expires, as
-- long as the rows of its session and of the account are those that the login left, whatever else
-- changes; when the session can be read and the token that was drawn is not empty.
pub login_authenticates :
    (crypto : Crypto) (s : Server) (d later : Draws) (key : String) (req : Credentials)
    (token : Text) (p : Principal) (db : ControlDb)
    → Distinct s.db.users
    → (handle_auth_login crypto s d key (some req)).1 ≡ signed_in token p
    → token ≢ []
    → lookup (crypto.token_hash token) db.sessions
      ≡ lookup (crypto.token_hash token) (handle_auth_login crypto s d key (some req)).0.db.sessions
    → lookup p.id db.users ≡ lookup p.id (handle_auth_login crypto s d key (some req)).0.db.users
    → later.fails select_session ≡ false
    → later.now < d.now + crypto.token_ttl
    → principal crypto db later token ≡ some p
login_authenticates crypto s d later key req token p db distinct answer long sessions users reads
      early =
    principal_agrees crypto (handle_auth_login crypto s d key (some req)).0.db db later token p
      (just_issued crypto s d later key req token p distinct answer long reads early) sessions users
