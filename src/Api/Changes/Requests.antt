-- ===== src/Api/Changes/Requests.antt =====
-- Every request of accounts changes the tables by the steps of `Changes`.
use message_sync.Base.{
  lookup-has, ℕ, not, ◌||◌, Option, none, some, String, ◌≡◌, refl, lookup, has, eq_string,
  Bool-cases, Option-cases, inl, inr, arith, ◌==◌, eq_nat, List, [], ◌∷◌,
}
use message_sync.Texts.{Text, eq_text}
use message_sync.Api.Accounts.{
  ResetToken, Principal, Crypto, Draws, select_row, update_row, update_token, update_sessions,
  commit, begin_tx, insert_row,
}
use message_sync.Api.Handlers.{Server, Response, refused, ok, set_db, valid_password}
use message_sync.Api.Activation.{
  new_reset, new_reset_token, handle_create_reset_token, ResetPassword, open_reset, reset,
  reset_tables, reset_with, handle_reset_password,
}
use message_sync.Api.Access.{
  post, Passed, stopped, next, auth_middleware, ApiCall, setup, login, logout, change_password,
  create_invite, redeem_invite, set_user_active, create_reset_token, reset_password, path_of,
  handle_call, Request, request_token, serve,
}
use message_sync.Api.Changes.{
  Changes, unchanged, Change-Changes, Changes-append, add_reset, use_reset,
}
use message_sync.Api.Changes.Handlers.{
  handle_auth_setup-Changes, handle_auth_login-Changes, revoke-Changes,
  handle_auth_change_password-Changes,
}
use message_sync.Api.Changes.Members.{
  audit-Changes, handle_create_invite-Changes, handle_invite_redeem-Changes,
  handle_set_user_active-Changes,
}

new_reset-Changes :
    (crypto : Crypto) (s : Server) (d : Draws) (p : Option Principal) (id : String) (token : Text)
    → Changes crypto s.db (new_reset crypto s d p id token).0.db
unfolding new_reset
new_reset-Changes crypto s d p id token =
    elim (Bool-cases
      (d.fails insert_row || has (crypto.token_hash token) s.db.password_reset_tokens)) [
        | inl conflict ↦ simp (conflict, new_reset) unchanged
        | inr fits ↦
            simp (fits, new_reset)
              (Changes-append
                (Change-Changes (
                  add_reset (crypto.token_hash token) (new_reset_token d.now id) (
                    lookup-has (crypto.token_hash token) s.db.password_reset_tokens
                      (ground (arith, fits)))))
                (audit-Changes crypto _ d p "password_reset_token_created" id))
      ]

handle_create_reset_token-Changes :
    (crypto : Crypto) (s : Server) (d : Draws) (p : Option Principal) (id : String)
    → Changes crypto s.db (handle_create_reset_token crypto s d p id).0.db
unfolding handle_create_reset_token
handle_create_reset_token-Changes crypto s d p id = elim (Bool-cases (d.fails select_row)) [
  | inl fails ↦ simp (fails, handle_create_reset_token) unchanged
  | inr reads ↦ elim (Option-cases (lookup id s.db.users)) [
    | inl missing ↦ simp (reads, missing, handle_create_reset_token) unchanged
    | inr (u, there) ↦ elim (Bool-cases (not u.active)) [
      | inl inactive ↦ simp (reads, there, inactive, handle_create_reset_token) unchanged
      | inr active ↦ elim (Option-cases d.bearer_token) [
        | inl missing ↦ simp (reads, there, active, missing, handle_create_reset_token) unchanged
        | inr (token, drawn) ↦
            simp (reads, there, active, drawn, handle_create_reset_token)
              (new_reset-Changes crypto s d p id token)
      ]
    ]
  ]
]

-- What `handleResetPassword` does: it refuses and changes nothing, or uses an open token.
pub handle_reset_password_cases {ℓ} :
    (P : Server × Response → Type ℓ) (crypto : Crypto) (s : Server) (d : Draws)
    (req : ResetPassword)
    → ((status : ℕ) → P (s, refused status))
    → ((r : ResetToken) (hash : String)
        → open_reset d.now (lookup (crypto.token_hash req.token) s.db.password_reset_tokens)
          ≡ some r
        → P (set_db s (reset_tables crypto s.db d.now req.token r hash), ok))
    → P (handle_reset_password crypto s d (some req))
unfolding handle_reset_password reset_with reset
handle_reset_password_cases P crypto s d req refuses resets =
    elim (Bool-cases (req.token == [] || not (valid_password req.password))) [
      | inl wrong ↦ simp (wrong, handle_reset_password) (refuses 400)
      | inr right ↦ elim (Option-cases d.generated_hash) [
        | inl missing ↦ simp (right, missing, handle_reset_password) (refuses 500)
        | inr (hash, made) ↦ elim (Bool-cases (d.fails begin_tx)) [
          | inl fails ↦ simp (right, made, fails, handle_reset_password, reset_with) (refuses 500)
          | inr began ↦ elim (Bool-cases (d.fails select_row)) [
            | inl fails ↦
                simp (right, made, began, fails, handle_reset_password, reset_with) (refuses 401)
            | inr reads ↦
                simp (right, made, began, reads, handle_reset_password, reset_with) (with_row hash)
          ]
        ]
      ]
    ]
  where
    row : Option ResetToken
    row = open_reset d.now (lookup (crypto.token_hash req.token) s.db.password_reset_tokens)

    with_row :
        (hash : String)
        → P (elim row [ none ↦ (s, refused 401) | some r ↦ reset crypto s d req.token r hash ])
    with_row hash = elim (Option-cases row) [
      | inl closed ↦ simp closed (refuses 401)
      | inr (r, there) ↦
          elim (Bool-cases (
            d.fails update_row
            || d.fails update_token
            || d.fails update_sessions
            || d.fails commit)) [
              | inl lost ↦ simp (there, lost, reset) (refuses 500)
              | inr done ↦ simp (there, done, reset) (resets r hash there)
            ]
    ]

handle_reset_password-Changes :
    (crypto : Crypto) (s : Server) (d : Draws) (body : Option ResetPassword)
    → Changes crypto s.db (handle_reset_password crypto s d body).0.db
unfolding handle_reset_password
handle_reset_password-Changes crypto s d none = unchanged
handle_reset_password-Changes crypto s d (some req) =
    handle_reset_password_cases (λ r. Changes crypto s.db r.0.db) crypto s d req
      (λ status. unchanged)
      (λ r hash there. Change-Changes (use_reset d.now req.token r hash there))

handle_call-Changes :
    (crypto : Crypto) (s : Server) (d : Draws) (p : Option Principal) (token : Text) (a : ApiCall)
    → Changes crypto s.db (handle_call crypto s d p token a).0.db
unfolding handle_call message_sync.Api.Handlers.handle_auth_logout
handle_call-Changes crypto s d p token (setup body) = handle_auth_setup-Changes crypto s d body
handle_call-Changes crypto s d p token (login key body) =
    handle_auth_login-Changes crypto s d key body
handle_call-Changes crypto s d p token logout = revoke-Changes crypto s.db d token
handle_call-Changes crypto s d p token (change_password body) =
    handle_auth_change_password-Changes crypto s d p token body
handle_call-Changes crypto s d p token (create_invite body) =
    handle_create_invite-Changes crypto s d p body
handle_call-Changes crypto s d p token (redeem_invite body) =
    handle_invite_redeem-Changes crypto s d body
handle_call-Changes crypto s d p token (set_user_active segment id body) =
    handle_set_user_active-Changes crypto s d p id body
handle_call-Changes crypto s d p token (create_reset_token segment id) =
    handle_create_reset_token-Changes crypto s d p id
handle_call-Changes crypto s d p token (reset_password body) =
    handle_reset_password-Changes crypto s d body

-- What the middleware does with a request.
pub serve_cases {ℓ} :
    (P : Server × Response → Type ℓ) (crypto : Crypto) (s : Server) (r : Request)
    → ((status : ℕ) → P (s, refused status))
    → ((p : Option Principal)
        → auth_middleware crypto s r.draws post (path_of r.action) (request_token r) ≡ next p
        → P (handle_call crypto s r.draws p (request_token r) r.action))
    → P (serve crypto s r)
unfolding serve
serve_cases P crypto s r refuses passes =
    split (auth_middleware crypto s r.draws post (path_of r.action) (request_token r)) refl
  where
    split :
        (m : Passed)
        → auth_middleware crypto s r.draws post (path_of r.action) (request_token r) ≡ m
        → P (serve crypto s r)
    split (stopped status) is = simp (is, serve) (refuses status)
    split (next p) is = simp (is, serve) (passes p is)

-- The tables after a request are those before it after some of the steps of `Changes`.
pub serve-Changes :
    (crypto : Crypto) (s : Server) (r : Request) → Changes crypto s.db (serve crypto s r).0.db
serve-Changes crypto s r =
    serve_cases (λ out. Changes crypto s.db out.0.db) crypto s r (λ status. unchanged)
      (λ p is. handle_call-Changes crypto s r.draws p (request_token r) r.action)

-- The server after a list of requests, each served as a whole.
unfoldable pub serve_all : Crypto → Server → List Request → Server
serve_all crypto s [] = s
serve_all crypto s (r ∷ rs) = serve_all crypto (serve crypto s r).0 rs

pub serve_all-Changes :
    (crypto : Crypto) (s : Server) (rs : List Request)
    → Changes crypto s.db (serve_all crypto s rs).db
unfolding serve_all
serve_all-Changes crypto s [] = unchanged
serve_all-Changes crypto s (r ∷ rs) =
    Changes-append (serve-Changes crypto s r) (serve_all-Changes crypto (serve crypto s r).0 rs)
