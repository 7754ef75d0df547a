-- ===== src/Api/Access.antt =====
-- internal/api/auth.go and api.go: `extractToken`, `requiresAdmin`, `authMiddleware`, and the routes of
-- the handlers of accounts behind it.
use message_sync.Base.{
  ℕ, Bool, true, false, not, ◌&&◌, ◌||◌, Option, none, some, String, codes, [], ◌∷◌, ◌++◌,
  if◌then◌else◌, ◌==◌, eq_nat, eq_string, any,
}
use message_sync.Texts.{Text, eq_text, has_prefix, has_suffix, to_lower, trim_space}
use message_sync.Api.Accounts.{is_admin, Principal, Crypto, Draws, principal}
use message_sync.Api.Handlers.{
  Server, Response, refused, Credentials, ChangePassword, handle_auth_setup, handle_auth_login,
  handle_auth_logout, handle_auth_change_password,
}
use message_sync.Api.Members.{
  InviteRequest, RedeemInvite, handle_create_invite, handle_invite_redeem,
}
use message_sync.Api.Activation.{
  ResetPassword, handle_set_user_active, handle_create_reset_token, handle_reset_password,
}

-- The parts of a text before and after its first space, where it has one.
abbrev pub split_space : Text → Option (Text × Text)
split_space [] = none
split_space (c ∷ cs) =
    let rest = split_space cs in
    if c == 32
    then some ([], cs)
    else elim rest [ none ↦ none | some (first, second) ↦ some (c ∷ first, second) ]

abbrev bearer : Option (Text × Text) → Text
bearer none = []
bearer (some (scheme, value)) = if to_lower scheme == codes "bearer" then trim_space value else []

-- The token of the `Authorization` header, else of the cookie.
unfoldable pub extract_token : Text → Option Text → Text
extract_token authorization cookie =
    let token = bearer (split_space authorization) in
    if token == [] then elim cookie [ none ↦ [] | some value ↦ value ] else token

pub data Method : Type 0 where
  get post put patch delete_method : Method

abbrev is_get : Method → Bool
is_get get = true
is_get _ = false

-- The paths that are served without a session.
unfoldable pub is_public : Text → Bool
is_public path =
    any (λ served. path == codes served)
      ("/api/auth/status" ∷ "/api/version" ∷ "/api/auth/setup" ∷ "/api/auth/login"
        ∷ "/api/auth/invite/redeem" ∷ "/api/auth/reset-password" ∷ "/api/verification/email/verify"
        ∷ "/api/verification/email/resend" ∷ [])
    || has_prefix path (codes "/api/verification/join/")
    || (has_prefix path (codes "/api/verification/")
        && not (path == codes "/api/verification/requests")
        && not (has_prefix path (codes "/api/verification/pipelines"))
        && not (has_prefix path (codes "/api/verification/requests/")))

unfoldable pub requires_admin : Method → Text → Bool
requires_admin method path =
    path == codes "/api/config"
    || (has_prefix path (codes "/api/sync-sets/") && has_suffix path (codes "/membership"))
    || path == codes "/api/users"
    || has_prefix path (codes "/api/users/")
    || path == codes "/api/audit"
    || path == codes "/api/verification/pipelines"
    || has_prefix path (codes "/api/verification/pipelines/")
    || ((path == codes "/api/connections" || has_prefix path (codes "/api/connections/"))
        && not (is_get method))

-- The answer of the middleware, or the principal that the handler is called with.
pub data Passed : Type 0 where
  stopped : ℕ → Passed
  next : Option Principal → Passed

unfoldable pub auth_middleware : Crypto → Server → Draws → Method → Text → Text → Passed
auth_middleware crypto s d method path token =
    if not (has_prefix path (codes "/api/")) || is_public path
    then next none
    else elim (principal crypto s.db d token) [
      | none ↦ stopped 401
      | some p ↦
          if requires_admin method path && not (is_admin p.role) then stopped 403 else next (some p)
    ]

-- The requests of accounts, with their bodies, and the user in the path.
pub data ApiCall : Type 0 where
  setup : Option Credentials → ApiCall
  login : String → Option Credentials → ApiCall
  logout : ApiCall
  change_password : Option ChangePassword → ApiCall
  create_invite : Option InviteRequest → ApiCall
  redeem_invite : Option RedeemInvite → ApiCall
  set_user_active : Text → String → Option Bool → ApiCall
  create_reset_token : Text → String → ApiCall
  reset_password : Option ResetPassword → ApiCall

-- The routes of `api.go`; the id in the path is given as it stands there and as the handler reads it.
unfoldable pub path_of : ApiCall → Text
path_of (setup _) = codes "/api/auth/setup"
path_of (login _ _) = codes "/api/auth/login"
path_of logout = codes "/api/auth/logout"
path_of (change_password _) = codes "/api/auth/change-password"
path_of (create_invite _) = codes "/api/users/invites"
path_of (redeem_invite _) = codes "/api/auth/invite/redeem"
path_of (set_user_active segment _ _) = codes "/api/users/" ++ segment ++ codes "/active"
path_of (create_reset_token segment _) = codes "/api/users/" ++ segment ++ codes "/reset-token"
path_of (reset_password _) = codes "/api/auth/reset-password"

unfoldable pub handle_call :
    Crypto → Server → Draws → Option Principal → Text → ApiCall → Server × Response
handle_call crypto s d p token (setup body) = handle_auth_setup crypto s d body
handle_call crypto s d p token (login key body) = handle_auth_login crypto s d key body
handle_call crypto s d p token logout = handle_auth_logout crypto s d token
handle_call crypto s d p token (change_password body) =
    handle_auth_change_password crypto s d p token body
handle_call crypto s d p token (create_invite body) = handle_create_invite crypto s d p body
handle_call crypto s d p token (redeem_invite body) = handle_invite_redeem crypto s d body
handle_call crypto s d p token (set_user_active _ id body) = handle_set_user_active s d p id body
handle_call crypto s d p token (create_reset_token _ id) = handle_create_reset_token crypto s d p id
handle_call crypto s d p token (reset_password body) = handle_reset_password crypto s d body

pub record Request : Type 0 where
  pub authorization : Text
  pub cookie : Option Text
  pub action : ApiCall
  pub draws : Draws

abbrev pub request_token : Request → Text
request_token r = extract_token r.authorization r.cookie

-- One request of `authMiddleware` and of the handler behind it. All these routes are POST.
unfoldable pub serve : Crypto → Server → Request → Server × Response
serve crypto s r =
    elim (auth_middleware crypto s r.draws post (path_of r.action) (request_token r)) [
      | stopped status ↦ (s, refused status)
      | next p ↦ handle_call crypto s r.draws p (request_token r) r.action
    ]
