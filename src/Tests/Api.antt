-- ===== src/Tests/Api.antt =====
-- Properties of accounts at concrete inputs: a server with one administrator, a reset and an invite.
use mathlib.Core.Option.{some-injective}
use message_sync.Base.{
  ◌+◌, subst, ap, ℕ, ◌≤◌, true, false, none, some, String, codes, List, [], ◌∷◌, ◌≡◌, ◌⊎◌, refl,
  lookup, insert, delete, eq_string, inr, arith, length, ◌==◌, eq_nat, if◌then◌else◌,
}
use message_sync.Store.Ledger.{is_space}
use message_sync.Texts.{Text, eq_text, normalize_username, valid_username}
use message_sync.Api.Accounts.{
  ControlDb, admin, operator, User, Session, Invite, ResetToken, Crypto, Draws, principal,
  create_session, insert_session_row,
}
use message_sync.Api.Handlers.{
  Server, record_login_failure, next_failure, refused, Credentials, handle_auth_login,
  issue_session, authenticate, allow_login, clear_login_failure, insert_user,
}
use message_sync.Api.Members.{RedeemInvite, handle_invite_redeem, redeem_with, redeem}
use message_sync.Api.Activation.{ResetPassword, handle_reset_password, reset_with, reset}
use message_sync.Api.Access.{Request, create_reset_token, serve, request_token}
use message_sync.Api.Changes.Requests.{serve_all}
use message_sync.Api.Changes.Admins.{HasAdmin, serve_all-HasAdmin}
use message_sync.Api.Changes.Secrets.{reset_signs_out}
use message_sync.Api.Changes.Invites.{redeemed_once}
use message_sync.Api.Permissions.{IsAdminToken, admins_only}
use message_sync.Api.Lockout.{
  LoginEvent, arrives, compares, admitted, login_step, guesses_per_minute,
}
use message_sync.Api.Login.{login_authenticates}

-- A hash that tells tokens of different lengths apart, and passwords that are their own hashes.
abbrev hash_text : Text → String
hash_text t = if length t == 1 then "one" else if length t == 2 then "two" else "more"

abbrev crypto : Crypto
crypto = record {
  token_hash = hash_text;
  hash_matches = λ hash password. codes hash == password;
  token_ttl = 1000;
}

abbrev amy : User
amy = record { username = codes "amy"; password_hash = "password"; role = admin; active = true }

abbrev amy_session : Session
amy_session = record { user_id = "u1"; expires_at = 100; revoked_at = none }

abbrev amy_reset : ResetToken
amy_reset = record { user_id = "u1"; expires_at = 100; consumed_at = none }

abbrev invite : Invite
invite = record {
  id = "i1";
  target_role = operator;
  expires_at = 100;
  creator_user_id = "u1";
  consumed_at = none;
}

abbrev server : Server
server = record {
  db = record {
    users = ("u1", amy) ∷ [];
    sessions = ("two", amy_session) ∷ [];
    user_invites = ("one", invite) ∷ [];
    password_reset_tokens = ("one", amy_reset) ∷ [];
    audit_events = [];
  };
  failed = [];
}

abbrev draws : Draws
draws = record {
  now = 10;
  fails = λ _. false;
  opaque_id = some "u2";
  bearer_token = some (2 ∷ []);
  session_token = some (1 ∷ 2 ∷ 3 ∷ []);
  audit_id = some "a1";
  generated_hash = some "password2";
}

-- The administrator asks for a reset token.
abbrev request : Request
request = record {
  authorization = [];
  cookie = some (1 ∷ 2 ∷ []);
  action = create_reset_token (codes "u1") "u1";
  draws = draws;
}

serve_all-HasAdmin_example : HasAdmin (serve_all crypto server (request ∷ [])).db
serve_all-HasAdmin_example = serve_all-HasAdmin crypto server (request ∷ []) (inr (omega arith))

abbrev reset_request : ResetPassword
reset_request = record { token = 1 ∷ []; password = codes "password2" }

reset_signs_out_example :
    principal crypto
      (serve_all crypto
        (handle_reset_password crypto server draws (some reset_request)).0
        (request ∷ [])).db
      draws
      (1 ∷ 2 ∷ [])
    ≡ none
unfolding lookup handle_reset_password reset_with reset
reset_signs_out_example =
    reset_signs_out crypto server draws draws reset_request amy_reset (1 ∷ 2 ∷ []) amy_session
      (request ∷ []) refl refl refl refl

abbrev redemption : RedeemInvite
redemption = record { token = 1 ∷ []; username = codes "Bob"; password = codes "password2" }

abbrev redeemed : Server
redeemed = (handle_invite_redeem crypto server draws (some redemption)).0

redeemed_once_example :
    (status : ℕ) × (handle_invite_redeem crypto
        (serve_all crypto redeemed (request ∷ []))
        draws
        (some redemption)
      ≡ (serve_all crypto redeemed (request ∷ []), refused status))
unfolding lookup insert handle_invite_redeem redeem_with redeem insert_user normalize_username
    valid_username is_space issue_session create_session insert_session_row
redeemed_once_example =
    redeemed_once crypto server draws draws redemption redemption (request ∷ []) (1 ∷ 2 ∷ 3 ∷ [])
      (record { id = "u2"; role = operator; username = codes "bob" }) refl refl

admins_only_example :
    ((status : ℕ) × (serve crypto server request ≡ (server, refused status)))
    ⊎ IsAdminToken crypto server.db 10 (request_token request)
admins_only_example = admins_only crypto server request refl

abbrev wrong : Credentials
wrong = record { username = codes "amy"; password = codes "passwort" }

-- Two wrong logins that overlap.
abbrev overlapping : List LoginEvent
overlapping =
    arrives 0 wrong ∷ arrives 1 wrong ∷ compares draws 0 ∷ compares draws 0 ∷ arrives 2 wrong ∷ []

guesses_per_minute_example :
    admitted crypto "host" overlapping (record { server = server; comparing = [] }) ≤ 2 + 4
unfolding authenticate normalize_username is_space login_step allow_login lookup insert
    record_login_failure next_failure
guesses_per_minute_example = guesses_per_minute crypto server "host" 2 0 overlapping (
  (omega arith, omega arith),
  (
    (omega arith, omega arith),
    (
      (
        omega arith,
        λ req others is.
            subst (λ c. authenticate crypto server.db draws c ≡ none)
              (ap (λ (p : Credentials × List Credentials). p.0)
                (some-injective (wrong, wrong ∷ []) (req, others) is))
              refl,
      ),
      (
        (
          omega arith,
          λ req others is.
              subst (λ c. authenticate crypto server.db draws c ≡ none)
                (ap (λ (p : Credentials × List Credentials). p.0)
                  (some-injective (wrong, []) (req, others) is))
                refl,
        ),
        ((omega arith, omega arith), tt),
      ),
    ),
  ),
)

abbrev right : Credentials
right = record { username = codes " AMY "; password = codes "password" }

-- The tables after the login, with the invites and the reset tokens gone.
abbrev after_login : ControlDb
after_login = record (handle_auth_login crypto server draws "host" (some right)).0.db {
  user_invites = [];
  password_reset_tokens = [];
}

login_authenticates_example :
    principal crypto after_login draws (1 ∷ 2 ∷ 3 ∷ [])
    ≡ some (record { id = "u1"; role = admin; username = codes "amy" })
unfolding lookup insert delete handle_auth_login allow_login clear_login_failure authenticate
    normalize_username is_space issue_session create_session insert_session_row
login_authenticates_example =
    login_authenticates crypto server draws draws "host" right (1 ∷ 2 ∷ 3 ∷ [])
      (record { id = "u1"; role = admin; username = codes "amy" }) after_login (refl, tt) refl
      (λ same. absurd (ground (arith, same))) refl refl refl (omega arith)
