-- ===== src/Api/Permissions.antt =====
-- Who may administer accounts.
use mathlib.Core.Option.{some-injective}
use message_sync.Base.{
  ℕ, ◌<◌, Bool, true, false, not, ◌&&◌, ◌||◌, Option, none, some, ◌≡◌, ◌⊎◌, refl, lookup, eq_string,
  ◌==◌, Bool-cases, Option-cases, inl, inr, arith, [], ltb, subst, sym, ap, codes,
}
use message_sync.Texts.{Text, eq_text, has_prefix}
use message_sync.Api.Accounts.{
  ControlDb, Session, User, Principal, Crypto, Draws, is_none, is_admin, select_session, principal,
}
use message_sync.Api.Handlers.{Server, refused}
use message_sync.Api.Access.{
  post, requires_admin, is_public, next, auth_middleware, ApiCall, setup, login, logout,
  change_password, create_invite, redeem_invite, set_user_active, create_reset_token,
  reset_password, path_of, Request, request_token, serve,
}
use message_sync.Api.Changes.Requests.{serve_cases}

-- The requests that manage accounts.
abbrev pub manages_accounts : ApiCall → Bool
manages_accounts (create_invite _) = true
manages_accounts (set_user_active _ _ _) = true
manages_accounts (create_reset_token _ _) = true
manages_accounts _ = false

-- The token is that of a session, not revoked and not expired, of an active administrator.
pub record IsAdminToken (crypto : Crypto) (db : ControlDb) (now : ℕ) (token : Text) : Type 0 where
  pub session : Session
  pub user : User
  pub stored : lookup (crypto.token_hash token) db.sessions ≡ some session
  pub owned : lookup session.user_id db.users ≡ some user
  pub live : (session.revoked_at ≡ none) × (now < session.expires_at)
  pub rules : (user.active ≡ true) × (is_admin user.role ≡ true)

is_none-none : {A : Type 0} (o : Option A) → is_none o ≡ true → o ≡ none
is_none-none none h = refl
is_none-none (some a) h = absurd (ground (arith, h))

principal-IsAdminToken :
    (crypto : Crypto) (db : ControlDb) (d : Draws) (token : Text) (p : Principal)
    → principal crypto db d token ≡ some p
    → is_admin p.role ≡ true
    → IsAdminToken crypto db d.now token
unfolding principal
principal-IsAdminToken crypto db d token p is rules =
    elim (Bool-cases (token == [] || d.fails select_session)) [
      | inl unread ↦ absurd (ground (arith, rw unread at is))
      | inr reads ↦ elim (Option-cases (lookup (crypto.token_hash token) db.sessions)) [
        | inl missing ↦ absurd (ground (arith, simp (reads, missing) at is))
        | inr (x, there) ↦ elim (Option-cases (lookup x.user_id db.users)) [
          | inl missing ↦ absurd (ground (arith, simp (reads, there, missing) at is))
          | inr (u, known) ↦
              elim (Bool-cases (is_none x.revoked_at && u.active && ltb d.now x.expires_at)) [
                | inr ended ↦ absurd (ground (arith, simp (reads, there, known, ended) at is))
                | inl lives ↦
                    let found =
                      some-injective
                        (record { id = x.user_id; role = u.role; username = u.username }) p
                        (simp (reads, there, known, lives) at is) in
                    record {
                      session = x;
                      user = u;
                      stored = there;
                      owned = known;
                      live = (
                        is_none-none x.revoked_at (ground (arith, lives)),
                        ground (arith, lives),
                      );
                      rules = (
                        ground (arith, lives),
                        subst (λ r. is_admin r ≡ true) (ap (λ z. z.role) (sym found)) rules,
                      );
                    }
              ]
        ]
      ]
    ]

-- The routes of these requests are not public, and the middleware wants an administrator for them.
guarded :
    (a : ApiCall)
    → manages_accounts a ≡ true
    → ((not (has_prefix (path_of a) (codes "/api/")) || is_public (path_of a)) ≡ false)
      × (requires_admin post (path_of a) ≡ true)
unfolding path_of is_public requires_admin
guarded (create_invite _) h = (refl, refl)
guarded (set_user_active _ _ _) h = (refl, refl)
guarded (create_reset_token _ _) h = (refl, refl)
guarded (setup _) h = absurd (ground (arith, h))
guarded (login _ _) h = absurd (ground (arith, h))
guarded logout h = absurd (ground (arith, h))
guarded (change_password _) h = absurd (ground (arith, h))
guarded (redeem_invite _) h = absurd (ground (arith, h))
guarded (reset_password _) h = absurd (ground (arith, h))

middleware-admin :
    (crypto : Crypto) (s : Server) (d : Draws) (token : Text) (a : ApiCall) (q : Option Principal)
    → manages_accounts a ≡ true
    → auth_middleware crypto s d post (path_of a) token ≡ next q
    → IsAdminToken crypto s.db d.now token
unfolding auth_middleware
middleware-admin crypto s d token a q manages passes =
    elim (Option-cases (principal crypto s.db d token)) [
      | inl nobody ↦ absurd (ground (arith, simp ((guarded a manages).0, nobody) at passes))
      | inr (p, is) ↦ elim (Bool-cases (is_admin p.role)) [
        | inl rules ↦ principal-IsAdminToken crypto s.db d token p is rules
        | inr other ↦ absurd (
            ground
              (arith, simp ((guarded a manages).0, is, (guarded a manages).1, other) at passes))
      ]
    ]

-- A request that manages accounts changes nothing and is refused, unless its token is that of a live
-- session of an active administrator.
pub admins_only :
    (crypto : Crypto) (s : Server) (r : Request)
    → manages_accounts r.action ≡ true
    → ((status : ℕ) × (serve crypto s r ≡ (s, refused status)))
      ⊎ IsAdminToken crypto s.db r.draws.now (request_token r)
admins_only crypto s r manages =
    serve_cases
      (λ out.
        ((status : ℕ) × (out ≡ (s, refused status)))
        ⊎ IsAdminToken crypto s.db r.draws.now (request_token r))
      crypto s r (λ status. inl (status, refl))
      (λ p passes.
        inr (middleware-admin crypto s r.draws (request_token r) r.action p manages passes))
