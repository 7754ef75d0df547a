-- ===== src/Api/Changes/Members.antt =====
-- The handlers of rbac.go change the tables by the steps of `Changes`.
use message_sync.Base.{
  lookup-has, ℕ, Bool, not, ◌&&◌, ◌||◌, Option, none, some, String, ◌≡◌, leb, lookup, has,
  eq_string, Bool-cases, Option-cases, inl, inr, arith, ◌==◌, eq_nat, [], update_all,
}
use message_sync.Texts.{Text, normalize_username, valid_username, eq_text}
use message_sync.Api.Accounts.{
  Role, User, Invite, ControlDb, Principal, Crypto, Draws, select_row, update_row, update_token,
  commit, begin_tx, insert_audit,
}
use message_sync.Api.Handlers.{
  Server, Response, refused, new_user, insert_user, created, valid_password, set_db,
}
use message_sync.Api.Members.{
  InviteRequest, RedeemInvite, insert_event, audit, insert_invite, new_invite, invite_hours,
  principal_id, handle_create_invite, open_invite, redeem, redeem_with, handle_invite_redeem,
  consume,
}
use message_sync.Api.Activation.{active_admin, count_admins, activate, handle_set_user_active}
use message_sync.Api.Changes.{
  Changes, unchanged, Change-Changes, Changes-append, log, add_invite, invited_user, activation,
}
use message_sync.Api.Changes.Handlers.{issue_session-Changes, with_account_cases, fresh_user}

insert_event-Changes :
    (crypto : Crypto) (db : ControlDb) (fails : Bool) (event : Option String)
    (actor action target : String)
    → Changes crypto db (insert_event db fails event actor action target)
insert_event-Changes crypto db fails none actor action target = unchanged
insert_event-Changes crypto db fails (some id) actor action target =
    elim (Bool-cases (fails || has id db.audit_events || not (has actor db.users))) [
      | inl lost ↦ simp (lost, insert_event) unchanged
      | inr kept ↦ simp (kept, insert_event) (Change-Changes (log _))
    ]

pub audit-Changes :
    (crypto : Crypto) (s : Server) (d : Draws) (p : Option Principal) (action target : String)
    → Changes crypto s.db (audit s d p action target).db
unfolding audit
audit-Changes crypto s d none action target = unchanged
audit-Changes crypto s d (some p) action target =
    insert_event-Changes crypto s.db (d.fails insert_audit) d.audit_id p.id action target

new_invite-Changes :
    (crypto : Crypto) (s : Server) (d : Draws) (p : Option Principal) (role : Role) (hours : ℕ)
    (token : Text) (id : String)
    → Changes crypto s.db (new_invite crypto s d p role hours token id).0.db
unfolding new_invite insert_invite
new_invite-Changes crypto s d p role hours token id =
    elim (Bool-cases (insert_invite crypto s.db d id token (principal_id p))) [
      | inr conflict ↦ simp (conflict, new_invite) unchanged
      | inl fits ↦
          simp (fits, new_invite)
            (Changes-append
              (Change-Changes (
                add_invite (crypto.token_hash token) _
                  (lookup-has (crypto.token_hash token) s.db.user_invites (ground (arith, fits)))
                  (ground (arith, fits))))
              (audit-Changes crypto _ d p "invite_created" id))
    ]

pub handle_create_invite-Changes :
    (crypto : Crypto) (s : Server) (d : Draws) (p : Option Principal) (body : Option InviteRequest)
    → Changes crypto s.db (handle_create_invite crypto s d p body).0.db
unfolding handle_create_invite
handle_create_invite-Changes crypto s d p none = unchanged
handle_create_invite-Changes crypto s d p (some req) = elim (Option-cases req.role) [
  | inl wrong ↦ simp (wrong, handle_create_invite) unchanged
  | inr (role, right) ↦ elim (Option-cases d.bearer_token) [
    | inl missing ↦ simp (right, missing, handle_create_invite) unchanged
    | inr (token, drawn) ↦ elim (Option-cases d.opaque_id) [
      | inl missing ↦ simp (right, drawn, missing, handle_create_invite) unchanged
      | inr (id, named) ↦
          simp (right, drawn, named, handle_create_invite)
            (new_invite-Changes crypto s d p role (invite_hours req.ttl_hours) token id)
    ]
  ]
]

-- The server when an invited user was inserted and the invite consumed.
abbrev pub invited : Server → Draws → Invite → Server
invited s d i =
    set_db s (record s.db { user_invites = update_all (consume d.now i.id) s.db.user_invites })

-- What `handleInviteRedeem` does: it refuses and changes nothing, or uses an open invite.
pub handle_invite_redeem_cases {ℓ} :
    (P : Server × Response → Type ℓ) (crypto : Crypto) (s : Server) (d : Draws) (req : RedeemInvite)
    → ((status : ℕ) → P (s, refused status))
    → ((i : Invite) (hash id : String)
        → open_invite d.now (lookup (crypto.token_hash req.token) s.db.user_invites) ≡ some i
        → lookup id s.db.users ≡ none
        → P (
            created crypto
              (invited s d i)
              d
              (normalize_username req.username)
              i.target_role
              hash
              id))
    → P (handle_invite_redeem crypto s d (some req))
unfolding handle_invite_redeem redeem_with redeem
handle_invite_redeem_cases P crypto s d req refuses redeems =
    elim (Bool-cases
      (not (valid_username name && valid_password req.password) || req.token == [])) [
        | inl wrong ↦ simp (wrong, handle_invite_redeem) (refuses 400)
        | inr right ↦
            simp (right, handle_invite_redeem)
              (with_account_cases P d s (redeem_with crypto s d name req.token) (refuses 500)
                with_names)
      ]
  where
    name : Text
    name = normalize_username req.username

    row : Option Invite
    row = open_invite d.now (lookup (crypto.token_hash req.token) s.db.user_invites)

    with_row : (hash id : String) (i : Invite) → row ≡ some i → P (redeem crypto s d name i hash id)
    with_row hash id i there = elim (Bool-cases (insert_user s.db.users d id name)) [
      | inr conflict ↦ simp (conflict, redeem) (refuses 400)
      | inl fits ↦ elim (Bool-cases (d.fails update_token || d.fails commit)) [
        | inl fails ↦ simp (fits, fails, redeem) (refuses 500)
        | inr works ↦
            simp (fits, works, redeem)
              (redeems i hash id there (fresh_user s.db.users d id name fits))
      ]
    ]

    with_names : (hash id : String) → P (redeem_with crypto s d name req.token hash id)
    with_names hash id = elim (Bool-cases (d.fails begin_tx)) [
      | inl fails ↦ simp (fails, redeem_with) (refuses 500)
      | inr began ↦ elim (Bool-cases (d.fails select_row)) [
        | inl fails ↦ simp (began, fails, redeem_with) (refuses 401)
        | inr reads ↦ elim (Option-cases row) [
          | inl closed ↦ simp (began, reads, closed, redeem_with) (refuses 401)
          | inr (i, there) ↦ simp (began, reads, there, redeem_with) (with_row hash id i there)
        ]
      ]
    ]

pub handle_invite_redeem-Changes :
    (crypto : Crypto) (s : Server) (d : Draws) (body : Option RedeemInvite)
    → Changes crypto s.db (handle_invite_redeem crypto s d body).0.db
unfolding handle_invite_redeem
handle_invite_redeem-Changes crypto s d none = unchanged
handle_invite_redeem-Changes crypto s d (some req) =
    handle_invite_redeem_cases (λ r. Changes crypto s.db r.0.db) crypto s d req
      (λ status. unchanged)
      (λ i hash id there new.
        Changes-append
          (Change-Changes (
            invited_user d.now (crypto.token_hash req.token) i id
              (new_user (normalize_username req.username) hash i.target_role) there new))
          (issue_session-Changes crypto _ d id _ i.target_role))

activate-Changes :
    (crypto : Crypto) (s : Server) (d : Draws) (p : Option Principal) (id : String) (on : Bool)
    (u : User)
    → lookup id s.db.users ≡ some u
    → Changes crypto s.db (activate s d p id on u).0.db
unfolding activate count_admins
activate-Changes crypto s d p id on u there =
    elim (Bool-cases (not on && active_admin u && leb (count_admins s.db d) 1)) [
      | inl last ↦ simp (last, activate) unchanged
      | inr other ↦ elim (Bool-cases (d.fails update_row || d.fails commit)) [
        | inl fails ↦ simp (other, fails, activate) unchanged
        | inr works ↦
            simp (other, works, activate)
              (Changes-append (Change-Changes (activation id u on there (ground (arith, other))))
                (audit-Changes crypto _ d p "user_activation_changed" id))
      ]
    ]

pub handle_set_user_active-Changes :
    (crypto : Crypto) (s : Server) (d : Draws) (p : Option Principal) (id : String)
    (body : Option Bool)
    → Changes crypto s.db (handle_set_user_active s d p id body).0.db
unfolding handle_set_user_active
handle_set_user_active-Changes crypto s d p id none = unchanged
handle_set_user_active-Changes crypto s d p id (some on) =
    elim (Bool-cases (not on && id == principal_id p)) [
      | inl own ↦ simp (own, handle_set_user_active) unchanged
      | inr other ↦ elim (Bool-cases (d.fails begin_tx)) [
        | inl fails ↦ simp (other, fails, handle_set_user_active) unchanged
        | inr began ↦ elim (Bool-cases (d.fails select_row)) [
          | inl fails ↦ simp (other, began, fails, handle_set_user_active) unchanged
          | inr reads ↦ elim (Option-cases (lookup id s.db.users)) [
            | inl missing ↦ simp (other, began, reads, missing, handle_set_user_active) unchanged
            | inr (u, there) ↦
                simp (other, began, reads, there, handle_set_user_active)
                  (activate-Changes crypto s d p id on u there)
          ]
        ]
      ]
    ]
