-- ===== src/Api/Changes/Invites.antt =====
-- An invite is redeemed once.
use mathlib.Core.Option.{some-injective}
use message_sync.Base.{
  ℕ, Bool, true, false, not, ◌&&◌, Option, none, some, String, ◌≡◌, ◌≢◌, refl, Map, lookup, insert,
  lookup-insert, lookup-update_all, option_map, eq_string, ◌==◌, Bool-cases, Option-cases, inl, inr,
  arith, List, subst, sym, ap, leb, update_all, ==_refl,
}
use message_sync.Texts.{Text, normalize_username}
use message_sync.Api.Accounts.{
  Invite, ControlDb, Crypto, Draws, is_none, Principal, create_session, insert_session_row,
}
use message_sync.Api.Handlers.{Server, refused, signed_in, created, issue_session, new_user}
use message_sync.Api.Members.{open_invite, consume, RedeemInvite, handle_invite_redeem}
use message_sync.Api.Access.{Request}
use message_sync.Api.Changes.{
  Change, Changes, unchanged, changed, add_session, end_session, end_others, first_user,
  invited_user, new_password, activation, add_invite, add_reset, use_reset, log,
}
use message_sync.Api.Changes.Members.{invited, handle_invite_redeem_cases}
use message_sync.Api.Changes.Requests.{serve_all, serve_all-Changes}

abbrev consumed_row : Option Invite → Bool
consumed_row none = false
consumed_row (some i) = not (is_none i.consumed_at)

-- There is an invite under the hash, and it was consumed.
abbrev pub IsConsumed : String → ControlDb → Type 0
IsConsumed h db = consumed_row (lookup h db.user_invites) ≡ true

consume-row :
    (now : ℕ) (id : String) (o : Option Invite)
    → consumed_row o ≡ true
    → consumed_row (option_map (consume now id) o) ≡ true
consume-row now id none r = r
consume-row now id (some i) r = ground (arith, r)

taken_not_new :
    (m : Map String Invite) {g h : String}
    → lookup g m ≡ none
    → consumed_row (lookup h m) ≡ true
    → g ≢ h
taken_not_new m new taken same =
    absurd
      (ground (arith, rw new at (subst (λ z. consumed_row (lookup z m) ≡ true) (sym same) taken)))

Change-IsConsumed :
    {crypto : Crypto} {a b : ControlDb} (h : String)
    → Change crypto a b
    → IsConsumed h a
    → IsConsumed h b
Change-IsConsumed h (add_session g x new) r = r
Change-IsConsumed h (end_session t g x there) r = r
Change-IsConsumed h (end_others t id kept) r = r
Change-IsConsumed h (first_user id u new rules) r = r
Change-IsConsumed {a = a} h (invited_user t g i id u there new) r =
    rw (lookup-update_all (consume t i.id) h a.user_invites)
      (consume-row t i.id (lookup h a.user_invites) r)
Change-IsConsumed h (new_password id hash) r = r
Change-IsConsumed h (activation id u on there rest) r = r
Change-IsConsumed {a = a} h (add_invite g i new known) r =
    rw (lookup-insert g h i a.user_invites) (elim (Bool-cases (g == h)) [
      | inl same ↦ absurd (taken_not_new a.user_invites new r ((eq_string.equal_iff g h).0 same))
      | inr other ↦ rw other r
    ])
Change-IsConsumed h (add_reset g x new) r = r
Change-IsConsumed h (use_reset t token x hash there) r = r
Change-IsConsumed h (log m) r = r

serve_all-IsConsumed :
    (crypto : Crypto) (s : Server) (rs : List Request) (h : String)
    → IsConsumed h s.db
    → IsConsumed h (serve_all crypto s rs).db
serve_all-IsConsumed crypto s rs h r = go (serve_all-Changes crypto s rs)
  where
    go : {b : ControlDb} → Changes crypto s.db b → IsConsumed h b
    go unchanged = r
    go (changed before c) = Change-IsConsumed h c (go before)

consumed-closed : (now : ℕ) (o : Option Invite) → consumed_row o ≡ true → open_invite now o ≡ none
consumed-closed now none r = refl
consumed-closed now (some i) r =
    let gone : is_none i.consumed_at ≡ false = ground (arith, r) in simp gone refl

open_invite-consume :
    (now : ℕ) (o : Option Invite) (i : Invite)
    → open_invite now o ≡ some i
    → consumed_row (option_map (consume now i.id) o) ≡ true
open_invite-consume now none i is = absurd (ground (arith, is))
open_invite-consume now (some q) i is =
    elim (Bool-cases (is_none q.consumed_at && not (leb q.expires_at now))) [
      | inl usable ↦
          let same = some-injective q i (rw usable at is) in
          ground (arith, usable, ==_refl i.id, ap (λ z. z.id) same)
      | inr closed ↦ absurd (ground (arith, rw closed at is))
    ]

create_session-invites :
    (crypto : Crypto) (db : ControlDb) (d : Draws) (id : String)
    → (create_session crypto db d id).0.user_invites ≡ db.user_invites
unfolding create_session
create_session-invites crypto db d id = elim (Option-cases d.session_token) [
  | inl missing ↦ simp (missing, create_session) refl
  | inr (token, drawn) ↦ elim (Bool-cases (insert_session_row crypto db d id token)) [
    | inr conflict ↦ simp (drawn, conflict, create_session) refl
    | inl fits ↦ simp (drawn, fits, create_session) refl
  ]
]

created-IsConsumed :
    (crypto : Crypto) (s : Server) (d : Draws) (name : Text) (h : String) (i : Invite)
    (hash id : String)
    → open_invite d.now (lookup h s.db.user_invites) ≡ some i
    → IsConsumed h (created crypto (invited s d i) d name i.target_role hash id).0.db
unfolding issue_session
created-IsConsumed crypto s d name h i hash id there =
    subst (λ m. consumed_row (lookup h m) ≡ true)
      (sym (
        create_session-invites crypto
          (record s.db {
            users = insert id (new_user name hash i.target_role) s.db.users;
            user_invites = update_all (consume d.now i.id) s.db.user_invites;
          })
          d id))
      (rw (lookup-update_all (consume d.now i.id) h s.db.user_invites)
        (open_invite-consume d.now (lookup h s.db.user_invites) i there))

-- After an invite was redeemed and any further requests, redeeming the same token is refused and
-- changes nothing, whoever asks and whenever.
pub redeemed_once :
    (crypto : Crypto) (s : Server) (d later : Draws) (req again : RedeemInvite) (rs : List Request)
    (t : Text) (p : Principal)
    → (handle_invite_redeem crypto s d (some req)).1 ≡ signed_in t p
    → again.token ≡ req.token
    → (status : ℕ) × (handle_invite_redeem crypto
          (serve_all crypto (handle_invite_redeem crypto s d (some req)).0 rs)
          later
          (some again)
        ≡ (serve_all crypto (handle_invite_redeem crypto s d (some req)).0 rs, refused status))
redeemed_once crypto s d later req again rs t p redeemed same =
    handle_invite_redeem_cases (λ out. (status : ℕ) × (out ≡ (afterwards, refused status))) crypto
      afterwards later again (λ status. (status, refl))
      (λ i hash id there new. absurd (
        ground (
          arith,
          there,
          consumed-closed later.now
              (lookup (crypto.token_hash again.token) afterwards.db.user_invites)
              (rw same (serve_all-IsConsumed crypto _ rs (crypto.token_hash req.token) consumed)),
        )))
  where
    consumed :
        IsConsumed (crypto.token_hash req.token) (handle_invite_redeem crypto s d (some req)).0.db
    consumed =
        handle_invite_redeem_cases
          (λ out. out.1 ≡ signed_in t p → IsConsumed (crypto.token_hash req.token) out.0.db) crypto
          s d req (λ status wrong. absurd (ground (arith, wrong)))
          (λ i hash id there new done.
            created-IsConsumed crypto s d (normalize_username req.username)
              (crypto.token_hash req.token) i hash id there)
          redeemed

    afterwards : Server
    afterwards = serve_all crypto (handle_invite_redeem crypto s d (some req)).0 rs
