-- ===== src/Api/Changes/Secrets.antt =====
-- What is revoked or consumed stays so: sessions, invites and reset tokens.
use mathlib.Core.Option.{some-injective}
use message_sync.Base.{
  ℕ, Bool, true, false, not, ◌&&◌, Option, none, some, String, ◌≡◌, ◌≢◌, refl, Map, lookup,
  lookup-insert, lookup-update_all, option_map, if◌then◌else◌, eq_string, ◌==◌, Bool-cases, inl,
  inr, arith, List, [], ◌∷◌, subst, sym, ap, ◌∙◌, leb,
}
use message_sync.Api.Accounts.{
  User, Session, ResetToken, ControlDb, Crypto, Draws, session_user, session_principal, principal,
  is_none, revoke_session, revoke_of_user, revoke_others,
}
use message_sync.Texts.{Text}
use message_sync.Api.Handlers.{Server, ok}
use message_sync.Api.Activation.{open_reset, ResetPassword, handle_reset_password}
use message_sync.Api.Access.{Request}
use message_sync.Api.Changes.{
  Change, Changes, unchanged, changed, add_session, end_session, end_others, first_user,
  invited_user, new_password, activation, add_invite, add_reset, use_reset, log,
}
use message_sync.Api.Changes.Requests.{serve_all, serve_all-Changes, handle_reset_password_cases}

lookup-revoke_others :
    (t : ℕ) (id kept h : String) (m : Map String Session)
    → lookup h (revoke_others t id kept m)
      ≡ option_map (λ x. if h == kept then x else revoke_of_user t id x) (lookup h m)
unfolding lookup
lookup-revoke_others t id kept h [] = refl
lookup-revoke_others t id kept h ((j, x) ∷ m) = elim (Bool-cases (j == h)) [
  | inl same ↦
      simp (same, lookup)
        (ap (λ z. some (if z == kept then x else revoke_of_user t id x))
          ((eq_string.equal_iff j h).0 same))
  | inr other ↦ simp (other, lookup) (lookup-revoke_others t id kept h m)
]

abbrev revoked_row : Option Session → Bool
revoked_row none = false
revoked_row (some x) = not (is_none x.revoked_at)

-- There is a session under the hash, and it was revoked.
abbrev pub IsRevoked : String → ControlDb → Type 0
IsRevoked h db = revoked_row (lookup h db.sessions) ≡ true

revoked_row-map :
    (f : Session → Session) (o : Option Session)
    → ((x : Session) → is_none x.revoked_at ≡ false → is_none (f x).revoked_at ≡ false)
    → revoked_row o ≡ true
    → revoked_row (option_map f o) ≡ true
revoked_row-map f none keeps h = h
revoked_row-map f (some x) keeps h = ground (arith, keeps x)

taken_not_new :
    (m : Map String Session) {g h : String}
    → lookup g m ≡ none
    → revoked_row (lookup h m) ≡ true
    → g ≢ h
taken_not_new m new taken same =
    absurd
      (ground (arith, rw new at (subst (λ z. revoked_row (lookup z m) ≡ true) (sym same) taken)))

Change-IsRevoked :
    {crypto : Crypto} {a b : ControlDb} (h : String)
    → Change crypto a b
    → IsRevoked h a
    → IsRevoked h b
Change-IsRevoked {a = a} h (add_session g x new) r =
    rw (lookup-insert g h x a.sessions) (elim (Bool-cases (g == h)) [
      | inl same ↦ absurd (taken_not_new a.sessions new r ((eq_string.equal_iff g h).0 same))
      | inr other ↦ rw other r
    ])
Change-IsRevoked {a = a} h (end_session t g x there) r =
    rw (lookup-insert g h (revoke_session t x) a.sessions)
      (elim (Bool-cases (g == h)) [ inl same ↦ rw same refl | inr other ↦ rw other r ])
Change-IsRevoked {a = a} h (end_others t id kept) r =
    rw (lookup-revoke_others t id kept h a.sessions)
      (revoked_row-map _ (lookup h a.sessions) (λ x gone. ground (arith, gone)) r)
Change-IsRevoked h (first_user id u new rules) r = r
Change-IsRevoked h (invited_user t g i id u there new) r = r
Change-IsRevoked h (new_password id hash) r = r
Change-IsRevoked h (activation id u on there rest) r = r
Change-IsRevoked h (add_invite g i new known) r = r
Change-IsRevoked h (add_reset g x new) r = r
Change-IsRevoked {a = a} h (use_reset t token x hash there) r =
    rw (lookup-update_all (revoke_of_user t x.user_id) h a.sessions)
      (revoked_row-map _ (lookup h a.sessions) (λ y gone. ground (arith, gone)) r)
Change-IsRevoked h (log m) r = r

serve_all-IsRevoked :
    (crypto : Crypto) (s : Server) (rs : List Request) (h : String)
    → IsRevoked h s.db
    → IsRevoked h (serve_all crypto s rs).db
serve_all-IsRevoked crypto s rs h r = go (serve_all-Changes crypto s rs)
  where
    go : {b : ControlDb} → Changes crypto s.db b → IsRevoked h b
    go unchanged = r
    go (changed before c) = Change-IsRevoked h c (go before)

revoked-principal :
    (now : ℕ) (users : Map String User) (o : Option Session)
    → revoked_row o ≡ true
    → session_principal now users o ≡ none
revoked-principal now users none r = refl
revoked-principal now users (some x) r = user (lookup x.user_id users)
  where
    user : (u : Option User) → session_user now x u ≡ none
    user none = refl
    user (some u) =
        let gone : is_none x.revoked_at ≡ false = ground (arith, r) in
        simp (session_user, gone) refl

principal-IsRevoked :
    (crypto : Crypto) (db : ControlDb) (d : Draws) (token : Text)
    → IsRevoked (crypto.token_hash token) db
    → principal crypto db d token ≡ none
unfolding principal
principal-IsRevoked crypto db d token r =
    ground
      (arith, revoked-principal d.now db.users (lookup (crypto.token_hash token) db.sessions) r)

revoke_of_user-revoked :
    (now : ℕ) (id : String) (x : Session)
    → x.user_id ≡ id
    → not (is_none (revoke_of_user now id x).revoked_at) ≡ true
revoke_of_user-revoked now id x same = ground (arith, (eq_string.equal_iff x.user_id id).1 same)

open_reset_user :
    (now : ℕ) (o : Option ResetToken) {r row : ResetToken}
    → open_reset now o ≡ some r
    → o ≡ some row
    → r.user_id ≡ row.user_id
open_reset_user now none is there = absurd (ground (arith, there))
open_reset_user now (some q) {r} {row} is there =
    elim (Bool-cases (is_none q.consumed_at && not (leb q.expires_at now))) [
      | inl usable ↦
          ap (λ z. z.user_id)
            (sym (some-injective q r (rw usable at is)) ∙ some-injective q row there)
      | inr closed ↦ absurd (ground (arith, rw closed at is))
    ]

-- When the reset of a password succeeds, a token of a session that the user of the reset token had
-- authenticates nobody after any further requests.
pub reset_signs_out :
    (crypto : Crypto) (s : Server) (d later : Draws) (req : ResetPassword) (row : ResetToken)
    (token : Text) (x : Session) (rs : List Request)
    → (handle_reset_password crypto s d (some req)).1 ≡ ok
    → lookup (crypto.token_hash req.token) s.db.password_reset_tokens ≡ some row
    → lookup (crypto.token_hash token) s.db.sessions ≡ some x
    → x.user_id ≡ row.user_id
    → principal crypto
        (serve_all crypto (handle_reset_password crypto s d (some req)).0 rs).db
        later
        token
      ≡ none
reset_signs_out crypto s d later req row token x rs succeeded known there owns =
    principal-IsRevoked crypto _ later token
      (serve_all-IsRevoked crypto _ rs (crypto.token_hash token) ended)
  where
    ended : IsRevoked (crypto.token_hash token) (handle_reset_password crypto s d (some req)).0.db
    ended =
        handle_reset_password_cases
          (λ out. out.1 ≡ ok → IsRevoked (crypto.token_hash token) out.0.db) crypto s d req
          (λ status wrong. absurd (ground (arith, wrong)))
          (λ r hash is done.
            rw
              (lookup-update_all (revoke_of_user d.now r.user_id) (crypto.token_hash token)
                s.db.sessions)
              (rw there (
                let same = owns ∙ sym (open_reset_user d.now _ is known) in
                revoke_of_user-revoked d.now r.user_id x same)))
          succeeded
