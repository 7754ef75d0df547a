-- ===== src/Api/Changes/Admins.antt =====
-- Once an account exists, some administrator is active.
use message_sync.Base.{
  ℕ, ◌+◌, ◌≤◌, Bool, true, false, Option, none, some, String, ◌≡◌, refl, Map, lookup, insert, has,
  count_rows, eq_string, eq_nat, ◌==◌, Bool-cases, Option-cases, inl, inr, arith, ◌⊎◌, List, [],
  ◌∷◌, subst,
}
use message_sync.Api.Accounts.{User, ControlDb, Crypto}
use message_sync.Api.Handlers.{Server, update_user, set_password}
use message_sync.Api.Activation.{active_admin, set_active, set_active_password}
use message_sync.Api.Access.{Request}
use message_sync.Api.Changes.{
  Change, Changes, unchanged, changed, add_session, end_session, end_others, first_user,
  invited_user, new_password, activation, add_invite, add_reset, use_reset, log,
}
use message_sync.Api.Changes.Requests.{serve_all, serve_all-Changes}

abbrev one_if : Bool → ℕ
one_if true = 1
one_if false = 0

abbrev pub at_key {ℓ} : {A : Type ℓ} → (A → Bool) → Option A → ℕ
at_key p none = 0
at_key p (some v) = one_if (p v)

count_rows-insert :
    {V : Type 0} (p : V → Bool) (k : String) (v : V) (m : Map String V)
    → count_rows p (insert k v m) + at_key p (lookup k m) ≡ count_rows p m + one_if (p v)
unfolding insert lookup
count_rows-insert p k v [] = ground arith
count_rows-insert p k v ((j, w) ∷ m) = elim (Bool-cases (j == k)) [
  | inl same ↦ simp (same, insert, lookup) (ground arith)
  | inr other ↦ simp (other, insert, lookup) (ground (arith, count_rows-insert p k v m))
]

-- The same where it is known what stands at the key.
count_rows-at :
    {V : Type 0} (p : V → Bool) (k : String) (v : V) (m : Map String V) {o : Option V}
    → lookup k m ≡ o
    → count_rows p (insert k v m) + at_key p o ≡ count_rows p m + one_if (p v)
count_rows-at p k v m there =
    subst (λ o. count_rows p (insert k v m) + at_key p o ≡ count_rows p m + one_if (p v)) there
      (count_rows-insert p k v m)

-- Nobody has an account and no invite is out, or some administrator is active.
abbrev pub HasAdmin : ControlDb → Type 0
HasAdmin db = ((db.users ≡ []) × (db.user_invites ≡ [])) ⊎ (1 ≤ count_rows active_admin db.users)

-- A change of one user that leaves an active administrator one.
update_user-count :
    (id : String) (f : User → User) (users : Map String User)
    → ((u : User) → lookup id users ≡ some u → active_admin u ≡ true → active_admin (f u) ≡ true)
    → count_rows active_admin users ≤ count_rows active_admin (update_user id f users)
update_user-count id f users keeps = elim (Option-cases (lookup id users)) [
  | inl missing ↦ simp (missing, update_user) (omega arith)
  | inr (u, there) ↦
      simp (there, update_user)
        (ground (arith, count_rows-at active_admin id (f u) users there, keeps u there))
]

-- A change of one user that leaves administrators what they are.
update_user-HasAdmin :
    (db : ControlDb) (id : String) (f : User → User)
    → ((u : User) → active_admin (f u) ≡ active_admin u)
    → HasAdmin db
    → HasAdmin (record db { users = update_user id f db.users })
unfolding lookup
update_user-HasAdmin db id f same (inl (none_there, no_invites)) =
    inl (simp none_there refl, no_invites)
update_user-HasAdmin db id f same (inr some_there) =
    inr (omega (arith, some_there, update_user-count id f db.users (λ u there h. cc (same u, h))))

Change-HasAdmin : {crypto : Crypto} {a b : ControlDb} → Change crypto a b → HasAdmin a → HasAdmin b
unfolding lookup
Change-HasAdmin (add_session g x new) h = h
Change-HasAdmin (end_session t g x there) h = h
Change-HasAdmin (end_others t id kept) h = h
Change-HasAdmin {a = a} (first_user id u new rules) h =
    inr (ground (arith, count_rows-at active_admin id u a.users new))
Change-HasAdmin (invited_user t g i id u there new) (inl (nobody, no_invites)) =
    absurd (ground (arith, simp (no_invites, lookup) at there))
Change-HasAdmin {a = a} (invited_user t g i id u there new) (inr some_there) =
    inr (ground (arith, count_rows-at active_admin id u a.users new))
Change-HasAdmin {a = a} (new_password id hash) h =
    update_user-HasAdmin a id (set_password hash) (λ u. refl) h
Change-HasAdmin (activation id u on there rest) (inl (nobody, no_invites)) =
    absurd (ground (arith, simp (nobody, lookup) at there))
Change-HasAdmin {a = a} (activation id u on there rest) (inr some_there) = inr (
    simp (there, update_user)
      (ground (arith, count_rows-at active_admin id (set_active on u) a.users there)))
Change-HasAdmin (add_invite g i new known) (inl (nobody, no_invites)) =
    absurd (ground (arith, simp (nobody, lookup, has) at known))
Change-HasAdmin (add_invite g i new known) (inr some_there) = inr some_there
Change-HasAdmin (add_reset g r new) h = h
Change-HasAdmin {a = a} (use_reset t token r hash there) h =
    update_user-HasAdmin a r.user_id (set_active_password hash) (λ u. ground arith) h
Change-HasAdmin (log m) h = h

Changes-HasAdmin :
    {crypto : Crypto} {a b : ControlDb} → Changes crypto a b → HasAdmin a → HasAdmin b
Changes-HasAdmin unchanged h = h
Changes-HasAdmin (changed before c) h = Change-HasAdmin c (Changes-HasAdmin before h)

-- From tables without users and invites, or with an active administrator, every list of requests, with
-- whatever failures, leads to tables without users and invites, or with an active administrator.
pub serve_all-HasAdmin :
    (crypto : Crypto) (s : Server) (rs : List Request)
    → HasAdmin s.db
    → HasAdmin (serve_all crypto s rs).db
serve_all-HasAdmin crypto s rs h = Changes-HasAdmin (serve_all-Changes crypto s rs) h
