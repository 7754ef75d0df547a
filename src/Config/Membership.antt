-- ===== src/Config/Membership.antt =====
-- In a valid configuration each endpoint stands in exactly one sync set.
use mathlib.Core.Option.{some-injective}
use message_sync.Base.{
  ℕ, suc, Bool, true, false, not, ◌||◌, Option, none, some, String, List, [], ◌∷◌, ◌≡◌, refl,
  if◌then◌else◌, ◌==◌, eq_string, any, all, Map, lookup, insert, lookup-insert, has, contains,
  Bool-cases, Option-cases, inl, inr, arith, sym, subst, ◌∙◌,
}
use message_sync.Config.{Endpoint, SyncSet, Config}
use message_sync.Config.Validation.{check_members, valid_set, check_sets, validate}

-- The first sync set that lists an endpoint.
unfoldable pub set_of : String → List SyncSet → Option SyncSet
set_of e [] = none
set_of e (set ∷ sets) = if contains set.endpoints e then some set else set_of e sets

has-insert :
    {V : Type 0} (k j : String) (v : V) (m : Map String V)
    → has j (insert k v m) ≡ (k == j || has j m)
has-insert k j v m = elim (Bool-cases (k == j)) [
  | inl same ↦ simp (lookup-insert k j v m, same, has) refl
  | inr other ↦ simp (lookup-insert k j v m, other, has) refl
]

-- What a successful check of one set says of an endpoint.
pub record IsChecked (endpoints : Map String Endpoint) (before after : Map String String)
    (es : List String) (e : String) : Type 0 where
  pub grows : has e after ≡ (has e before || contains es e)
  pub known : contains es e ≡ true → has e endpoints ≡ true
  pub apart : contains es e ≡ true → has e before ≡ false

check_members-IsChecked :
    (endpoints : Map String Endpoint) (id : String) (seen : List String)
    (before : Map String String) (es : List String) {after : Map String String}
    → check_members endpoints id seen before es ≡ some after
    → (e : String) → IsChecked endpoints before after es e
unfolding check_members
check_members-IsChecked endpoints id seen before [] is e =
    let same = some-injective before _ is in
    record {
      grows = subst (λ m. has e m ≡ (has e before || false)) same (ground arith);
      known = λ h. absurd (ground (arith, h));
      apart = λ h. absurd (ground (arith, h));
    }
check_members-IsChecked endpoints id seen before (a ∷ es) {after} is e =
    elim (Bool-cases (not (has a endpoints) || contains seen a || has a before)) [
      | inl bad ↦ absurd (ground (arith, rw bad at is))
      | inr good ↦
          let later =
            check_members-IsChecked endpoints id (a ∷ seen) (insert a id before) es (rw good at is)
              e in
          record {
            grows = ground (arith, later.grows, has-insert a e id before);
            known = λ h. elim (Bool-cases (a == e)) [
              | inl same ↦
                  subst (λ k. has k endpoints ≡ true) ((eq_string.equal_iff a e).0 same)
                    (ground (arith, good))
              | inr other ↦ later.known (ground (arith, h, other))
            ];
            apart = λ h. elim (Bool-cases (a == e)) [
              | inl same ↦
                  subst (λ k. has k before ≡ false) ((eq_string.equal_iff a e).0 same)
                    (ground (arith, good))
              | inr other ↦
                  ground (arith, later.apart (ground (arith, h, other)), has-insert a e id before)
            ];
          }
    ]

abbrev pub lists : String → SyncSet → Bool
lists e set = contains set.endpoints e

-- No later set lists an endpoint of a set, and what is listed is known.
abbrev pub AreApart : Map String Endpoint → List SyncSet → Type 0
AreApart endpoints [] = Unit {0}
AreApart endpoints (set ∷ sets) =
    ((e : String)
      → contains set.endpoints e ≡ true
      → (has e endpoints ≡ true) × (any (lists e) sets ≡ false))
    × AreApart endpoints sets

-- What a successful check of the sets says.
pub record AreChecked (endpoints : Map String Endpoint) (before after : Map String String)
    (sets : List SyncSet) : Type 0 where
  pub apart : AreApart endpoints sets
  pub grows : (e : String) → has e after ≡ (has e before || any (lists e) sets)
  pub unlisted : (e : String) → has e before ≡ true → any (lists e) sets ≡ false

check_sets-AreChecked :
    (endpoints : Map String Endpoint) (before : Map String String) (sets : List SyncSet)
    {after : Map String String}
    → check_sets endpoints before sets ≡ some after
    → AreChecked endpoints before after sets
unfolding check_sets
check_sets-AreChecked endpoints before [] is =
    let same = some-injective before _ is in
    record {
      apart = tt;
      grows = λ e. subst (λ m. has e m ≡ (has e before || false)) same (ground arith);
      unlisted = λ e h. refl;
    }
check_sets-AreChecked endpoints before (set ∷ sets) is = elim (Bool-cases (valid_set set)) [
  | inr wrong ↦ absurd (ground (arith, rw wrong at is))
  | inl right ↦ elim (Option-cases (check_members endpoints set.id [] before set.endpoints)) [
    | inl bad ↦ absurd (ground (arith, simp (right, bad) at is))
    | inr (next, good) ↦
        let later = check_sets-AreChecked endpoints next sets (simp (right, good) at is) in
        let now = check_members-IsChecked endpoints set.id [] before set.endpoints good in
        record {
          apart = (
            λ e h. ((now e).known h, later.unlisted e (ground (arith, (now e).grows, h))),
            later.apart,
          );
          grows = λ e. ground (arith, later.grows e, (now e).grows);
          unlisted = λ e h. ground (arith, later.unlisted e, (now e).grows, (now e).apart, h);
        }
  ]
]

pub validate-AreApart : (c : Config) → validate c ≡ true → AreApart c.endpoints c.sync_sets
unfolding validate
validate-AreApart c valid = elim (Option-cases (check_sets c.endpoints [] c.sync_sets)) [
  | inl bad ↦ absurd (ground (arith, simp bad at valid))
  | inr (after, good) ↦ (check_sets-AreChecked c.endpoints [] c.sync_sets good).apart
]

all-has :
    {V : Type 0} (p : String → Bool) (k : String) (m : Map String V)
    → all (λ e. p e.0) m ≡ true
    → has k m ≡ true
    → p k ≡ true
unfolding lookup
all-has p k [] every there = absurd (ground (arith, there))
all-has p k ((j, w) ∷ m) every there = elim (Bool-cases (j == k)) [
  | inl same ↦ subst (λ i. p i ≡ true) ((eq_string.equal_iff j k).0 same) (ground (arith, every))
  | inr other ↦ all-has p k m (ground (arith, every)) (simp (other, has, lookup) at there)
]

-- How many sync sets list an endpoint.
abbrev pub sets_listing : String → List SyncSet → ℕ
sets_listing e [] = 0
sets_listing e (set ∷ sets) =
    let n = sets_listing e sets in if contains set.endpoints e then suc n else n

sets_listing-AreApart :
    (endpoints : Map String Endpoint) (e : String) (sets : List SyncSet)
    → AreApart endpoints sets
    → sets_listing e sets ≡ (if any (lists e) sets then 1 else 0)
sets_listing-AreApart endpoints e [] apart = refl
sets_listing-AreApart endpoints e (set ∷ sets) apart =
    elim (Bool-cases (contains set.endpoints e)) [
      | inl mine ↦
          ground (arith, mine, (apart.0 e mine).1, sets_listing-AreApart endpoints e sets apart.1)
      | inr other ↦ ground (arith, other, sets_listing-AreApart endpoints e sets apart.1)
    ]

listed_known :
    (endpoints : Map String Endpoint) (e : String) (sets : List SyncSet)
    → AreApart endpoints sets
    → any (lists e) sets ≡ true
    → has e endpoints ≡ true
listed_known endpoints e [] apart h = absurd (ground (arith, h))
listed_known endpoints e (set ∷ sets) apart h = elim (Bool-cases (contains set.endpoints e)) [
  | inl mine ↦ (apart.0 e mine).0
  | inr other ↦ listed_known endpoints e sets apart.1 (ground (arith, h, other))
]

pub known_listed :
    (c : Config) (e : String)
    → validate c ≡ true
    → has e c.endpoints ≡ true
    → any (lists e) c.sync_sets ≡ true
unfolding validate lookup
known_listed c e valid known = elim (Option-cases (check_sets c.endpoints [] c.sync_sets)) [
  | inl bad ↦ absurd (ground (arith, simp bad at valid))
  | inr (after, good) ↦
      let checked = check_sets-AreChecked c.endpoints [] c.sync_sets good in
      let every : all (λ x. has x.0 after) c.endpoints ≡ true =
        ground (arith, simp good at valid) in
      sym (checked.grows e) ∙ all-has (λ k. has k after) e c.endpoints every known
]

-- In a valid configuration a configured endpoint stands in exactly one sync set, and any other name in
-- none.
pub one_set :
    (c : Config) (e : String)
    → validate c ≡ true
    → sets_listing e c.sync_sets ≡ (if has e c.endpoints then 1 else 0)
one_set c e valid =
    let apart = validate-AreApart c valid in
    ground (
      arith,
      sets_listing-AreApart c.endpoints e c.sync_sets apart,
      known_listed c e valid,
      listed_known c.endpoints e c.sync_sets apart,
    )
