-- ===== src/Base/Maps.antt =====
-- Go maps as association lists. An absent key is `none`; iteration order is left to the list.
use Prim.Native.Nat.{ℕ, suc}
use mathlib.Core.Path.{◌≡◌, refl, sym, subst}
use mathlib.Core.Logic.{inl, inr}
use mathlib.Core.Bool.{Bool, true, false}
use mathlib.Core.List.{List, [], ◌∷◌, map}
use mathlib.Core.Option.{Option, none, some, some-injective}
use native.Mathlib.Omega.{arith}
use message_sync.Base.Tests.{HasEq, ◌==◌, if◌then◌else◌, Bool-cases, Option-cases}

abbrev pub Map {ℓ κ} : Type ℓ → Type κ → Type (ℓ ⊔ κ)
Map K V = List (K × V)

abbrev pub keys {ℓ κ} : {K : Type ℓ} {V : Type κ} → Map K V → List K
keys = map (λ e. e.0)

module _ {ℓ κ} {K : Type ℓ} {V : Type κ} ⦃e : HasEq K⦄ where
  unfoldable pub lookup : K → Map K V → Option V
  lookup k [] = none
  lookup k ((other, old) ∷ rest) = if other == k then some old else lookup k rest

  unfoldable pub insert : K → V → Map K V → Map K V
  insert k v [] = (k, v) ∷ []
  insert k v ((other, old) ∷ rest) =
      if other == k then (k, v) ∷ rest else (other, old) ∷ insert k v rest

  unfoldable pub delete : K → Map K V → Map K V
  delete k [] = []
  delete k ((j, w) ∷ m) = let rest = delete k m in if j == k then rest else (j, w) ∷ rest

  -- `_, ok := m[k]`
  abbrev pub has : K → Map K V → Bool
  has k m = elim (lookup k m) [ none ↦ false | some _ ↦ true ]

  pub lookup-insert :
      (k j : K) (v : V) (m : Map K V)
      → lookup j (insert k v m) ≡ (if k == j then some v else lookup j m)
  unfolding lookup insert
  lookup-insert k j v [] = ground arith
  lookup-insert k j v ((i, old) ∷ m) =
      ground (arith, e.equal_iff k j, e.equal_iff i k, e.equal_iff i j, lookup-insert k j v m)

  pub lookup-delete :
      (k j : K) (m : Map K V) → lookup j (delete k m) ≡ (if k == j then none else lookup j m)
  unfolding lookup delete
  lookup-delete k j [] = ground arith
  lookup-delete k j ((i, w) ∷ m) =
      ground (arith, e.equal_iff k j, e.equal_iff i k, e.equal_iff i j, lookup-delete k j m)

  pub lookup-has : (k : K) (m : Map K V) → has k m ≡ false → lookup k m ≡ none
  lookup-has k m missing = elim (Option-cases (lookup k m)) [
    | inl nothing ↦ nothing
    | inr (v, there) ↦ absurd (ground (arith, simp (there, has) at missing))
  ]

  -- A key with a row is not one without.
  pub lookup-differ :
      (j k : K) (m : Map K V) {v : V} → lookup j m ≡ none → lookup k m ≡ some v → (j == k) ≡ false
  lookup-differ j k m {v} missing there = elim (Bool-cases (j == k)) [
    | inr other ↦ other
    | inl same ↦ absurd (
        ground
          (arith, missing, subst (λ i. lookup i m ≡ some v) (sym ((e.equal_iff j k).0 same)) there))
  ]

  -- No key stands twice, which a Go map gives for nothing.
  abbrev pub Distinct : Map K V → Type κ
  Distinct [] = Unit
  Distinct ((k, v) ∷ m) = (lookup k m ≡ none) × Distinct m

  pub insert-Distinct : (k : K) (v : V) (m : Map K V) → Distinct m → Distinct (insert k v m)
  unfolding insert lookup
  insert-Distinct k v [] d = (refl, tt)
  insert-Distinct k v ((j, w) ∷ m) d =
      ground
        (arith, e.equal_iff j k, e.equal_iff k j, lookup-insert k j v m, insert-Distinct k v m d.1)

  pub delete-Distinct : (k : K) (m : Map K V) → Distinct m → Distinct (delete k m)
  unfolding delete lookup
  delete-Distinct k [] d = tt
  delete-Distinct k ((j, w) ∷ m) d = ground (arith, lookup-delete k j m, delete-Distinct k m d.1)

  -- Every value of a map has a property.
  abbrev pub AllValues {μ} : (V → Type μ) → Map K V → Type μ
  AllValues P [] = Unit
  AllValues P ((k, v) ∷ m) = P v × AllValues P m

  pub insert-AllValues {μ} :
      (P : V → Type μ) (k : K) (v : V) (m : Map K V)
      → P v
      → AllValues P m
      → AllValues P (insert k v m)
  unfolding insert
  insert-AllValues P k v [] p h = (p, tt)
  insert-AllValues P k v ((j, w) ∷ m) p h = elim (Bool-cases (j == k)) [
    | inl same ↦ rw same (p, h.1)
    | inr other ↦ rw other (h.0, insert-AllValues P k v m p h.1)
  ]

  pub lookup-AllValues {μ} :
      (P : V → Type μ) (k : K) (m : Map K V) {v : V} → AllValues P m → lookup k m ≡ some v → P v
  unfolding lookup
  lookup-AllValues P k [] h found = cc
  lookup-AllValues P k ((j, w) ∷ m) h found = elim (Bool-cases (j == k)) [
    | inl same ↦ subst P (some-injective _ _ (rw same at found)) h.0
    | inr other ↦ lookup-AllValues P k m h.1 (rw other at found)
  ]

-- SQL's `UPDATE` of every row of a table.
abbrev pub update_all {ℓ κ} : {K : Type ℓ} {V : Type κ} → (V → V) → Map K V → Map K V
update_all f [] = []
update_all f ((k, v) ∷ m) = (k, f v) ∷ update_all f m

abbrev pub option_map {ℓ κ} : {A : Type ℓ} {B : Type κ} → (A → B) → Option A → Option B
option_map f none = none
option_map f (some a) = some (f a)

pub lookup-update_all {ℓ κ} :
    {K : Type ℓ} {V : Type κ} ⦃e : HasEq K⦄ (f : V → V) (k : K) (m : Map K V)
    → lookup k (update_all f m) ≡ option_map f (lookup k m)
unfolding lookup
lookup-update_all f k [] = refl
lookup-update_all f k ((j, w) ∷ m) = elim (Bool-cases (j == k)) [
  | inl same ↦ simp (same, lookup) refl
  | inr other ↦ simp (other, lookup) (lookup-update_all f k m)
]

-- `SELECT COUNT(*) … WHERE`
abbrev pub count_rows {ℓ κ} : {K : Type ℓ} {V : Type κ} → (V → Bool) → Map K V → ℕ
count_rows p [] = 0
count_rows p ((k, v) ∷ m) = let n = count_rows p m in if p v then suc n else n
