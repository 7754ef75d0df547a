-- ===== src/Delivery/Lanes/Views.antt =====
-- The jobs of one lane: those that started and those that were accepted.
use message_sync.Base.{ℕ, List, [], ◌∷◌, ◌++◌, ◌≡◌, refl, arith, if◌then◌else◌, ◌==◌, eq_nat}
use message_sync.Delivery.Lanes.{Run}

module _ {J : Type 0} (i : ℕ) where
  -- In the order in which they started or were accepted.
  abbrev pub started_at : List (Run J) → List J
  started_at [] = []
  started_at (r ∷ rs) = let rest = started_at rs in if r.lane == i then r.job ∷ rest else rest

  abbrev pub accepted_at : List (ℕ × J) → List J
  accepted_at [] = []
  accepted_at ((k, j) ∷ rs) = let rest = accepted_at rs in if k == i then j ∷ rest else rest

  pub started_at-append :
      (xs ys : List (Run J)) → started_at (xs ++ ys) ≡ started_at xs ++ started_at ys
  started_at-append [] ys = refl
  started_at-append (x ∷ xs) ys = ground (arith, started_at-append xs ys)

  pub accepted_at-append :
      (xs ys : List (ℕ × J)) → accepted_at (xs ++ ys) ≡ accepted_at xs ++ accepted_at ys
  accepted_at-append [] ys = refl
  accepted_at-append ((k, j) ∷ xs) ys = ground (arith, accepted_at-append xs ys)
