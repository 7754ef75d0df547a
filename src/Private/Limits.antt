-- ===== src/Private/Limits.antt =====
-- The rate limits of private messages hold.
use message_sync.Base.{
  ℕ, ◌+◌, ◌/◌, ◌≤◌, Bool, true, false, ◌||◌, some, String, List, [], ◌∷◌, leb, if◌then◌else◌, ◌==◌,
  eq_nat, nat_eq_iff, eq_string, length, Map, lookup, insert, lookup-insert, AllValues,
  insert-AllValues, All, Bool-cases, inl, inr, arith, ◌≡◌, refl, sym, ap, ◌∙◌, subst,
}
use message_sync.Private.Permits.{Window, this_minute, count_of, decide, permit}

pub record PermitCall : Type 0 where
  pub key : String
  pub now : ℕ
  pub max : ℕ

abbrev call : Map String Window → PermitCall → Map String Window × Bool
call limits c = permit limits c.key c.now c.max

abbrev one_if : Bool → ℕ
one_if true = 1
one_if false = 0

-- How many of the calls for a key are granted.
unfoldable pub granted : String → Map String Window → List PermitCall → ℕ
granted key limits [] = 0
granted key limits (c ∷ calls) =
    (if c.key == key then one_if (call limits c).1 else 0) + granted key (call limits c).0 calls

-- The call is made within the minute, and the key has its limit.
abbrev pub IsWithin : String → ℕ → ℕ → PermitCall → Type 0
IsWithin key minute max c = (c.now / 60 ≡ minute) × ((c.key == key) ≡ true → c.max ≤ max)

abbrev AreLive : ℕ → Map String Window → Type 0
AreLive minute = AllValues (λ w. (w.minute == minute) ≡ true)

pair_live :
    (minute : ℕ) (k : String) (w : Window) (rest : Map String Window)
    → (w.minute == minute) ≡ true
    → AreLive minute (this_minute minute rest)
    → AreLive minute (this_minute minute ((k, w) ∷ rest))
unfolding this_minute
pair_live minute k w rest live later =
    subst (AreLive minute)
      (sym (ap (λ b. if b then (k, w) ∷ this_minute minute rest else this_minute minute rest) live))
      (live, later)

this_minute-AreLive :
    (minute : ℕ) (limits : Map String Window) → AreLive minute (this_minute minute limits)
unfolding this_minute
this_minute-AreLive minute [] = tt
this_minute-AreLive minute ((k, w) ∷ rest) = elim (Bool-cases (w.minute == minute)) [
  | inl live ↦ pair_live minute k w rest live (this_minute-AreLive minute rest)
  | inr dead ↦ simp (dead, this_minute) (this_minute-AreLive minute rest)
]

AreLive-this_minute :
    (minute : ℕ) (limits : Map String Window)
    → AreLive minute limits
    → this_minute minute limits ≡ limits
unfolding this_minute
AreLive-this_minute minute [] live = refl
AreLive-this_minute minute ((k, w) ∷ rest) live =
    simp (live.0, this_minute) (ap (λ m. (k, w) ∷ m) (AreLive-this_minute minute rest live.1))

abbrev used : String → ℕ → Map String Window → ℕ
used key minute limits = count_of (lookup key (this_minute minute limits))

-- What a call in a minute does.
permit_cases {ℓ} :
    (P : Map String Window × Bool → Type ℓ) (limits : Map String Window) (c : PermitCall)
    → P (this_minute (c.now / 60) limits, false)
    → (leb c.max (used c.key (c.now / 60) limits) ≡ false
        → P (
          insert c.key
              (record { minute = c.now / 60; count = used c.key (c.now / 60) limits + 1 })
              (this_minute (c.now / 60) limits),
          true,
        ))
    → P (call limits c)
unfolding permit
permit_cases P limits c refused allowed =
    elim (Bool-cases (
      leb c.max (used c.key (c.now / 60) limits)
      || leb 10000 (length (this_minute (c.now / 60) limits)))) [
        | inl over ↦ simp (over, permit, decide) refused
        | inr under ↦ simp (under, permit, decide) (allowed (ground (arith, under)))
      ]

live_used :
    (key : String) (minute : ℕ) (limits : Map String Window)
    → used key minute (this_minute minute limits) ≡ used key minute limits
live_used key minute limits =
    ap (λ m. count_of (lookup key m))
      (AreLive-this_minute minute (this_minute minute limits) (this_minute-AreLive minute limits))

used-insert :
    (key k : String) (minute n : ℕ) (limits : Map String Window)
    → used key minute (insert k (record { minute = minute; count = n }) (this_minute minute limits))
      ≡ (if k == key then n else used key minute limits)
used-insert key k minute n limits =
    ap (λ m. count_of (lookup key m))
      (AreLive-this_minute minute
        (insert k (record { minute = minute; count = n }) (this_minute minute limits))
        (insert-AllValues (λ w. (w.minute == minute) ≡ true) k
          (record { minute = minute; count = n }) (this_minute minute limits)
          ((nat_eq_iff minute minute).1 refl) (this_minute-AreLive minute limits)))
    ∙ ap count_of
        (lookup-insert k key (record { minute = minute; count = n }) (this_minute minute limits))
    ∙ chosen (k == key)
  where
    chosen :
        (b : Bool)
        → count_of (
            if b
            then some (record { minute = minute; count = n })
            else lookup key (this_minute minute limits))
          ≡ (if b then n else used key minute limits)
    chosen true = refl
    chosen false = refl

granted_bounded :
    (key : String) (minute max c : ℕ) (limits : Map String Window) (calls : List PermitCall)
    → c ≤ used key minute limits
    → c ≤ max
    → All (IsWithin key minute max) calls
    → granted key limits calls + c ≤ max
unfolding granted
granted_bounded key minute max c limits [] low small within = omega (arith, small)
granted_bounded key minute max c limits (first ∷ calls) low small within =
    permit_cases
      (λ r. (if first.key == key then one_if r.1 else 0) + granted key r.0 calls + c ≤ max) limits
      first
      (idle (first.key == key) (
        granted_bounded key minute max c (this_minute (first.now / 60) limits) calls
          (subst (λ m. c ≤ used key minute (this_minute m limits)) (sym within.0.0)
            (rw (live_used key minute limits) low))
          small within.1))
      (λ under. elim (Bool-cases (first.key == key)) [
        | inl same ↦
            let mine =
              ap (λ k. used k (first.now / 60) limits) ((eq_string.equal_iff first.key key).0 same)
              ∙ ap (λ m. used key m limits) within.0.0 in
            let bound = within.0.1 same in
            let grown = rw same at next_used in
            rw same (
              omega (
                arith,
                granted_bounded key minute max (c + 1) next calls (omega (arith, low, mine, grown))
                    (ground (arith, under, bound, mine, low)) within.1,
              ))
        | inr other ↦
            let kept = rw other at next_used in
            rw other (
              omega (
                arith,
                granted_bounded key minute max c next calls (omega (arith, low, kept)) small
                    within.1,
              ))
      ])
  where
    idle :
        (b : Bool)
        → granted key (this_minute (first.now / 60) limits) calls + c ≤ max
        → (if b then one_if false else 0)
            + granted key (this_minute (first.now / 60) limits) calls
            + c
          ≤ max
    idle true h = omega (arith, h)
    idle false h = omega (arith, h)

    next : Map String Window
    next =
        insert first.key
          (record { minute = first.now / 60; count = used first.key (first.now / 60) limits + 1 })
          (this_minute (first.now / 60) limits)

    next_used : used key minute next ≡ (
        if first.key == key
        then used first.key (first.now / 60) limits + 1
        else used key minute limits)
    next_used =
        subst
          (λ m. used key m next ≡ (
            if first.key == key
            then used first.key (first.now / 60) limits + 1
            else used key m limits))
          within.0.0
          (used-insert key first.key (first.now / 60) (used first.key (first.now / 60) limits + 1)
            limits)

-- Whatever passed before, at most as many calls for a key are granted within a minute as its limit
-- says.
pub permits_per_minute :
    (key : String) (minute max : ℕ) (limits : Map String Window) (calls : List PermitCall)
    → All (IsWithin key minute max) calls
    → granted key limits calls ≤ max
permits_per_minute key minute max limits calls within =
    omega (arith, granted_bounded key minute max 0 limits calls (omega arith) (omega arith) within)
