-- ===== src/Private/Permits.antt =====
-- internal/privatedm/relay.go, `permit`: how many messages pass within a minute.
use message_sync.Base.{
  ℕ, ◌+◌, ◌/◌, Bool, true, false, ◌||◌, Option, none, some, String, [], ◌∷◌, leb, if◌then◌else◌,
  ◌==◌, eq_nat, eq_string, length, Map, lookup, insert,
}

pub record Window : Type 0 where
  pub minute : ℕ
  pub count : ℕ

-- The windows of the minute; the others are deleted.
unfoldable pub this_minute : ℕ → Map String Window → Map String Window
this_minute minute [] = []
this_minute minute ((k, w) ∷ rest) =
    let kept = this_minute minute rest in if w.minute == minute then (k, w) ∷ kept else kept

abbrev pub count_of : Option Window → ℕ
count_of none = 0
count_of (some w) = w.count

abbrev pub decide : Map String Window → String → ℕ → ℕ → ℕ → Map String Window × Bool
decide limits key minute count max =
    if leb max count || leb 10000 (length limits)
    then (limits, false)
    else (insert key (record { minute = minute; count = count + 1 }) limits, true)

-- At a time in seconds.
unfoldable pub permit : Map String Window → String → ℕ → ℕ → Map String Window × Bool
permit limits key now max =
    let minute = now / 60 in
    let live = this_minute minute limits in decide live key minute (count_of (lookup key live)) max
