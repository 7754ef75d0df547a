-- ===== src/Store/Cursors.antt =====
-- internal/store/store.go: the recovery cursors. The table is a map by its primary key. Each statement
-- may fail: the environment chooses, by the next entry of `faults`, and a failed statement changes
-- nothing. Times are milliseconds; a zero time, which is stored as NULL, is `none`.
pub mod Laws
use message_sync.Base.{
  ℕ, Bool, true, false, not, ◌&&◌, ◌||◌, Option, none, some, String, codes, List, [], ◌∷◌, leb, ltb,
  if◌then◌else◌, ◌==◌, eq_nat, eq_string, all, length, Map, lookup, insert,
}

pub record CursorRow : Type 0 where
  pub position : ℕ
  pub event_timestamp : Option ℕ
  pub updated_at : ℕ

pub record Cursors : Type 0 where
  pub rows : Map String CursorRow
  pub faults : List Bool

pub data StoreError : Type 0 where
  invalid_argument database : StoreError

pub data CursorRead : Type 0 where
  found : CursorRow → CursorRead
  no_rows : CursorRead
  unreadable : StoreError → CursorRead

unfoldable pub is_alnum : ℕ → Bool
is_alnum c = (leb b'A' c && leb c b'Z') || (leb b'a' c && leb c b'z') || (leb b'0' c && leb c b'9')

-- `[A-Za-z0-9][A-Za-z0-9_:-]{0,63}`
unfoldable pub matches_stream_key : List ℕ → Bool
unfolding is_alnum
matches_stream_key [] = false
matches_stream_key (c ∷ cs) =
    is_alnum c
    && leb (length cs) 63
    && all (λ d. is_alnum d || d == b'_' || d == b':' || d == b'-') cs

abbrev pub valid_stream_key : String → Bool
valid_stream_key key = matches_stream_key (codes key)

-- Whether the next statement fails, and the later ones.
abbrev pub next_fault : List Bool → Bool
next_fault [] = false
next_fault (b ∷ bs) = b

abbrev pub later_faults : List Bool → List Bool
later_faults [] = []
later_faults (b ∷ bs) = bs

-- `ON CONFLICT DO UPDATE … WHERE excluded.position > recovery_cursors.position`
unfoldable pub upsert_cursor : String → CursorRow → Map String CursorRow → Map String CursorRow
upsert_cursor key row rows = elim (lookup key rows) [
  | none ↦ insert key row rows
  | some old ↦ if ltb old.position row.position then insert key row rows else rows
]

unfoldable pub put_recovery_cursor : Cursors → String → CursorRow → Cursors × Option StoreError
unfolding upsert_cursor
put_recovery_cursor s key row =
    if not (valid_stream_key key)
    then (s, some invalid_argument)
    else if next_fault s.faults
    then (record s { faults = later_faults s.faults }, some database)
    else (record s { rows = upsert_cursor key row s.rows; faults = later_faults s.faults }, none)

unfoldable pub read_row : Option CursorRow → CursorRead
read_row none = no_rows
read_row (some row) = found row

unfoldable pub recovery_cursor : Cursors → String → Cursors × CursorRead
unfolding read_row
recovery_cursor s key =
    if not (valid_stream_key key)
    then (s, unreadable invalid_argument)
    else if next_fault s.faults
    then (record s { faults = later_faults s.faults }, unreadable database)
    else (record s { faults = later_faults s.faults }, read_row (lookup key s.rows))

-- The position that a stream would start from.
abbrev pub position_of : Option CursorRow → ℕ
position_of none = 0
position_of (some row) = row.position
