-- ===== src/Store/Cursors/Laws.antt =====
-- What a write of a cursor does to the positions of all streams.
use message_sync.Base.{
  ℕ, none, some, String, if◌then◌else◌, ◌==◌, eq_string, Map, lookup, lookup-insert, ◌≡◌, arith,
  max,
}
use message_sync.Store.Cursors.{
  Cursors, CursorRow, StoreError, upsert_cursor, put_recovery_cursor, recovery_cursor, position_of,
  found, no_rows, read_row,
}

abbrev pub position_at : String → Cursors → ℕ
position_at key s = position_of (lookup key s.rows)

pub upsert_cursor-position :
    (key k : String) (row : CursorRow) (rows : Map String CursorRow)
    → position_of (lookup k (upsert_cursor key row rows)) ≡ (
        if key == k
        then max (position_of (lookup k rows)) row.position
        else position_of (lookup k rows))
unfolding upsert_cursor
upsert_cursor-position key k row rows =
    ground (arith, lookup-insert key k row rows, eq_string.equal_iff key k)

pub put_recovery_cursor-position :
    (s : Cursors) (key k : String) (row : CursorRow)
    → (put_recovery_cursor s key row).1 ≡ none
    → position_at k (put_recovery_cursor s key row).0
      ≡ (if key == k then max (position_at k s) row.position else position_at k s)
unfolding put_recovery_cursor
put_recovery_cursor-position s key k row h = ground (arith, upsert_cursor-position key k row s.rows)

pub put_recovery_cursor-failed :
    (s : Cursors) (key : String) (row : CursorRow) {e : StoreError}
    → (put_recovery_cursor s key row).1 ≡ some e
    → (put_recovery_cursor s key row).0.rows ≡ s.rows
unfolding put_recovery_cursor
put_recovery_cursor-failed s key row h = ground arith

pub recovery_cursor-rows : (s : Cursors) (key : String) → (recovery_cursor s key).0.rows ≡ s.rows
unfolding recovery_cursor
recovery_cursor-rows s key = ground arith

pub recovery_cursor-found :
    (s : Cursors) (key : String) (row : CursorRow)
    → (recovery_cursor s key).1 ≡ found row
    → lookup key s.rows ≡ some row
unfolding recovery_cursor read_row
recovery_cursor-found s key row h = ground arith

pub recovery_cursor-no_rows :
    (s : Cursors) (key : String) → (recovery_cursor s key).1 ≡ no_rows → lookup key s.rows ≡ none
unfolding recovery_cursor read_row
recovery_cursor-no_rows s key h = ground arith
