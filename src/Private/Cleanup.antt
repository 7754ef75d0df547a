-- ===== src/Private/Cleanup.antt =====
-- internal/controlstore/private_dm.go and internal/privatedm/relay.go: the removal of the relay's own
-- copies, the pruning of expired rows, and `Sweep`.
use message_sync.Base.{
  ℕ, zero, suc, ◌+◌, ◌/◌, Bool, true, false, not, ◌&&◌, ◌||◌, Option, none, some, String, List, [],
  ◌∷◌, leb, ltb, if◌then◌else◌, ◌==◌, eq_nat, eq_string, length, Map, lookup, insert, delete,
}
use message_sync.Store.Cursors.{next_fault, later_faults}
use message_sync.Private.Records.{PrivateCopy, Sealing, Candidate, PrivateTables, record_limit}

-- `DELETE … WHERE rowid IN (SELECT rowid … WHERE expires_at<=? LIMIT ?)`: the rows, and how many went.
unfoldable pub delete_expired : {V : Type 0} → (V → ℕ) → ℕ → ℕ → Map String V → Map String V × ℕ
delete_expired expiry now limit [] = ([], 0)
delete_expired expiry now zero (row ∷ rows) = (row ∷ rows, 0)
delete_expired expiry now (suc limit) ((k, v) ∷ rows) =
    let (without, n) = delete_expired expiry now limit rows in
    let (kept, m) = delete_expired expiry now (suc limit) rows in
    if leb (expiry v) now then (without, suc n) else ((k, v) ∷ kept, m)

-- The batches of one table, until one is not full; the next statements fail as the list says.
unfoldable pub prune_batches :
    {V : Type 0} → (V → ℕ) → ℕ → ℕ → ℕ → List Bool → Map String V → Map String V × List Bool × Bool
prune_batches expiry now limit zero faults rows = (rows, faults, true)
prune_batches expiry now limit (suc batches) faults rows =
    let (fewer, n) = delete_expired expiry now limit rows in
    let rest = prune_batches expiry now limit batches (later_faults faults) fewer in
    if next_fault faults
    then (rows, later_faults faults, false)
    else if ltb n limit
    then (fewer, later_faults faults, true)
    else rest

abbrev pub batch_limit : ℕ → ℕ
batch_limit n = if leb 1 n && leb n 100 then n else 100

-- One table, unless a statement failed before.
unfoldable pub prune_table :
    {V : Type 0}
    → (V → ℕ)
    → ℕ
    → ℕ
    → List Bool
    → Bool
    → Map String V
    → Map String V × List Bool × Bool
prune_table expiry now limit faults ok rows =
    if ok
    then prune_batches expiry now limit (record_limit / limit + 1) faults rows
    else (rows, faults, false)

-- `Prune`: a table after the other, up to a failure.
unfoldable pub prune : PrivateTables → ℕ → ℕ → List Bool → PrivateTables × Bool
prune t now n faults =
    let limit = batch_limit n in
    let (replies, after_replies, replies_ok) =
      prune_table (λ row. row.expires_at) now limit faults true t.replies in
    let (seen, after_seen, seen_ok) =
      prune_table (λ expires. expires) now limit after_replies replies_ok t.seen in
    let (cleanup, after_cleanup, cleanup_ok) =
      prune_table (λ row. row.expires_at) now limit after_seen seen_ok t.cleanup in
    let (inboxes, rest, inboxes_ok) =
      prune_table (λ row. row.expires_at) now limit after_cleanup cleanup_ok t.inboxes in
    (record { replies = replies; seen = seen; inboxes = inboxes; cleanup = cleanup }, inboxes_ok)

-- A candidate as `DueCleanup` returns it.
pub record Due : Type 0 where
  pub key : String
  pub copy : PrivateCopy
  pub attempts : ℕ

abbrev pub is_due : ℕ → Candidate → Bool
is_due now row =
    ltb row.attempts 3
    && leb row.cleanup_after now
    && leb row.next_attempt_at now
    && ltb now row.expires_at

-- `ORDER BY cleanup_after`
unfoldable pub insert_due : String × Candidate → Map String Candidate → Map String Candidate
insert_due row [] = row ∷ []
insert_due row (first ∷ rows) =
    if leb row.1.cleanup_after first.1.cleanup_after
    then row ∷ first ∷ rows
    else first ∷ insert_due row rows

unfoldable pub due_rows : ℕ → Map String Candidate → Map String Candidate
due_rows now [] = []
due_rows now ((k, row) ∷ rows) =
    let rest = due_rows now rows in if is_due now row then insert_due (k, row) rest else rest

-- The first rows in the clear, when all of them can be read.
unfoldable pub unseal_rows : Sealing PrivateCopy → ℕ → Map String Candidate → Option (List Due)
unseal_rows sealing zero rows = some []
unseal_rows sealing (suc n) [] = some []
unseal_rows sealing (suc n) ((k, row) ∷ rows) =
    let rest = unseal_rows sealing n rows in
    elim (sealing.unseal row.ciphertext) [
      | none ↦ none
      | some copy ↦ elim rest [
        | none ↦ none
        | some later ↦ some (record { key = k; copy = copy; attempts = row.attempts } ∷ later)
      ]
    ]

unfoldable pub due_cleanup : Sealing PrivateCopy → PrivateTables → ℕ → ℕ → Bool → Option (List Due)
due_cleanup sealing t now n fails =
    if fails then none else unseal_rows sealing (batch_limit n) (due_rows now t.cleanup)

abbrev pub may_begin : ℕ → ℕ → Candidate → Bool
may_begin now attempts row =
    row.attempts == attempts
    && ltb row.attempts 3
    && leb row.next_attempt_at now
    && ltb now row.expires_at

abbrev pub begun : ℕ → Candidate → Candidate
begun now row = record row { attempts = row.attempts + 1; next_attempt_at = now + 3600000 }

abbrev pub claim : PrivateTables → String → ℕ → ℕ → Option Candidate → PrivateTables × Option Bool
claim t key attempts now none = (t, some false)
claim t key attempts now (some row) =
    if may_begin now attempts row
    then (record t { cleanup = insert key (begun now row) t.cleanup }, some true)
    else (t, some false)

-- Whether the attempt was claimed, or `none` for an error.
unfoldable pub begin_cleanup : PrivateTables → Due → ℕ → Bool → PrivateTables × Option Bool
begin_cleanup t due now fails =
    if fails then (t, none) else claim t due.key due.attempts now (lookup due.key t.cleanup)

unfoldable pub finish_cleanup : PrivateTables → Due → Bool → Bool → PrivateTables × Bool
finish_cleanup t due succeeded fails =
    if succeeded || leb 2 due.attempts
    then (if fails then (t, false) else (record t { cleanup = delete due.key t.cleanup }, true))
    else (t, true)

-- What happens to one candidate of a sweep: the statements that fail, and whether the provider deletes.
pub record SweepStep : Type 0 where
  pub begin_fails : Bool
  pub deleted : Bool
  pub finish_fails : Bool

-- The tables, the copies that the provider was asked to delete, latest first, and whether the loop
-- reached the end.
unfoldable pub sweep_loop :
    PrivateTables
    → List Due
    → ℕ
    → (ℕ → SweepStep)
    → List PrivateCopy
    → PrivateTables × List PrivateCopy × Bool
sweep_loop t [] now steps asked = (t, asked, true)
sweep_loop t (due ∷ rest) now steps asked =
    let step = steps (length rest) in
    let (t', claimed) = begin_cleanup t due now step.begin_fails in
    let (t'', finished) = finish_cleanup t' due step.deleted step.finish_fails in
    let skipped = sweep_loop t' rest now steps asked in
    let later = sweep_loop t'' rest now steps (due.copy ∷ asked) in
    if not (due.copy.transport == "whatsapp") then (t, asked, false) else elim claimed [
      | none ↦ (t', asked, false)
      | some false ↦ skipped
      | some true ↦ if finished then later else (t'', due.copy ∷ asked, false)
    ]

-- `Sweep`, whose route_answer whether a deletion failed nobody decides by.
unfoldable pub sweep :
    Sealing PrivateCopy
    → PrivateTables
    → ℕ
    → List Bool
    → Bool
    → (ℕ → SweepStep)
    → PrivateTables × List PrivateCopy × Bool
sweep sealing t now faults due_fails steps =
    let (pruned, done) = prune t now 100 faults in
    if not done then (pruned, [], false) else elim (due_cleanup sealing pruned now 100 due_fails) [
      | none ↦ (pruned, [], false)
      | some due ↦ sweep_loop pruned due now steps []
    ]
