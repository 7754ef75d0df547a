-- ===== src/Store/Claims.antt =====
-- internal/store/store.go, `ClaimDeliveryOperation`: a worker takes a queued operation.
pub mod Laws
use message_sync.Base.{
  ℕ, suc, ◌+◌, Bool, true, false, not, Option, none, some, if◌then◌else◌, Map, lookup, insert,
}
use message_sync.Store.Cursors.{next_fault, later_faults}
use message_sync.Store.Ledger.{Store, Operation, queued, retrying, validate_delivery_identity}
use message_sync.Store.Ledger.Keys.{OpKey, eq_op_key}

-- The operation that a claim finds: claimed, or as it is.
abbrev pub is_queued : Option Operation → Bool
is_queued none = false
is_queued (some op) = elim op.state [ queued ↦ true | _ ↦ false ]

abbrev pub claimed_rows : Map OpKey Operation → OpKey → Map OpKey Operation
claimed_rows rows k = elim (lookup k rows) [
  | none ↦ rows
  | some op ↦ insert k (record op { state = retrying; attempt_count = op.attempt_count + 1 }) rows
]

-- Whether the claim succeeded, or `none` for an error.
unfoldable pub claim_delivery_operation : Store → OpKey → Store × Option Bool
claim_delivery_operation s k =
    let s' = record s { faults = later_faults s.faults } in
    if not (validate_delivery_identity k)
    then (s, none)
    else if next_fault s.faults
    then (s', none)
    else if is_queued (lookup k s.operations)
    then (record s' { operations = claimed_rows s.operations k }, some true)
    else (s', some false)
