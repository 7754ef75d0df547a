-- ===== src/Store/Ledger.antt =====
-- internal/store/store.go and schema.sql: canonical messages, message copies, delivery operations and
-- create steps. A table is a map by its primary key. Each statement may fail, by the next entry of
-- `faults`. Columns that hold a time are left out: no decision here reads them. `TrimSpace` is that of
-- ASCII text.
pub mod Keys
pub mod Laws
use message_sync.Base.{
  ℕ, ◌+◌, Bool, true, false, not, ◌&&◌, ◌||◌, Option, none, some, String, codes, List, [], ◌∷◌, leb,
  if◌then◌else◌, ◌==◌, eq_nat, eq_string, all, any, length, Map, lookup, insert, delete,
}
use message_sync.Transport.Failure.{GoError, plain, FailureClass, other, valid_failure_class}
use message_sync.Store.Cursors.{is_alnum, next_fault, later_faults}
use Keys.{
  OpKey, StepKey, CopyKey, PollKey, StepKind, eq_op_key, eq_step_key, eq_copy_key, eq_poll_key,
}

pub data DeliveryState : Type 0 where
  queued retrying awaiting_replay delivery_failed : DeliveryState

pub data StepState : Type 0 where
  pending complete ambiguous : StepState

pub record Operation : Type 0 where
  pub state : DeliveryState
  pub attempt_count : ℕ
  pub failure_class : Option FailureClass

pub record CreateStep : Type 0 where
  pub state : StepState
  pub remote_message_id : String

pub record MessageCopy : Type 0 where
  pub remote_message_id : String
  pub from_self : Bool

pub record Store : Type 0 where
  -- Whether a canonical message is tombstoned.
  pub canonicals : Map String Bool
  -- By canonical message and endpoint, with the unique pair of endpoint and remote id beside.
  pub copies : Map CopyKey MessageCopy
  pub remotes : Map CopyKey String
  pub operations : Map OpKey Operation
  pub steps : Map StepKey CreateStep
  pub poll_refs : Map PollKey String
  -- The sync set of each endpoint.
  pub endpoint_sets : Map String (Option String)
  pub faults : List Bool

-- The error of a statement: sql.ErrNoRows, or any other.
abbrev pub err_no_rows : GoError
err_no_rows = plain "sql: no rows in result set"

abbrev pub err_database : GoError
err_database = plain "database"

abbrev pub err_invalid : GoError
err_invalid = plain "invalid argument"

unfoldable pub is_space : ℕ → Bool
is_space c = (leb 9 c && leb c 13) || c == 32

-- `requireOpaque`
unfoldable pub require_opaque : String → Bool
unfolding is_space
require_opaque value =
    not (all is_space (codes value)) && not (any (λ c. c == 13 || c == 10 || c == 0) (codes value))

-- `[A-Za-z0-9][A-Za-z0-9_-]{0,63}`
unfoldable pub matches_endpoint : List ℕ → Bool
unfolding is_alnum
matches_endpoint [] = false
matches_endpoint (c ∷ cs) =
    is_alnum c && leb (length cs) 63 && all (λ d. is_alnum d || d == b'_' || d == b'-') cs

unfoldable pub validate_endpoint : String → Bool
unfolding matches_endpoint
validate_endpoint endpoint = matches_endpoint (codes endpoint)

unfoldable pub validate_delivery_identity : OpKey → Bool
unfolding require_opaque validate_endpoint
validate_delivery_identity k =
    require_opaque k.canonical && validate_endpoint k.endpoint && require_opaque k.kind

-- One statement that writes: the store after it, and its error.
unfoldable pub exec : Store → Bool → Store → Store × Option GoError
exec s valid written =
    if not valid
    then (s, some err_invalid)
    else if next_fault s.faults
    then (record s { faults = later_faults s.faults }, some err_database)
    else (record written { faults = later_faults s.faults }, none)

unfoldable pub is_tombstoned : Store → String → Store × (Option Bool × GoError)
unfolding require_opaque
is_tombstoned s canonical =
    if not (require_opaque canonical)
    then (s, (none, err_invalid))
    else (let s' = record s { faults = later_faults s.faults } in
        if next_fault s.faults
        then (s', (none, err_database))
        else (s', (lookup canonical s.canonicals, err_no_rows)))

unfoldable pub tombstone : Store → String → Store
tombstone s canonical = elim (lookup canonical s.canonicals) [
  | none ↦ s
  | some _ ↦ record s { canonicals = insert canonical true s.canonicals }
]

-- `INSERT … ON CONFLICT DO NOTHING`
unfoldable pub upsert_delivery_operation : Store → OpKey → Operation → Store × Option GoError
unfolding exec validate_delivery_identity
upsert_delivery_operation s k op =
    exec s (validate_delivery_identity k) (elim (lookup k s.operations) [
      | none ↦ record s { operations = insert k op s.operations }
      | some _ ↦ s
    ])

abbrev pub change_operation : Store → OpKey → (Operation → Operation) → Store
change_operation s k f = elim (lookup k s.operations) [
  | none ↦ s
  | some op ↦ record s { operations = insert k (f op) s.operations }
]

unfoldable pub begin_delivery_attempt : Store → OpKey → Store × Option GoError
unfolding exec validate_delivery_identity
begin_delivery_attempt s k = exec s (validate_delivery_identity k) (
    change_operation s k λ op. record op { state = retrying; attempt_count = op.attempt_count + 1 })

-- A class of `none` is the empty text.
unfoldable pub valid_stored_class : Option FailureClass → Bool
unfolding valid_failure_class
valid_stored_class none = true
valid_stored_class (some (other s)) = s == ""
valid_stored_class (some c) = valid_failure_class c

unfoldable pub set_delivery_operation_state :
    Store → OpKey → DeliveryState → Option FailureClass → Store × Option GoError
unfolding exec validate_delivery_identity valid_stored_class
set_delivery_operation_state s k state class =
    exec s (validate_delivery_identity k && valid_stored_class class)
      (change_operation s k λ op. record op { state = state; failure_class = class })

unfoldable pub mark_awaiting_replay : Store → OpKey → Store × Option GoError
unfolding set_delivery_operation_state
mark_awaiting_replay s k = set_delivery_operation_state s k awaiting_replay none

unfoldable pub mark_failed : Store → OpKey → FailureClass → Store × Option GoError
unfolding set_delivery_operation_state
mark_failed s k class = set_delivery_operation_state s k delivery_failed (some class)

-- The row, or the error.
unfoldable pub delivery_operation : Store → OpKey → Store × (Option Operation × GoError)
delivery_operation s k =
    let s' = record s { faults = later_faults s.faults } in
    if next_fault s.faults
    then (s', (none, err_database))
    else (s', (lookup k s.operations, err_no_rows))

-- Whether the error is `sql.ErrNoRows`.
abbrev pub is_no_rows : GoError → Bool
is_no_rows (plain s) = s == "sql: no rows in result set"
is_no_rows _ = false

unfoldable pub delete_delivery_operation : Store → OpKey → Store × Option GoError
unfolding exec validate_delivery_identity
delete_delivery_operation s k =
    exec s (validate_delivery_identity k) (record s { operations = delete k s.operations })

unfoldable pub upsert_create_step : Store → StepKey → CreateStep → Store × Option GoError
unfolding exec validate_delivery_identity
upsert_create_step s k step =
    exec s
      (validate_delivery_identity (record {
        canonical = k.canonical;
        endpoint = k.endpoint;
        kind = "create";
        revision = k.revision;
      }))
      (elim (lookup k s.steps) [ none ↦ record s { steps = insert k step s.steps } | some _ ↦ s ])

-- `CreateStep`: the row, or the error.
unfoldable pub create_step : Store → StepKey → Store × (Option CreateStep × GoError)
create_step s k =
    let s' = record s { faults = later_faults s.faults } in
    if next_fault s.faults
    then (s', (none, err_database))
    else (s', (lookup k s.steps, err_no_rows))

unfoldable pub complete_create_step : Store → StepKey → String → Bool → Store × Option GoError
unfolding exec
complete_create_step s k remote is_ambiguous = exec s true (elim (lookup k s.steps) [
  | none ↦ s
  | some step ↦ record s {
    steps =
        insert k
          (record {
            state = if is_ambiguous then ambiguous else complete;
            remote_message_id = remote;
          })
          s.steps;
  }
])

-- `AddMessageCopy`, with both keys of the table and its foreign key.
unfoldable pub add_message_copy : Store → String → String → String → Bool → Store × Option GoError
unfolding require_opaque validate_endpoint
add_message_copy s canonical endpoint remote from_self =
    let s' = record s { faults = later_faults s.faults } in
    let k : CopyKey = record { first = canonical; second = endpoint } in
    let rk : CopyKey = record { first = endpoint; second = remote } in
    if not (require_opaque canonical && validate_endpoint endpoint && require_opaque remote)
    then (s, some err_invalid)
    else if next_fault s.faults
    then (s', some err_database)
    else elim (lookup canonical s.canonicals) [
      | none ↦ (s', some err_database)
      | some _ ↦ elim (lookup k s.copies) [
        | some _ ↦ (s', some err_database)
        | none ↦ elim (lookup rk s.remotes) [
          | some _ ↦ (s', some err_database)
          | none ↦ (
            record s' {
              copies =
                  insert k (record { remote_message_id = remote; from_self = from_self }) s.copies;
              remotes = insert rk canonical s.remotes;
            },
            none,
          )
        ]
      ]
    ]

-- `SavePollProviderRef`
unfoldable pub save_poll_provider_ref : Store → PollKey → String → Store × Option GoError
unfolding exec require_opaque validate_endpoint
save_poll_provider_ref s k reference =
    exec s
      (require_opaque k.canonical
        && validate_endpoint k.endpoint
        && require_opaque k.provider
        && require_opaque reference)
      (record s { poll_refs = insert k reference s.poll_refs })

abbrev is_owner : String → Option (Option String) → ℕ
is_owner set (some (some owner)) = if owner == set then 1 else 0
is_owner set _ = 0

-- How many of the rows of `endpoints` with one of the two aliases are in the sync set.
unfoldable pub count_in_set : Store → String → String → String → ℕ
count_in_set s set a b =
    let first = is_owner set (lookup a s.endpoint_sets) in
    if a == b then first else first + is_owner set (lookup b s.endpoint_sets)
