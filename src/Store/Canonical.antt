-- ===== src/Store/Canonical.antt =====
-- internal/store/store.go, `ResolveOrCreateCanonical`: the canonical message of a source message. The
-- transaction is one statement of the fault list: it commits as a whole or changes nothing.
pub mod Laws
use message_sync.Base.{
  Bool, true, false, not, ◌&&◌, Option, none, some, String, if◌then◌else◌, Map, lookup, insert, has,
  eq_string,
}
use message_sync.Store.Cursors.{next_fault, later_faults}
use message_sync.Store.Ledger.{Store, MessageCopy, require_opaque, validate_endpoint}
use message_sync.Store.Ledger.Keys.{CopyKey, eq_copy_key}

-- The source message: its endpoint, its remote id, and whether the sync account sent it.
pub record Source : Type 0 where
  pub endpoint : String
  pub remote_message_id : String
  pub from_self : Bool

abbrev pub remote_key : Source → CopyKey
remote_key source = record { first = source.endpoint; second = source.remote_message_id }

abbrev pub copy_key : String → Source → CopyKey
copy_key canonical source = record { first = canonical; second = source.endpoint }

unfoldable pub valid_source : String → Source → Bool
unfolding require_opaque validate_endpoint
valid_source candidate source =
    require_opaque candidate
    && validate_endpoint source.endpoint
    && require_opaque source.remote_message_id

-- The two inserts, unless one meets a row with its key.
unfoldable pub create_canonical : Store → String → Source → Option Store
create_canonical s candidate source =
    if has candidate s.canonicals
    then none
    else if has (copy_key candidate source) s.copies
    then none
    else some (record s {
      canonicals = insert candidate false s.canonicals;
      copies =
          insert (copy_key candidate source)
            (record { remote_message_id = source.remote_message_id; from_self = source.from_self })
            s.copies;
      remotes = insert (remote_key source) candidate s.remotes;
    })

-- The store after it, and the canonical id with whether it is new, or the error.
unfoldable pub resolve_or_create_canonical :
    Store → String → Source → Store × Option (String × Bool)
resolve_or_create_canonical s candidate source =
    let s' = record s { faults = later_faults s.faults } in
    if not (valid_source candidate source)
    then (s, none)
    else if next_fault s.faults
    then (s', none)
    else elim (lookup (remote_key source) s.remotes) [
      | some existing ↦ (s', some (existing, false))
      | none ↦ elim (create_canonical s' candidate source) [
        | none ↦ (s', none)
        | some created ↦ (created, some (candidate, true))
      ]
    ]
