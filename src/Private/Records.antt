-- ===== src/Private/Records.antt =====
-- internal/controlstore/private_dm.go, `PrivateDMStore`. A table is a map by its key, which is a digest
-- of what identifies the row. Sealing is JSON and a cipher, of the caller. `fails` says that a statement
-- of the operation fails; times are milliseconds.
use message_sync.Base.{
  ℕ, ◌+◌, Bool, true, false, not, ◌&&◌, ◌||◌, Option, none, some, String, List, ltb, if◌then◌else◌,
  ◌==◌, eq_nat, eq_string, length, Map, lookup, insert, has,
}
use message_sync.Router.Registry.{PrivateInbox}

pub record PrivateCopy : Type 0 where
  pub connection_id : String
  pub transport : String
  pub owner_id : String
  pub token : List ℕ

pub record Side : Type 0 where
  pub endpoint : String
  pub binding : String
  pub actor_id : String
  pub inbox : PrivateInbox

pub record Mapping : Type 0 where
  pub author_message_id : String
  pub conversation_id : String
  pub sync_set_id : String
  pub author : Side
  pub recipient : Side

-- `json.Marshal` and the cipher, and back; `none` for an error.
pub record Sealing (A : Type 0) : Type 0 where
  pub seal : A → Option String
  pub unseal : String → Option A

pub record Digests : Type 0 where
  -- `inboxKey` of a domain, an inbox and a message.
  pub inbox_key : String → PrivateInbox → String → String
  -- The key of an actor's inbox: connection, platform, actor.
  pub actor_key : String → String → String → String
  pub cleanup_key : PrivateCopy → String

pub record SealedRow : Type 0 where
  pub ciphertext : String
  pub expires_at : ℕ

pub record Candidate : Type 0 where
  pub ciphertext : String
  pub cleanup_after : ℕ
  pub expires_at : ℕ
  pub attempts : ℕ
  pub next_attempt_at : ℕ

pub record PrivateTables : Type 0 where
  pub replies : Map String SealedRow
  -- By key, when the row expires.
  pub seen : Map String ℕ
  pub inboxes : Map String SealedRow
  pub cleanup : Map String Candidate

abbrev pub reply_ttl : ℕ
reply_ttl = 86400000

abbrev pub record_limit : ℕ
record_limit = 100000

-- The tables after an operation, and whether it succeeded.
abbrev pub insert_reply : PrivateTables → String → ℕ → Bool → Option String → PrivateTables × Bool
insert_reply t key now fails none = (t, false)
insert_reply t key now fails (some ciphertext) =
    if fails || has key t.replies || not (ltb (length t.replies) record_limit)
    then (t, false)
    else (
      record t {
        replies =
            insert key (record { ciphertext = ciphertext; expires_at = now + reply_ttl }) t.replies;
      },
      true,
    )

unfoldable pub put_reply :
    Digests → Sealing Mapping → PrivateTables → String → Mapping → ℕ → Bool → PrivateTables × Bool
put_reply keys sealing t message_id mapping now fails =
    if message_id == ""
      || mapping.recipient.inbox.chat_id == ""
      || length mapping.recipient.inbox.token == 0
    then (t, false)
    else insert_reply t (keys.inbox_key "reply" mapping.recipient.inbox message_id) now fails
        (sealing.seal mapping)

unfoldable pub reply_capacity : PrivateTables → Bool → Bool
reply_capacity t fails = not fails && ltb (length t.replies) record_limit

-- What a read finds: nothing, a value, or an error.
pub data Found (A : Type 0) : Type 0 where
  absent unreadable : Found A
  present : A → Found A

abbrev pub opened : {A : Type 0} → Option A → Found A
opened none = unreadable
opened (some a) = present a

abbrev pub open_row : {A : Type 0} → Sealing A → ℕ → Option SealedRow → Found A
open_row sealing now none = absent
open_row sealing now (some row) =
    if ltb now row.expires_at then opened (sealing.unseal row.ciphertext) else absent

unfoldable pub reply :
    Digests → Sealing Mapping → PrivateTables → PrivateInbox → String → ℕ → Bool → Found Mapping
reply keys sealing t inbox message_id now fails =
    if fails
    then unreadable
    else open_row sealing now (lookup (keys.inbox_key "reply" inbox message_id) t.replies)

-- Whether the message is new, or `none` for an error.
unfoldable pub accept_incoming :
    Digests → PrivateTables → PrivateInbox → String → ℕ → Bool → PrivateTables × Option Bool
accept_incoming keys t inbox message_id now fails =
    let key = keys.inbox_key "incoming" inbox message_id in
    if message_id == "" || fails
    then (t, none)
    else if has key t.seen || not (ltb (length t.seen) record_limit)
    then (t, some false)
    else (record t { seen = insert key (now + reply_ttl) t.seen }, some true)

abbrev put_inbox : PrivateTables → String → ℕ → Bool → Option String → PrivateTables × Bool
put_inbox t key now fails none = (t, false)
put_inbox t key now fails (some ciphertext) =
    if fails
    then (t, false)
    else if ltb (length t.inboxes) 10000 || has key t.inboxes
    then (
      record t {
        inboxes =
            insert key (record { ciphertext = ciphertext; expires_at = now + reply_ttl }) t.inboxes;
      },
      true,
    )
    else (t, true)

unfoldable pub observe_inbox :
    Digests
    → Sealing PrivateInbox
    → PrivateTables
    → String
    → PrivateInbox
    → ℕ
    → Bool
    → PrivateTables × Bool
observe_inbox keys sealing t actor inbox now fails =
    put_inbox t (keys.actor_key inbox.connection_id inbox.transport actor) now fails
      (sealing.seal inbox)

unfoldable pub known_inbox :
    Digests
    → Sealing PrivateInbox
    → PrivateTables
    → String
    → String
    → String
    → ℕ
    → Bool
    → Found PrivateInbox
known_inbox keys sealing t connection platform actor now fails =
    if fails
    then unreadable
    else open_row sealing now (lookup (keys.actor_key connection platform actor) t.inboxes)

abbrev insert_candidate :
    PrivateTables → String → ℕ → Bool → Bool → Option String → PrivateTables × Bool
insert_candidate t key after fails unchecked none = (t, false)
insert_candidate t key after fails unchecked (some ciphertext) =
    if fails
    then (t, false)
    else if has key t.cleanup
    then (t, not unchecked)
    else if not (ltb (length t.cleanup) record_limit)
    then (t, false)
    else (
      record t {
        cleanup =
            insert key
              (record {
                ciphertext = ciphertext;
                cleanup_after = after;
                expires_at = after + 259200000;
                attempts = 0;
                next_attempt_at = after;
              })
              t.cleanup;
      },
      true,
    )

-- Copies of WhatsApp only; `unchecked` fails the query for a row that is there.
unfoldable pub queue_cleanup :
    Digests
    → Sealing PrivateCopy
    → PrivateTables
    → PrivateCopy
    → ℕ
    → Bool
    → Bool
    → PrivateTables × Bool
queue_cleanup keys sealing t copy after fails unchecked =
    if not (copy.transport == "whatsapp") || length copy.token == 0
    then (t, true)
    else insert_candidate t (keys.cleanup_key copy) after fails unchecked (sealing.seal copy)
