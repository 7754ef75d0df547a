-- ===== src/Tests/Router.antt =====
-- Properties at concrete inputs: the delivery of messages and edits, and canonical messages.
use message_sync.Base.{
  insert, ℕ, ◌≤◌, true, false, none, some, List, [], ◌∷◌, ◌≡◌, refl, lookup, eq_string, eq_nat,
}
use message_sync.Store.Ledger.{Store}
use message_sync.Store.Ledger.Keys.{primary}
use message_sync.Store.Ledger.{is_space}
use message_sync.Router.Create.{
  valid_ref, fresh_operation, CreateJob, World, Reply, accepted, MessageRef,
}
use message_sync.Router.Create.Once.{deliveries}
use message_sync.Router.Create.Runs.{
  Event as CreateEvent, enqueued, attempted, history, sends_at_most_once,
}
use message_sync.Store.Canonical.{
  Source, resolve_or_create_canonical, create_canonical, valid_source,
}
use message_sync.Store.Claims.Laws.{successful_claims, claims_at_most_once}
use message_sync.Store.Canonical.Laws.{resolve_all, resolve_or_create_canonical-stable}
use message_sync.Store.Ledger.Keys.{OpKey}
use message_sync.Router.Mutations.{EditWorld}
use message_sync.Router.Mutations.Edits.{
  EditEvent, requested, attempted as edit_attempted, NewestFirst, edit_history, edits_in_order,
}

-- A text message from one group to another.
abbrev create_job : CreateJob
create_job = record {
  canonical = "m1";
  source = "family";
  destination = "friends";
  sync_set = "s1";
  kind = "text";
  has_media = false;
}

abbrev sent_ref : MessageRef
sent_ref = record {
  endpoint = "friends";
  remote_message_id = "r1";
  provider = "";
  provider_reference = "";
}

abbrev reply_to_all : Reply
reply_to_all = record { answer = accepted sent_ref; tombstones = false; cancels = false }

abbrev create_store : Store
create_store = record {
  canonicals = ("m1", false) ∷ [];
  copies = [];
  remotes = [];
  operations = [];
  steps = [];
  poll_refs = [];
  endpoint_sets = ("family", some "s1") ∷ ("friends", some "s1") ∷ [];
  faults = [];
}

abbrev create_world : World
create_world = record {
  store = create_store;
  replies = reply_to_all ∷ reply_to_all ∷ [];
  canceled = false;
  log = [];
  known_copies = [];
}

abbrev create_events : List CreateEvent
create_events = enqueued none none ∷ attempted 1 ∷ enqueued none none ∷ attempted 1 ∷ []

sends_at_most_once_example :
    deliveries create_job primary (history create_job create_events create_world).log ≤ 1
unfolding valid_ref is_space
sends_at_most_once_example =
    sends_at_most_once create_job create_events create_world primary refl refl
      ((refl, refl), ((refl, refl), tt)) refl

abbrev holiday_photo : Source
holiday_photo = record { endpoint = "family"; remote_message_id = "77"; from_self = false }

abbrev no_messages : Store
no_messages = record create_store { canonicals = [] }

abbrev other_photo : Source
other_photo = record holiday_photo { remote_message_id = "r2" }

resolve_or_create_canonical-stable_example :
    (resolve_or_create_canonical
      (resolve_all
        (resolve_or_create_canonical no_messages "m1" holiday_photo).0
        (("m3", other_photo) ∷ []))
      "m2"
      holiday_photo).1
    ≡ some ("m1", false)
unfolding resolve_all resolve_or_create_canonical create_canonical valid_source lookup insert
resolve_or_create_canonical-stable_example =
    resolve_or_create_canonical-stable no_messages "m1" "m2" "m1" holiday_photo true
      (("m3", other_photo) ∷ []) refl refl refl

abbrev edit_key : ℕ → OpKey
edit_key r = record { canonical = "m1"; endpoint = "friends"; kind = "edit"; revision = r }

abbrev no_edits : EditWorld
no_edits = record {
  store = create_store;
  pending = none;
  next_revision = 0;
  answers = none ∷ none ∷ [];
  canceled = false;
  executed = [];
}

-- The second edit is attempted first.
abbrev edit_events : List EditEvent
edit_events =
    requested "one" true none
    ∷ requested "two" true none
    ∷ edit_attempted (record { revision = 2; text = "two" }) 1
    ∷ edit_attempted (record { revision = 1; text = "one" }) 1
    ∷ []

edits_in_order_example : NewestFirst (edit_history edit_key edit_events no_edits).executed
edits_in_order_example = edits_in_order edit_key edit_events no_edits refl refl

abbrev queued_store : Store
queued_store = record create_store { operations = (edit_key 1, fresh_operation) ∷ [] }

claims_at_most_once_example : successful_claims 3 queued_store (edit_key 1) ≤ 1
claims_at_most_once_example = claims_at_most_once 3 queued_store (edit_key 1)
