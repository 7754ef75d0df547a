-- ===== src/Router/Create/Context.antt =====
-- internal/router/router.go, `enqueueCreate`: what its job reads and changes.
use message_sync.Base.{ℕ, Bool, ◌&&◌, ◌||◌, Option, String, List, ◌∷◌, ◌==◌, eq_nat, eq_string, Map}
use message_sync.Transport.Failure.{GoError}
use message_sync.Store.Ledger.{Store}
use message_sync.Store.Ledger.Keys.{OpKey, StepKey, StepKind, CopyKey, eq_copy_key}

pub record MessageRef : Type 0 where
  pub endpoint : String
  pub remote_message_id : String
  pub provider : String
  pub provider_reference : String

pub data Answer : Type 0 where
  accepted : MessageRef → Answer
  refused : GoError → Answer

-- One request: its answer, and whether the message is tombstoned and the job cancelled meanwhile.
pub record Reply : Type 0 where
  pub answer : Answer
  pub tombstones : Bool
  pub cancels : Bool

pub data Action : Type 0 where
  sent : StepKind → Answer → Action
  deleted : MessageRef → Action
  poll_companion persisted flushed : Action

pub record World : Type 0 where
  pub store : Store
  pub replies : List Reply
  pub canceled : Bool
  pub log : List Action
  pub known_copies : Map CopyKey String

-- What the job's closure holds and its decisions read.
pub record CreateJob : Type 0 where
  pub canonical : String
  pub source : String
  pub destination : String
  pub sync_set : String
  pub kind : String
  pub has_media : Bool

abbrev pub Result : Type 0
Result = World × Option GoError

abbrev pub op_key : CreateJob → OpKey
op_key j = record {
  canonical = j.canonical;
  endpoint = j.destination;
  kind = "create";
  revision = 1;
}

abbrev pub step_key : CreateJob → StepKind → StepKey
step_key j kind = record {
  canonical = j.canonical;
  endpoint = j.destination;
  revision = 1;
  kind = kind;
}

abbrev pub has_companion : CreateJob → Bool
has_companion j = j.has_media && (j.kind == "audio" || j.kind == "sticker")

abbrev pub put_store : World → Store → World
put_store w s = record w { store = s }

abbrev pub note : Action → World → World
note a w = record w { log = a ∷ w.log }

-- `delivery.DefaultRetryPolicy().MaxAttempts`
abbrev pub max_attempts : ℕ
max_attempts = 4
