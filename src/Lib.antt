-- ===== src/Lib.antt =====
-- message-sync: messages of one chat group are copied to the groups of its sync set.
--
-- An adapter of a provider delivers an incoming event to the connection manager, which passes it to
-- the recovery coordinator; the coordinator calls the router and moves the cursor of the event's
-- stream. The router writes to the store and queues a job in the lane of each destination; the lane's
-- goroutine runs the job with retries, and the job sends through the adapter registry.
--
-- Base: association lists, Boolean tests, integers of 64 bits.
-- Transport/Failure: internal/transport/failure.go, failure classes and `Classify`.
-- Delivery/Retry: internal/delivery/lanes.go, `RetryPolicy` and the job of `EnqueueRetry`.
-- Delivery/Lanes: internal/delivery/lanes.go, `Manager`: `New`, `Update`, `Enqueue`, `Close`, `Status`.
-- Store/Cursors, Store/Ledger, Store/Canonical, Store/Claims: internal/store/store.go, recovery cursors, delivery
--   operations and their claims, create steps, message copies, and `ResolveOrCreateCanonical`.
-- Recovery: internal/recovery/coordinator.go, `Handle` and `advance`; Recovery/Unsettled the events that wait.
-- Router/Create: internal/router/router.go, `enqueueCreate`, its job, and `assertRouteSet` of aliases.go.
-- Router/Mutations: internal/router/router.go, `enqueueMutation` and the edits that use it.
-- Texts, Config: internal/config/config.go and sync_set_settings.go, defaults, settings and `Validate`.
-- Router/Routes: internal/router/router.go, the tables of `newRouter` and `UpdateConfig`.
-- Api: internal/api/auth.go and rbac.go, accounts and sessions; Api/Access the middleware, with the routes
--   of api.go; Api/Changes what all the handlers may do to the tables, as a step relation.
-- Private: internal/controlstore/private_dm.go, records and cleanup, and of internal/privatedm relay.go's
--   `permit` and `Sweep` and alias_routes.go's `recipientRoute`.
-- Identity: internal/identity/alias.go, `ParseAliasToken` and `AliasTokenSpans`.
-- Commands: internal/commands/commands.go, `MatchLocal` and `MatchSummary`.
-- Router/Registry: internal/router/registry.go, and `ValidateConnectionID` of internal/config/config.go.
-- Connection: internal/connection/manager.go.
-- Tests: the theorems at concrete inputs, in a file for each group of parts.
--
-- A critical section is one step, and a goroutine's round is a step of its own; a history is a list of
-- steps in any order. Connection has the parts of `Register`, `Stop` and `Restart` behind the lock as steps,
-- Delivery/Lanes those of removed lanes, and Api/Lockout the comparison of a password; elsewhere in Api a
-- request runs alone. A statement of the database may fail, as a list of faults says, and then changes
-- nothing. Providers, adapters and the router behind the coordinator are arguments or lists of answers.
-- Times are numbers of the caller. A retried job runs on as many rounds as `MaxAttempts`, which its loop
-- never exceeds; the search of `AliasTokenSpans` runs on rounds that a theorem shows to be enough; every
-- other loop is structural.
--
-- Not modelled: `Router.Handle` with polls, references and rendering, `Recover` and `RecoverStream`, the
-- goroutines of connection/manager.go that pass events on, the other tables of the store, `Handle` of the
-- private relay, the rest of the HTTP API, the provider adapters (glue to libraries), the tables of the
-- configuration, logging, and process start.
pub mod Base
pub mod Transport
pub mod Delivery
pub mod Store
pub mod Recovery
pub mod Router
pub mod Connection
pub mod Texts
pub mod Config
pub mod Commands
pub mod Identity
pub mod Private
pub mod Api
pub mod Tests
