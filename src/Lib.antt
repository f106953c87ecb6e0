-- ===== src/Lib.antt =====
-- mcpdoll: an MCP gateway with a control plane and a data plane. This library models the parts of
-- its data plane that decide: who may do what, which plugins may change or stop a request, and when
-- a failing backend or plugin is left alone.
--
-- How the parts interact. A request's credential carries grants; internal/platform/authz compiles
-- them with the role catalog into a decider, which the gateway asks for each tool. The hooks of the
-- request run the plugins of internal/dataplane/pipeline: `Engine.Run` takes them in order, each one
-- behind its own breaker, with the budgets of the request and the hook; a verdict is validated,
-- enforced or only recorded, and may deny, defer, annotate, or patch the request within the scopes
-- that the plugin's manifest declares. Calls of backends stand behind the breaker of
-- internal/dataplane/backends. Probes record in internal/dataplane/health what a backend publishes; a
-- tool that changed since it was admitted is refused there before the hooks run.
--
-- What the data plane serves comes to it as three signed artifacts: a snapshot, a principal set and a
-- revocation list. internal/dataplane/snapshot verifies each, indexes it and swaps it into the store;
-- a principal's catalog is composed from the snapshot and the principal set and cached by their
-- versions. The endpoint of internal/dataplane/edge finds out who calls from an API key, refuses the
-- revoked, and hands out one server per principal. A call that a plugin defers gives the client a
-- sealed state, which is bound to that call.
--
-- Files.
--   Base, Base/*            shared: Boolean tests, lists, byte strings, maps as association lists,
--                           insertion sort, results.
--   Authz/Scope             internal/platform/authz/scope.go: constructors, `ScopeCovers`,
--                           `ParseScope`, `TenantOf`. Scope/Parse has the places that scopes name,
--                           Scope/Hierarchy their order.
--   Authz/Roles             internal/platform/authz/roles.go: permissions, `DefaultCatalog`,
--                           `Grant.Validate`, `ValidateCatalog`, `WithheldBy`.
--   Authz/Engine            internal/platform/authz/engine.go: `BuiltinEngine.Prepare` with its index
--                           by permission, `Intersect`; and `AnyReaches` of scope.go. Engine/Decide
--                           has the specification `allowed`, a search through the grants.
--   Backends/Breaker        internal/dataplane/backends/breaker.go.
--   Proto                   the messages of internal/proto/snapshotpb that are read.
--   Pipeline/Breaker        internal/dataplane/pipeline/breaker.go.
--   Pipeline/Verdict        internal/dataplane/pipeline/verdict.go: `Verdict.Validate`, outcomes.
--   Pipeline/Json           values of encoding/json, with the map and slice operations made on them.
--   Pipeline/Patch/Pointer  internal/dataplane/pipeline/patch.go: pointers and `checkScope`.
--   Pipeline/Patch/Document patch.go: `getPointer`, `setPointer`, `removePointer`, `replaceSlice`.
--   Pipeline/Patch/Apply    patch.go: `applyOp`, `ApplyPatch`.
--   Pipeline/Engine         internal/dataplane/pipeline/engine.go: `runPlugin` and what it calls.
--   Pipeline/Engine/Run     engine.go: `Run`, `markShortCircuited`.
--   Health/Drift            internal/dataplane/health/drift.go: `Diff`, `Blocking`.
--   Health/State            internal/dataplane/health/state.go: `classify`, and the registry with
--                           `Set`, `Forget`, `Blocked`. State/Blocked has its invariant.
--   Snapshot/View           internal/dataplane/snapshot/view.go: `BuildWithEngine`, `sortTools`,
--                           `checkMutatingPluginConflicts`.
--   Snapshot/Principals     internal/dataplane/snapshot/principals.go: `IndexPrincipalsWithEngine`.
--   Snapshot/Catalog        view.go: `tenantsFor`, `composePrincipal`, lookups in a catalog.
--   Snapshot/Revocations    internal/dataplane/snapshot/revocation.go: the index, `Refuses`.
--   Snapshot/Store          internal/dataplane/snapshot/store.go. Store/Steps has the states that
--                           its methods reach in any interleaving, Store/Cached the cache of
--                           catalogs, Store/Activation both outcomes of `Activate` and `Rollback`.
--   Snapshot/Signing        internal/dataplane/snapshot/signing.go, and `SignPrincipals`,
--                           `VerifyPrincipals`, `SignRevocations`, `VerifyRevocations`.
--   Edge/Identity           internal/dataplane/edge/identity.go: the resolvers.
--   Edge/Gateway            internal/dataplane/edge/edge.go: `serveMCP`, `serverFor`, the cache of
--                           servers, `rebuild`.
--   Edge/RequestState       internal/dataplane/edge/requeststate.go: `Wrap`, `Unwrap`,
--                           `UnwrapForRetry`, and what wraps.
--   Examples/*              concrete runs.
--
-- How code corresponds. Strings are lists of bytes. Maps are association lists; the sources read
-- them by key, or sort their keys. A struct under a mutex is a record, and a method that holds the
-- mutex for its whole body is one function from the record to the new one. Times and durations are
-- natural numbers of nanoseconds, so that `now.Sub(openedAt) < cooldown` is
-- `now < openedAt + cooldown`; they do not overflow in the model. Errors are `Result` or `Option`.
-- Loops are structural recursion over the list that the source ranges over, so that no fuel is
-- needed. The 32-bit hash of the canary sample wraps around as in the source.
--
-- A method of the store that gives up its mutex is a sequence of steps; Store/Steps lets the steps of
-- different methods follow one another in any order. There a version of a snapshot or of a principal
-- set stands for one artifact, as the control plane hands versions out once. The
-- priorities, budgets, times to live and token estimates of a snapshot are integers, which may be
-- negative, and the int32 sums of token estimates wrap around; versions are natural numbers.
--
-- The mutex of a plugin's breaker is held in each of its methods and not across `runPlugin`. The
-- model of a run therefore takes, as an explicit list of calls, what other requests' runs do to the
-- breakers between its own calls: before `Allow`, during the invocation, and between `Failure` and
-- `JustOpened`. It asks for the breaker anew at each call.
--
-- Given from outside, as parameters: ed25519, SHA-256, HMAC, base64 and the decoders of protobuf; the
-- plugin hosts and their answers, the clock, the calls of other runs on the breakers, the JSON decoder
-- and the canonical encoder. Pipeline/Engine numbers the clock's readings, and an answer of a host may
-- depend on the reading.
--
-- Not modelled: metrics, logs, spans, measured durations and the text of errors; the connection pool
-- and the network part of health probing; files of artifacts and of keys; the dispatch of a call and
-- the SDK's servers; and the control plane.
pub mod Base
pub mod Authz
pub mod Backends
pub mod Proto
pub mod Pipeline
pub mod Health
pub mod Snapshot
pub mod Edge
pub mod Examples
