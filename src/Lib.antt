-- ===== src/Lib.antt =====
-- krop-controller serves blueprints, kro resource graphs, to consumers of kcp workspaces. The registrar
-- (internal/registrar) publishes a blueprint as an API with permission claims. For each instance that a
-- consumer makes, the reconciler (internal/controller/reconciler.go) runs the engine (internal/engine)
-- over the graph's nodes and applies the children to three targets: the consumer's workspace, the
-- provider's workspace and a host cluster. It garbage-collects the children of a deleted instance,
-- prunes those that a complete pass no longer makes, and keeps a liveness record, by which the sweeper
-- (internal/controller/sweeper.go) finds the children of instances that are out of reach.
--
-- The files:
-- - Base and below: Go's strings as sequences of bytes, maps as association lists, `(T, error)` results,
--   code that calls an API as functions of the state of all clusters, and rules for what these keep.
-- - Api: objects, the controller-runtime client as a record of operations, and what lists and deletions
--   of a cluster are assumed to do (Api.Clusters, documented behaviour of Kubernetes and of the client): an
--   object is held once for all versions of its kind, and a deletion marks it while it has finalizers.
-- - Engine.Route, Naming, Labels, Apply: internal/engine/route.go, naming.go, labels.go and workspace.go,
--   apply.go and reader.go. Appliers are functions around the next one, over the clusters and the sinks.
-- - Engine.Graph, Loop: kro's runtime as a record of operations over a state of its own, and one pass
--   over its nodes, `Engine.Reconcile` of internal/engine/engine.go, with status.go. The body of the loop
--   returns a `Step` for its `continue`, `return res, nil` and `return res, err`.
-- - Controller.Children, Liveness, Conditions, Reconcile: the methods of internal/controller/reconciler.go.
--   Deletion has what the three loops that delete listed objects share. Config has the fields.
-- - Controller.Tokens, Sweeper: the kinds in a liveness record, written by reconciler.go and read by
--   sweeper.go, and the sweeper. `Start` is the sequence of its ticks.
-- - Registrar.Claims: internal/registrar/claims.go, and the claims as registrar.go composes them.
--   Registrar.Order: the order of Go strings and stable sorting.
-- - Api.Blueprint, Registrar.Publish, Cache, Reconcile: api/v1alpha1/routing.go, and publish.go, hash.go,
--   cache.go and registrar.go of internal/registrar. Calls of the hooks are recorded in the state.
-- - Supervisor: internal/supervisor/supervisor.go as a state machine. Its steps are the calls and the
--   returns of managers, in any order; a pointer to an entry is a number that is never used again.
-- - Kcp: internal/kcp/endpointslice.go.
-- - Process: cmd/controller/main.go. The registry of served blueprints, the hooks `OnPublished` and
--   `OnDeleted` cut at each call that takes a lock, and the goroutines of the managers between these, as a
--   relation indexed by the history of hook calls. Process.Serve is the body of `startFn` and its reconcile
--   function, Process.Setup is `run` and internal/engine/graphsource.go, Process.Workspace the names.
--   Process.Registered puts a pass of the registrar, the hooks and the supervisor together, Process.Passes
--   all passes of a process with edits and restarts in between, and Process.Serve.Guarded the reconciler
--   and the sweeper.
-- - Tests: clusters in memory that meet the assumptions, a sample blueprint, the properties at them.
--
-- Every loop is a recursion over a list, so there is no fuel. Go's maps are ranged over in any order:
-- the graph's nodes and the targets come as lists, and the properties hold for every such list. Times
-- and durations are numbers of nanoseconds. Parameters are the hexadecimal SHA-256, the format and the
-- parser of times, which lose the fraction of a second, `meta.SetStatusCondition`, the label
-- selector's conversion, kro's `FromGraph` and graph builder, `json.Marshal`,
-- `CRDToAPIResourceSchema`, the clients, managers and the poll. A client's failed write may have been
-- carried out. The texts of errors keep the fixed words and leave some of the arguments out; no code
-- looks at them. An index out of range is `none` where the code can reach it.
--
-- Not modelled: the parsing of flags and the signal handler of cmd/controller, generated code, the graph
-- builder and the YAML of blueprints, which are calls of libraries, the mutual exclusion that locks give,
-- and the log. Assumptions on libraries are records of laws: Api.Clusters and Process.Passes for the API
-- servers, Process.Serve.Built for the poll.
pub mod Base
pub mod Api
pub mod Engine
pub mod Controller
pub mod Registrar
pub mod Tests
pub mod Supervisor
pub mod Kcp
pub mod Process
