-- ===== src/Process/Serve.antt =====
-- cmd/controller/main.go: `startFn`, which builds and runs the manager of one export, the function that
-- it gives the controller, and the sweeper's settings. Times and
-- durations are in nanoseconds, as those of Go's package `time` are.
pub mod Built
pub mod Guarded
use Prim.Native.Nat.{◌*◌}
use krop_controller.Base.{
  ℕ, Text, text_eq, if◌then◌else◌, Bool, true, false, Option, none, some, List, [], ◌∷◌, ◌++◌,
}
use krop_controller.Base.Bytes.{codes}
use krop_controller.Base.Result.{
  Error, wrap, Result, ok, err, Prog, pure, context, for_each, reads, ◌>>=◌, ◌>>◌,
}
use krop_controller.Api.Object.{Gvk, Condition, Object}
use krop_controller.Api.Client.{Client, Selector}
use krop_controller.Engine.Route.{Target}
use krop_controller.Engine.Graph.{Runtime}
use krop_controller.Engine.Loop.{Outcome}
use krop_controller.Controller.Config.{Reconciler}
use krop_controller.Controller.Liveness.{second}
use krop_controller.Controller.Reconcile.{reconcile_instance}
use krop_controller.Controller.Sweeper.{Sweeper}
use krop_controller.Kcp.{EndpointSlice, find_endpoint_slice}
use krop_controller.Process.{ServedBlueprint, Published, recorded_blueprint}

abbrev pub requeue_interval : ℕ
requeue_interval = 30 * second

abbrev pub orphan_stale_after : ℕ
orphan_stale_after = 300 * second

-- `wait.PollUntilContextTimeout` with the intervals of `startFn`, the list call of the provider's client,
-- the registrations of the instance scheme, and the calls of the multicluster libraries. `P` is a
-- provider and `M` a manager.
pub record Platform (W P M : Type 0) : Type 0 where
  pub poll : Prog (W × Text) Bool → Prog (W × Text) (Unit {0})
  pub list_slices : W → Result (List EndpointSlice)
  pub registrations : List (Result (Unit {0}))
  pub new_provider : Text → Prog W P
  pub new_manager : P → Prog W M
  -- the manager, the controller's name, the kind that it watches
  pub complete : M → Text → Gvk → Reconciler W → Prog W (Unit {0})
  pub start : M → Prog W (Unit {0})

module _ {W P M : Type 0} (platform : Platform W P M) (provider_client : Client W)
    (host_client : Option (Client W)) where
  -- The condition of the poll: any error is a reason to go on. `sliceName` goes along.
  unfoldable pub find_slice : Text → Prog (W × Text) Bool
  find_slice export (w, slice_name) = elim (find_endpoint_slice platform.list_slices export w) [
    | err _ ↦ (ok false, (w, slice_name))
    | ok name ↦ (ok true, (w, name))
  ]

  unfoldable pub await_slice : Text → Prog W Text
  await_slice export w =
      let (r, (w', slice_name)) = platform.poll (find_slice export) (w, []) in
      (
        elim r [
          | err e ↦ err (wrap (codes "waiting for APIExportEndpointSlice") e)
          | ok _ ↦ ok slice_name
        ],
        w',
      )

  -- The reconciler of a served blueprint.
  abbrev pub served_reconciler : Text → ServedBlueprint → Reconciler W
  served_reconciler export sb = record {
    graph = sb.graph.nodes;
    provider_client = provider_client;
    host_client = host_client;
    instance_gvk = sb.gvk;
    blueprint_name = export;
    record_namespace = [];
    routing = sb.routing;
  }

  abbrev pub controller_name : Text → Text
  controller_name export = codes "krop-instance-" ++ export

  -- `startFn`, with the registry as it is when the goroutine reads it.
  unfoldable pub start_manager : Text → Published → Prog W (Unit {0})
  start_manager export registry = do
    sb ← reads (λ _. recorded_blueprint export registry)
    slice_name ← await_slice export
    for_each platform.registrations
        (λ added. context (codes "registering instance scheme") (reads (λ _. added)))
    provider ← context (codes "constructing apiexport provider") (platform.new_provider slice_name)
    manager ← context (codes "setting up instance manager") (platform.new_manager provider)
    context (codes "building krop-instance controller")
        (platform.complete manager (controller_name export) sb.gvk (served_reconciler export sb))
    platform.start manager

-- What the controller is told: an error, or after which time to call again.
unfoldable pub after_reconcile : Outcome → Result (Option ℕ)
after_reconcile o = elim o.error [
  | some e ↦ err e
  | none ↦ ok (if o.summary.requeue then some requeue_interval else none)
]

module _ {W R : Type 0} (digest : Text → Text) (format : ℕ → Text)
    (set_condition : List Condition → Condition → List Condition)
    (as_selector : Text → Result Selector) (from_graph : Object → Result (Runtime R × R))
    (order : List Target) (r : Reconciler W) (get_cluster : Text → W → Result (Client W)) where
  -- `reconcileFn` for a request of a cluster, at the time `now`
  unfoldable pub reconcile_request : Text → Text → Text → ℕ → Prog W (Option ℕ)
  reconcile_request cluster namespace name now w = elim (get_cluster cluster w) [
    | err e ↦ (err (wrap (codes "getting cluster " ++ cluster) e), w)
    | ok c ↦
        let (o, w') =
          reconcile_instance digest format set_condition as_selector from_graph order r c cluster
            namespace name now w in
        (after_reconcile o, w')
  ]

-- The sweeper as `run` adds it.
abbrev pub orphan_sweeper : {W : Type 0} → Client W → Option (Client W) → Sweeper W
orphan_sweeper provider_client host_client = record {
  provider_client = provider_client;
  host_client = host_client;
  record_namespace = [];
  stale_after = orphan_stale_after;
  started_at = none;
}
