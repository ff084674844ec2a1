-- ===== src/Controller/Reconcile.antt =====
-- internal/controller/reconciler.go: `Reconcile` of one instance. `from_graph` is kro's
-- `runtime.FromGraph`, `set_condition` is `meta.SetStatusCondition`; `now` is the clock's reading.
pub mod Release
pub mod Effects
pub mod Heartbeat
pub mod Recorded
pub mod Owned
use krop_controller.Base.{
  ℕ, Text, ◌==◌, text_eq, contains, if◌then◌else◌, Bool, true, false, not, ◌&&◌, Option, none, some,
  List, [], ◌∷◌, ◌++◌,
}
use krop_controller.Base.Bytes.{codes}
use krop_controller.Base.Dict.{Dict}
use krop_controller.Base.Result.{Error, wrap, Result, ok, err, Prog, pure, ignored, ◌>>=◌, ◌>>◌}
use krop_controller.Api.Object.{Object, ChildId, Condition}
use krop_controller.Api.Client.{Client, Selector}
use krop_controller.Api.Clusters.{is_deleting}
use krop_controller.Engine.Route.{Target, consumer, provider, host}
use krop_controller.Engine.Naming.{provider_child_name}
use krop_controller.Engine.Labels.{finalizer, gc_labels, stamp_consumer_cluster}
use krop_controller.Engine.Graph.{Runtime}
use krop_controller.Engine.Apply.{
  Applier, Reader, Pass, recording_applier, ssa_applier, qualifying_applier, labeling_applier,
  owner_ref_applier, client_reader,
}
use krop_controller.Engine.Loop.{Summary, State, Outcome, project_status, reconcile}
use krop_controller.Controller.Config.{Reconciler}
use krop_controller.Controller.Children.{delete_children, prune_children}
use krop_controller.Controller.Liveness.{write_liveness_record, delete_liveness_record}
use krop_controller.Controller.Conditions.{
  read_conditions, write_conditions, apply_result_conditions,
}

-- `kropengine.Result{}`
abbrev pub no_summary : Summary
no_summary = record { ready = false; requeue = false; complete = false }

-- `return res, err`
abbrev pub outcome_of : Summary → Result (Unit {0}) → Outcome
outcome_of res (ok _) = record { summary = res; error = none }
outcome_of res (err e) = record { summary = res; error = some e }

unfoldable pub remove_string : List Text → Text → List Text
remove_string [] v = []
remove_string (x ∷ xs) v = let rest = remove_string xs v in if x == v then rest else x ∷ rest

abbrev pub nothing_applied : Target → List ChildId
nothing_applied _ = []

module _ {W R : Type 0} (digest : Text → Text) (format : ℕ → Text)
    (set_condition : List Condition → Condition → List Condition)
    (as_selector : Text → Result Selector) (from_graph : Object → Result (Runtime R × R))
    (order : List Target) (r : Reconciler W) (consumer_client : Client W) (cluster : Text) where
  -- The deletion branch. A failure of any call leaves the finalizer where it is.
  unfoldable pub release : Object → Prog W (Unit {0})
  release inst = if not (contains inst.finalizers finalizer) then pure tt else do
    delete_children r order consumer_client inst.uid
    delete_liveness_record digest format r cluster inst.uid
    consumer_client.update (record inst { finalizers = remove_string inst.finalizers finalizer })

  abbrev pub protected : Object → Object
  protected inst = record inst { finalizers = inst.finalizers ++ (finalizer ∷ []) }

  -- The appliers of the targets, of each its layers from the outside in.
  unfoldable pub qualified : Object → Target → Client W → Applier (Pass W)
  qualified inst target c =
      labeling_applier
        (qualifying_applier (recording_applier target (ssa_applier c))
          (provider_child_name digest cluster inst.name))
        (gc_labels inst.uid cluster r.blueprint_name)

  unfoldable pub owned : Object → Applier (Pass W)
  owned inst =
      labeling_applier
        (owner_ref_applier (recording_applier consumer (ssa_applier consumer_client)) inst)
        (gc_labels inst.uid cluster r.blueprint_name)

  unfoldable pub appliers : Object → Target → Option (Applier (Pass W))
  appliers inst consumer = some (owned inst)
  appliers inst provider = some (qualified inst provider r.provider_client)
  appliers inst host = elim r.host_client [ none ↦ none | some c ↦ some (qualified inst host c) ]

  unfoldable pub readers : Target → Option (Reader (Pass W))
  readers consumer = some (client_reader consumer_client)
  readers provider = some (client_reader r.provider_client)
  readers host = elim r.host_client [ none ↦ none | some c ↦ some (client_reader c) ]

  -- What follows a pass of the engine that reported no error: the record, and prune.
  unfoldable pub record_and_prune :
      Object → ℕ → Summary → (Target → List ChildId) → Prog W (Unit {0})
  record_and_prune inst now res applied = do
    write_liveness_record digest format r cluster inst.uid now
    if res.complete && not (is_deleting inst)
        then prune_children r order consumer_client inst.uid applied
        else pure tt

  -- The status that is written back: that of the instance's desired object, where it has one, and
  -- the conditions.
  unfoldable pub with_status : Object → Summary → Result Object → Object
  with_status inst res desired =
      let projected : Object = elim desired [
        | err _ ↦ inst
        | ok d ↦ elim d.status [ none ↦ inst | some status ↦ record inst { status = some status } ]
      ] in
      write_conditions projected
        (apply_result_conditions set_condition (read_conditions inst) res inst.generation)

  -- `res.Requeue = true` and the status; a failed status update is ignored.
  unfoldable pub report : Runtime R → R → Object → Summary → W → Outcome × W
  report rt runtime inst res w =
      let res' = record res { requeue = true } in
      (
        record { summary = res'; error = none },
        (consumer_client.update_status (with_status inst res' (project_status rt runtime)) w).1,
      )

  unfoldable pub after_prune :
      Runtime R → R → Object → Summary → Result (Unit {0}) → W → Outcome × W
  after_prune rt runtime inst res (ok _) w = report rt runtime inst res w
  after_prune rt runtime inst res (err e) w = (record { summary = res; error = some e }, w)

  unfoldable pub after_engine : Runtime R → Object → ℕ → Outcome → State R (Pass W) → Outcome × W
  after_engine rt inst now o s = elim o.error [
    | some e ↦ (o, s.io.world)
    | none ↦
        let (done, w) = record_and_prune inst now o.summary s.io.applied s.io.world in
        after_prune rt s.runtime inst o.summary done w
  ]

  -- The branch of an instance that is not deleted and has the finalizer.
  unfoldable pub apply_pass : Object → ℕ → W → Outcome × W
  apply_pass inst now w = elim (from_graph (stamp_consumer_cluster inst cluster)) [
    | err e ↦ (record { summary = no_summary; error = some (wrap (codes "runtime") e) }, w)
    | ok (rt, runtime) ↦
        let (o, s) =
          reconcile rt as_selector (appliers inst) readers r.routing
            (record { runtime = runtime; io = record { world = w; applied = nothing_applied } }) in
        after_engine rt inst now o s
  ]

  unfoldable pub reconcile_found : Object → ℕ → W → Outcome × W
  reconcile_found inst now w =
      if is_deleting inst
      then (let (done, w') = release inst w in (outcome_of no_summary done, w'))
      else if contains inst.finalizers finalizer
      then apply_pass inst now w
      else (let (done, w') = consumer_client.update (protected inst) w in
          (outcome_of no_summary done, w'))

  -- `Reconcile`. An instance that is not found is no error.
  unfoldable pub reconcile_instance : Text → Text → ℕ → W → Outcome × W
  reconcile_instance namespace name now w =
      elim (consumer_client.get r.instance_gvk namespace name w) [
        | err e ↦ (outcome_of no_summary (ignored (err e)), w)
        | ok inst ↦ reconcile_found inst now w
      ]
