-- ===== src/Tests/Guarded.antt =====
-- A pass and a sweep after it, at concrete inputs: the reconciler and the process's sweeper.
use Prim.Native.Nat.{◌*◌, ◌/◌}
use native.Mathlib.Nat.{div-add-mod', mod-lt}
use krop_controller.Base.{
  ℕ, Text, text_eq, ◌≡◌, refl, true, Option, none, some, List, [], ◌∷◌, All, arith,
}
use krop_controller.Base.Bytes.{codes, byte_eq}
use krop_controller.Base.Result.{Result, ok}
use krop_controller.Api.Object.{Object, Condition, child_id, child_id_eq, gvk_eq}
use krop_controller.Api.Client.{Client}
use krop_controller.Api.Clusters.{object_id, object_at}
use krop_controller.Engine.Route.{Target, consumer, provider, target_eq, target_for_node}
use krop_controller.Engine.Naming.{provider_child_name, name_base}
use krop_controller.Engine.Labels.{gc_labels, stamp_consumer_cluster, label_liveness}
use krop_controller.Engine.Apply.{
  labeling_applier, qualifying_applier, recording_applier, ssa_applier,
}
use krop_controller.Engine.Loop.{
  reconcile, reconcile_nodes, reconcile_node, after_ignored, after_desired, node_step, apply_step,
  apply_all, after_apply,
}
use krop_controller.Controller.Config.{Reconciler}
use krop_controller.Controller.Children.{
  has_label, child_gvks, collect_gvks, prune_target, prune_children,
}
use krop_controller.Controller.Liveness.{second, record_key, upsert_record, write_liveness_record}
use krop_controller.Controller.Reconcile.{
  reconcile_instance, reconcile_found, apply_pass, after_engine, record_and_prune, after_prune,
  report, appliers, qualified,
}
use krop_controller.Controller.Sweeper.{Sweeper, run_ticks, uid_of}
use krop_controller.Controller.Sweeper.Fresh.{BelongsTo}
use krop_controller.Controller.Sweeper.Lifeline.{DropsFraction}
use krop_controller.Process.Serve.{
  requeue_interval, after_reconcile, reconcile_request, orphan_sweeper,
}
use krop_controller.Process.Serve.Guarded.{reconcile_request-guards}
use krop_controller.Tests.Memory.{World, held, memory_client, memory-IsStore}
use krop_controller.Tests.Sample.{
  twelve, no_selector, started, agent_node, an_instance, own_child, inhabited, reconciler_of,
  the_consumer, sample-IsCluster, sample-IsSeparate,
}

-- A time is written as its seconds.
abbrev coarse : ℕ → Text
coarse t = (t / second) ∷ []

abbrev read_clock : Text → Option ℕ
read_clock [] = none
read_clock (n ∷ _) = some (n * second)

coarse-DropsFraction : (t : ℕ) → DropsFraction coarse read_clock t
coarse-DropsFraction t = (
  (t / second) * second,
  refl,
  omega (arith, div-add-mod' t second),
  omega (arith, div-add-mod' t second, mod-lt t {m = second} (omega arith)),
)

-- 50.9 seconds
abbrev time : ℕ
time = 50900000000

abbrev the_cluster : Text → World → Result (Client World)
the_cluster _ _ = ok the_consumer

abbrev both : List Target
both = consumer ∷ provider ∷ []

abbrev in_front : List Condition → Condition → List Condition
in_front cs c = c ∷ cs

-- A blueprint whose graph makes nothing in the provider's cluster.
abbrev nothing_made : Reconciler World
nothing_made = reconciler_of []

abbrev request : Result (Option ℕ) × World
request =
    reconcile_request twelve coarse in_front no_selector (started (agent_node ∷ [])) both
      nothing_made the_cluster (codes "root") (codes "default") (codes "main") time inhabited

instance_found :
    the_consumer.get nothing_made.instance_gvk (codes "default") (codes "main") inhabited
    ≡ ok an_instance
unfolding memory_client object_at child_id_eq
instance_found = refl

status_elsewhere :
    (o : Object) (w : World) → held provider (the_consumer.update_status o w).1 ≡ held provider w
unfolding memory_client target_eq
status_elsewhere o w = refl

requeued : request.0 ≡ ok (some requeue_interval)
unfolding reconcile_request after_reconcile reconcile_instance reconcile_found apply_pass reconcile
    reconcile_nodes reconcile_node after_ignored after_desired node_step apply_step apply_all
    after_apply appliers qualified labeling_applier qualifying_applier recording_applier ssa_applier
    after_engine record_and_prune prune_children prune_target child_gvks collect_gvks
    write_liveness_record upsert_record record_key after_prune report target_for_node
    provider_child_name name_base gc_labels stamp_consumer_cluster memory_client object_at
    child_id_eq gvk_eq text_eq target_eq
requeued = refl

child_owned : All (BelongsTo (codes "u1") (child_id own_child)) (request.1 provider)
unfolding reconcile_request after_reconcile reconcile_instance reconcile_found apply_pass reconcile
    reconcile_nodes reconcile_node after_ignored after_desired node_step apply_step apply_all
    after_apply appliers qualified labeling_applier qualifying_applier recording_applier ssa_applier
    after_engine record_and_prune prune_children prune_target child_gvks collect_gvks
    write_liveness_record upsert_record record_key after_prune report target_for_node
    provider_child_name name_base gc_labels stamp_consumer_cluster memory_client object_at
    child_id_eq gvk_eq text_eq target_eq
child_owned = ((λ e. refl), ((λ e. cc), ((λ e. refl), ((λ e. refl), tt))))

abbrev sweeper : Sweeper World
sweeper = record (orphan_sweeper (memory_client provider) none) { started_at = some 0 }

record_keyed :
    All
      (λ rec.
        has_label label_liveness (codes "true") rec.labels ≡ true
        → uid_of sweeper rec ≡ codes "u1"
        → object_id rec
          ≡ object_id (record_key twelve coarse nothing_made (codes "root") (codes "u1")))
      (request.1 provider)
unfolding reconcile_request after_reconcile reconcile_instance reconcile_found apply_pass reconcile
    reconcile_nodes reconcile_node after_ignored after_desired node_step apply_step apply_all
    after_apply appliers qualified labeling_applier qualifying_applier recording_applier ssa_applier
    after_engine record_and_prune prune_children prune_target child_gvks collect_gvks
    write_liveness_record upsert_record record_key after_prune report target_for_node
    provider_child_name name_base gc_labels stamp_consumer_cluster memory_client object_at
    child_id_eq gvk_eq text_eq target_eq
record_keyed = ((λ l e. cc), ((λ l e. cc), ((λ l e. cc), ((λ l e. refl), tt))))

reconcile_request-guards_example :
    (◌≡◌ {A = Option ℕ} (some requeue_interval) (some requeue_interval))
    × (object_at
          (child_id own_child)
          (run_ticks read_clock (100 * second ∷ 349900000000 ∷ []) sweeper request.1 provider)
        ≡ object_at (child_id own_child) (request.1 provider))
reconcile_request-guards_example =
    reconcile_request-guards held twelve coarse read_clock time (coarse-DropsFraction time) in_front
      no_selector (started (agent_node ∷ [])) both nothing_made the_cluster (codes "root")
      the_consumer (sample-IsCluster []) (sample-IsSeparate []) (memory-IsStore provider)
      status_elsewhere an_instance (codes "default") (codes "main")
      (100 * second ∷ 349900000000 ∷ []) inhabited provider (child_id own_child)
      (some requeue_interval) (some 0) refl instance_found refl (ground arith) requeued child_owned
      record_keyed (omega arith)
