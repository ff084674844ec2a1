-- ===== src/Tests/Reconcile.antt =====
-- The properties of the reconciler at concrete inputs.
use krop_controller.Base.{
  Text, ◌==◌, text_eq, if◌then◌else◌, ◌≡◌, ◌≢◌, ◌⊎◌, refl, subst, true, false, none, some, List, [],
  ◌∷◌, contains, All, arith,
}
use krop_controller.Base.Bytes.{codes, byte_eq, trim_suffix}
use krop_controller.Base.Result.{Result, Error, ok, err, data_pending}
use krop_controller.Base.Stable.{Stable}
use krop_controller.Api.Object.{
  Object, gvk_eq, ChildId, child_id_eq, child_id, Condition, status_true, status_false,
}
use krop_controller.Api.Client.{Client}
use krop_controller.Api.Clusters.{object_id, unversioned, item_gvk, object_at, is_deleting}
use krop_controller.Engine.Route.{Target, target_eq, consumer, provider, host, target_for_node}
use krop_controller.Engine.Labels.{finalizer, label_instance_uid, gc_labels, stamp_consumer_cluster}
use krop_controller.Engine.Naming.{provider_child_name, name_base, liveness_record_name}
use krop_controller.Engine.Apply.{
  labeling_applier, qualifying_applier, recording_applier, ssa_applier,
}
use krop_controller.Engine.Graph.{Runtime}
use krop_controller.Engine.Loop.{
  Outcome, reconcile_node, reconcile_nodes, reconcile, after_ignored, after_desired, node_step,
  apply_step, apply_all, after_apply,
}
use krop_controller.Controller.Config.{Reconciler, clients, namespace_or_default}
use krop_controller.Controller.Deletion.{delete-Stable}
use krop_controller.Controller.Children.{
  has_label, collect_gvks, child_gvks, prune_one, prune_kind, prune_target, prune_children,
}
use krop_controller.Controller.Children.Reclaimed.{IsCleared}
use krop_controller.Controller.Liveness.{
  liveness_labels, liveness_data, record_key, upsert_record, write_liveness_record,
  child_gvk_string,
}
use krop_controller.Controller.Conditions.{
  condition_ready, condition_progressing, read_conditions, write_conditions,
  apply_result_conditions,
}
use krop_controller.Controller.Conditions.Reports.{
  find_condition, IsReported, find-apply_result_conditions,
}
use krop_controller.Controller.Reconcile.{
  appliers, qualified, no_summary, remove_string, release, reconcile_instance, reconcile_found,
  apply_pass, after_engine, record_and_prune, after_prune, report,
}
use krop_controller.Controller.Reconcile.Release.{DeletesKeep, release-IsCleared}
use krop_controller.Controller.Reconcile.Effects.{AppliesKeep, reconcile_instance-unfinished}
use krop_controller.Controller.Reconcile.Heartbeat.{
  makes_config_maps, any_node, prune_children-forgets_record,
}
use krop_controller.Controller.Reconcile.Recorded.{IsRecorded, reconcile_instance-requeues}
use krop_controller.Tests.Memory.{memory-IsStore, World, held, with_objects, memory_client}
use krop_controller.Tests.Sample.{
  own_child, twelve, clock_text, agent_node, config_node, to_provider, reconciler_of, an_instance,
  runtime_of, started, no_selector, inhabited, the_consumer, sample-IsCluster, some_inj,
}

-- A function that does what `meta.SetStatusCondition` is documented to do.
abbrev set_in_place : List Condition → Condition → List Condition
set_in_place [] c = c ∷ []
set_in_place (d ∷ ds) c = if d.type == c.type then c ∷ ds else d ∷ set_in_place ds c

find-set_in_place :
    (cs : List Condition) (c : Condition) (t : Text)
    → find_condition t (set_in_place cs c) ≡ (if c.type == t then some c else find_condition t cs)
find-set_in_place [] c t = refl
find-set_in_place (d ∷ ds) c t = ground (arith, find-set_in_place ds c t)

find-apply_result_conditions_example :
    let made = read_conditions (
      write_conditions an_instance
        (apply_result_conditions set_in_place (read_conditions an_instance) no_summary 3)) in
    IsReported (find_condition (codes "Ready") made) (codes "Ready") status_false 3
    × IsReported (find_condition (codes "Progressing") made) (codes "Progressing") status_true 3
    × ((t : Text)
        → t ≢ condition_ready
        → t ≢ condition_progressing
        → find_condition t made ≡ find_condition t (read_conditions an_instance))
find-apply_result_conditions_example =
    find-apply_result_conditions set_in_place (record { find_set = find-set_in_place }) an_instance
      no_summary

abbrev both : List Target
both = provider ∷ consumer ∷ []

abbrev r : Reconciler World
r = reconciler_of (agent_node ∷ [])

abbrev HoldsFinalizer : Object → Type 0
HoldsFinalizer o = child_id o ≡ child_id an_instance → contains o.finalizers finalizer ≡ true

abbrev InstanceHeld : World → Type 0
InstanceHeld w = All HoldsFinalizer (w consumer)

sample-DeletesKeep :
    (t : Target) (c : Client World) → clients r the_consumer t ≡ some c → DeletesKeep InstanceHeld c
sample-DeletesKeep t c e o =
    delete-Stable held t c (sample-IsCluster (agent_node ∷ []) t c e) consumer HoldsFinalizer
      (λ now x k q. k q) o

finalizer_there : contains an_instance.finalizers finalizer ≡ true
finalizer_there = ground arith

release-IsCleared_example :
    let released =
      release twelve clock_text set_in_place no_selector
        (started (agent_node ∷ []))
        both
        r
        the_consumer
        (codes "root")
        an_instance
        inhabited in
    ((v : World) × All (λ t. IsCleared held r the_consumer (codes "u1") (λ _ _ _. false) t v) both
      × All
          (λ o.
            object_id o
              ≡ unversioned (record {
                gvk = record { group = []; version = codes "v1"; kind = codes "ConfigMap" };
                namespace = namespace_or_default [];
                name = liveness_record_name twelve (codes "root") (codes "u1");
              })
            → is_deleting o ≡ true)
          (v provider)
      × (released
          ≡ the_consumer.update
              (record an_instance { finalizers = remove_string an_instance.finalizers finalizer })
              v))
    ⊎ ((e : Error) × (released.0 ≡ err e) × InstanceHeld released.1)
release-IsCleared_example =
    release-IsCleared held twelve clock_text set_in_place no_selector (started (agent_node ∷ []))
      both r the_consumer (codes "root") (sample-IsCluster (agent_node ∷ [])) InstanceHeld
      sample-DeletesKeep an_instance inhabited finalizer_there ((λ e. finalizer_there), tt)

-- A pass that waits for a dependency: no host is configured, so the host's cluster stays empty.
abbrev HostEmpty : World → Type 0
HostEmpty w = w host ≡ []

with_objects-HostEmpty :
    (t : Target) (os : List Object) (w : World)
    → t ≢ host
    → HostEmpty w
    → HostEmpty (with_objects t os w)
with_objects-HostEmpty t os w n h = ground (arith, h)

memory-AppliesKeep :
    (t : Target) (c : Client World) → clients r the_consumer t ≡ some c → AppliesKeep HostEmpty c
unfolding memory_client
memory-AppliesKeep consumer c e =
    subst (λ (d : Client World). AppliesKeep HostEmpty d) (some_inj _ c e)
      (λ o w h. with_objects-HostEmpty consumer _ w (λ q. cc) h)
memory-AppliesKeep provider c e =
    subst (λ (d : Client World). AppliesKeep HostEmpty d) (some_inj _ c e)
      (λ o w h. with_objects-HostEmpty provider _ w (λ q. cc) h)
memory-AppliesKeep host c e = cc

abbrev waiting_runtime : Object → Result (Runtime (List Object) × List Object)
waiting_runtime _ =
    ok (record (runtime_of (agent_node ∷ [])) { get_desired = λ id s. (err data_pending, s) }, [])

abbrev pass_at : World → Outcome × World
pass_at w =
    reconcile_instance twelve clock_text set_in_place no_selector waiting_runtime both r
      the_consumer (codes "root") (codes "default") (codes "main") 50 w

instance_found :
    the_consumer.get r.instance_gvk (codes "default") (codes "main") inhabited ≡ ok an_instance
unfolding memory_client object_at child_id_eq
instance_found = refl

waits : (pass_at inhabited).0.summary.complete ≡ false
unfolding reconcile_instance reconcile_found apply_pass reconcile reconcile_nodes reconcile_node
    after_ignored after_desired after_engine record_and_prune write_liveness_record upsert_record
    record_key after_prune report memory_client object_at child_id_eq text_eq target_eq
waits = refl

alive : is_deleting an_instance ≡ false
alive = refl

reconcile_instance-unfinished_example : HostEmpty (pass_at inhabited).1
unfolding memory_client
reconcile_instance-unfinished_example =
    reconcile_instance-unfinished twelve clock_text set_in_place no_selector waiting_runtime both r
      the_consumer (codes "root") HostEmpty memory-AppliesKeep
      (λ o w h. with_objects-HostEmpty provider _ w (λ q. cc) h)
      (λ o w h. with_objects-HostEmpty provider _ w (λ q. cc) h)
      (λ o w h. with_objects-HostEmpty consumer _ w (λ q. cc) h)
      (λ o w h. with_objects-HostEmpty consumer _ w (λ q. cc) h) (codes "default") (codes "main") 50
      inhabited an_instance instance_found alive waits refl

-- A blueprint whose graph makes nothing in the provider's cluster: prune leaves the record alone.
abbrev quiet : Reconciler World
quiet = reconciler_of []

-- The provider's cluster has a record of an earlier pass.
abbrev old_record : Object
old_record = record (record_key twelve clock_text quiet (codes "root") (codes "u1")) {
  labels = liveness_labels twelve clock_text quiet (codes "root") (codes "u1");
  config = liveness_data twelve clock_text quiet 10;
}

abbrev revisited : World
revisited consumer = an_instance ∷ []
revisited provider = old_record ∷ own_child ∷ []
revisited host = []

abbrev RecordThere : World → Type 0
RecordThere = IsRecorded held twelve clock_text quiet (codes "root") (codes "u1") 50

prune_idle :
    (applied : Target → List ChildId)
    → Stable RecordThere (prune_children quiet both the_consumer (codes "u1") applied)
unfolding prune_children prune_target child_gvks collect_gvks
prune_idle applied w h = h

status_elsewhere : (o : Object) → Stable RecordThere (the_consumer.update_status o)
unfolding memory_client target_eq
status_elsewhere o w h = h

abbrev full_pass : Outcome × World
full_pass =
    reconcile_instance twelve clock_text set_in_place no_selector (started (agent_node ∷ [])) both
      quiet the_consumer (codes "root") (codes "default") (codes "main") 50 revisited

instance_revisited :
    the_consumer.get quiet.instance_gvk (codes "default") (codes "main") revisited ≡ ok an_instance
unfolding memory_client object_at child_id_eq
instance_revisited = refl

succeeds : full_pass.0.error ≡ none
unfolding reconcile_instance reconcile_found apply_pass reconcile reconcile_nodes reconcile_node
    after_ignored after_desired node_step apply_step apply_all after_apply appliers qualified
    labeling_applier qualifying_applier recording_applier ssa_applier after_engine record_and_prune
    prune_children prune_target child_gvks collect_gvks write_liveness_record upsert_record
    record_key after_prune report target_for_node provider_child_name name_base gc_labels
    stamp_consumer_cluster memory_client object_at child_id_eq gvk_eq text_eq target_eq
    namespace_or_default liveness_record_name
succeeds = refl

reconcile_instance-requeues_example : (full_pass.0.summary.requeue ≡ true) × RecordThere full_pass.1
reconcile_instance-requeues_example =
    reconcile_instance-requeues held twelve clock_text set_in_place no_selector
      (started (agent_node ∷ [])) both quiet the_consumer (codes "root") (memory-IsStore provider)
      an_instance 50 RecordThere (λ w h. h) prune_idle status_elsewhere (codes "default")
      (codes "main") revisited instance_revisited alive finalizer_there succeeds

-- A blueprint that makes ConfigMaps in the provider's cluster.
abbrev configs : Reconciler World
configs = reconciler_of (config_node ∷ [])

abbrev recorded : World
recorded =
    (write_liveness_record twelve clock_text configs (codes "root") (codes "u1") 50 inhabited).1

abbrev none_applied : Target → List ChildId
none_applied _ = []

provider_met : contains both provider ≡ true
unfolding target_eq
provider_met = refl

makes_them : any_node (makes_config_maps to_provider) (config_node ∷ []) ≡ true
unfolding target_for_node target_eq text_eq gvk_eq
makes_them = refl

prunes : (prune_children configs both the_consumer (codes "u1") none_applied recorded).0 ≡ ok tt
unfolding write_liveness_record upsert_record record_key child_gvk_string prune_children
    prune_target prune_kind prune_one child_gvks collect_gvks target_for_node target_eq text_eq
    gvk_eq child_id_eq object_at memory_client item_gvk trim_suffix namespace_or_default
    liveness_record_name
prunes = refl

prune_children-forgets_record_example :
    All
      (λ o.
        object_id o ≡ object_id (record_key twelve clock_text configs (codes "root") (codes "u1"))
        → has_label label_instance_uid (codes "u1") o.labels ≡ true
        → is_deleting o ≡ true)
      ((prune_children configs both the_consumer (codes "u1") none_applied recorded).1 provider)
prune_children-forgets_record_example =
    prune_children-forgets_record held twelve clock_text configs the_consumer (codes "root")
      (sample-IsCluster (config_node ∷ [])) (codes "u1") none_applied recorded both provider_met
      makes_them refl prunes
