-- ===== src/Process/Serve/Guarded.antt =====
-- A request of the instance controller, and the sweeps after it (cmd/controller/main.go).
use Prim.Native.Nat.{◌*◌}
use krop_controller.Base.{
  ℕ, ◌+◌, ◌≤◌, Text, text_eq, contains, ◌≡◌, refl, true, false, Option, none, some, List, All,
  arith,
}
use krop_controller.Base.Bytes.{codes}
use krop_controller.Base.Result.{Result, ok}
use krop_controller.Api.Object.{Object, Condition, ChildId}
use krop_controller.Api.Client.{Client, Selector}
use krop_controller.Api.Clusters.{object_id, is_deleting, object_at, IsCluster, IsSeparate, IsStore}
use krop_controller.Engine.Route.{Target, provider, host}
use krop_controller.Engine.Labels.{finalizer, label_liveness}
use krop_controller.Engine.Graph.{Runtime}
use krop_controller.Engine.Loop.{Outcome}
use krop_controller.Controller.Config.{Reconciler, clients}
use krop_controller.Controller.Children.{has_label}
use krop_controller.Controller.Liveness.{second, record_key}
use krop_controller.Controller.Reconcile.{reconcile_instance}
use krop_controller.Controller.Reconcile.Heartbeat.{reconcile_instance-beats}
use krop_controller.Controller.Sweeper.{run_ticks, uid_of}
use krop_controller.Controller.Sweeper.Fresh.{BelongsTo}
use krop_controller.Controller.Sweeper.Lifeline.{DropsFraction, reconcile_instance-guards}
use krop_controller.Process.Serve.{
  requeue_interval, after_reconcile, reconcile_request, orphan_sweeper,
}

after_reconcile-ok :
    (o : Outcome) (after : Option ℕ) → after_reconcile o ≡ ok after → o.error ≡ none
unfolding after_reconcile
after_reconcile-ok o after h = ground (arith, h)

after_reconcile-requeues :
    (o : Outcome) (after : Option ℕ)
    → o.summary.requeue ≡ true
    → after_reconcile o ≡ ok after
    → after ≡ some requeue_interval
unfolding after_reconcile
after_reconcile-requeues o after again h = ground (arith, h, again)

module _ {W R : Type 0} (objects : Target → W → List Object) (digest : Text → Text)
    (format : ℕ → Text) (parse_time : Text → Option ℕ) (now : ℕ)
    (reads_back : DropsFraction format parse_time now)
    (set_condition : List Condition → Condition → List Condition)
    (as_selector : Text → Result Selector) (from_graph : Object → Result (Runtime R × R))
    (order : List Target) (r : Reconciler W) (get_cluster : Text → W → Result (Client W))
    (cluster : Text) (c : Client W)
    (clusters : (t : Target) (d : Client W) → clients r c t ≡ some d → IsCluster objects t d)
    (separate : (t : Target) (d : Client W) → clients r c t ≡ some d → IsSeparate objects t d)
    (store : IsStore objects provider r.provider_client)
    (status_elsewhere : (o : Object) (w : W)
      → objects provider (c.update_status o w).1 ≡ objects provider w) where
  -- A request for a live, protected instance that reports no error asks to be called again after the
  -- requeue interval. However many sweeps the process's sweeper makes from the state that the request
  -- leaves, whenever that was started, each later by at most ten such intervals less a second, which is
  -- what the time in a record may lack, they leave an object with the instance's uid label exactly as it
  -- is, in every cluster. Each liveness record with that label must
  -- stand under the instance's own key.
  pub reconcile_request-guards :
      (inst : Object) (namespace name : Text) (ticks : List ℕ) (w : W) (t : Target) (id : ChildId)
      (after : Option ℕ) (started : Option ℕ)
      → get_cluster cluster w ≡ ok c
      → c.get r.instance_gvk namespace name w ≡ ok inst
      → is_deleting inst ≡ false
      → contains inst.finalizers finalizer ≡ true
      → let run =
          reconcile_request digest format set_condition as_selector from_graph order r get_cluster
            cluster namespace name now w in
        let s = record (orphan_sweeper r.provider_client r.host_client) { started_at = started } in
        run.0 ≡ ok after
        → All (BelongsTo inst.uid id) (objects t run.1)
        → All
            (λ rec.
              has_label label_liveness (codes "true") rec.labels ≡ true
              → uid_of s rec ≡ inst.uid
              → object_id rec ≡ object_id (record_key digest format r cluster inst.uid))
            (objects provider run.1)
        → All (λ later. later + second ≤ now + 10 * requeue_interval) ticks
        → (after ≡ some requeue_interval)
          × (object_at id (objects t (run_ticks parse_time ticks s run.1))
              ≡ object_at id (objects t run.1))
  unfolding reconcile_request
  reconcile_request-guards inst namespace name ticks w t id after started got found alive held =
      rw (got, reconcile_request)
        λ done owned keyed soon.
          let run =
            reconcile_instance digest format set_condition as_selector from_graph order r c cluster
              namespace name now w in
          let quiet = after_reconcile-ok run.0 after done in
          let (again, _) =
            reconcile_instance-beats digest format set_condition as_selector from_graph order r c
              cluster inst now (λ _. Unit {0}) (λ _ _. tt) (λ _ _ _. tt) (λ _ _ _. tt) namespace
              name w found alive held quiet in
          (
            after_reconcile-requeues run.0 after again done,
            reconcile_instance-guards objects digest format parse_time now reads_back set_condition
                as_selector from_graph order r c cluster clusters separate store status_elsewhere
                (record (orphan_sweeper r.provider_client r.host_client) { started_at = started })
                (clusters provider _ refl) (separate provider _ refl) (λ d e. clusters host d e)
                (λ d e. separate host d e) inst namespace name ticks w t id found alive held quiet
                owned keyed soon,
          )
