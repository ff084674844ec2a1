-- ===== src/Controller/Sweeper/Lifeline.antt =====
-- The reconciler's heartbeat (internal/controller/reconciler.go) and the sweeper
-- (internal/controller/sweeper.go) together: a pass over an instance, and the sweeps after it.
use Prim.Native.Nat.{◌-◌}
use krop_controller.Base.{
  ℕ, ◌+◌, ◌≤◌, ◌<◌, Text, text_eq, contains, ◌≡◌, refl, sym, ap, ◌∙◌, subst, true, false, Option,
  none, some, List, [], All, All-map, All-map2, arith,
}
use krop_controller.Base.Bytes.{codes}
use krop_controller.Base.Dict.{get_or}
use krop_controller.Base.Result.{Result, ok}
use krop_controller.Api.Object.{Object, Condition, ChildId}
use krop_controller.Api.Client.{Client, Selector}
use krop_controller.Api.Clusters.{object_id, is_deleting, object_at, IsCluster, IsSeparate, IsStore}
use krop_controller.Engine.Route.{Target, provider, host}
use krop_controller.Engine.Labels.{finalizer, label_liveness}
use krop_controller.Engine.Graph.{Runtime}
use krop_controller.Controller.Config.{Reconciler, clients}
use krop_controller.Controller.Deletion.{delete-Stable}
use krop_controller.Controller.Children.{has_label}
use krop_controller.Controller.Children.Deletes.{prune_children-Stable}
use krop_controller.Controller.Liveness.{second, last_reconciled, record_key}
use krop_controller.Controller.Reconcile.{reconcile_instance}
use krop_controller.Controller.Reconcile.Recorded.{Bears, IsRecorded, reconcile_instance-requeues}
use krop_controller.Controller.Sweeper.{Sweeper, uid_of, run_ticks}
use krop_controller.Controller.Sweeper.Ticks.{IsFreshTo, run_ticks-IsSafe}
use krop_controller.Controller.Sweeper.Fresh.{BelongsTo}

some_inj : {A : Type 0} {a b : A} → some a ≡ some b → a ≡ b
some_inj e = cc

-- A time that is written with `time.RFC3339` and read again has lost its fraction of a second.
abbrev pub DropsFraction : (ℕ → Text) → (Text → Option ℕ) → ℕ → Type 0
DropsFraction format parse_time t =
    (read : ℕ) × (parse_time (format t) ≡ some read) × (read ≤ t) × (t < read + second)

module _ {W : Type 0} (objects : Target → W → List Object) (digest : Text → Text)
    (format : ℕ → Text) (parse_time : Text → Option ℕ) (now : ℕ)
    (reads_back : DropsFraction format parse_time now) (r : Reconciler W) (cluster uid : Text) where
  -- A record of the instance under its key bears the second of the time `now`.
  abbrev pub IsBeat : Object → Type 0
  IsBeat o =
      object_id o ≡ object_id (record_key digest format r cluster uid)
      → (last : ℕ) × (parse_time (get_or [] last_reconciled o.config) ≡ some last)
        × (now < last + second)

  abbrev pub Beat : W → Type 0
  Beat w = All IsBeat (objects provider w)

  Bears-IsBeat : (o : Object) → Bears objects digest format r cluster uid now o → IsBeat o
  unfolding record_key
  Bears-IsBeat o bears keyed =
      let (_, _, _, dated, _, _) = bears keyed in
      let (last, read, _, near) = reads_back in (last, ap parse_time dated ∙ read, near)

  pub IsRecorded-Beat : (w : W) → IsRecorded objects digest format r cluster uid now w → Beat w
  IsRecorded-Beat w (_, all_bear) =
      All-map (Bears objects digest format r cluster uid now) IsBeat (objects provider w)
        Bears-IsBeat all_bear

module _ {W R : Type 0} (objects : Target → W → List Object) (digest : Text → Text)
    (format : ℕ → Text) (parse_time : Text → Option ℕ) (now : ℕ)
    (reads_back : DropsFraction format parse_time now)
    (set_condition : List Condition → Condition → List Condition)
    (as_selector : Text → Result Selector) (from_graph : Object → Result (Runtime R × R))
    (order : List Target) (r : Reconciler W) (consumer_client : Client W) (cluster : Text)
    (clusters : (t : Target) (c : Client W)
      → clients r consumer_client t ≡ some c
      → IsCluster objects t c)
    (separate : (t : Target) (c : Client W)
      → clients r consumer_client t ≡ some c
      → IsSeparate objects t c)
    (store : IsStore objects provider r.provider_client)
    (status_elsewhere : (o : Object) (w : W)
      → objects provider (consumer_client.update_status o w).1 ≡ objects provider w) where
  -- What the pass leaves behind.
  pass-Beat :
      (inst : Object) (namespace name : Text) (w : W)
      → consumer_client.get r.instance_gvk namespace name w ≡ ok inst
      → is_deleting inst ≡ false
      → contains inst.finalizers finalizer ≡ true
      → let run =
          reconcile_instance digest format set_condition as_selector from_graph order r
            consumer_client cluster namespace name now w in
        run.0.error ≡ none
        → Beat objects digest format parse_time now reads_back r cluster inst.uid run.1
  pass-Beat inst namespace name w found alive held done =
      let P = Beat objects digest format parse_time now reads_back r cluster inst.uid in
      let beat = IsBeat objects digest format parse_time now reads_back r cluster inst.uid in
      (reconcile_instance-requeues objects digest format set_condition as_selector from_graph order
        r consumer_client cluster store inst now P
        (IsRecorded-Beat objects digest format parse_time now reads_back r cluster inst.uid)
        (λ applied.
          prune_children-Stable P r consumer_client
            (λ t c e. delete-Stable objects t c (clusters t c e) provider beat (λ at o k. k))
            inst.uid applied order)
        (λ o v p. subst (λ (os : List Object). All beat os) (sym (status_elsewhere o v)) p)
        namespace name w found alive held done).1

  module _ (s : Sweeper W) (provider_cluster : IsCluster objects provider s.provider_client)
      (provider_separate : IsSeparate objects provider s.provider_client)
      (host_cluster : (c : Client W) → s.host_client ≡ some c → IsCluster objects host c)
      (host_separate : (c : Client W) → s.host_client ≡ some c → IsSeparate objects host c) where
    -- A pass over a live, protected instance that reports no error guards the instance's objects: any
    -- number of sweeps, each later by at most `StaleAfter` less a second, which is what a record's time may
    -- lack of the time of the pass, leave an object that carries the
    -- instance's uid label exactly as it is, in every cluster. Each liveness record with that label must
    -- stand under the instance's own key, and the sweeps may fail anywhere and reclaim other instances.
    pub reconcile_instance-guards :
        (inst : Object) (namespace name : Text) (ticks : List ℕ) (w : W) (t : Target) (id : ChildId)
        → consumer_client.get r.instance_gvk namespace name w ≡ ok inst
        → is_deleting inst ≡ false
        → contains inst.finalizers finalizer ≡ true
        → let run =
            reconcile_instance digest format set_condition as_selector from_graph order r
              consumer_client cluster namespace name now w in
          run.0.error ≡ none
          → All (BelongsTo inst.uid id) (objects t run.1)
          → All
              (λ rec.
                has_label label_liveness (codes "true") rec.labels ≡ true
                → uid_of s rec ≡ inst.uid
                → object_id rec ≡ object_id (record_key digest format r cluster inst.uid))
              (objects provider run.1)
          → All (λ later. later + second ≤ now + s.stale_after) ticks
          → object_at id (objects t (run_ticks parse_time ticks s run.1))
            ≡ object_at id (objects t run.1)
    reconcile_instance-guards inst namespace name ticks w t id found alive held done owned keyed
          soon =
        let end =
          (reconcile_instance digest format set_condition as_selector from_graph order r
            consumer_client cluster namespace name now w).1 in
        let before = object_at id (objects t end) in
        let bound = (now + s.stale_after) - second in
        (run_ticks-IsSafe objects parse_time t id inst.uid before s provider_cluster
          provider_separate host_cluster host_separate bound ticks end
          (All-map (λ later. later + second ≤ now + s.stale_after) (λ later. later ≤ bound) ticks
            (λ later h. omega (arith, h)) soon)
          (record { same = refl; owned = owned })
          (All-map2 (IsBeat objects digest format parse_time now reads_back r cluster inst.uid)
            (λ rec.
              has_label label_liveness (codes "true") rec.labels ≡ true
              → uid_of s rec ≡ inst.uid
              → object_id rec ≡ object_id (record_key digest format r cluster inst.uid))
            (IsFreshTo objects parse_time t id inst.uid before s bound) (objects provider end)
            (λ rec beats key l e last read.
              let (last', read', near) = beats (key l e) in
              let same : last' ≡ last = some_inj (sym read' ∙ read) in omega (arith, same, near))
            (pass-Beat inst namespace name w found alive held done) keyed)).same
