-- ===== src/Controller/Reconcile/Effects.antt =====
-- What a pass over a live instance may do to the clusters before it is complete.
use krop_controller.Base.{
  ℕ, Text, contains, text_eq, ◌≡◌, refl, sym, ◌∙◌, inl, inr, false, Option, none, some, List,
  Bool-cases,
}
use krop_controller.Base.Result.{Error, is_not_found, Result, ok, err, Prog, pure}
use krop_controller.Base.Stable.{Stable, bind-Stable}
use krop_controller.Api.Object.{Object, Condition, ChildId}
use krop_controller.Api.Client.{Client, Selector}
use krop_controller.Api.Clusters.{is_deleting}
use krop_controller.Engine.Route.{Target}
use krop_controller.Engine.Labels.{finalizer, stamp_consumer_cluster}
use krop_controller.Engine.Graph.{Runtime}
use krop_controller.Engine.Apply.{Applier, Pass}
use krop_controller.Engine.Loop.{Summary, State, Outcome, reconcile}
use krop_controller.Controller.Reconcile.Owned.{reconcile-IsOwned}
use krop_controller.Controller.Config.{Reconciler, clients}
use krop_controller.Controller.Liveness.{write_liveness_record, upsert_record, record_key}
use krop_controller.Controller.Reconcile.{
  nothing_applied, appliers, readers, record_and_prune, report, after_prune, after_engine,
  apply_pass, reconcile_found, reconcile_instance,
}

module _ {W : Type 0} (P : W → Type 0) where
  -- The client's server-side applies keep `P`.
  abbrev pub AppliesKeep : Client W → Type 0
  AppliesKeep c = (o : Object) → Stable P (c.apply o)

module _ {W R : Type 0} (digest : Text → Text) (format : ℕ → Text)
    (set_condition : List Condition → Condition → List Condition)
    (as_selector : Text → Result Selector) (from_graph : Object → Result (Runtime R × R))
    (order : List Target) (r : Reconciler W) (consumer_client : Client W) (cluster : Text) where
  abbrev found_of : Object → ℕ → W → Outcome × W
  found_of =
      reconcile_found digest format set_condition as_selector from_graph order r consumer_client
        cluster

  abbrev instance_of : Text → Text → ℕ → W → Outcome × W
  instance_of =
      reconcile_instance digest format set_condition as_selector from_graph order r consumer_client
        cluster

  abbrev appliers_of : Object → Target → Option (Applier (Pass W))
  appliers_of =
      appliers digest format set_condition as_selector from_graph order r consumer_client cluster

  abbrev recorded : Object → ℕ → Summary → (Target → List ChildId) → Prog W (Unit {0})
  recorded =
      record_and_prune digest format set_condition as_selector from_graph order r consumer_client
        cluster

  abbrev reported : Runtime R → R → Object → Summary → Result (Unit {0}) → W → Outcome × W
  reported =
      after_prune digest format set_condition as_selector from_graph order r consumer_client cluster

  abbrev engine_done : Runtime R → Object → ℕ → Outcome → State R (Pass W) → Outcome × W
  engine_done =
      after_engine digest format set_condition as_selector from_graph order r consumer_client
        cluster

  reported-complete :
      (rt : Runtime R) (x : R) (inst : Object) (res : Summary) (d : Result (Unit {0})) (w : W)
      → (reported rt x inst res d w).0.summary.complete ≡ res.complete
  unfolding after_prune report
  reported-complete rt x inst res (ok _) w = refl
  reported-complete rt x inst res (err e) w = refl

  module _ (P : W → Type 0)
      (applies : (t : Target) (c : Client W)
        → clients r consumer_client t ≡ some c
        → AppliesKeep P c)
      (creates : (o : Object) → Stable P (r.provider_client.create o))
      (updates : (o : Object) → Stable P (r.provider_client.update o))
      (instance_updates : (o : Object) → Stable P (consumer_client.update o))
      (status_updates : (o : Object) → Stable P (consumer_client.update_status o)) where
    write_liveness_record-Stable :
        (uid : Text) (now : ℕ) → Stable P (write_liveness_record digest format r cluster uid now)
    unfolding write_liveness_record upsert_record
    write_liveness_record-Stable uid now w p =
        go (r.provider_client.get key.gvk key.namespace key.name w)
      where
        key : Object
        key = record_key digest format r cluster uid

        go : (x : Result Object) → P (upsert_record digest format r cluster uid now x w).1
        go (ok existing) = updates _ w p
        go (err e) = elim (Bool-cases (is_not_found e)) [
          | inl missing ↦ rw missing (creates _ w p)
          | inr other ↦ rw other p
        ]

    recorded-unfinished :
        (inst : Object) (now : ℕ) (res : Summary) (applied : Target → List ChildId)
        → res.complete ≡ false
        → Stable P (recorded inst now res applied)
    unfolding record_and_prune
    recorded-unfinished inst now res applied e =
        rw (e, recorded)
          (bind-Stable P (write_liveness_record digest format r cluster inst.uid now) (λ _. pure tt)
            (write_liveness_record-Stable inst.uid now) (λ _ w p. p))

    reported-keeps :
        (rt : Runtime R) (x : R) (inst : Object) (res : Summary) (d : Result (Unit {0})) (w : W)
        → P w
        → P (reported rt x inst res d w).1
    unfolding after_prune report
    reported-keeps rt x inst res (ok _) w p = status_updates _ w p
    reported-keeps rt x inst res (err e) w p = p

    engine_done-keeps :
        (rt : Runtime R) (inst : Object) (now : ℕ) (o : Outcome) (s : State R (Pass W))
        → (engine_done rt inst now o s).0.summary.complete ≡ false
        → P s.io.world
        → P (engine_done rt inst now o s).1
    unfolding after_engine
    engine_done-keeps rt inst now o s unfinished p = go o.error refl
      where
        go : (x : Option Error) → o.error ≡ x → P (engine_done rt inst now o s).1
        go (some e) q = rw (q, engine_done) p
        go none q =
            let (done, w) = recorded inst now o.summary s.io.applied s.io.world in
            rw (q, engine_done)
              (reported-keeps rt s.runtime inst o.summary done w (
                recorded-unfinished inst now o.summary s.io.applied
                  (sym (reported-complete rt s.runtime inst o.summary done w)
                    ∙ rw (q, engine_done) at unfinished)
                  s.io.world p))

    abbrev pass_of : Object → ℕ → W → Outcome × W
    pass_of =
        apply_pass digest format set_condition as_selector from_graph order r consumer_client
          cluster

    pass_of-keeps :
        (inst : Object) (now : ℕ) (w : W)
        → (pass_of inst now w).0.summary.complete ≡ false
        → P w
        → P (pass_of inst now w).1
    unfolding apply_pass
    pass_of-keeps inst now w unfinished p =
        go (from_graph (stamp_consumer_cluster inst cluster)) refl
      where
        go :
            (x : Result (Runtime R × R))
            → from_graph (stamp_consumer_cluster inst cluster) ≡ x
            → P (pass_of inst now w).1
        go (err e) q = rw (q, apply_pass) p
        go (ok (rt, runtime)) q =
            let begin : State R (Pass W) = record {
              runtime = runtime;
              io = record { world = w; applied = nothing_applied };
            } in
            let ran =
              reconcile rt as_selector (appliers_of inst)
                (readers digest format set_condition as_selector from_graph order r consumer_client
                  cluster)
                r.routing begin in
            rw (q, apply_pass)
              (engine_done-keeps rt inst now ran.0 ran.1 (rw (q, apply_pass) at unfinished) (
                reconcile-IsOwned digest format set_condition as_selector from_graph order r
                  consumer_client cluster inst P (λ t c o e _. applies t c e o) rt begin p))

    found_of-keeps :
        (inst : Object) (now : ℕ) (w : W)
        → is_deleting inst ≡ false
        → (found_of inst now w).0.summary.complete ≡ false
        → P w
        → P (found_of inst now w).1
    unfolding reconcile_found
    found_of-keeps inst now w alive unfinished p =
        elim (Bool-cases (contains inst.finalizers finalizer)) [
          | inl held ↦
              rw (alive, held, reconcile_found)
                (pass_of-keeps inst now w (rw (alive, held, reconcile_found) at unfinished) p)
          | inr free ↦ rw (alive, free, reconcile_found) (instance_updates _ w p)
        ]

    -- A pass over an instance that is not being deleted deletes nothing unless it is complete: what all
    -- other writes keep (server-side applies by any client, the creation and the update of the liveness
    -- record, the updates of the instance and of its status), a pass that fails, waits or only adds the
    -- finalizer keeps. So an incomplete pass never prunes.
    pub reconcile_instance-unfinished :
        (namespace name : Text) (now : ℕ) (w : W) (inst : Object)
        → consumer_client.get r.instance_gvk namespace name w ≡ ok inst
        → is_deleting inst ≡ false
        → (instance_of namespace name now w).0.summary.complete ≡ false
        → P w
        → P (instance_of namespace name now w).1
    unfolding reconcile_instance
    reconcile_instance-unfinished namespace name now w inst found alive unfinished p =
        rw (found, reconcile_instance)
          (found_of-keeps inst now w alive (rw (found, reconcile_instance) at unfinished) p)
