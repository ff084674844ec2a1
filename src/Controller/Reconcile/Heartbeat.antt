-- ===== src/Controller/Reconcile/Heartbeat.antt =====
-- The liveness record over a pass of `Reconcile` (internal/controller/reconciler.go), and in a prune.
use krop_controller.Base.{
  ℕ, Text, ◌==◌, contains, text_eq, if◌then◌else◌, ◌≡◌, refl, sym, ap, ◌∙◌, subst, inl, inr, Bool,
  true, false, not, ◌&&◌, Option, none, some, List, [], ◌∷◌, All, All-map, at_contained, arith,
  Bool-cases,
}
use krop_controller.Base.Bytes.{trim_suffix}
use krop_controller.Base.Result.{Error, Result, ok, err, Prog, pure}
use krop_controller.Base.Stable.{Stable, bind-ok}
use krop_controller.Api.Object.{Object, Condition, ChildId, child_id_eq, Gvk, gvk_eq, child_id}
use krop_controller.Api.Client.{Client, Selector}
use krop_controller.Api.Clusters.{object_id, is_deleting, item_gvk, IsCluster}
use krop_controller.Engine.Route.{Target, target_eq, provider, Routing}
use krop_controller.Engine.Labels.{finalizer, label_instance_uid, stamp_consumer_cluster}
use krop_controller.Engine.Graph.{Runtime, Node}
use krop_controller.Engine.Apply.{Pass}
use krop_controller.Engine.Loop.{Summary, State, Outcome}
use krop_controller.Controller.Deletion.{IsReclaimed}
use krop_controller.Controller.Config.{Reconciler, clients}
use krop_controller.Controller.Children.{prune_children, is_child_of, has_label}
use krop_controller.Controller.Children.Reclaimed.{
  IsCleared, just_applied, prune_children-IsCleared,
}
use krop_controller.Controller.Liveness.{write_liveness_record, record_key, config_map_gvk}
use krop_controller.Controller.Reconcile.{
  record_and_prune, report, after_prune, after_engine, apply_pass, reconcile_found,
  reconcile_instance,
}

module _ {W R : Type 0} (digest : Text → Text) (format : ℕ → Text)
    (set_condition : List Condition → Condition → List Condition)
    (as_selector : Text → Result Selector) (from_graph : Object → Result (Runtime R × R))
    (order : List Target) (r : Reconciler W) (consumer_client : Client W) (cluster : Text)
    (inst : Object) (now : ℕ) (P : W → Type 0)
    (written : (w : W)
      → (write_liveness_record digest format r cluster inst.uid now w).0 ≡ ok tt
      → P (write_liveness_record digest format r cluster inst.uid now w).1)
    (pruned : (applied : Target → List ChildId)
      → Stable P (prune_children r order consumer_client inst.uid applied))
    (status_updates : (o : Object) → Stable P (consumer_client.update_status o)) where
  -- The pass asks to be called again, and the record has been written.
  abbrev Beats : Outcome × W → Type 0
  Beats (o, w) = o.error ≡ none → (o.summary.requeue ≡ true) × P w

  recorded-P :
      (res : Summary) (applied : Target → List ChildId) (w : W)
      → let run =
          record_and_prune digest format set_condition as_selector from_graph order r
            consumer_client cluster inst now res applied w in
        run.0 ≡ ok tt → P run.1
  unfolding record_and_prune
  recorded-P res applied w done =
      let prune : Prog W (Unit {0}) =
        if res.complete && not (is_deleting inst)
        then prune_children r order consumer_client inst.uid applied
        else pure tt in
      let (_, e, q) =
        bind-ok (write_liveness_record digest format r cluster inst.uid now) (λ _. prune) w done in
      subst (λ (x : Result (Unit {0}) × W). P x.1) (sym q)
        (elim (Bool-cases (res.complete && not (is_deleting inst))) [
          | inl prunes ↦ rw prunes (pruned applied _ (written w e))
          | inr stops ↦ rw stops (written w e)
        ])

  after_prune-Beats :
      (rt : Runtime R) (x : R) (res : Summary) (d : Result (Unit {0})) (w : W)
      → (d ≡ ok tt → P w)
      → Beats (
          after_prune digest format set_condition as_selector from_graph order r consumer_client
            cluster rt x inst res d w)
  unfolding after_prune report
  after_prune-Beats rt x res (ok _) w p e = (refl, status_updates _ w (p refl))
  after_prune-Beats rt x res (err f) w p e = cc

  after_engine-Beats :
      (rt : Runtime R) (o : Outcome) (s : State R (Pass W))
      → Beats (
          after_engine digest format set_condition as_selector from_graph order r consumer_client
            cluster rt inst now o s)
  unfolding after_engine
  after_engine-Beats rt o s = go o.error refl
    where
      go :
          (x : Option Error)
          → o.error ≡ x
          → Beats (
              after_engine digest format set_condition as_selector from_graph order r
                consumer_client cluster rt inst now o s)
      go (some e) q = rw (q, after_engine) (λ none_left. cc (none_left, q))
      go none q =
          rw (q, after_engine)
            (after_prune-Beats rt s.runtime o.summary _ _
              (recorded-P o.summary s.io.applied s.io.world))

  apply_pass-Beats :
      (w : W)
      → Beats (
          apply_pass digest format set_condition as_selector from_graph order r consumer_client
            cluster inst now w)
  unfolding apply_pass
  apply_pass-Beats w = go (from_graph (stamp_consumer_cluster inst cluster)) refl
    where
      go :
          (x : Result (Runtime R × R))
          → from_graph (stamp_consumer_cluster inst cluster) ≡ x
          → Beats (
              apply_pass digest format set_condition as_selector from_graph order r consumer_client
                cluster inst now w)
      go (err e) q = rw (q, apply_pass) (λ none_left. cc)
      go (ok (rt, runtime)) q = rw (q, apply_pass) (after_engine-Beats rt _ _)

  -- What a successful write brings about, and prune and the status update keep, holds at the end.
  pub reconcile_instance-beats :
      (namespace name : Text) (w : W)
      → consumer_client.get r.instance_gvk namespace name w ≡ ok inst
      → is_deleting inst ≡ false
      → contains inst.finalizers finalizer ≡ true
      → (reconcile_instance digest format set_condition as_selector from_graph order r
          consumer_client cluster namespace name now w).0.error
        ≡ none
      → let run =
          reconcile_instance digest format set_condition as_selector from_graph order r
            consumer_client cluster namespace name now w in
        (run.0.summary.requeue ≡ true) × P run.1
  unfolding reconcile_instance reconcile_found
  reconcile_instance-beats namespace name w found alive held done =
      rw (found, reconcile_instance, alive, held, reconcile_found)
        (apply_pass-Beats w (rw (found, reconcile_instance, alive, held, reconcile_found) at done))

-- A template node that is routed to the provider and makes ConfigMaps.
abbrev pub makes_config_maps : Routing → Node → Bool
makes_config_maps routing n = is_child_of routing provider n && n.template_gvk == config_map_gvk

abbrev pub any_node : (Node → Bool) → List Node → Bool
any_node test [] = false
any_node test (n ∷ ns) = if test n then true else any_node test ns

at_node :
    (P : Node → Type 0) (test : Node → Bool) (ns : List Node)
    → All P ns
    → any_node test ns ≡ true
    → (n : Node) × P n × (test n ≡ true)
at_node P test [] h e = cc
at_node P test (n ∷ ns) h e = elim (Bool-cases (test n)) [
  | inl hit ↦ (n, h.0, hit)
  | inr miss ↦ at_node P test ns h.1 (rw miss at e)
]

module _ {W : Type 0} (objects : Target → W → List Object) (digest : Text → Text)
    (format : ℕ → Text) (r : Reconciler W) (consumer_client : Client W) (cluster : Text)
    (clusters : (t : Target) (c : Client W)
      → clients r consumer_client t ≡ some c
      → IsCluster objects t c)
    (instance_uid : Text) (applied : Target → List ChildId) (w : W) where
  -- The kind is its own list kind's item kind: it does not end in "List".
  config_map_plain : item_gvk config_map_gvk ≡ config_map_gvk
  unfolding item_gvk trim_suffix text_eq
  config_map_plain = refl

  made_by :
      (n : Node)
      → makes_config_maps r.routing n ≡ true
      → (is_child_of r.routing provider n ≡ true) × (n.template_gvk ≡ config_map_gvk)
  made_by n made = (ground arith, ground arith)

  -- Where a blueprint has a template node that makes ConfigMaps in the provider workspace, a prune
  -- that reports no error leaves no liveness record of the instance behind: the record is a ConfigMap
  -- with the instance's uid label that the pass did not apply, so prune deletes it, or marks it, if it
  -- has finalizers, like a dropped child.
  pub prune_children-forgets_record :
      (order : List Target)
      → contains order provider ≡ true
      → any_node (makes_config_maps r.routing) r.graph ≡ true
      → contains (applied provider) (child_id (record_key digest format r cluster instance_uid))
        ≡ false
      → let run = prune_children r order consumer_client instance_uid applied w in
        run.0 ≡ ok tt
        → All
            (λ o.
              object_id o ≡ object_id (record_key digest format r cluster instance_uid)
              → has_label label_instance_uid instance_uid o.labels ≡ true
              → is_deleting o ≡ true)
            (objects provider run.1)
  unfolding record_key
  prune_children-forgets_record order met makes unknown done =
      let end = (prune_children r order consumer_client instance_uid applied w).1 in
      let cleared =
        at_contained
          (λ t. IsCleared objects r consumer_client instance_uid (just_applied applied) t end)
          provider order met
          (prune_children-IsCleared objects r consumer_client clusters instance_uid order w applied
            done) in
      let (n, gone, made) =
        at_node
          (λ n.
            is_child_of r.routing provider n ≡ true
            → item_gvk n.template_gvk ≡ n.template_gvk
            → IsReclaimed objects provider n.template_gvk
                (has_label label_instance_uid instance_uid)
                (just_applied applied provider n.template_gvk) end)
          (makes_config_maps r.routing) r.graph (cleared r.provider_client refl) makes in
      let (child, kind) = made_by n made in
      let reclaimed =
        subst
          (λ (g : Gvk).
            item_gvk g ≡ g
            → IsReclaimed objects provider g (has_label label_instance_uid instance_uid)
                (just_applied applied provider g) end)
          kind (gone child) config_map_plain in
      All-map _ _ (objects provider end)
        (λ o h same labelled.
          h (ap (λ (id : ChildId). id.gvk.group) same, ap (λ (id : ChildId). id.gvk.kind) same)
            labelled
            (ap
                (λ (id : ChildId).
                  contains (applied provider)
                    (record { gvk = config_map_gvk; namespace = id.namespace; name = id.name }))
                same
              ∙ unknown))
        reclaimed
