-- ===== src/Controller/Reconcile/Owned.antt =====
-- What the appliers of `Reconcile` (internal/controller/reconciler.go) hand to the clients.
use krop_controller.Base.{
  ℕ, Text, text_eq, ◌≡◌, refl, ap, ◌∙◌, subst, Option, none, some, List, [], ◌∷◌, All_intro,
}
use krop_controller.Base.Dict.{Dict, lookup, insert, copy, lookup-insert}
use krop_controller.Base.Result.{Result, reads}
use krop_controller.Base.Stable.{Stable, bind-Stable}
use krop_controller.Api.Object.{Object, Condition}
use krop_controller.Api.Client.{Client, Selector}
use krop_controller.Engine.Route.{Target, consumer, provider, host, target_for_node}
use krop_controller.Engine.Naming.{provider_child_name}
use krop_controller.Engine.Labels.{
  label_instance_uid, label_consumer_cluster, label_blueprint, gc_labels,
}
use krop_controller.Engine.Graph.{Runtime}
use krop_controller.Engine.Apply.{
  Applier, Pass, on_world, recording_applier, ssa_applier, qualifying_applier, labeling_applier,
  owner_ref_applier, owner_ref,
}
use krop_controller.Engine.Loop.{State, reconcile}
use krop_controller.Engine.Loop.Effects.{Keeps, Writes, reconcile-io}
use krop_controller.Controller.Config.{Reconciler, clients}
use krop_controller.Controller.Reconcile.{qualified, owned, appliers, readers}

module _ (digest : Text → Text) (cluster blueprint : Text) (inst : Object) where
  abbrev pub IsPlaced : Target → Object → Type 0
  IsPlaced consumer o = o.owner_refs ≡ owner_ref inst ∷ []
  IsPlaced provider o =
      (original : Text) × (o.name ≡ provider_child_name digest cluster inst.name original)
  IsPlaced host o =
      (original : Text) × (o.name ≡ provider_child_name digest cluster inst.name original)

  -- An object that garbage collection and prune find by its labels, with the instance as its owner in the
  -- consumer's workspace and a name of the instance's elsewhere.
  pub record IsOwned (t : Target) (o : Object) : Type 0 where
    pub uid_label : lookup label_instance_uid o.labels ≡ some inst.uid
    pub cluster_label : lookup label_consumer_cluster o.labels ≡ some cluster
    pub blueprint_label : lookup label_blueprint o.labels ≡ some blueprint
    pub place : IsPlaced t o

module _ (ls : Dict Text Text) (uid cluster blueprint : Text) where
  abbrev with_uid : Dict Text Text
  with_uid = insert label_instance_uid uid ls

  abbrev with_cluster : Dict Text Text
  with_cluster = insert label_consumer_cluster cluster with_uid

  copy-gc_labels :
      let all = copy ls (gc_labels uid cluster blueprint) in
      (lookup label_instance_uid all ≡ some uid)
      × (lookup label_consumer_cluster all ≡ some cluster)
      × (lookup label_blueprint all ≡ some blueprint)
  unfolding gc_labels text_eq
  copy-gc_labels = (
    lookup-insert label_blueprint label_instance_uid blueprint with_cluster
        ∙ (lookup-insert label_consumer_cluster label_instance_uid cluster with_uid
            ∙ lookup-insert label_instance_uid label_instance_uid uid ls),
    lookup-insert label_blueprint label_consumer_cluster blueprint with_cluster
        ∙ lookup-insert label_consumer_cluster label_consumer_cluster cluster with_uid,
    lookup-insert label_blueprint label_blueprint blueprint with_cluster,
  )

module _ {W : Type 0} (P : W → Type 0) where
  abbrev Within : Pass W → Type 0
  Within p = P p.world

  sink-Stable :
      (t : Target) (c : Client W) (o : Object)
      → Stable P (c.apply o)
      → Stable Within (recording_applier t (ssa_applier c) o)
  unfolding recording_applier ssa_applier
  sink-Stable t c o k p h =
      bind-Stable Within (ssa_applier c o) _
        (λ q m.
          bind-Stable Within (on_world (c.apply o))
            (λ _. on_world (reads (c.get o.gvk o.namespace o.name))) (λ q' m'. k q'.world m')
            (λ _ q' m'. m') q m)
        (λ observed q m. m) p h

module _ {W R : Type 0} (digest : Text → Text) (format : ℕ → Text)
    (set_condition : List Condition → Condition → List Condition)
    (as_selector : Text → Result Selector) (from_graph : Object → Result (Runtime R × R))
    (order : List Target) (r : Reconciler W) (consumer_client : Client W) (cluster : Text)
    (inst : Object) (P : W → Type 0)
    (applies : (t : Target) (c : Client W) (o : Object)
      → clients r consumer_client t ≡ some c
      → IsOwned digest cluster r.blueprint_name inst t o
      → Stable P (c.apply o)) where
  abbrev appliers_of : Target → Option (Applier (Pass W))
  appliers_of =
      appliers digest format set_condition as_selector from_graph order r consumer_client cluster
        inst

  abbrev AllKeep : Option (Applier (Pass W)) → Type 0
  AllKeep none = Unit
  AllKeep (some a) = Keeps (Within P) a

  applied-IsOwned :
      (t : Target) (o : Object) (ls : Dict Text Text)
      → o.labels ≡ copy ls (gc_labels inst.uid cluster r.blueprint_name)
      → IsPlaced digest cluster r.blueprint_name inst t o
      → IsOwned digest cluster r.blueprint_name inst t o
  applied-IsOwned t o ls e p =
      let (u, c, b) = copy-gc_labels ls inst.uid cluster r.blueprint_name in
      record {
        uid_label = ap (lookup label_instance_uid) e ∙ u;
        cluster_label = ap (lookup label_consumer_cluster) e ∙ c;
        blueprint_label = ap (lookup label_blueprint) e ∙ b;
        place = p;
      }

  applier-AllKeep : (t : Target) → AllKeep (appliers_of t)
  unfolding appliers owned qualified labeling_applier owner_ref_applier qualifying_applier
  applier-AllKeep consumer = λ o.
      sink-Stable P consumer consumer_client _
        (applies consumer consumer_client _ refl (applied-IsOwned consumer _ o.labels refl refl))
  applier-AllKeep provider = λ o. sink-Stable P provider r.provider_client _ (
      applies provider r.provider_client _ refl
        (applied-IsOwned provider _ o.labels refl (o.name, refl)))
  applier-AllKeep host = go r.host_client refl
    where
      go : (h : Option (Client W)) → r.host_client ≡ h → AllKeep (appliers_of host)
      go none e = rw (e, appliers) tt
      go (some c) e =
          rw (e, appliers)
            (λ o.
              sink-Stable P host c _
                (applies host c _ e (applied-IsOwned host _ o.labels refl (o.name, refl))))

  -- A pass applies nothing but children of the instance: each object that it hands to a client carries
  -- the labels of the instance, its consumer's cluster and the blueprint, whatever labels its template
  -- has, and has the instance as its owner in the consumer's workspace, and a name made of the cluster's,
  -- the instance's and its own elsewhere. What the applying of such objects keeps, the pass keeps.
  pub reconcile-IsOwned :
      (rt : Runtime R) (s : State R (Pass W))
      → P s.io.world
      → P
          (reconcile rt as_selector appliers_of
            (readers digest format set_condition as_selector from_graph order r consumer_client
              cluster)
            r.routing
            s).1.io.world
  reconcile-IsOwned rt s p =
      reconcile-io rt as_selector appliers_of
        (readers digest format set_condition as_selector from_graph order r consumer_client cluster)
        r.routing (Within P) s
        (All_intro
          (Writes rt as_selector appliers_of
            (readers digest format set_condition as_selector from_graph order r consumer_client
              cluster)
            r.routing (Within P))
          rt.nodes (λ n _ a e. subst AllKeep e (applier-AllKeep (target_for_node n.id r.routing))))
        p
