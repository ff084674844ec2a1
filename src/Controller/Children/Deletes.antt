-- ===== src/Controller/Children/Deletes.antt =====
-- What deletions keep, a prune keeps (`pruneChildren` of internal/controller/reconciler.go).
use krop_controller.Base.{
  Text, contains, ◌≡◌, refl, Option, none, some, List, [], Bool-cases, inl, inr,
}
use krop_controller.Base.Bytes.{codes}
use krop_controller.Base.Result.{reads, context, for_each}
use krop_controller.Base.Stable.{Stable, bind-Stable, for_each-Stable}
use krop_controller.Api.Object.{Gvk, Object, ChildId, child_id_eq}
use krop_controller.Api.Client.{Client}
use krop_controller.Engine.Route.{Target}
use krop_controller.Engine.Labels.{label_instance_uid}
use krop_controller.Controller.Config.{Reconciler, clients}
use krop_controller.Controller.Children.{
  has_label, child_gvks, prune_one, prune_kind, prune_target, prune_children,
}

module _ {W : Type 0} (P : W → Type 0) (r : Reconciler W) (consumer_client : Client W)
    (deletes : (t : Target) (c : Client W)
      → clients r consumer_client t ≡ some c
      → (o : Object) → Stable P (c.delete o))
    (instance_uid : Text) (applied : Target → List ChildId) where
  prune_one-Stable :
      (keep : List ChildId) (c : Client W) (g : Gvk) (o : Object)
      → Stable P (c.delete o)
      → Stable P (prune_one keep c g o)
  unfolding prune_one
  prune_one-Stable keep c g o k w p =
      elim (Bool-cases
        (contains keep (record { gvk = g; namespace = o.namespace; name = o.name }))) [
          | inl kept ↦ rw kept p
          | inr dropped ↦ rw dropped (k w p)
        ]

  prune_kind-Stable :
      (keep : List ChildId) (c : Client W) (g : Gvk)
      → ((o : Object) → Stable P (c.delete o))
      → Stable P (prune_kind instance_uid keep c g)
  unfolding prune_kind
  prune_kind-Stable keep c g k =
      bind-Stable P
        (context (codes "listing children for prune")
          (reads (c.list g [] (has_label label_instance_uid instance_uid))))
        (λ items. for_each items (prune_one keep c g)) (λ w p. p)
        (λ items.
          for_each-Stable P (prune_one keep c g) items (λ o. prune_one-Stable keep c g o (k o)))

  prune_target-Stable :
      (t : Target) → Stable P (prune_target r consumer_client instance_uid applied t)
  unfolding prune_target
  prune_target-Stable t w p = go (clients r consumer_client t) refl
    where
      go :
          (o : Option (Client W))
          → clients r consumer_client t ≡ o
          → P (prune_target r consumer_client instance_uid applied t w).1
      go none e = rw (e, prune_target) p
      go (some c) e =
          rw (e, prune_target)
            (for_each-Stable P (prune_kind instance_uid (applied t) c) (child_gvks r t)
              (λ g. prune_kind-Stable (applied t) c g (deletes t c e)) w p)

  pub prune_children-Stable :
      (order : List Target) → Stable P (prune_children r order consumer_client instance_uid applied)
  unfolding prune_children
  prune_children-Stable order =
      for_each-Stable P (prune_target r consumer_client instance_uid applied) order
        prune_target-Stable
