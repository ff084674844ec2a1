-- ===== src/Controller/Children/Reclaimed.antt =====
-- What `deleteChildren` and `pruneChildren` leave behind.
use krop_controller.Base.{
  Text, contains, text_eq, ◌≡◌, refl, ap, subst, Bool, true, false, Option, none, some, List, ◌++◌,
  All, All-map, at_contained, arith,
}
use krop_controller.Base.Bytes.{codes}
use krop_controller.Base.Result.{ok, Prog, pure, for_each}
use krop_controller.Base.Stable.{Stable, for_each-Stable, for_each-All}
use krop_controller.Api.Object.{Gvk, gvk_eq, Object, ChildId, child_id_eq}
use krop_controller.Api.Client.{Client}
use krop_controller.Api.Clusters.{object_id, item_gvk, IsCluster}
use krop_controller.Engine.Route.{Target}
use krop_controller.Engine.Labels.{label_instance_uid}
use krop_controller.Controller.Config.{Reconciler, clients}
use krop_controller.Controller.Deletion.{
  reclaim_kind, delete_one, IsReclaimed, reclaim_kind-IsReclaimed, reclaim_kind-Stable,
}
use krop_controller.Controller.Children.{
  has_label, is_child_of, child_gvks, delete_kind, delete_target, delete_children, prune_one,
  prune_kind, prune_target, prune_children,
}
use krop_controller.Controller.Children.Kinds.{child_gvks_cover}

-- By node: nothing that a template node of the target made is left, but what is kept and what waits
-- for its finalizers. The kinds' names must not end in "List".
abbrev pub IsCleared :
    {W : Type 0}
    → (Target → W → List Object)
    → Reconciler W
    → Client W
    → Text
    → (Target → Gvk → Object → Bool)
    → Target
    → W
    → Type 0
IsCleared objects r consumer_client instance_uid keep t w =
    (c : Client _)
    → clients r consumer_client t ≡ some c
    → All
        (λ n.
          is_child_of r.routing t n ≡ true
          → item_gvk n.template_gvk ≡ n.template_gvk
          → IsReclaimed objects t n.template_gvk (has_label label_instance_uid instance_uid)
              (keep t n.template_gvk) w)
        r.graph

-- What the pass has just applied to the target, which prune keeps.
abbrev pub just_applied : (Target → List ChildId) → Target → Gvk → Object → Bool
just_applied applied t g o =
    contains (applied t) (record { gvk = g; namespace = o.namespace; name = o.name })

-- Both loops are the loop over the targets and their kinds, with a body that reclaims one kind.
module _ {W : Type 0} (objects : Target → W → List Object) (r : Reconciler W)
    (consumer_client : Client W)
    (clusters : (t : Target) (c : Client W)
      → clients r consumer_client t ≡ some c
      → IsCluster objects t c)
    (instance_uid : Text) (keep : Target → Gvk → Object → Bool)
    (keep_id : (t : Target) (g : Gvk) (x o : Object)
      → object_id x ≡ object_id o
      → keep t g x ≡ keep t g o)
    (listing : Text) (deleting : Object → Text) where
  kind_body : Target → Client W → Gvk → Prog W (Unit {0})
  kind_body t c g =
      reclaim_kind c g (has_label label_instance_uid instance_uid) (keep t g) listing deleting

  target_body : Target → Prog W (Unit {0})
  target_body t = elim (clients r consumer_client t) [
    | none ↦ pure tt
    | some c ↦ for_each (child_gvks r t) (kind_body t c)
  ]

  abbrev KindDone : Target → Gvk → W → Type 0
  KindDone t g =
      IsReclaimed objects t (item_gvk g) (has_label label_instance_uid instance_uid) (keep t g)

  abbrev TargetDone : Target → W → Type 0
  TargetDone t w =
      (c : Client W)
      → clients r consumer_client t ≡ some c
      → All (λ g. KindDone t g w) (child_gvks r t)

  kind_body-Stable :
      (t u : Target) (c : Client W) (g h : Gvk)
      → clients r consumer_client t ≡ some c
      → Stable (KindDone u g) (kind_body t c h)
  unfolding kind_body
  kind_body-Stable t u c g h e =
      reclaim_kind-Stable objects t c (clusters t c e) u _ (λ now o m eg es ek. ground arith) h _
        (keep t h) listing deleting

  target_body-Stable : (t u : Target) → Stable (TargetDone u) (target_body t)
  unfolding target_body
  target_body-Stable t u w done d e = go (clients r consumer_client t) refl
    where
      go :
          (o : Option (Client W))
          → clients r consumer_client t ≡ o
          → All (λ g. KindDone u g (target_body t w).1) (child_gvks r u)
      go none q = rw (q, target_body) (done d e)
      go (some c) q =
          rw (q, target_body)
            (for_each-Stable (λ v. All (λ g. KindDone u g v) (child_gvks r u)) (kind_body t c)
              (child_gvks r t)
              (λ h v k.
                All-map (λ g. KindDone u g v) (λ g. KindDone u g (kind_body t c h v).1)
                  (child_gvks r u) (λ g m. kind_body-Stable t u c g h q v m) k)
              w (done d e))

  target_body-TargetDone :
      (t : Target) (w : W) → (target_body t w).0 ≡ ok tt → TargetDone t (target_body t w).1
  unfolding target_body kind_body
  target_body-TargetDone t w done c e =
      rw (e, target_body)
        (for_each-All (KindDone t) (kind_body t c)
          (λ g v d.
            reclaim_kind-IsReclaimed objects t c (clusters t c e) g _ (keep t g) listing deleting v
              (keep_id t g) d)
          (λ h g. kind_body-Stable t t c g h e) (child_gvks r t) w (rw (e, target_body) at done))

  targets_done :
      (order : List Target) (w : W)
      → (for_each order target_body w).0 ≡ ok tt
      → All (λ t. TargetDone t (for_each order target_body w).1) order
  targets_done order w done =
      for_each-All TargetDone target_body target_body-TargetDone target_body-Stable order w done

  abbrev Cleared : Target → W → Type 0
  Cleared = IsCleared objects r consumer_client instance_uid keep

  targets-Cleared :
      (order : List Target) (w : W)
      → (for_each order target_body w).0 ≡ ok tt
      → All (λ t. Cleared t (for_each order target_body w).1) order
  targets-Cleared order w done =
      All-map (λ t. TargetDone t (for_each order target_body w).1)
        (λ t. Cleared t (for_each order target_body w).1) order
        (λ t d c e.
          All-map
            (λ n.
              is_child_of r.routing t n ≡ true → contains (child_gvks r t) n.template_gvk ≡ true)
            _ r.graph
            (λ n listed child kind.
              subst
                (λ (g : Gvk).
                  IsReclaimed objects t g (has_label label_instance_uid instance_uid)
                    (keep t n.template_gvk) (for_each order target_body w).1)
                kind
                (at_contained (λ g. KindDone t g (for_each order target_body w).1) n.template_gvk
                  (child_gvks r t) (listed child) (d c e)))
            (child_gvks_cover r t))
        (targets_done order w done)

module _ {W : Type 0} (objects : Target → W → List Object) (r : Reconciler W)
    (consumer_client : Client W)
    (clusters : (t : Target) (c : Client W)
      → clients r consumer_client t ≡ some c
      → IsCluster objects t c)
    (instance_uid : Text) (order : List Target) (w : W) where
  -- When garbage collection reports no error, no child of the instance is left in any cluster that
  -- has a client, beyond those that wait for their own finalizers: for every target that was met and
  -- every template node that is routed to it, each object of the node's kind with the instance's uid
  -- label is gone or marked as deleted. The kinds' names must not end in "List".
  pub delete_children-IsCleared :
      (delete_children r order consumer_client instance_uid w).0 ≡ ok tt
      → All
          (λ t.
            IsCleared objects r consumer_client instance_uid
              (λ _ _ _. false)
              t
              (delete_children r order consumer_client instance_uid w).1)
          order
  unfolding delete_children delete_target delete_kind delete_one target_body kind_body
  delete_children-IsCleared done =
      targets-Cleared objects r consumer_client clusters instance_uid (λ _ _ _. false)
        (λ _ _ _ _ _. refl) (codes "listing children") (λ o. codes "deleting " ++ o.name) order w
        done

  -- When prune reports no error, the same holds of every child that the pass did not just apply to
  -- the target: children that `forEach`, `includeWhen` or a new graph dropped are gone or marked.
  pub prune_children-IsCleared :
      (applied : Target → List ChildId)
      → (prune_children r order consumer_client instance_uid applied w).0 ≡ ok tt
      → All
          (λ t.
            IsCleared objects r consumer_client instance_uid
              (just_applied applied)
              t
              (prune_children r order consumer_client instance_uid applied w).1)
          order
  unfolding prune_children prune_target prune_kind prune_one delete_one target_body kind_body
  prune_children-IsCleared applied done =
      targets-Cleared objects r consumer_client clusters instance_uid (just_applied applied)
        (λ t g x o e.
          ap
            (λ (id : ChildId).
              contains (applied t) (record { gvk = g; namespace = id.namespace; name = id.name }))
            e)
        (codes "listing children for prune") (λ o. codes "pruning " ++ o.name) order w done
