-- ===== src/Controller/Children/Kept.antt =====
-- What `pruneChildren` must not touch.
use krop_controller.Base.{
  ℕ, Text, contains, text_eq, ◌≡◌, ◌≢◌, refl, sym, ap, ◌∙◌, subst, inl, inr, true, Option, none,
  some, List, [], ◌∷◌, map, All, All-map, All_intro, arith, Bool-cases,
}
use krop_controller.Base.Bytes.{codes}
use krop_controller.Base.Result.{context_of, for_each}
use krop_controller.Base.Stable.{Stable, for_each-Stable, for_each-Stable_on, reads-Stable}
use krop_controller.Api.Object.{Gvk, gvk_eq, Object, ChildId, child_id_eq}
use krop_controller.Api.Client.{Client, Selector}
use krop_controller.Api.Clusters.{
  IsOf, object_id, unversioned, served, item_gvk, matches, select, settle, IsCluster, IsSeparate,
  object_at,
}
use krop_controller.Engine.Route.{Target, target_eq}
use krop_controller.Engine.Labels.{label_instance_uid}
use krop_controller.Controller.Config.{Reconciler, clients}
use krop_controller.Controller.Deletion.{context_of_ok}
use krop_controller.Controller.Children.{
  has_label, child_gvks, prune_one, prune_kind, prune_target, prune_children,
}

pub object_at-settle :
    (now : ℕ) (id x : ChildId) (os : List Object)
    → x ≢ unversioned id
    → object_at id (settle now x os) ≡ object_at id os
unfolding object_at
object_at-settle now id x [] n = refl
object_at-settle now id x (o ∷ os) n = ground (arith, object_at-settle now id x os n)

select-IsOf :
    (g : Gvk) (ns : Text) (sel : Selector) (os : List Object)
    → All (IsOf g) (map (served g) (select g ns sel os))
select-IsOf g ns sel [] = tt
select-IsOf g ns sel (o ∷ os) = elim (Bool-cases (matches g ns sel o)) [
  | inl hit ↦ rw hit ((ground arith, ground arith), select-IsOf g ns sel os)
  | inr miss ↦ rw miss (select-IsOf g ns sel os)
]

-- Of the kinds with the objects of `id`'s group and kind, none but `id`'s own.
abbrev pub IsOwn : ChildId → Gvk → Type 0
IsOwn id g = (item_gvk g).group ≡ id.gvk.group → (item_gvk g).kind ≡ id.gvk.kind → g ≡ id.gvk

-- What is listed for the object's kind under its identity has been applied.
listed_id :
    (id : ChildId) (g : Gvk) (x : Object)
    → IsOwn id g
    → IsOf (item_gvk g) x
    → object_id x ≡ unversioned id
    → record { gvk = g; namespace = x.namespace; name = x.name } ≡ id
listed_id id g x own of q =
    let kind : g ≡ id.gvk =
      own (sym of.0 ∙ ap (λ (i : ChildId). i.gvk.group) q)
        (sym of.1 ∙ ap (λ (i : ChildId). i.gvk.kind) q) in
    let place : x.namespace ≡ id.namespace = ap (λ (i : ChildId). i.namespace) q in
    let called : x.name ≡ id.name = ap (λ (i : ChildId). i.name) q in cc

module _ {W : Type 0} (objects : Target → W → List Object) (r : Reconciler W)
    (consumer_client : Client W)
    (clusters : (t : Target) (c : Client W)
      → clients r consumer_client t ≡ some c
      → IsCluster objects t c)
    (separate : (t : Target) (c : Client W)
      → clients r consumer_client t ≡ some c
      → IsSeparate objects t c)
    (instance_uid : Text) (applied : Target → List ChildId) (t : Target) (id : ChildId)
    (is_applied : contains (applied t) id ≡ true) (before : Option Object) where
  abbrev Unchanged : W → Type 0
  Unchanged w = object_at id (objects t w) ≡ before

  delete-Unchanged :
      (u : Target) (c : Client W)
      → clients r consumer_client u ≡ some c
      → (x : Object) → object_id x ≢ unversioned id
      → Stable Unchanged (c.delete x)
  delete-Unchanged u c e x n w p = elim ((clusters u c e).delete_anywhere x w t) [
    | inl same ↦ ap (object_at id) same ∙ p
    | inr (now, q) ↦ ap (object_at id) q ∙ object_at-settle now id (object_id x) (objects t w) n ∙ p
  ]

  -- Deletions in another cluster.
  elsewhere-Unchanged :
      (u : Target) (c : Client W)
      → clients r consumer_client u ≡ some c
      → t ≢ u
      → (x : Object) → Stable Unchanged (c.delete x)
  elsewhere-Unchanged u c e n x w p =
      ap (object_at id) ((separate u c e).delete_elsewhere x w t n) ∙ p

  prune_one-Unchanged :
      (u : Target) (c : Client W)
      → clients r consumer_client u ≡ some c
      → (g : Gvk) (x : Object) → (u ≡ t → IsOwn id g × IsOf (item_gvk g) x)
      → Stable Unchanged (prune_one (applied u) c g x)
  unfolding prune_one
  prune_one-Unchanged u c e g x k w p =
      elim (Bool-cases
        (contains (applied u) (record { gvk = g; namespace = x.namespace; name = x.name }))) [
          | inl kept ↦ rw kept p
          | inr dropped ↦ elim (target_eq.dec t u) [
            | yes same ↦ rw dropped (
                delete-Unchanged u c e x
                  (λ q. cc (
                    is_applied,
                    listed_id id g x (k (sym same)).0 (k (sym same)).1 q,
                    dropped,
                    ap (λ (v : Target). contains (applied v) id) same,
                  ))
                  w p)
            | no other ↦ rw dropped (elsewhere-Unchanged u c e other x w p)
          ]
        ]

  prune_kind-Unchanged :
      (u : Target) (c : Client W)
      → clients r consumer_client u ≡ some c
      → (g : Gvk) → (u ≡ t → IsOwn id g)
      → Stable Unchanged (prune_kind instance_uid (applied u) c g)
  unfolding prune_kind
  prune_kind-Unchanged u c e g own =
      reads-Stable Unchanged (c.list g [] (has_label label_instance_uid instance_uid))
        (context_of (codes "listing children for prune"))
        (λ items. for_each items (prune_one (applied u) c g))
        (λ items w q p.
          for_each-Stable_on Unchanged (λ x. u ≡ t → IsOwn id g × IsOf (item_gvk g) x)
            (prune_one (applied u) c g) items (λ x k. prune_one-Unchanged u c e g x k)
            (All-map (IsOf (item_gvk g)) (λ x. u ≡ t → IsOwn id g × IsOf (item_gvk g) x) items
              (λ x k same. (own same, k))
              (subst (λ (os : List Object). All (IsOf (item_gvk g)) os)
                (sym (
                  (clusters u c e).list_ok g [] (has_label label_instance_uid instance_uid) w items
                    (context_of_ok (codes "listing children for prune") _ q)))
                (select-IsOf (item_gvk g) [] _ (objects u w))))
            w p)

  abbrev KindsOwn : Type 0
  KindsOwn = All (IsOwn id) (child_gvks r t)

  kinds_own : (u : Target) → KindsOwn → All (λ g. u ≡ t → IsOwn id g) (child_gvks r u)
  kinds_own u own = elim (target_eq.dec t u) [
    | yes same ↦
        All-map (IsOwn id) (λ g. u ≡ t → IsOwn id g) (child_gvks r u) (λ g k _. k)
          (subst (λ (v : Target). All (IsOwn id) (child_gvks r v)) same own)
    | no other ↦
        All_intro (λ g. u ≡ t → IsOwn id g) (child_gvks r u) (λ g same. absurd (other (sym same)))
  ]

  prune_target-Unchanged :
      KindsOwn
      → (u : Target) → Stable Unchanged (prune_target r consumer_client instance_uid applied u)
  unfolding prune_target
  prune_target-Unchanged own u w p = go (clients r consumer_client u) refl
    where
      go :
          (o : Option (Client W))
          → clients r consumer_client u ≡ o
          → Unchanged (prune_target r consumer_client instance_uid applied u w).1
      go none q = rw (q, prune_target) p
      go (some c) q =
          rw (q, prune_target)
            (for_each-Stable_on Unchanged (λ g. u ≡ t → IsOwn id g)
              (prune_kind instance_uid (applied u) c) (child_gvks r u) (prune_kind-Unchanged u c q)
              (kinds_own u own) w p)

module _ {W : Type 0} (objects : Target → W → List Object) (r : Reconciler W)
    (consumer_client : Client W)
    (clusters : (t : Target) (c : Client W)
      → clients r consumer_client t ≡ some c
      → IsCluster objects t c)
    (separate : (t : Target) (c : Client W)
      → clients r consumer_client t ≡ some c
      → IsSeparate objects t c) where
  -- Prune leaves what the pass has just applied to a target exactly as it is in that target's
  -- cluster, whether it succeeds or fails on the way, and whatever the other targets' applied
  -- children are, if two conditions hold. The targets' clusters are separate. Of the kinds of the target's
  -- children, the only one whose list call brings objects of the applied one's group and kind is its own:
  -- the graph does not make children of one kind in two versions.
  pub object_at-prune_children :
      (instance_uid : Text) (applied : Target → List ChildId) (order : List Target) (w : W)
      (t : Target) (id : ChildId)
      → contains (applied t) id ≡ true
      → All (IsOwn id) (child_gvks r t)
      → object_at id (objects t (prune_children r order consumer_client instance_uid applied w).1)
        ≡ object_at id (objects t w)
  unfolding prune_children
  object_at-prune_children instance_uid applied order w t id is_applied own =
      for_each-Stable (λ v. object_at id (objects t v) ≡ object_at id (objects t w))
        (prune_target r consumer_client instance_uid applied) order
        (prune_target-Unchanged objects r consumer_client clusters separate instance_uid applied t
          id is_applied (object_at id (objects t w)) own)
        w refl
