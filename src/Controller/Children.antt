-- ===== src/Controller/Children.antt =====
-- internal/controller/reconciler.go: the kinds of an instance's children, their deletion and prune.
-- Go ranges over a map of clients in any order: here `order` lists the targets as they are met.
pub mod Kinds
pub mod Reclaimed
pub mod Kept
pub mod Deletes
use krop_controller.Base.{
  Text, ◌==◌, contains, add_new, text_eq, if◌then◌else◌, Bool, true, false, not, ◌&&◌, Option, none,
  some, List, [], ◌∷◌, ◌++◌,
}
use krop_controller.Base.Bytes.{codes}
use krop_controller.Base.Dict.{Dict, lookup}
use krop_controller.Base.Result.{Prog, pure, reads, context, ignore_not_found, for_each, ◌>>=◌}
use krop_controller.Api.Object.{Gvk, gvk_eq, Object, ChildId, child_id_eq, child_id}
use krop_controller.Api.Client.{Client, Selector}
use krop_controller.Engine.Route.{Target, target_eq, target_for_node, Routing}
use krop_controller.Engine.Labels.{label_instance_uid}
use krop_controller.Engine.Graph.{Node, is_external}
use krop_controller.Controller.Config.{Reconciler, clients}

-- `client.MatchingLabels{label: value}`
abbrev pub has_label : Text → Text → Selector
has_label label value labels = elim (lookup label labels) [ none ↦ false | some v ↦ v == value ]

-- The loop of `childGVKs`; `out` holds the kinds that `seen` holds.
abbrev pub is_child_of : Routing → Target → Node → Bool
is_child_of routing target n = not (is_external n.type) && (target_for_node n.id routing == target)

unfoldable pub collect_gvks : Routing → Target → List Node → List Gvk → List Gvk
collect_gvks routing target [] out = out
collect_gvks routing target (n ∷ ns) out =
    collect_gvks routing target ns
      (if is_child_of routing target n then add_new n.template_gvk out else out)

module _ {W : Type 0} where
  -- The body of `deleteChildren` for one kind.
  unfoldable pub delete_kind : Text → Client W → Gvk → Prog W (Unit {0})
  delete_kind instance_uid c g = do
    items ←
        context (codes "listing children")
          (reads (c.list g [] (has_label label_instance_uid instance_uid)))
    for_each items λ o. context (codes "deleting " ++ o.name) (ignore_not_found (c.delete o))

  -- The body of `pruneChildren` for one item, and for one kind; `keep` are the children just applied.
  unfoldable pub prune_one : List ChildId → Client W → Gvk → Object → Prog W (Unit {0})
  prune_one keep c g o =
      if contains keep (record { gvk = g; namespace = o.namespace; name = o.name })
      then pure tt
      else context (codes "pruning " ++ o.name) (ignore_not_found (c.delete o))

  unfoldable pub prune_kind : Text → List ChildId → Client W → Gvk → Prog W (Unit {0})
  prune_kind instance_uid keep c g = do
    items ←
        context (codes "listing children for prune")
          (reads (c.list g [] (has_label label_instance_uid instance_uid)))
    for_each items (prune_one keep c g)

module _ {W : Type 0} (r : Reconciler W) where
  unfoldable pub child_gvks : Target → List Gvk
  child_gvks target = collect_gvks r.routing target r.graph []

  -- The loop of `deleteChildren` over the kinds of one target, and over the targets.
  unfoldable pub delete_target : Client W → Text → Target → Prog W (Unit {0})
  delete_target consumer_client instance_uid target = elim (clients r consumer_client target) [
    | none ↦ pure tt
    | some c ↦ for_each (child_gvks target) (delete_kind instance_uid c)
  ]

  unfoldable pub delete_children : List Target → Client W → Text → Prog W (Unit {0})
  delete_children order consumer_client instance_uid =
      for_each order (delete_target consumer_client instance_uid)

  -- The same two loops of `pruneChildren`.
  unfoldable pub prune_target :
      Client W → Text → (Target → List ChildId) → Target → Prog W (Unit {0})
  prune_target consumer_client instance_uid applied target =
      elim (clients r consumer_client target) [
        | none ↦ pure tt
        | some c ↦ for_each (child_gvks target) (prune_kind instance_uid (applied target) c)
      ]

  unfoldable pub prune_children :
      List Target → Client W → Text → (Target → List ChildId) → Prog W (Unit {0})
  prune_children order consumer_client instance_uid applied =
      for_each order (prune_target consumer_client instance_uid applied)
