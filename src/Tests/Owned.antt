-- ===== src/Tests/Owned.antt =====
-- The property of the applied children at a sample pass.
use krop_controller.Base.{
  Text, text_eq, ◌==◌, ◌≡◌, subst, some, List, [], ◌∷◌, All, arith, inl, inr, Bool-cases,
}
use krop_controller.Base.Bytes.{codes}
use krop_controller.Base.Dict.{lookup}
use krop_controller.Base.Stable.{Stable}
use krop_controller.Api.Object.{Object, child_id_eq, Condition}
use krop_controller.Api.Client.{Client}
use krop_controller.Api.Clusters.{object_id, object_id}
use krop_controller.Engine.Route.{Target, target_eq, consumer, provider, host}
use krop_controller.Engine.Labels.{label_instance_uid}
use krop_controller.Engine.Apply.{Pass}
use krop_controller.Engine.Loop.{State, reconcile}
use krop_controller.Controller.Config.{Reconciler, clients}
use krop_controller.Controller.Reconcile.{appliers, readers, nothing_applied}
use krop_controller.Controller.Reconcile.Owned.{IsOwned, reconcile-IsOwned}
use krop_controller.Tests.Memory.{All-without, World, replaced, memory_client}
use krop_controller.Tests.Sample.{
  twelve, clock_text, agent_node, to_provider, reconciler_of, an_instance, runtime_of, started,
  no_selector, own_child, other_child, inhabited, the_consumer, some_inj,
}

abbrev both : List Target
both = provider ∷ consumer ∷ []

abbrev r : Reconciler World
r = reconciler_of (agent_node ∷ [])

abbrev in_front : List Condition → Condition → List Condition
in_front cs c = c ∷ cs

-- The provider's cluster holds labelled objects only.
abbrev IsLabelled : Object → Type 0
IsLabelled o = (uid : Text) × (lookup label_instance_uid o.labels ≡ some uid)

abbrev AllLabelled : World → Type 0
AllLabelled w = All IsLabelled (w provider)

replaced-IsLabelled :
    (o : Object) (os : List Object)
    → IsLabelled o
    → All IsLabelled os
    → All IsLabelled (replaced o os)
replaced-IsLabelled o [] l h = (l, tt)
replaced-IsLabelled o (x ∷ xs) l h = elim (Bool-cases (object_id x == object_id o)) [
  | inl same ↦ rw same (l, All-without IsLabelled (object_id o) xs h.1)
  | inr other ↦ rw other (h.0, replaced-IsLabelled o xs l h.1)
]

owned_keep :
    (t : Target) (c : Client World) (o : Object)
    → clients r the_consumer t ≡ some c
    → IsOwned twelve (codes "root") (codes "databases") an_instance t o
    → Stable AllLabelled (c.apply o)
unfolding memory_client target_eq
owned_keep consumer c o e h =
    subst (λ (d : Client World). Stable AllLabelled (d.apply o)) (some_inj _ c e) (λ w k. k)
owned_keep provider c o e h =
    subst (λ (d : Client World). Stable AllLabelled (d.apply o)) (some_inj _ c e)
      (λ w k. replaced-IsLabelled o (w provider) (codes "u1", h.uid_label) k)
owned_keep host c o e h = cc

abbrev begin : State (List Object) (Pass World)
begin = record { runtime = []; io = record { world = inhabited; applied = nothing_applied } }

reconcile-IsOwned_example :
    AllLabelled
      (reconcile
        (runtime_of (agent_node ∷ []))
        no_selector
        (appliers twelve clock_text in_front no_selector
          (started (agent_node ∷ []))
          both
          r
          the_consumer
          (codes "root")
          an_instance)
        (readers twelve clock_text in_front no_selector
          (started (agent_node ∷ []))
          both
          r
          the_consumer
          (codes "root"))
        to_provider
        begin).1.io.world
reconcile-IsOwned_example =
    reconcile-IsOwned twelve clock_text in_front no_selector (started (agent_node ∷ [])) both r
      the_consumer (codes "root") an_instance AllLabelled owned_keep (runtime_of (agent_node ∷ []))
      begin labelled
  where
    labelled : AllLabelled inhabited
    labelled = ((codes "u1", found_uid), ((codes "u2", found_uid'), tt))
      where
        found_uid : lookup label_instance_uid own_child.labels ≡ some (codes "u1")
        found_uid = ground arith

        found_uid' : lookup label_instance_uid other_child.labels ≡ some (codes "u2")
        found_uid' = ground arith
