-- ===== src/Tests/Engine.antt =====
-- The engine's properties at concrete inputs.
use krop_controller.Base.{
  ◌≤◌, Text, text_eq, ◌≡◌, refl, true, Option, some, List, [], ◌∷◌, ◌++◌, length, All_intro, subst,
  arith,
}
use krop_controller.Base.Bytes.{codes, byte_eq}
use krop_controller.Base.Result.{ok}
use krop_controller.Api.Object.{Object}
use krop_controller.Engine.Route.{Target, target_eq, consumer, provider}
use krop_controller.Engine.Naming.{max_name_len, provider_child_name}
use krop_controller.Engine.Naming.Bounds.{length-provider_child_name-le}
use krop_controller.Engine.Naming.Dns.{
  is_subdomain, IsHex, class_of, is_subdomain-provider_child_name,
}
use krop_controller.Engine.Apply.{Applier, Pass, Reader}
use krop_controller.Engine.Graph.{Runtime}
use krop_controller.Engine.Loop.{State, reconcile}
use krop_controller.Engine.Loop.Effects.{Writes, reconcile-io}
use krop_controller.Controller.Reconcile.{appliers, readers, nothing_applied}
use krop_controller.Tests.Memory.{World, with_objects, memory_client}
use krop_controller.Tests.Sample.{
  twelve, clock_text, agent_node, to_provider, reconciler_of, an_instance, runtime_of, started,
  no_selector, inhabited,
}

length-provider_child_name-le_example :
    length (provider_child_name twelve (codes "root") (codes "main") (codes "cm")) ≤ max_name_len
length-provider_child_name-le_example =
    length-provider_child_name-le twelve (λ s. omega arith) (codes "root") (codes "main")
      (codes "cm")

-- Both names are one only for one child. The digest here is the joined text itself, padded.
abbrev padded : Text → Text
padded s = s ++ codes "000000000000"

cluster_ok : is_subdomain (codes "root") ≡ true
unfolding is_subdomain class_of byte_eq
cluster_ok = refl

name_ok : is_subdomain (codes "main") ≡ true
unfolding is_subdomain class_of byte_eq
name_ok = refl

twelve-IsHex : (s : Text) → IsHex (twelve s)
twelve-IsHex s = ground arith

is_subdomain-provider_child_name_example :
    is_subdomain (provider_child_name twelve (codes "root") (codes "main") (codes "main")) ≡ true
is_subdomain-provider_child_name_example =
    is_subdomain-provider_child_name twelve (λ s. omega arith) twelve-IsHex (codes "root")
      (codes "main") (codes "main") cluster_ok name_ok name_ok

abbrev appliers_of : Target → Option (Applier (Pass World))
appliers_of =
    appliers twelve clock_text (λ cs c. c ∷ cs) no_selector (started (agent_node ∷ [])) []
      (reconciler_of (agent_node ∷ [])) (memory_client consumer) (codes "root") an_instance

abbrev readers_of : Target → Option (Reader (Pass World))
readers_of =
    readers twelve clock_text (λ cs c. c ∷ cs) no_selector (started (agent_node ∷ [])) []
      (reconciler_of (agent_node ∷ [])) (memory_client consumer) (codes "root")

abbrev begin : State (List Object) (Pass World)
begin = record { runtime = []; io = record { world = inhabited; applied = nothing_applied } }

abbrev rt : Runtime (List Object)
rt = runtime_of (agent_node ∷ agent_node ∷ [])

-- Whatever the provider's applier does, the consumer's cluster holds the instance.
abbrev InstanceThere : Pass World → Type 0
InstanceThere p = p.world consumer ≡ an_instance ∷ []

-- An applier of the provider's cluster alone.
abbrev provider_only : Target → Option (Applier (Pass World))
provider_only _ = some (λ o p. (ok o, record p { world = with_objects provider (o ∷ []) p.world }))

provider_only-Keeps :
    (p : Pass World) (o : Object)
    → InstanceThere p
    → with_objects provider (o ∷ []) p.world consumer ≡ an_instance ∷ []
provider_only-Keeps p o h = ground (arith, h)

some_inj : {A : Type 0} (a b : A) → some a ≡ some b → a ≡ b
some_inj a b e = cc

reconcile-io_example :
    InstanceThere (reconcile rt no_selector provider_only readers_of to_provider begin).1.io
reconcile-io_example =
    reconcile-io rt no_selector provider_only readers_of to_provider InstanceThere begin
      (All_intro (Writes rt no_selector provider_only readers_of to_provider InstanceThere) rt.nodes
        (λ n _ a e o p h.
          subst (λ (b : Applier (Pass World)). InstanceThere (b o p).1) (some_inj _ a e)
            (provider_only-Keeps p o h)))
      refl
