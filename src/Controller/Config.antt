-- ===== src/Controller/Config.antt =====
-- The fields of `Reconciler`, and the clients of its targets.
use krop_controller.Base.{Text, ◌==◌, text_eq, if◌then◌else◌, Option, some, List, []}
use krop_controller.Base.Bytes.{codes}
use krop_controller.Api.Object.{Gvk}
use krop_controller.Api.Client.{Client}
use krop_controller.Engine.Route.{Target, consumer, provider, host, Routing}
use krop_controller.Engine.Graph.{Node}

-- `graph` is `Graph.Nodes`, a Go map, in the order in which the loops over it meet the nodes.
pub record Reconciler (W : Type 0) : Type 0 where
  pub graph : List Node
  pub provider_client : Client W
  pub host_client : Option (Client W)
  pub instance_gvk : Gvk
  pub blueprint_name : Text
  pub record_namespace : Text
  pub routing : Routing

abbrev pub default_record_namespace : Text
default_record_namespace = codes "default"

-- `recordNamespace()` of the reconciler and of the sweeper
unfoldable pub namespace_or_default : Text → Text
namespace_or_default ns = if ns == [] then default_record_namespace else ns

module _ {W : Type 0} where
  -- The map `clients` of `deleteChildren` and `pruneChildren`.
  abbrev pub clients : Reconciler W → Client W → Target → Option (Client W)
  clients r consumer_client consumer = some consumer_client
  clients r consumer_client provider = some r.provider_client
  clients r consumer_client host = r.host_client
