-- ===== src/Engine/Graph.antt =====
-- What the program reads of kro's compiled graph, and the runtime of one pass as an interface.
use krop_controller.Base.{Text, Bool, List}
use krop_controller.Base.Result.{Result, Prog}
use krop_controller.Api.Object.{Gvk, Gr, Object}

-- `graph.NodeType`
pub data NodeType : Type 0 where
  resource collection external external_collection instance_node : NodeType

-- `graph.Node`: its `Meta`, and the kind of its `Template`.
pub record Node : Type 0 where
  pub id : Text
  pub type : NodeType
  pub namespaced : Bool
  pub gr : Gr
  pub template_gvk : Gvk

abbrev pub is_external : NodeType → Bool
is_external external = Bool.true
is_external external_collection = Bool.true
is_external _ = Bool.false

-- `runtime.Runtime` of kro over its own state `R`. A node is addressed by its id.
pub record Runtime (R : Type 0) : Type 0 where
  -- in topological order
  pub nodes : List Node
  pub is_ignored : Text → Prog R Bool
  pub get_desired : Text → Prog R (List Object)
  pub set_observed : Text → List Object → R → R
  pub check_readiness : Text → R → Bool
  -- `rt.Instance().GetDesired()`
  pub instance_desired : R → Result (List Object)
