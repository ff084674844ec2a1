-- ===== src/Api/Client.antt =====
-- The controller-runtime client of one cluster, over the state `W` of all clusters. Reads do not
-- change the state; a write that fails may have been carried out.
use krop_controller.Base.{Text, Bool, List, ◌++◌}
use krop_controller.Base.Bytes.{codes}
use krop_controller.Base.Dict.{Dict}
use krop_controller.Base.Result.{Result, Prog}
use krop_controller.Api.Object.{Gvk, Object}

-- `labels.Selector`, as the label sets that it matches.
abbrev pub Selector : Type 0
Selector = Dict Text Text → Bool

-- The kind of a list: its items' kind with "List" behind it.
abbrev pub list_gvk : Gvk → Gvk
list_gvk g = record g { kind = g.kind ++ codes "List" }

pub record Client (W : Type 0) : Type 0 where
  -- kind, namespace, name
  pub get : Gvk → Text → Text → W → Result Object
  -- the list's kind, namespace (empty for all of them), labels
  pub list : Gvk → Text → Selector → W → Result (List Object)
  pub create : Object → Prog W (Unit {0})
  pub update : Object → Prog W (Unit {0})
  pub update_status : Object → Prog W (Unit {0})
  -- server-side apply with forced ownership
  pub apply : Object → Prog W (Unit {0})
  pub delete : Object → Prog W (Unit {0})
