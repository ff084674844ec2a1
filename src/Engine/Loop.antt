-- ===== src/Engine/Loop.antt =====
-- internal/engine/engine.go and status.go: one pass over the nodes of the runtime.
pub mod Outcomes
pub mod Effects
use krop_controller.Base.{
  Text, text_eq, if◌then◌else◌, Bool, true, false, Option, none, some, List, [], ◌∷◌, ◌++◌,
}
use krop_controller.Base.Bytes.{codes}
use krop_controller.Base.Result.{
  Error, is_not_found, is_data_pending, failure, wrap, Result, ok, err, Prog, pure, ◌>>=◌,
}
use krop_controller.Api.Object.{Object}
use krop_controller.Api.Client.{Selector}
use krop_controller.Engine.Route.{Target, target_text, Routing, target_for_node}
use krop_controller.Engine.Apply.{Applier, Reader}
use krop_controller.Engine.Graph.{
  Node, resource, collection, external, external_collection, instance_node, Runtime, NodeType,
}

-- `engine.Result`
pub record Summary : Type 0 where
  pub ready : Bool
  pub requeue : Bool
  pub complete : Bool

abbrev pub initial : Summary
initial = record { ready = true; requeue = false; complete = false }

-- `res.Ready, res.Requeue = false, true`
abbrev pub waiting : Summary → Summary
waiting res = record res { ready = false; requeue = true }

-- How the body of the loop ends: `continue`, `return res, nil` or `return res, err`.
pub data Step : Type 0 where
  next stop : Summary → Step
  fail : Summary → Error → Step

-- The runtime's state, and the state that appliers and readers work on.
pub record State (R S : Type 0) : Type 0 where
  pub runtime : R
  pub io : S

-- The two results of `Reconcile`.
pub record Outcome : Type 0 where
  pub summary : Summary
  pub error : Option Error

abbrev pub select_all : Selector
select_all _ = true

-- A missing selector selects everything. `as_selector` converts the map, which may fail.
unfoldable pub external_collection_selector : (Text → Result Selector) → Object → Result Selector
external_collection_selector as_selector desired = elim desired.selector [
  | none ↦ ok select_all
  | some raw ↦ elim (as_selector raw) [
    | ok sel ↦ ok sel
    | err e ↦ err (wrap (codes "external collection selector") e)
  ]
]

module _ {S : Type 0} where
  unfoldable pub apply_all : Applier S → List Object → Prog S (List Object)
  apply_all applier [] = pure []
  apply_all applier (o ∷ os) = do
    obs ← applier o
    observed ← apply_all applier os
    pure (obs ∷ observed)

module _ {R S : Type 0} (rt : Runtime R) (as_selector : Text → Result Selector)
    (appliers : Target → Option (Applier S)) (readers : Target → Option (Reader S))
    (routing : Routing) where
  abbrev pub node_text : Node → Text → Text
  node_text n t = codes "node " ++ (n.id ++ t)

  -- `node.SetObserved(items)` and the readiness test behind it.
  abbrev pub observe : Node → List Object → Summary → State R S → Step × State R S
  observe n items res s =
      let r = rt.set_observed n.id items s.runtime in
      (next (if rt.check_readiness n.id r then res else waiting res), record s { runtime = r })

  unfoldable pub external_step : Node → List Object → Summary → State R S → Step × State R S
  external_step n desired res s = elim (readers (target_for_node n.id routing)) [
    | none ↦ (fail res (failure (node_text n (codes ": no reader configured"))), s)
    | some reader ↦ elim desired [
      | [] ↦ (next res, s)
      | d ∷ _ ↦ elim (reader.get d.gvk d.namespace d.name s.io) [
        | ok o ↦ observe n (o ∷ []) res s
        | err e ↦
            if is_not_found e
            then (stop (waiting res), s)
            else (fail res (wrap (node_text n (codes ": external get")) e), s)
      ]
    ]
  ]

  unfoldable pub collection_step : Node → List Object → Summary → State R S → Step × State R S
  unfolding external_collection_selector
  collection_step n desired res s = elim (readers (target_for_node n.id routing)) [
    | none ↦ (fail res (failure (node_text n (codes ": no reader configured"))), s)
    | some reader ↦ elim desired [
      | [] ↦ (next res, s)
      | d ∷ _ ↦ elim (external_collection_selector as_selector d) [
        | err e ↦ (fail res (wrap (node_text n []) e), s)
        | ok selector ↦
            let namespace = if n.namespaced then d.namespace else [] in
            elim (reader.list d.gvk namespace selector s.io) [
              | ok items ↦ observe n items res s
              | err e ↦ (fail res (wrap (node_text n (codes ": external list")) e), s)
            ]
      ]
    ]
  ]

  unfoldable pub after_apply : Node → Summary → State R S → Result (List Object) → Step × State R S
  after_apply n res s (ok observed) = observe n observed res s
  after_apply n res s (err e) = (fail res (wrap (node_text n (codes ": apply")) e), s)

  unfoldable pub apply_step : Node → List Object → Summary → State R S → Step × State R S
  apply_step n desired res s = elim (appliers (target_for_node n.id routing)) [
    | none ↦ (fail res (failure (node_text n (codes ": no applier configured"))), s)
    | some applier ↦
        let (applied, io) = apply_all applier desired s.io in
        after_apply n res (record s { io = io }) applied
  ]

  unfoldable pub node_step : NodeType → Node → List Object → Summary → State R S → Step × State R S
  node_step external = external_step
  node_step external_collection = collection_step
  node_step _ = apply_step

  -- The body of the loop, from the results of `IsIgnored` and of `GetDesired` on.
  unfoldable pub after_desired :
      Node → Summary → State R S → Result (List Object) → Step × State R S
  after_desired n res s (ok desired) = node_step n.type n desired res s
  after_desired n res s (err e) =
      if is_data_pending e then (stop (waiting res), s) else (fail res (wrap (node_text n []) e), s)

  unfoldable pub after_ignored : Node → Summary → State R S → Result Bool → Step × State R S
  after_ignored n res s (err e) = (fail res (wrap (node_text n (codes ": includeWhen")) e), s)
  after_ignored n res s (ok true) = (next res, s)
  after_ignored n res s (ok false) =
      let (resolved, r) = rt.get_desired n.id s.runtime in
      after_desired n res (record s { runtime = r }) resolved

  unfoldable pub reconcile_node : Node → Summary → State R S → Step × State R S
  reconcile_node n res s =
      let (ignored, r) = rt.is_ignored n.id s.runtime in
      after_ignored n res (record s { runtime = r }) ignored

  abbrev pub proceed :
      (Summary → State R S → Outcome × State R S) → Step → State R S → Outcome × State R S
  proceed rest (next res) s = rest res s
  proceed rest (stop res) s = (record { summary = res; error = none }, s)
  proceed rest (fail res e) s = (record { summary = res; error = some e }, s)

  unfoldable pub reconcile_nodes : List Node → Summary → State R S → Outcome × State R S
  reconcile_nodes [] res s = (record { summary = record res { complete = true }; error = none }, s)
  reconcile_nodes (n ∷ ns) res s =
      let (step, s') = reconcile_node n res s in proceed (reconcile_nodes ns) step s'

  -- `Engine.Reconcile`
  unfoldable pub reconcile : State R S → Outcome × State R S
  reconcile = reconcile_nodes rt.nodes initial

-- `ProjectStatus`
unfoldable pub project_status : {R : Type 0} → Runtime R → R → Result Object
project_status rt r = elim (rt.instance_desired r) [
  | err e ↦ err e
  | ok [] ↦ err (failure (codes "instance produced no desired object"))
  | ok (o ∷ _) ↦ ok o
]
