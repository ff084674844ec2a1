-- ===== src/Engine/Loop/Outcomes.antt =====
-- What the result of a pass says of how it ended.
use krop_controller.Base.{
  Text, ◌≡◌, Bool, true, false, not, Option, none, List, [], ◌∷◌, ◌++◌, arith, if◌then◌else◌,
}
use krop_controller.Base.Result.{Result, ok, err}
use krop_controller.Api.Object.{Object}
use krop_controller.Api.Client.{Selector}
use krop_controller.Engine.Route.{Target, Routing}
use krop_controller.Engine.Apply.{Applier, Reader}
use krop_controller.Engine.Graph.{Node, NodeType, external, external_collection, Runtime}
use krop_controller.Engine.Loop.{
  Summary, Step, next, stop, fail, State, Outcome, external_step, collection_step, after_apply,
  apply_step, node_step, after_desired, after_ignored, proceed, reconcile_node, reconcile_nodes,
}

-- While the loop runs, a requeue is asked for exactly if something was not ready.
pub record IsRunning (res : Summary) : Type 0 where
  pub requeue_iff : res.requeue ≡ not res.ready
  pub unfinished : res.complete ≡ false

abbrev IsFair : Step → Type 0
IsFair (next res) = IsRunning res
IsFair (stop res) = IsRunning res × (res.ready ≡ false)
IsFair (fail res e) = IsRunning res

pub record IsConsistent (o : Outcome) : Type 0 where
  pub requeue_iff : o.summary.requeue ≡ not o.summary.ready
  pub complete_succeeds : o.summary.complete ≡ true → o.error ≡ none
  pub early_return_waits : o.error ≡ none → o.summary.complete ≡ false → o.summary.ready ≡ false

module _ {R S : Type 0} (rt : Runtime R) (as_selector : Text → Result Selector)
    (appliers : Target → Option (Applier S)) (readers : Target → Option (Reader S))
    (routing : Routing) where
  external_step-IsFair :
      (n : Node) (desired : List Object) (res : Summary) (s : State R S)
      → IsRunning res
      → IsFair (external_step rt as_selector appliers readers routing n desired res s).0
  unfolding external_step
  external_step-IsFair n desired res s h = ground arith

  collection_step-IsFair :
      (n : Node) (desired : List Object) (res : Summary) (s : State R S)
      → IsRunning res
      → IsFair (collection_step rt as_selector appliers readers routing n desired res s).0
  unfolding collection_step
  collection_step-IsFair n desired res s h = ground arith

  apply_step-IsFair :
      (n : Node) (desired : List Object) (res : Summary) (s : State R S)
      → IsRunning res
      → IsFair (apply_step rt as_selector appliers readers routing n desired res s).0
  unfolding apply_step after_apply
  apply_step-IsFair n desired res s h = ground arith

  node_step-IsFair :
      (t : NodeType) (n : Node) (desired : List Object) (res : Summary) (s : State R S)
      → IsRunning res
      → IsFair (node_step rt as_selector appliers readers routing t n desired res s).0
  unfolding node_step
  node_step-IsFair external = external_step-IsFair
  node_step-IsFair external_collection = collection_step-IsFair
  node_step-IsFair _ = apply_step-IsFair

  after_desired-IsFair :
      (n : Node) (res : Summary) (s : State R S) (r : Result (List Object))
      → IsRunning res
      → IsFair (after_desired rt as_selector appliers readers routing n res s r).0
  unfolding after_desired
  after_desired-IsFair n res s (ok desired) h = node_step-IsFair n.type n desired res s h
  after_desired-IsFair n res s (err e) h = ground arith

  after_ignored-IsFair :
      (n : Node) (res : Summary) (s : State R S) (r : Result Bool)
      → IsRunning res
      → IsFair (after_ignored rt as_selector appliers readers routing n res s r).0
  unfolding after_ignored
  after_ignored-IsFair n res s (err e) h = h
  after_ignored-IsFair n res s (ok true) h = h
  after_ignored-IsFair n res s (ok false) h = after_desired-IsFair n res _ _ h

  abbrev pass : List Node → Summary → State R S → Outcome × State R S
  pass = reconcile_nodes rt as_selector appliers readers routing

  abbrev go_on :
      (Summary → State R S → Outcome × State R S) → Step → State R S → Outcome × State R S
  go_on = proceed rt as_selector appliers readers routing

  -- What follows a pass over the first nodes: the rest, if the pass reached the end of the loop.
  abbrev pub resume :
      (Summary → State R S → Outcome × State R S) → Outcome × State R S → Outcome × State R S
  resume rest (o, s) =
      if o.summary.complete then rest (record o.summary { complete = false }) s else (o, s)

  resume-proceed :
      (xs ys : List Node) (step : Step) (s : State R S)
      → ((res : Summary) → IsRunning res → pass (xs ++ ys) res s ≡ resume (pass ys) (pass xs res s))
      → IsFair step
      → go_on (pass (xs ++ ys)) step s ≡ resume (pass ys) (go_on (pass xs) step s)
  resume-proceed xs ys (next res) s h f = h res f
  resume-proceed xs ys (stop res) s h f = ground arith
  resume-proceed xs ys (fail res e) s h f = ground arith

  -- A pass over nodes in two parts is the pass over the first part, and then, only if that reached
  -- its end, the pass over the second. So a node that waits or fails cuts off all nodes behind it:
  -- what they are makes no difference to the result, to the runtime or to any cluster.
  pub reconcile_nodes-append :
      (xs ys : List Node) (res : Summary) (s : State R S)
      → IsRunning res
      → pass (xs ++ ys) res s ≡ resume (pass ys) (pass xs res s)
  unfolding reconcile_nodes reconcile_node
  reconcile_nodes-append [] ys res s h = ground arith
  reconcile_nodes-append (n ∷ xs) ys res s h =
      resume-proceed xs ys _ _ (λ res' h'. reconcile_nodes-append xs ys res' _ h')
        (after_ignored-IsFair n res _ _ h)
