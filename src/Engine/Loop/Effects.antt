-- ===== src/Engine/Loop/Effects.antt =====
-- What a pass may do to the clusters.
use krop_controller.Base.{
  Text, ◌≡◌, refl, Bool, true, false, Option, none, some, List, [], ◌∷◌, arith, Bool-cases, inl,
  inr, All,
}
use krop_controller.Base.Result.{Result, ok, err, pure, ◌>>=◌, is_data_pending}
use krop_controller.Base.Stable.{Stable, bind-Stable}
use krop_controller.Api.Object.{Object}
use krop_controller.Api.Client.{Selector}
use krop_controller.Engine.Route.{Target, Routing, target_for_node}
use krop_controller.Engine.Apply.{Applier, Reader}
use krop_controller.Engine.Graph.{
  Node, NodeType, resource, collection, external, external_collection, instance_node, Runtime,
  is_external,
}
use krop_controller.Engine.Loop.{
  Summary, initial, Step, next, stop, fail, State, Outcome, apply_all, external_step,
  collection_step, after_apply, apply_step, node_step, after_desired, after_ignored, proceed,
  reconcile_node, reconcile_nodes, reconcile,
}

-- An applier keeps a property of its state, whether it succeeds or not.
abbrev pub Keeps : {S : Type 0} → (S → Type 0) → Applier S → Type 0
Keeps P a = (o : Object) → Stable P (a o)

module _ {S : Type 0} {P : S → Type 0} where
  apply_all-Stable : (a : Applier S) (os : List Object) → Keeps P a → Stable P (apply_all a os)
  unfolding apply_all
  apply_all-Stable a [] k s h = h
  apply_all-Stable a (o ∷ os) k s h =
      bind-Stable P (a o) (λ obs. apply_all a os >>= λ observed. pure (obs ∷ observed)) (k o)
        (λ obs.
          bind-Stable P (apply_all a os) (λ observed. pure (obs ∷ observed))
            (apply_all-Stable a os k) (λ observed t q. q))
        s h

module _ {R S : Type 0} (rt : Runtime R) (as_selector : Text → Result Selector)
    (appliers : Target → Option (Applier S)) (readers : Target → Option (Reader S))
    (routing : Routing) (P : S → Type 0) where
  -- The appliers of the nodes that are written keep `P`.
  abbrev pub Writes : Node → Type 0
  Writes n =
      is_external n.type ≡ false
      → (a : Applier S) → appliers (target_for_node n.id routing) ≡ some a
      → Keeps P a

  external_step-io :
      (n : Node) (desired : List Object) (res : Summary) (s : State R S)
      → (external_step rt as_selector appliers readers routing n desired res s).1.io ≡ s.io
  unfolding external_step
  external_step-io n desired res s = ground arith

  collection_step-io :
      (n : Node) (desired : List Object) (res : Summary) (s : State R S)
      → (collection_step rt as_selector appliers readers routing n desired res s).1.io ≡ s.io
  unfolding collection_step
  collection_step-io n desired res s = ground arith

  after_apply-io :
      (n : Node) (res : Summary) (s : State R S) (r : Result (List Object))
      → (after_apply rt as_selector appliers readers routing n res s r).1.io ≡ s.io
  unfolding after_apply
  after_apply-io n res s (ok observed) = refl
  after_apply-io n res s (err e) = refl

  apply_step-io :
      (n : Node) (desired : List Object) (res : Summary) (s : State R S)
      → is_external n.type ≡ false
      → Writes n
      → P s.io
      → P (apply_step rt as_selector appliers readers routing n desired res s).1.io
  unfolding apply_step
  apply_step-io n desired res s t w h = go (appliers (target_for_node n.id routing)) refl
    where
      go :
          (a : Option (Applier S))
          → appliers (target_for_node n.id routing) ≡ a
          → P (apply_step rt as_selector appliers readers routing n desired res s).1.io
      go none e = rw (e, apply_step) h
      go (some a) e =
          rw (e, apply_step) (rw after_apply-io (apply_all-Stable a desired (w t a e) s.io h))

  node_step-io :
      (t : NodeType) (n : Node) (desired : List Object) (res : Summary) (s : State R S)
      → n.type ≡ t
      → Writes n
      → P s.io
      → P (node_step rt as_selector appliers readers routing t n desired res s).1.io
  unfolding node_step
  node_step-io external n desired res s e w h = rw external_step-io h
  node_step-io external_collection n desired res s e w h = rw collection_step-io h
  node_step-io resource n desired res s e w h = apply_step-io n desired res s (rw e) w h
  node_step-io collection n desired res s e w h = apply_step-io n desired res s (rw e) w h
  node_step-io instance_node n desired res s e w h = apply_step-io n desired res s (rw e) w h

  after_desired-io :
      (n : Node) (res : Summary) (s : State R S) (r : Result (List Object))
      → Writes n
      → P s.io
      → P (after_desired rt as_selector appliers readers routing n res s r).1.io
  unfolding after_desired
  after_desired-io n res s (ok desired) w h = node_step-io n.type n desired res s refl w h
  after_desired-io n res s (err e) w h = elim (Bool-cases (is_data_pending e)) [
    | inl pending ↦ rw pending h
    | inr broken ↦ rw broken h
  ]

  after_ignored-io :
      (n : Node) (res : Summary) (s : State R S) (r : Result Bool)
      → Writes n
      → P s.io
      → P (after_ignored rt as_selector appliers readers routing n res s r).1.io
  unfolding after_ignored
  after_ignored-io n res s (err e) w h = h
  after_ignored-io n res s (ok true) w h = h
  after_ignored-io n res s (ok false) w h = after_desired-io n res _ _ w h

  proceed-io :
      (rest : Summary → State R S → Outcome × State R S)
      → ((res : Summary) (s : State R S) → P s.io → P (rest res s).1.io)
      → (step : Step) (s : State R S) → P s.io
      → P (proceed rt as_selector appliers readers routing rest step s).1.io
  proceed-io rest k (next res) s h = k res s h
  proceed-io rest k (stop res) s h = h
  proceed-io rest k (fail res e) s h = h

  reconcile_nodes-io :
      (ns : List Node) (res : Summary) (s : State R S)
      → All Writes ns
      → P s.io
      → P (reconcile_nodes rt as_selector appliers readers routing ns res s).1.io
  unfolding reconcile_nodes reconcile_node
  reconcile_nodes-io [] res s w h = h
  reconcile_nodes-io (n ∷ ns) res s w h =
      proceed-io (reconcile_nodes rt as_selector appliers readers routing ns)
        (λ res' s' h'. reconcile_nodes-io ns res' s' w.1 h') _ _ (after_ignored-io n res _ _ w.0 h)

  -- A pass touches the clusters only through the appliers of the targets of its written nodes: what
  -- each of those keeps, the whole pass keeps, whether it completes, waits or fails. For external
  -- nodes, ignored nodes and unused appliers nothing is asked.
  pub reconcile-io :
      (s : State R S)
      → All Writes rt.nodes
      → P s.io
      → P (reconcile rt as_selector appliers readers routing s).1.io
  unfolding reconcile
  reconcile-io s w h = reconcile_nodes-io rt.nodes initial s w h
