-- ===== src/Process/Passes/Outcome.antt =====
-- What a pass of the registrar may do to the marks of the workspace, to the cache and to the hooks.
use krop_controller.Base.{Text, ◌≡◌, ◌⊎◌, Bool, Option, some, [], ◌∷◌, ◌++◌}
use krop_controller.Base.Result.{Result, ok}
use krop_controller.Api.Blueprint.{Blueprint, BlueprintSpec, KroSpec, to_kro}
use krop_controller.Engine.Route.{Routing}
use krop_controller.Registrar.Cache.{GraphCache, get_graph}
use krop_controller.Registrar.Publish.{Schema, Crd, spec_hash}
use krop_controller.Registrar.Reconcile.{Graph, withdrawn, Site, Registrar}
use krop_controller.Registrar.Reconcile.Announced.{instance_gvk, announcement}
use krop_controller.Process.{ServedBlueprint}
use krop_controller.Process.Passes.{Mark, mark_of, Offers}

abbrev pub offer_of : Graph → Routing → Schema → ServedBlueprint
offer_of g routing ars = record { graph = g; gvk = instance_gvk g ars; routing = routing }

abbrev pub new_mark : Text → Schema → Mark
new_mark hash ars = record { export = ars.plural ++ (b'.' ∷ ars.group); hash = hash }

module _ {W : Type 0} (digest : Text → Text) (marshal : BlueprintSpec → Result Text)
    (build : Text → KroSpec → W → Result Graph) (convert : Crd → Text → Result Schema)
    (r : Registrar W) (marks : Text → W → Option Mark) (Known : Text → BlueprintSpec → Type 0) where
  -- Every cached graph was built from the spec of its hash.
  abbrev pub IsBuilt : GraphCache Graph → Type 0
  IsBuilt cache =
      (n hash : Text) (g : Graph)
      → get_graph r.workspace n hash cache ≡ some g
      → (spec : BlueprintSpec) × (w : W) × Known n spec
        × (spec_hash digest marshal spec ≡ ok hash)
        × (build n (to_kro spec).0 w ≡ ok g)

  module _ (s0 : Site W) where
    pub record Kept (s : Site W) : Type 0 where
      pub unmoved : (n : Text) (x : Mark) → marks n s.world ≡ some x → marks n s0.world ≡ some x
      pub cached : IsBuilt s.cache

    pub record Quiet (s : Site W) : Type 0 where
      pub kept : Kept s
      pub silent : s.calls ≡ s0.calls

    pub record Announced (result : Result Bool) (end : Site W) : Type 0 where
      pub bp : Blueprint
      pub hash : Text
      pub g : Graph
      pub routing : Routing
      pub ars : Schema
      pub offers :
          Offers digest marshal build convert Known bp.name bp.spec hash
            (ars.plural ++ (b'.' ∷ ars.group))
            (offer_of g routing ars)
      pub read : marks bp.name s0.world ≡ some (mark_of bp)
      pub announced : end.calls ≡ s0.calls ++ (announcement bp hash g routing ars ∷ [])
      pub cached : IsBuilt end.cache
      pub moved :
          (n : Text) (x : Mark)
          → marks n end.world ≡ some x
          → (marks n s0.world ≡ some x) ⊎ ((n ≡ bp.name) × (x ≡ new_mark hash ars))
      pub written :
          (b : Bool) (x : Mark)
          → result ≡ ok b
          → marks bp.name end.world ≡ some x
          → x ≡ new_mark hash ars

    pub data Outcome (result : Result Bool) (end : Site W) : Type 0 where
      quiet : Quiet end → Outcome result end
      withdrew :
          (export : Text)
          → Kept end
          → end.calls ≡ s0.calls ++ (withdrawn export ∷ [])
          → Outcome result end
      announces : Announced result end → Outcome result end

    abbrev pub Ends : Result Bool × Site W → Type 0
    Ends (x, end) = Outcome x end
