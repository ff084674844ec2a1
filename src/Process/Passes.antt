-- ===== src/Process/Passes.antt =====
-- The passes of the registrar (internal/registrar/registrar.go) over the life of a process
-- (cmd/controller/main.go), with edits of the blueprints and restarts in between. `marks` is what the
-- workspace holds as the export and the hash of a blueprint's status.

pub mod Outcome
pub mod Calls
pub mod Publishes
pub mod Announces
pub mod Whole
pub mod Origin
pub mod Faithful
pub mod Served
use krop_controller.Base.{Text, ◌≡◌, ◌⊎◌, Option, some, List, [], ◌∷◌, ◌++◌, Bool}
use krop_controller.Base.Result.{Error, Result, ok, err, Prog}
use krop_controller.Api.Object.{Condition}
use krop_controller.Api.Blueprint.{Blueprint, BlueprintSpec, KroSpec, to_kro}
use krop_controller.Engine.Route.{Routing}
use krop_controller.Registrar.Publish.{Schema, Export, Provider, Crd, spec_hash, build_ars}
use krop_controller.Registrar.Reconcile.{
  Graph, Call, published, withdrawn, Site, Registrar, parse_routing, register,
}
use krop_controller.Registrar.Reconcile.Announced.{instance_gvk}
use krop_controller.Process.{ServedBlueprint}

-- `status.exportedAPI` and `status.observedSpecHash`
pub record Mark : Type 0 where
  pub export : Text
  pub hash : Text

abbrev pub mark_of : Blueprint → Mark
mark_of bp = record { export = bp.status.exported_api; hash = bp.status.observed_spec_hash }

-- As in a new blueprint.
abbrev pub no_mark : Mark
no_mark = record { export = []; hash = [] }

-- Whatever a program does, each mark that is there afterwards was there before.
abbrev pub IsUnmoved : {W A : Type 0} → (Text → W → Option Mark) → Prog W A → Type 0
IsUnmoved {W} marks m =
    (n : Text) (x : Mark) (w : W) → marks n (m w).1 ≡ some x → marks n w ≡ some x

-- An API server keeps the status of a blueprint apart: only a status update writes it.
pub record IsMarked {W : Type 0} (marks : Text → W → Option Mark) (c : Provider W) : Type 0 where
  pub found :
      (n : Text) (bp : Blueprint) (w : W)
      → c.get_blueprint n w ≡ ok bp
      → (bp.name ≡ n) × (marks n w ≡ some (mark_of bp))
  pub status_written :
      (bp : Blueprint) (n : Text) (x : Mark) (w : W)
      → marks n (c.update_blueprint_status bp w).1 ≡ some x
      → (marks n w ≡ some x) ⊎ ((n ≡ bp.name) × (x ≡ mark_of bp))
  pub status_succeeded :
      (bp : Blueprint) (x : Mark) (w : W)
      → (c.update_blueprint_status bp w).0 ≡ ok tt
      → marks bp.name (c.update_blueprint_status bp w).1 ≡ some x
      → x ≡ mark_of bp
  pub blueprint_updated : (bp : Blueprint) → IsUnmoved marks (c.update_blueprint bp)
  pub schema_created : (x : Schema) → IsUnmoved marks (c.create_schema x)
  pub schema_deleted : (n : Text) → IsUnmoved marks (c.delete_schema n)
  pub export_applied : (x : Export) → IsUnmoved marks (c.apply_export x)
  pub export_deleted : (n : Text) → IsUnmoved marks (c.delete_export n)

abbrev pub IsWithdrawal : Call → Type 0
IsWithdrawal (published export gvk g routing changed) = ⊥
IsWithdrawal (withdrawn export) = Unit

module _ {W : Type 0} (digest : Text → Text) (marshal : BlueprintSpec → Result Text)
    (build : Text → KroSpec → W → Result Graph) (convert : Crd → Text → Result Schema)
    (Known : Text → BlueprintSpec → Type 0) where
  -- What the blueprint of this name and this spec, whose hash is given, offers under an export.
  pub record Offers (name : Text) (spec : BlueprintSpec) (hash export : Text) (sb : ServedBlueprint)
      : Type 0 where
    pub known : Known name spec
    pub hashed : spec_hash digest marshal spec ≡ ok hash
    pub world : W
    pub built : build name (to_kro spec).0 world ≡ ok sb.graph
    pub routed : parse_routing (to_kro spec).1 ≡ ok sb.routing
    pub ars : Schema
    pub schema : build_ars convert sb.graph.crd hash ≡ ok ars
    pub exported : ars.plural ++ (b'.' ∷ ars.group) ≡ export
    pub kind : instance_gvk sb.graph ars ≡ sb.gvk

  -- A mark is empty, or it names what its blueprint offered.
  abbrev pub IsGenuine : Text → Mark → Type 0
  IsGenuine n x =
      (x ≡ no_mark)
      ⊎ ((spec : BlueprintSpec) × (sb : ServedBlueprint) × Offers n spec x.hash x.export sb)

module _ {W : Type 0} (digest : Text → Text) (marshal : BlueprintSpec → Result Text)
    (build : Text → KroSpec → W → Result Graph) (convert : Crd → Text → Result Schema)
    (set_condition : List Condition → Condition → List Condition) (error_text : Error → Text)
    (r : Registrar W) (marks : Text → W → Option Mark) (Known : Text → BlueprintSpec → Type 0) where
  abbrev pub pass : Text → Prog (Site W) Bool
  pass name = register digest marshal build convert set_condition error_text r name

  abbrev pub started : W → Site W
  started w = record { world = w; cache = []; calls = [] }

  -- The states of a process and its workspace that passes, edits and restarts lead to. An edit may do
  -- anything but write a status other than that of a new blueprint. A pass that fails has not called
  -- `OnPublished`, that is, its last status update succeeds, or it is followed by a restart.
  pub data Passes : Site W → Type 0 where
    starts :
        (w : W)
        → ((n : Text) (x : Mark)
            → marks n w ≡ some x
            → IsGenuine digest marshal build convert Known n x)
        → Passes (started w)
    restarts : (s : Site W) → Passes s → Passes (started s.world)
    edits :
        (w : W) (s : Site W)
        → Passes s
        → ((n : Text) (x : Mark) → marks n w ≡ some x → (marks n s.world ≡ some x) ⊎ (x ≡ no_mark))
        → Passes (record s { world = w })
    passes :
        (name : Text) (s : Site W)
        → Passes s
        → ((bp : Blueprint) → r.client.get_blueprint name s.world ≡ ok bp → Known name bp.spec)
        → ((e : Error) (c : Call)
            → (pass name s).0 ≡ err e
            → (pass name s).1.calls ≡ s.calls ++ (c ∷ [])
            → IsWithdrawal c)
        → Passes (pass name s).1
    crashes :
        (name : Text) (s : Site W)
        → Passes s
        → ((bp : Blueprint) → r.client.get_blueprint name s.world ≡ ok bp → Known name bp.spec)
        → Passes (started (pass name s).1.world)
