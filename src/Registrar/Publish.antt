-- ===== src/Registrar/Publish.antt =====
-- internal/registrar/publish.go and hash.go: the schema and the export of a blueprint. `Provider` is the
-- client of the provider workspace, by the calls that the registrar makes.
pub mod Withdrawn
use krop_controller.Base.{
  Text, text_eq, Option, none, some, List, [], ◌∷◌, ◌++◌, take, if◌then◌else◌,
}
use krop_controller.Base.Bytes.{codes}
use krop_controller.Base.Dict.{Dict, insert}
use krop_controller.Base.Result.{
  Error, is_not_found, failure, wrap, Result, ok, err, Prog, pure, raise, reads, attempt, context,
  context_of, ignore_not_found, for_each, ◌>>=◌, ◌>>◌,
}
use krop_controller.Api.Object.{Gr, gr_eq}
use krop_controller.Api.Blueprint.{Blueprint, BlueprintSpec}
use krop_controller.Registrar.Claims.{PermissionClaim}

-- `APIResourceSchema`
pub record Schema : Type 0 where
  pub name : Text
  pub group : Text
  pub plural : Text
  pub kind : Text
  pub body : Text

-- `ResourceSchema`
pub record ExportedResource : Type 0 where
  pub name : Text
  pub group : Text
  pub schema : Text

-- `APIExport`
pub record Export : Type 0 where
  pub name : Text
  pub resources : List ExportedResource
  pub permission_claims : List PermissionClaim
  pub identity_hash : Text

-- `BoundAPIResource`
pub record BoundResource : Type 0 where
  pub gr : Gr
  pub identity_hash : Text

pub record Provider (W : Type 0) : Type 0 where
  pub get_blueprint : Text → W → Result Blueprint
  pub update_blueprint : Blueprint → Prog W (Unit {0})
  pub update_blueprint_status : Blueprint → Prog W (Unit {0})
  pub get_schema : Text → W → Result Schema
  pub create_schema : Schema → Prog W (Unit {0})
  pub delete_schema : Text → Prog W (Unit {0})
  pub get_export : Text → W → Result Export
  pub apply_export : Export → Prog W (Unit {0})
  pub delete_export : Text → Prog W (Unit {0})
  -- the bound resources of each binding
  pub list_bindings : W → Result (List (List BoundResource))

-- The generated definition of a graph's instances: its first version's name, and the rest.
pub record Crd : Type 0 where
  pub version : Text
  pub body : Text

-- `BuildARS`; `convert` is `CRDToAPIResourceSchema`.
unfoldable pub build_ars : (Crd → Text → Result Schema) → Option Crd → Text → Result Schema
build_ars convert none spec_hash = err (failure (codes "graph has no generated CRD"))
build_ars convert (some crd) spec_hash = convert crd (b'v' ∷ spec_hash)

-- `SpecHash`; `marshal` is `json.Marshal`, `digest` the hexadecimal SHA-256.
unfoldable pub spec_hash :
    (Text → Text) → (BlueprintSpec → Result Text) → BlueprintSpec → Result Text
spec_hash digest marshal spec =
    elim (context_of (codes "marshaling blueprint spec for hashing") (marshal spec)) [
      | err e ↦ err e
      | ok b ↦ ok (take 12 (digest b))
    ]

-- The loops of `identityByGroupResource`: a later entry replaces an earlier one.
unfoldable pub add_bound : List BoundResource → Dict Gr Text → Dict Gr Text
add_bound [] out = out
add_bound (b ∷ bs) out = add_bound bs (insert b.gr b.identity_hash out)

unfoldable pub add_bindings : List (List BoundResource) → Dict Gr Text → Dict Gr Text
add_bindings [] out = out
add_bindings (b ∷ bs) out = add_bindings bs (add_bound b out)

module _ {W : Type 0} (c : Provider W) where
  unfoldable pub after_get_schema : Schema → Result Schema → Prog W (Unit {0})
  after_get_schema ars (ok _) = pure tt
  after_get_schema ars (err e) =
      if is_not_found e
      then context (codes "creating APIResourceSchema") (c.create_schema ars)
      else raise (wrap (codes "getting APIResourceSchema") e)

  -- `applyARS`
  unfoldable pub apply_ars : Schema → Prog W (Unit {0})
  apply_ars ars = do
    existing ← attempt (reads (c.get_schema ars.name))
    after_get_schema ars existing

  unfoldable pub identity_by_group_resource : Prog W (Dict Gr Text)
  identity_by_group_resource = do
    bindings ← context (codes "listing APIBindings") (reads c.list_bindings)
    pure (add_bindings bindings [])

  unfoldable pub delete_export_schema : ExportedResource → Prog W (Unit {0})
  delete_export_schema res =
      context (codes "deleting APIResourceSchema") (ignore_not_found (c.delete_schema res.schema))

  unfoldable pub after_get_export : Text → Result Export → Prog W (Unit {0})
  after_get_export name (err e) =
      if is_not_found e then pure tt else raise (wrap (codes "getting APIExport for deletion") e)
  after_get_export name (ok export) = do
    for_each export.resources delete_export_schema
    context (codes "deleting APIExport") (ignore_not_found (c.delete_export export.name))

  -- `DeletePublishedAPI`
  unfoldable pub delete_published_api : Text → Prog W (Unit {0})
  delete_published_api name = do
    found ← attempt (reads (c.get_export name))
    after_get_export name found

  abbrev pub export_of : Text → Schema → List PermissionClaim → Export
  export_of name ars claims = record {
    name = name;
    resources = record { name = ars.plural; group = ars.group; schema = ars.name } ∷ [];
    permission_claims = claims;
    identity_hash = [];
  }

  -- `UpsertAPIExport`
  unfoldable pub upsert_api_export : Text → Schema → List PermissionClaim → Prog W (Unit {0})
  upsert_api_export name ars claims =
      context (codes "applying APIExport") (c.apply_export (export_of name ars claims))
