-- ===== src/Registrar/Reconcile.antt =====
-- internal/registrar/registrar.go: `Reconcile` of one blueprint. The graph cache is always there, as in
-- cmd/controller, and calls of the hooks are recorded in their order.
pub mod Resolved
pub mod Teardown
pub mod Routed
pub mod Announced
pub mod Resync
use krop_controller.Base.{
  Text, text_eq, ◌==◌, contains, not, ◌&&◌, if◌then◌else◌, Bool, true, false, Option, none, some,
  List, [], ◌∷◌, ◌++◌,
}
use krop_controller.Base.Bytes.{codes}
use krop_controller.Base.Dict.{Dict}
use krop_controller.Base.Result.{
  Error, failure, wrap, Result, ok, err, ignored, Prog, pure, raise, context, ◌>>=◌, ◌>>◌,
}
use krop_controller.Api.Object.{Gvk, Gr, Condition, ConditionStatus, status_true, status_false}
use krop_controller.Api.Blueprint.{Blueprint, BlueprintSpec, BlueprintStatus, KroSpec, to_kro}
use krop_controller.Engine.Route.{Target, Routing, parse_target}
use krop_controller.Engine.Graph.{Node}
use krop_controller.Controller.Reconcile.{remove_string}
use krop_controller.Registrar.Cache.{GraphCache, get_graph, put_graph, delete_graph}
use krop_controller.Registrar.Claims.{PermissionClaim, blueprint_claims, validate_claims}
use krop_controller.Registrar.Publish.{
  Schema, Provider, Crd, build_ars, spec_hash, apply_ars, identity_by_group_resource,
  delete_published_api, upsert_api_export,
}

-- What the registrar reads of a compiled graph.
pub record Graph : Type 0 where
  pub nodes : List Node
  pub instance_gr : Gr
  pub crd : Option Crd

-- A call of `OnPublished` or of `OnDeleted`.
pub data Call : Type 0 where
  published : Text → Gvk → Graph → Routing → Bool → Call
  withdrawn : Text → Call

pub record Site (W : Type 0) : Type 0 where
  pub world : W
  pub cache : GraphCache Graph
  pub calls : List Call

-- `Registrar`; a hook may be nil.
pub record Registrar (W : Type 0) : Type 0 where
  pub client : Provider W
  pub workspace : Text
  pub has_on_published : Bool
  pub has_on_deleted : Bool

abbrev pub blueprint_finalizer : Text
blueprint_finalizer = codes "krop.opendefense.cloud/registrar"

-- The conversion of the routing's texts. The keys of a map differ, so each makes an entry of its own.
abbrev add_target : Text → Target → Result Routing → Result Routing
add_target id t (ok routing) = ok ((id, t) ∷ routing)
add_target id t (err e) = err e

unfoldable pub parse_routing : Dict Text Text → Result Routing
parse_routing [] = ok []
parse_routing ((id, raw) ∷ rest) =
    let routing = parse_routing rest in
    elim (parse_target raw) [
      | err e ↦ err (wrap (codes "resource " ++ id) e)
      | ok t ↦ add_target id t routing
    ]

abbrev pub ready_with : ConditionStatus → Text → Text → Condition
ready_with status reason message = record {
  type = codes "Ready";
  status = status;
  reason = reason;
  message = message;
  observed_generation = 0;
}

module _ {W : Type 0} where
  abbrev pub at_site : {A : Type 0} → Prog W A → Prog (Site W) A
  at_site m s = let (r, w) = m s.world in (r, record s { world = w })

  abbrev pub with_cache : (GraphCache Graph → GraphCache Graph) → Prog (Site W) (Unit {0})
  with_cache f s = (ok tt, record s { cache = f s.cache })

  abbrev pub call_hook : Bool → Call → Prog (Site W) (Unit {0})
  call_hook set c s = (ok tt, record s { calls = if set then s.calls ++ (c ∷ []) else s.calls })

module _ {W : Type 0} (digest : Text → Text) (marshal : BlueprintSpec → Result Text)
    (build : Text → KroSpec → W → Result Graph) (convert : Crd → Text → Result Schema)
    (set_condition : List Condition → Condition → List Condition) (error_text : Error → Text)
    (r : Registrar W) where
  -- `fail`: the status update is best-effort.
  unfoldable pub fail_with : {A : Type 0} → Blueprint → Text → Error → Prog (Site W) A
  fail_with bp reason e s =
      let status : BlueprintStatus = record bp.status {
        conditions =
            set_condition bp.status.conditions (ready_with status_false reason (error_text e));
      } in
      let (_, w) = r.client.update_blueprint_status (record bp { status = status }) s.world in
      (err e, record s { world = w })

  -- `if err != nil { return r.fail(ctx, bp, reason, err) }`
  unfoldable pub go_on_or_fail :
      {A B : Type 0} → Blueprint → Text → (A → Prog (Site W) B) → Result A → Prog (Site W) B
  go_on_or_fail bp reason f (ok a) = f a
  go_on_or_fail bp reason f (err e) = fail_with bp reason e

  unfoldable pub or_fail :
      {A B : Type 0} → Blueprint → Text → Prog (Site W) A → (A → Prog (Site W) B) → Prog (Site W) B
  or_fail bp reason m f s = let (x, s') = m s in go_on_or_fail bp reason f x s'

  abbrev pub returned : {A : Type 0} → Result A → Prog (Site W) A
  returned x s = (x, s)

  -- The deletion branch: the withdrawal of what was published, and what follows it.
  unfoldable pub withdraw : Blueprint → Prog (Site W) (Unit {0})
  withdraw bp =
      if bp.status.exported_api == []
      then pure tt
      else at_site (delete_published_api r.client bp.status.exported_api)

  unfoldable pub release_blueprint : Blueprint → Prog (Site W) (Unit {0})
  release_blueprint bp = do
    with_cache (delete_graph r.workspace bp.name)
    call_hook (r.has_on_deleted && not (bp.status.exported_api == []))
        (withdrawn bp.status.exported_api)
    context (codes "removing blueprint finalizer") (
        at_site (
          r.client.update_blueprint
            (record bp { finalizers = remove_string bp.finalizers blueprint_finalizer })))

  unfoldable pub tear_down : Blueprint → Prog (Site W) (Unit {0})
  tear_down bp =
      if contains bp.finalizers blueprint_finalizer
      then withdraw bp >> release_blueprint bp
      else pure tt

  -- From the published export on: the hook, the identity that kcp has given it, the status.
  unfoldable pub report_published : Blueprint → Text → Graph → Routing → Schema → Prog (Site W) Bool
  report_published bp hash g routing ars s =
      let name = ars.plural ++ (b'.' ∷ ars.group) in
      let version : Text = elim g.crd [ none ↦ [] | some crd ↦ crd.version ] in
      let kind : Gvk = record { group = ars.group; version = version; kind = ars.kind } in
      let identity : Text = elim (r.client.get_export name s.world) [
        | err _ ↦ []
        | ok x ↦ x.identity_hash
      ] in
      let status : BlueprintStatus = record {
        exported_api = name;
        identity_hash = identity;
        observed_spec_hash = hash;
        conditions = set_condition bp.status.conditions (
            ready_with status_true (codes "Published")
              (codes "published APIExport " ++ (name ++ (codes " specHash " ++ hash))));
      } in
      (do
        call_hook r.has_on_published
            (published name kind g routing (not (bp.status.observed_spec_hash == hash)))
        context (codes "updating blueprint status")
            (at_site (r.client.update_blueprint_status (record bp { status = status })))
        pure true)
        s

  -- The claims, checked before the export is written. A panic of the merge comes back from
  -- controller-runtime as an error.
  unfoldable pub publish_claims :
      Blueprint
      → Text
      → Graph
      → Routing
      → Schema
      → Option (List PermissionClaim)
      → Prog (Site W) Bool
  publish_claims bp hash g routing ars none = raise (failure (codes "panic: index out of range"))
  publish_claims bp hash g routing ars (some claims) =
      or_fail bp (codes "ClaimIdentityUnresolved") (returned (validate_claims claims)) λ _.
        or_fail bp (codes "PublishFailed")
          (at_site (upsert_api_export r.client (ars.plural ++ (b'.' ∷ ars.group)) ars claims))
          λ _. report_published bp hash g routing ars

  unfoldable pub publish_schema : Blueprint → Text → Graph → Routing → Schema → Prog (Site W) Bool
  publish_schema bp hash g routing ars =
      or_fail bp (codes "PublishFailed") (at_site (apply_ars r.client ars)) λ _.
        or_fail bp (codes "PublishFailed") (at_site (identity_by_group_resource r.client))
          λ identity.
            publish_claims bp hash g routing ars
              (blueprint_claims g.nodes g.instance_gr routing identity)

  unfoldable pub publish_graph : Blueprint → Text → Dict Text Text → Graph → Prog (Site W) Bool
  publish_graph bp hash raw g =
      or_fail bp (codes "InvalidTarget") (returned (parse_routing raw)) λ routing.
        or_fail bp (codes "BuildFailed") (returned (build_ars convert g.crd hash))
          λ ars. publish_schema bp hash g routing ars

  -- The cached graph of this hash, or one that is built and put in its place.
  unfoldable pub build_graph : Blueprint → Text → KroSpec → Prog (Site W) Graph
  build_graph bp hash spec s = elim (get_graph r.workspace bp.name hash s.cache) [
    | some g ↦ (ok g, s)
    | none ↦ elim (build bp.name spec s.world) [
      | err e ↦ (err (wrap (codes "building graph") e), s)
      | ok g ↦ (ok g, record s { cache = put_graph r.workspace bp.name hash g s.cache })
    ]
  ]

  unfoldable pub publish : Blueprint → Prog (Site W) Bool
  publish bp = or_fail bp (codes "HashFailed") (returned (spec_hash digest marshal bp.spec)) λ hash.
      let (spec, raw) = to_kro bp.spec in
      or_fail bp (codes "BuildFailed") (build_graph bp hash spec) λ g. publish_graph bp hash raw g

  unfoldable pub add_finalizer : Blueprint → Prog (Site W) Blueprint
  add_finalizer bp =
      if contains bp.finalizers blueprint_finalizer
      then pure bp
      else (let bp' = record bp { finalizers = bp.finalizers ++ (blueprint_finalizer ∷ []) } in
          do
            context (codes "adding blueprint finalizer") (at_site (r.client.update_blueprint bp'))
            pure bp')

  -- The branches for a blueprint that is found. `true` asks for a requeue after the resync interval.
  unfoldable pub reconcile_blueprint : Blueprint → Prog (Site W) Bool
  reconcile_blueprint bp = elim bp.deletion_timestamp [
    | some _ ↦ tear_down bp >> pure false
    | none ↦ add_finalizer bp >>= publish
  ]

  unfoldable pub register : Text → Prog (Site W) Bool
  register name s = elim (r.client.get_blueprint name s.world) [
    | err e ↦ (elim (ignored (err e)) [ ok _ ↦ ok false | err e ↦ err e ], s)
    | ok bp ↦ reconcile_blueprint bp s
  ]
