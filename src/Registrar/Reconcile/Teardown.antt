-- ===== src/Registrar/Reconcile/Teardown.antt =====
-- What is done, and in which order, in the deletion branch of the registrar's `Reconcile`.
use krop_controller.Base.{
  Text, text_eq, ◌==◌, contains, if◌then◌else◌, ◌≡◌, ◌≢◌, ◌↔◌, refl, sym, subst, ◌⊎◌, inl, inr,
  Bool, true, false, List, [], ◌∷◌, ◌++◌, All, arith,
}
use krop_controller.Base.Bytes.{codes}
use krop_controller.Base.Result.{Error, Result, ok, err, context_of}
use krop_controller.Api.Object.{Condition}
use krop_controller.Api.Blueprint.{Blueprint, BlueprintSpec, KroSpec}
use krop_controller.Controller.Reconcile.{remove_string}
use krop_controller.Registrar.Cache.{delete_graph}
use krop_controller.Registrar.Publish.{Schema, Export, Crd, delete_published_api}
use krop_controller.Registrar.Publish.Withdrawn.{IsWorkspace, delete_published_api-Gone}
use krop_controller.Registrar.Reconcile.{
  Graph, withdrawn, Site, Registrar, blueprint_finalizer, withdraw, release_blueprint, tear_down,
}

module _ {W : Type 0} (live_schema live_export : Text → W → Bool) (digest : Text → Text)
    (marshal : BlueprintSpec → Result Text) (build : Text → KroSpec → W → Result Graph)
    (convert : Crd → Text → Result Schema)
    (set_condition : List Condition → Condition → List Condition) (error_text : Error → Text)
    (r : Registrar W) (workspace : IsWorkspace live_schema live_export r.client) where
  -- What the blueprint is written as at the end of its deletion.
  abbrev pub unfinalized : Blueprint → Blueprint
  unfinalized bp = record bp { finalizers = remove_string bp.finalizers blueprint_finalizer }

  -- The export and the schemas are gone or marked for deletion. The graph is dropped from the cache, the
  -- hook, if there is one, is called with the export's name, the blueprint is written without the
  -- finalizer, and an error is reported exactly if that write reports one.
  abbrev pub IsWithdrawn : Blueprint → Export → Site W → Result (Unit {0}) × Site W → Type 0
  IsWithdrawn bp x s (result, end) =
      let left = (delete_published_api r.client bp.status.exported_api s.world).1 in
      let written = r.client.update_blueprint (unfinalized bp) left in
      (live_export bp.status.exported_api left ≡ false)
      × All (λ res. live_schema res.schema left ≡ false) x.resources
      × (end.cache ≡ delete_graph r.workspace bp.name s.cache)
      × (end.calls ≡ (
          if r.has_on_deleted then s.calls ++ (withdrawn bp.status.exported_api ∷ []) else s.calls))
      × (end.world ≡ written.1)
      × ((result ≡ ok tt) ↔ (written.0 ≡ ok tt))

  -- The withdrawal has reported an error, which is reported, and nothing else has been done.
  abbrev pub IsHeldBack : Blueprint → Site W → Result (Unit {0}) × Site W → Type 0
  IsHeldBack bp s (result, end) =
      let first = delete_published_api r.client bp.status.exported_api s.world in
      (e : Error) × (first.0 ≡ err e) × (result ≡ err e) × (end ≡ record s { world = first.1 })

  context_ok : (msg : Text) (x : Result (Unit {0})) → (context_of msg x ≡ ok tt) ↔ (x ≡ ok tt)
  context_ok msg (ok _) = ((λ h. refl), (λ h. refl))
  context_ok msg (err e) = ((λ h. cc), (λ h. cc))

  released :
      (bp : Blueprint) (x : Export) (s : Site W)
      → (bp.status.exported_api == []) ≡ false
      → let left = (delete_published_api r.client bp.status.exported_api s.world).1 in
        (live_export bp.status.exported_api left ≡ false)
        → All (λ res. live_schema res.schema left ≡ false) x.resources
        → IsWithdrawn bp x s (
            release_blueprint digest marshal build convert set_condition error_text r bp
              (record s { world = left }))
  unfolding release_blueprint
  released bp x s exported export_gone schemas_gone =
      let left = (delete_published_api r.client bp.status.exported_api s.world).1 in
      (
        export_gone,
        schemas_gone,
        refl,
        rw exported (ground arith),
        refl,
        context_ok (codes "removing blueprint finalizer")
            (r.client.update_blueprint (unfinalized bp) left).0,
      )

  -- When a blueprint that holds the finalizer and whose export the workspace holds is deleted, one of two
  -- things happens. Either the export and the schemas that it named are gone or marked for deletion, and
  -- only then the graph is dropped from the cache, the hook is called if there is one and the blueprint is
  -- written without the finalizer; an error is then reported exactly if that last write reports one. Or the
  -- withdrawal reports an error, which is reported, and nothing else is done: the cache is as it was and
  -- no hook is called.
  pub tear_down-IsWithdrawn :
      (bp : Blueprint) (s : Site W) (x : Export)
      → contains bp.finalizers blueprint_finalizer ≡ true
      → bp.status.exported_api ≢ []
      → r.client.get_export bp.status.exported_api s.world ≡ ok x
      → let end = tear_down digest marshal build convert set_condition error_text r bp s in
        IsWithdrawn bp x s end ⊎ IsHeldBack bp s end
  unfolding tear_down withdraw
  tear_down-IsWithdrawn bp s x held there found =
      go (delete_published_api r.client bp.status.exported_api s.world).0 refl
    where
      exported : (bp.status.exported_api == []) ≡ false
      exported = ground (arith, there)

      go :
          (y : Result (Unit {0}))
          → (delete_published_api r.client bp.status.exported_api s.world).0 ≡ y
          → let end = tear_down digest marshal build convert set_condition error_text r bp s in
            IsWithdrawn bp x s end ⊎ IsHeldBack bp s end
      go (ok _) q =
          let (export_gone, schemas_gone) =
            delete_published_api-Gone live_schema live_export r.client workspace
              bp.status.exported_api s.world x found q in
          inl (
            subst (IsWithdrawn bp x s) (sym (rw (held, tear_down, exported, withdraw, q) refl))
              (released bp x s exported export_gone schemas_gone))
      go (err e) q = inr (
          subst (IsHeldBack bp s) (sym (rw (held, tear_down, exported, withdraw, q) refl))
            (e, q, refl, refl))
