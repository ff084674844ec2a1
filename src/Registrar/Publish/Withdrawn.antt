-- ===== src/Registrar/Publish/Withdrawn.antt =====
-- What is left of a published API after `DeletePublishedAPI`.
use krop_controller.Base.{Text, text_eq, ◌≡◌, sym, ap, ◌∙◌, subst, Bool, true, false, All, All-map}
use krop_controller.Base.Bytes.{codes}
use krop_controller.Base.Result.{Result, ok, Prog, context, ignore_not_found, for_each, ◌>>◌}
use krop_controller.Base.Stable.{Stable, bind-ok, for_each-All}
use krop_controller.Api.Clusters.{accepted}
use krop_controller.Controller.Deletion.{accepted_of_ok}
use krop_controller.Registrar.Publish.{
  Provider, Export, ExportedResource, delete_export_schema, after_get_export, delete_published_api,
}

-- What the workspace is assumed to do, by the names under which it holds an object without the mark of
-- a deletion. An accepted deletion takes an object away, or marks it while it has finalizers.
module _ {W : Type 0} (live_schema live_export : Text → W → Bool) where
  pub record IsWorkspace (c : Provider W) : Type 0 where
    pub export_named : (n : Text) (w : W) (x : Export) → c.get_export n w ≡ ok x → x.name ≡ n
    pub schema_deleted :
        (n : Text) (w : W)
        → accepted (c.delete_schema n w).0 ≡ true
        → live_schema n (c.delete_schema n w).1 ≡ false
    pub export_deleted :
        (n : Text) (w : W)
        → accepted (c.delete_export n w).0 ≡ true
        → live_export n (c.delete_export n w).1 ≡ false
    -- no deletion makes a schema, or takes its mark off
    pub schema_kept_away : (n m : Text) → Stable (λ w. live_schema n w ≡ false) (c.delete_schema m)
    pub schema_kept_away_by_export :
        (n m : Text) → Stable (λ w. live_schema n w ≡ false) (c.delete_export m)

  module _ (c : Provider W) (workspace : IsWorkspace c) where
    abbrev Gone : ExportedResource → W → Type 0
    Gone res w = live_schema res.schema w ≡ false

    delete_export_schema-Gone :
        (res : ExportedResource) (w : W)
        → (delete_export_schema c res w).0 ≡ ok tt
        → Gone res (delete_export_schema c res w).1
    unfolding delete_export_schema
    delete_export_schema-Gone res w done =
        workspace.schema_deleted res.schema w (
          accepted_of_ok (codes "deleting APIResourceSchema") (c.delete_schema res.schema w).0 done)

    delete_export_schema-Stable :
        (x y : ExportedResource) → Stable (Gone y) (delete_export_schema c x)
    unfolding delete_export_schema
    delete_export_schema-Stable x y = workspace.schema_kept_away y.schema x.schema

    abbrev delete_all : Export → Prog W (Unit {0})
    delete_all x = do
      for_each x.resources (delete_export_schema c)
      context (codes "deleting APIExport") (ignore_not_found (c.delete_export x.name))

    delete_all-Gone :
        (x : Export) (w : W)
        → (delete_all x w).0 ≡ ok tt
        → (live_export x.name (delete_all x w).1 ≡ false)
          × All (λ res. Gone res (delete_all x w).1) x.resources
    delete_all-Gone x w done =
        let last : Prog W (Unit {0}) =
          context (codes "deleting APIExport") (ignore_not_found (c.delete_export x.name)) in
        let (_, e, q) =
          bind-ok (for_each x.resources (delete_export_schema c)) (λ _. last) w done in
        let v = (for_each x.resources (delete_export_schema c) w).1 in
        let done' = ap (λ (r : Result (Unit {0}) × W). r.0) (sym q) ∙ done in
        subst
          (λ (r : Result (Unit {0}) × W).
            (live_export x.name r.1 ≡ false) × All (λ res. Gone res r.1) x.resources)
          (sym q)
          (
            workspace.export_deleted x.name v
                (accepted_of_ok (codes "deleting APIExport") (c.delete_export x.name v).0 done'),
            All-map (λ res. Gone res v) (λ res. Gone res (last v).1) x.resources
                (λ res g. workspace.schema_kept_away_by_export res.schema x.name v g)
                (for_each-All Gone (delete_export_schema c) delete_export_schema-Gone
                  delete_export_schema-Stable x.resources w e),
          )

    -- When the withdrawal of a published API that the workspace holds reports no error, the export and all
    -- the schemas that the export named are gone, or marked for deletion.
    pub delete_published_api-Gone :
        (name : Text) (w : W) (x : Export)
        → c.get_export name w ≡ ok x
        → (delete_published_api c name w).0 ≡ ok tt
        → (live_export name (delete_published_api c name w).1 ≡ false)
          × All
              (λ res. live_schema res.schema (delete_published_api c name w).1 ≡ false)
              x.resources
    unfolding delete_published_api after_get_export
    delete_published_api-Gone name w x found done =
        let (export_gone, schemas_gone) =
          delete_all-Gone x w (rw (found, after_get_export) at done) in
        rw (found, after_get_export)
          (
            subst (λ (n : Text). live_export n (delete_all x w).1 ≡ false)
                (workspace.export_named name w x found) export_gone,
            schemas_gone,
          )
