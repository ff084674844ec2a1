-- ===== src/Process/Passes/Calls.antt =====
-- The writes of schemas and exports leave the marks of the blueprints alone.
use krop_controller.Base.{Text, text_eq, ◌≡◌, inl, inr, Option, some, List, [], Bool-cases, arith}
use krop_controller.Base.Bytes.{codes}
use krop_controller.Base.Result.{
  Result, ok, err, is_not_found, continue, context_of, pure, context, ignore_not_found, for_each,
}
use krop_controller.Base.Stable.{Stable, bind-Stable, for_each-Stable}
use krop_controller.Registrar.Claims.{PermissionClaim}
use krop_controller.Registrar.Publish.{
  BoundResource, add_bindings, Schema, apply_ars, after_get_schema, identity_by_group_resource,
  upsert_api_export, Export, ExportedResource, delete_export_schema, after_get_export,
  delete_published_api,
}
use krop_controller.Registrar.Reconcile.{Registrar}
use krop_controller.Process.Passes.{Mark, IsUnmoved, IsMarked}

module _ {W : Type 0} (r : Registrar W) (marks : Text → W → Option Mark)
    (marked : IsMarked marks r.client) where
  pub upsert_api_export-IsUnmoved :
      (name : Text) (ars : Schema) (claims : List PermissionClaim)
      → IsUnmoved marks (upsert_api_export r.client name ars claims)
  unfolding upsert_api_export
  upsert_api_export-IsUnmoved name ars claims n x w h = marked.export_applied _ n x w h

  pub apply_ars-IsUnmoved : (ars : Schema) → IsUnmoved marks (apply_ars r.client ars)
  unfolding apply_ars after_get_schema
  apply_ars-IsUnmoved ars n x w = go (r.client.get_schema ars.name w)
    where
      go :
          (y : Result Schema)
          → marks n (after_get_schema r.client ars y w).1 ≡ some x
          → marks n w ≡ some x
      go (ok y) = λ h. h
      go (err e) = elim (Bool-cases (is_not_found e)) [
        | inl missing ↦ rw missing (marked.schema_created ars n x w)
        | inr broken ↦ rw broken λ h. h
      ]

  pub identity-IsUnmoved : IsUnmoved marks (identity_by_group_resource r.client)
  unfolding identity_by_group_resource
  identity-IsUnmoved n x w = go (r.client.list_bindings w)
    where
      go :
          (y : Result (List (List BoundResource)))
          → marks n
              (continue
                (context_of (codes "listing APIBindings") y)
                (λ b. pure (add_bindings b []))
                w).1
            ≡ some x
          → marks n w ≡ some x
      go (ok y) = λ h. h
      go (err e) = λ h. h

  pub delete_published_api-IsUnmoved :
      (name : Text) → IsUnmoved marks (delete_published_api r.client name)
  unfolding delete_published_api after_get_export delete_export_schema
  delete_published_api-IsUnmoved name n x w = go (r.client.get_export name w)
    where
      P : W → Type 0
      P v = marks n v ≡ some x → marks n w ≡ some x

      deletes : (y : ExportedResource) → Stable P (delete_export_schema r.client y)
      deletes y v q h = q (marked.schema_deleted y.schema n x v h)

      go :
          (y : Result Export)
          → marks n (after_get_export r.client name y w).1 ≡ some x
          → marks n w ≡ some x
      go (err e) = ground arith
      go (ok y) =
          bind-Stable P (for_each y.resources (delete_export_schema r.client))
            (λ _.
              context (codes "deleting APIExport")
                (ignore_not_found (r.client.delete_export y.name)))
            (for_each-Stable P (delete_export_schema r.client) y.resources deletes)
            (λ _ v q h. q (marked.export_deleted y.name n x v h)) w (λ h. h)
